-- ===== src/Server/Stats.antt =====
-- src/server/server.rs: `jail_stats` and `get_jail_attr`. How a network is written is a parameter.
use rail2ban.Prelude.{
  suc, ◌/◌, Bool, true, false, Option, none, some, map_option, unwrap_or, [], ◌∷◌, map, Str, str_eq,
  codes, join, if◌then◌else◌,
}
use rail2ban.Prelude.Dict
use rail2ban.Prelude.Int.{ℤ, pos, negsuc, ◌-ℤ◌}
use rail2ban.Json.{Json, bool, text, num, array, object, texts, count, or_null}
use rail2ban.Clock.{timestamp, Duration}
use rail2ban.Time.{to_seconds_or_max}
use rail2ban.Ip.{IpAddr, IgnoreEntry, net, ip, raw}
use rail2ban.FailManager
use rail2ban.BanManager.{BanTicket}
use rail2ban.BanManager
use rail2ban.Action.{decimal}
use rail2ban.Config.Loaded.{JailEntry}
use rail2ban.Server.Jails.{JailHandle, Server}

-- `Duration::num_seconds`, which rounds towards 0.
unfoldable pub num_seconds : Duration → ℤ
num_seconds (pos n) = pos (n / 1000000000)
num_seconds (negsuc n) = pos 0 -ℤ pos (suc n / 1000000000)

abbrev pub ticket_detail : BanTicket → Json
ticket_detail t = object (
    (codes "ip", text t.host)
    ∷ (codes "time_of_ban", num (timestamp t.time_of_ban))
    ∷ (codes "bantime", or_null (map_option num_seconds t.bantime))
    ∷ (codes "failures", count t.failures)
    ∷ (codes "matches", texts t.matches)
    ∷ [])

abbrev pub bool_text : Bool → Str
bool_text true = codes "true"
bool_text false = codes "false"

module _ {N : Type 0} where
  -- A setting of the jail, or the default where it is not configured.
  abbrev pub setting {ℓ} : {A : Type ℓ} → A → (JailEntry N → A) → Option (JailEntry N) → A
  setting default f j = unwrap_or (map_option f j) default

  unfoldable pub jail_stats : {R : Type 0} → Server R N → JailHandle R N → Json
  unfolding Dict.lookup BanManager.snapshot BanManager.current_banned FailManager.current_failed
      FailManager.total_failed timestamp num_seconds to_seconds_or_max
  jail_stats s h =
      let j = Dict.lookup h.name s.config.jails.jails in
      let tickets = BanManager.snapshot h.jail.ban_mgr in
      object (
        (codes "jail", text h.name)
        ∷ (codes "enabled", bool (setting false (λ e. e.enabled) j))
        ∷ (codes "filter", text (setting [] (λ e. e.filter) j))
        ∷ (codes "logpath", texts (setting [] (λ e. e.logpath) j))
        ∷ (codes "maxretry", count (setting 0 (λ e. e.settings.maxretry) j))
        ∷ (codes "maxmatches", count (setting 0 (λ e. e.settings.maxmatches) j))
        ∷ (codes "findtime", count (setting 0 (λ e. to_seconds_or_max e.settings.findtime) j))
        ∷ (codes "bantime", count (setting 0 (λ e. to_seconds_or_max e.settings.bantime) j))
        ∷ (codes "usedns", text (setting [] (λ e. e.settings.usedns) j))
        ∷ (codes "currently_banned", count (BanManager.current_banned h.jail.ban_mgr))
        ∷ (codes "total_banned", count h.jail.ban_mgr.total_banned)
        ∷ (codes "currently_failed", count (FailManager.current_failed h.jail.fail_mgr))
        ∷ (codes "total_failed", count (FailManager.total_failed h.jail.fail_mgr))
        ∷ (codes "banned_ips", texts (map (λ t. t.host) tickets))
        ∷ (codes "banned_list", array (map ticket_detail tickets))
        ∷ [])

  module _ (addr_to_string : IpAddr → Str) (net_to_string : N → Str) where
    abbrev pub entry_text : IgnoreEntry N → Str
    entry_text (net n) = net_to_string n
    entry_text (ip a) = addr_to_string a
    entry_text (raw t) = t

    abbrev pub attr_of : Option (JailEntry N) → Str → Str
    attr_of none key = []
    attr_of (some j) key =
        if str_eq key (codes "logpath")
        then join (codes " ") j.logpath
        else if str_eq key (codes "logencoding")
        then j.logencoding
        else if str_eq key (codes "journalmatch")
        then join (codes " + ") j.journalmatch
        else if str_eq key (codes "ignoreself")
        then bool_text j.settings.ignoreself
        else if str_eq key (codes "ignoreip")
        then join (codes " ") (map entry_text j.settings.ignoreip)
        else if str_eq key (codes "ignorecommand")
        then unwrap_or j.settings.ignorecommand []
        else if str_eq key (codes "ignorecache")
        then unwrap_or j.settings.ignorecache []
        else if str_eq key (codes "failregex")
        then []
        else if str_eq key (codes "ignoreregex")
        then []
        else if str_eq key (codes "findtime")
        then decimal (to_seconds_or_max j.settings.findtime)
        else if str_eq key (codes "bantime")
        then decimal (to_seconds_or_max j.settings.bantime)
        else if str_eq key (codes "usedns")
        then j.settings.usedns
        else if str_eq key (codes "maxretry")
        then decimal j.settings.maxretry
        else if str_eq key (codes "maxmatches")
        then decimal j.settings.maxmatches
        else if str_eq key (codes "maxlines")
        then decimal j.maxlines
        else if str_eq key (codes "actions")
        then join (codes ", ") j.actions
        else unwrap_or (Dict.lookup key j.extra) []

    unfoldable pub get_jail_attr : {R : Type 0} → Server R N → JailHandle R N → Str → Str
    unfolding Dict.lookup join decimal to_seconds_or_max str_eq
    get_jail_attr s h key = attr_of (Dict.lookup h.name s.config.jails.jails) key
