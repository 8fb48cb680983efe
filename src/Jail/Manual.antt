-- ===== src/Jail/Manual.antt =====
-- src/server/jail.rs: the handlers of the commands that a client or the server sends.
use rail2ban.Prelude.{
  ℕ, ◌/◌, Bool, false, Option, none, some, List, [], ◌∷◌, ◌++◌, Str, codes, map_option, unwrap_or,
  if◌then◌else◌, is_some, any,
}
use rail2ban.Prelude.Int.{ℤ, pos, negsuc}
use rail2ban.Clock.{Duration, seconds, as_i64}
use rail2ban.Ip.{IpAddr, family_of_or_default}
use rail2ban.Filter.{MatchResult}
use rail2ban.FailManager.{FailTicket, FailManager}
use rail2ban.FailManager
use rail2ban.BanManager.{BanTicket, is_expired}
use rail2ban.BanManager
use rail2ban.Database.{Database}
use rail2ban.Database
use rail2ban.Action.{Action, BanContext, Command, ban, unban, flush}
use rail2ban.Jail.State.{Jail, Outside, Instants, family_or_inet4, fid_of}
use rail2ban.Jail.Bantime.{compute_bantime}
use rail2ban.Jail.Ban.{each_action, context_of, issue_ban}

-- `d.num_seconds().max(0) as u64`.
unfoldable pub whole_seconds : Duration → ℕ
whole_seconds (pos n) = n / 1000000000
whole_seconds (negsuc n) = 0

abbrev pub without : Str → Str → Option Database → Option Database
without jail ip none = none
without jail ip (some db) = some (Database.remove_ban db jail ip)

-- The rows of every ticket go.
unfoldable pub without_each : Str → List BanTicket → Option Database → Option Database
without_each jail [] db = db
without_each jail (t ∷ ts) db = without_each jail ts (without jail t.host db)

unfoldable pub has_flush : Action → Bool
has_flush a = is_some a.config.actionflush

module _ {R N : Type 0} (outside : Outside R N) where
  open outside use {shell, addressing}

  -- The ticket of a ban that no log line is behind.
  abbrev pub bare_ticket : Str → Option IpAddr → Instants → Option Duration → BanTicket
  bare_ticket ip parsed at bantime = record {
    host = ip;
    ip = parsed;
    user = none;
    alt_user = none;
    mlfid = none;
    time_of_ban = at.banned;
    bantime = bantime;
    matches = [];
    failures = 0;
  }

  unfoldable pub ban_each : Jail R N → BanContext → List Command
  unfolding each_action
  ban_each j ctx = each_action shell (λ a ran. (ban shell a ctx ran).2) j.actions j.ran

  unfoldable pub unban_each : Jail R N → BanContext → List Command
  unfolding each_action
  unban_each j ctx = each_action shell (λ a ran. (unban shell a ctx ran).1) j.actions j.ran

  unfoldable pub manual_ban : Jail R N → Str → Instants → Jail R N
  unfolding compute_bantime ban_each
  manual_ban j ip at =
      let parsed = addressing.addr_from_str ip in
      let bantime = compute_bantime j.config j.db ip at.seed in
      let ctx : BanContext = record {
        ip = ip;
        ip_addr = parsed;
        family = family_or_inet4 parsed;
        user = none;
        alt_user = none;
        fid = fid_of parsed ip;
        bantime = bantime;
        matches = [];
        failures = 0;
      } in
      record j {
        ran = ban_each j ctx;
        ban_mgr =
            (BanManager.add_ban j.ban_mgr
              (bare_ticket ip parsed at (map_option (λ s. seconds (as_i64 s)) bantime))).0;
      }

  abbrev unban_context : Str → BanContext
  unban_context ip = record {
    ip = ip;
    ip_addr = addressing.addr_from_str ip;
    family = family_of_or_default addressing ip;
    user = none;
    alt_user = none;
    fid = none;
    bantime = none;
    matches = [];
    failures = 0;
  }

  abbrev pub unban_removed : Jail R N → Str → BanManager.BanManager × Option BanTicket → Jail R N
  unban_removed j ip (b, none) = record j { ban_mgr = b }
  unban_removed j ip (b, some t) = record j {
    ban_mgr = b;
    db = without j.config.name ip j.db;
    ran = unban_each j (unban_context ip);
  }

  unfoldable pub manual_unban : Jail R N → Str → Jail R N
  unfolding unban_each
  manual_unban j ip = unban_removed j ip (BanManager.remove_ban j.ban_mgr ip)

  abbrev flush_action : Action → List Command → List Command
  flush_action a ran = if has_flush a then (flush shell a ran).1 else ran

  unfoldable pub unban_tickets : List Action → List BanTicket → List Command → List Command
  unfolding each_action context_of whole_seconds
  unban_tickets acts [] ran = ran
  unban_tickets acts (t ∷ ts) ran = unban_tickets acts ts (
      each_action shell
        (λ a ran'. (unban shell a (context_of t (map_option whole_seconds t.bantime)) ran').1) acts
        ran)

  unfoldable pub flush_all_bans : Jail R N → Jail R N
  unfolding without_each has_flush unban_tickets each_action any
  flush_all_bans j =
      let (b, tickets) = BanManager.clear j.ban_mgr in
      let flushed = each_action shell flush_action j.actions j.ran in
      record j {
        ban_mgr = b;
        db = without_each j.config.name tickets j.db;
        ran = if any has_flush j.actions then flushed else unban_tickets j.actions tickets flushed;
      }

  abbrev pub attempt_of : Str → Instants → MatchResult
  attempt_of ip at = record {
    host = ip;
    ip = addressing.addr_from_str ip;
    user = none;
    alt_user = none;
    mlfid = none;
    timestamp = some at.seen;
    nofail = false;
    mlfforget = false;
    mlfgained = false;
    line = codes "manual attempt from " ++ ip;
    regex_index = 0;
  }

  abbrev pub attempt_reported :
      Jail R N → MatchResult → Instants → FailManager × Option FailTicket → Jail R N
  attempt_reported j m at (f, none) = record j { fail_mgr = f }
  attempt_reported j m at (f, some t) =
      let j' = record j { fail_mgr = f } in
      issue_ban outside j' t m (compute_bantime j'.config j'.db m.host at.seed) at

  unfoldable pub manual_attempt : Jail R N → Str → Instants → Jail R N
  unfolding issue_ban compute_bantime
  manual_attempt j ip at =
      let m = attempt_of ip at in
      attempt_reported j m at (FailManager.add_failure j.fail_mgr m at.seen)

  -- The clock is read at `at.seen` for the test and for a time of ban that is out of range.
  unfoldable pub restore_ban : Jail R N → Str → Option IpAddr → ℤ → Option ℤ → Instants → Jail R N
  unfolding is_expired
  restore_ban j ip ip_addr time_of_ban bantime at =
      let t : BanTicket = record {
        host = ip;
        ip = ip_addr;
        user = none;
        alt_user = none;
        mlfid = none;
        time_of_ban = unwrap_or (outside.from_timestamp time_of_ban) at.seen;
        bantime = map_option seconds bantime;
        matches = [];
        failures = 0;
      } in
      if is_expired t at.seen
      then record j { db = without j.config.name ip j.db }
      else record j { ban_mgr = (BanManager.add_ban j.ban_mgr t).0 }
