-- ===== src/Server/Jails.antt =====
-- src/server/server.rs: the table of the jails that run. A handle keeps the jail with its managers, and
-- what the server has sent to its task and the task has yet to receive; a jail that is told to stop
-- leaves the table, in which no name stands twice. The store is the server's. `open_db` opens the file of a database.
use rail2ban.Prelude.{
  ℕ, suc, Bool, true, false, ◌||◌, Option, none, some, map_option, is_some, List, [], ◌∷◌, ◌++◌,
  map, Str, str_eq, codes, join, to_ascii_lowercase, retain, if◌then◌else◌,
}
use rail2ban.Prelude.Dict
use rail2ban.Error.{Error, Result, ok, err, ◌>>=◌}
use rail2ban.Filter.{CompiledFilter}
use rail2ban.BanManager.{is_banned, snapshot}
use rail2ban.Database.{Database, remove_ban_all_jails, remove_all_bans}
use rail2ban.Action.{Action, ActionConfig}
use rail2ban.Action
use rail2ban.Jail.State.{Jail, Outside}
use rail2ban.Jail.Task.{Event, spawn, unban_ip, flush_all}
use rail2ban.Config.Definitions.{Definition, materialize_filter, materialize_action}
use rail2ban.Config.Specs.{action_name, action_params}
use rail2ban.Config.Loaded.{JailEntry, LoadedConfig, compile}
use rail2ban.Server.{restore_bans_from_db, sent_to}

pub record JailHandle (R N : Type 0) : Type 0 where
  pub name : Str
  pub jail : Jail R N
  pub sent : List Event

pub record Server (R N : Type 0) : Type 0 where
  pub config : LoadedConfig N
  pub jails : List (JailHandle R N)
  pub db : Option Database
  pub loglevel : Str
  pub logtarget : Str
  pub dbfile : Str
  pub dbmaxmatches : ℕ
  pub dbpurgeage : ℕ
  pub search_dirs : List Str

-- Outside the server: `Regex::new`, the database files, and the jail's own.
pub record Machine (R N : Type 0) : Type 0 where
  pub regex_new : Str → Option R
  pub open_db : Str → Result Database
  pub outside : Outside R N

unfoldable pub find_jail : {R N : Type 0} → Str → List (JailHandle R N) → Option (JailHandle R N)
find_jail name [] = none
find_jail name (h ∷ hs) = if str_eq h.name name then some h else find_jail name hs

-- `position` and `remove`: the first of the name goes.
unfoldable pub remove_jail : {R N : Type 0} → Str → List (JailHandle R N) → List (JailHandle R N)
remove_jail name [] = []
remove_jail name (h ∷ hs) = if str_eq h.name name then hs else h ∷ remove_jail name hs

unfoldable pub enabled_names : {N : Type 0} → List (Str × JailEntry N) → List Str
enabled_names [] = []
enabled_names ((n, j) ∷ js) = let rest = enabled_names js in if j.enabled then n ∷ rest else rest

abbrev pub found_any : List Str → Bool
found_any [] = false
found_any (n ∷ ns) = true

abbrev pub listed_under : Str → List Str → List (Str × List Str) → List (Str × List Str)
listed_under name [] rest = rest
listed_under name (b ∷ bs) rest = (name, b ∷ bs) ∷ rest

module _ {R N : Type 0} where
  unfoldable pub new : LoadedConfig N → Server R N
  new config = record {
    config = config;
    jails = [];
    db = none;
    loglevel = config.global.loglevel;
    logtarget = config.global.logtarget;
    dbfile = config.global.dbfile;
    dbmaxmatches = config.global.dbmaxmatches;
    dbpurgeage = config.global.dbpurgeage;
    search_dirs = [];
  }

  unfoldable pub config_path : Server R N → Str
  unfolding join
  config_path s = join (codes ",") s.search_dirs

  unfoldable pub get_jail : Server R N → Str → Option (JailHandle R N)
  unfolding find_jail
  get_jail s name = find_jail name s.jails

  -- The part on the table. The task of the jail, whose end the source waits for, handles what was sent
  -- before and ends by `shut_down` (Jail.Task), which is not part of it.
  unfoldable pub stop_jail : Server R N → Str → Server R N × Result (Unit {0})
  unfolding get_jail remove_jail
  stop_jail s name =
      if is_some (get_jail s name)
      then (record s { jails = remove_jail name s.jails }, ok tt)
      else (s, err Error.jail)

  unfoldable pub stop_all : Server R N → Server R N
  stop_all s = record s { jails = [] }

  abbrev pub send : Event → JailHandle R N → JailHandle R N
  send e h = record h { sent = h.sent ++ e ∷ [] }

  -- The loop of `unban_ip`, on the jails that hold the host.
  unfoldable pub send_unban : Str → List (JailHandle R N) → List (JailHandle R N)
  unfolding is_banned
  send_unban ip [] = []
  send_unban ip (h ∷ hs) =
      (if is_banned h.jail.ban_mgr ip then send (unban_ip ip) h else h) ∷ send_unban ip hs

  unfoldable pub jails_banning : Server R N → Str → List Str
  unfolding is_banned retain
  jails_banning s ip = map (λ h. h.name) (retain (λ h. is_banned h.jail.ban_mgr ip) s.jails)

  unfoldable pub unban_ip_all : Server R N → Str → Server R N × Bool
  unfolding jails_banning send_unban remove_ban_all_jails
  unban_ip_all s ip =
      let found = found_any (jails_banning s ip) in
      (
        record s {
          jails = send_unban ip s.jails;
          db = if found then map_option (λ d. remove_ban_all_jails d ip) s.db else s.db;
        },
        found,
      )

  unfoldable pub unban_all : Server R N → Server R N
  unfolding remove_all_bans
  unban_all s = record s {
    jails = map (send flush_all) s.jails;
    db = map_option remove_all_bans s.db;
  }

  -- The entries of the map; a jail that holds no host has none.
  unfoldable pub banned_entries : List (JailHandle R N) → List (Str × List Str)
  unfolding snapshot
  banned_entries [] = []
  banned_entries (h ∷ hs) =
      listed_under h.name (map (λ t. t.host) (snapshot h.jail.ban_mgr)) (banned_entries hs)

  unfoldable pub banned_map : Server R N → List (Str × List Str)
  unfolding banned_entries
  banned_map s = banned_entries s.jails

  -- What the rows of the database send to the jails.
  unfoldable pub with_restored : List (Str × Event) → List (JailHandle R N) → List (JailHandle R N)
  unfolding sent_to
  with_restored messages [] = []
  with_restored messages (h ∷ hs) =
      record h { sent = h.sent ++ sent_to h.name messages } ∷ with_restored messages hs

  unfoldable pub set_loglevel : Server R N → Str → Server R N
  set_loglevel s v = record s { loglevel = v }

  unfoldable pub set_logtarget : Server R N → Str → Server R N
  set_logtarget s v = record s { logtarget = v }

  unfoldable pub set_dbfile : Server R N → Str → Server R N
  set_dbfile s v = record s { dbfile = v }

  unfoldable pub set_dbmaxmatches : Server R N → ℕ → Server R N
  set_dbmaxmatches s v = record s { dbmaxmatches = v }

  unfoldable pub set_dbpurgeage : Server R N → ℕ → Server R N
  set_dbpurgeage s v = record s { dbpurgeage = v }

abbrev pub noted :
    Option Definition
    → List (Str × Str)
    → List (Definition × List (Str × Str))
    → List (Definition × List (Str × Str))
noted none params rest = rest
noted (some d) params rest = (d, params) ∷ rest

abbrev pub or_jail_error {ℓ} : {A : Type ℓ} → Option A → Result A
or_jail_error none = err Error.jail
or_jail_error (some a) = ok a

module _ {R N : Type 0} (machine : Machine R N) where
  -- The definitions of the actions of a jail with their parameters; an action without a definition
  -- is passed over.
  unfoldable pub action_defs :
      List (Str × Definition) → List Str → Result (List (Definition × List (Str × Str)))
  unfolding action_name action_params str_eq Dict.lookup
  action_defs defs [] = ok []
  action_defs defs (spec ∷ specs) =
      let rest = action_defs defs specs in
      if str_eq (action_name spec) []
      then rest
      else (action_params spec >>= λ params.
          rest >>= λ more. ok (noted (Dict.lookup (action_name spec) defs) params more))

  unfoldable pub actions_of :
      Str → LoadedConfig N → List (Definition × List (Str × Str)) → Result (List Action)
  unfolding materialize_action Action.new
  actions_of name config [] = ok []
  actions_of name config ((d, params) ∷ more) =
      materialize_action d params config.jails.defaults config.defaults none >>= λ c.
      actions_of name config more >>= λ rest. ok (Action.new name c ∷ rest)

  -- The filter and the actions of a jail, from their definitions.
  unfoldable pub parts_of : Server R N → Str → JailEntry N → Result (CompiledFilter R × List Action)
  unfolding Dict.lookup materialize_filter action_defs compile actions_of
  parts_of s name entry = or_jail_error (Dict.lookup entry.filter s.config.filters) >>= λ d.
      materialize_filter d entry.filter_params s.config.jails.defaults s.config.defaults
      >>= λ filter_cfg. action_defs s.config.actions entry.actions >>= λ defs.
          compile machine.regex_new filter_cfg >>= λ filter.
          actions_of name s.config defs >>= λ acts. ok (filter, acts)

  abbrev pub handle_of : Server R N → JailEntry N → CompiledFilter R × List Action → JailHandle R N
  handle_of s entry (filter, acts) = record {
    name = entry.settings.name;
    jail = spawn machine.outside entry.settings filter acts s.db [];
    sent = [];
  }

  -- The handle of a jail that starts, on the database as it is then; the source shares it.
  unfoldable pub make_jail : Server R N → Str → Result (JailHandle R N)
  unfolding Dict.lookup parts_of spawn
  make_jail s name = or_jail_error (Dict.lookup name s.config.jails.jails) >>= λ entry.
      parts_of s name entry >>= λ parts. ok (handle_of s entry parts)

  abbrev pub pushed : Server R N → Result (JailHandle R N) → Server R N × Result (Unit {0})
  pushed s (ok h) = (record s { jails = s.jails ++ h ∷ [] }, ok tt)
  pushed s (err e) = (s, err e)

  -- The test and the push of one start, with no other request between them. The source releases the
  -- table in between.
  unfoldable pub start_jail : Server R N → Str → Server R N × Result (Unit {0})
  unfolding get_jail make_jail
  start_jail s name =
      if is_some (get_jail s name) then (s, err Error.jail) else pushed s (make_jail s name)

  unfoldable pub restart_jail : Server R N → Str → Server R N × Result (Unit {0})
  unfolding stop_jail start_jail
  restart_jail s name = start_jail (stop_jail s name).0 name

  abbrev pub counted : ℕ → Server R N × Result (Unit {0}) → Server R N × ℕ
  counted n (s, ok _) = (s, suc n)
  counted n (s, err e) = (s, n)

  unfoldable pub start_each : List Str → Server R N × ℕ → Server R N × ℕ
  unfolding start_jail
  start_each [] r = r
  start_each (name ∷ names) (s, n) = start_each names (counted n (start_jail s name))

  abbrev pub restored : Server R N → Server R N
  restored s = record s {
    jails =
        with_restored
          (restore_bans_from_db machine.outside.addressing.addr_from_str (map (λ h. h.name) s.jails)
            s.db)
          s.jails;
  }

  unfoldable pub start_all_enabled : Server R N → Server R N × ℕ
  unfolding enabled_names start_each with_restored restore_bans_from_db
  start_all_enabled s =
      let (s', n) = start_each (enabled_names s.config.jails.jails) (s, 0) in (restored s', n)

  abbrev pub with_db : Server R N → Result Database → Server R N × Result (Unit {0})
  with_db s (ok d) = (record s { db = some d }, ok tt)
  with_db s (err e) = (s, err e)

  unfoldable pub init_db : Server R N → Server R N × Result (Unit {0})
  unfolding str_eq to_ascii_lowercase
  init_db s =
      let path = s.config.global.dbfile in
      if str_eq (map to_ascii_lowercase path) (codes "none") || str_eq path []
      then (s, ok tt)
      else with_db s (machine.open_db path)

  abbrev pub replaced : Server R N → LoadedConfig N → Server R N
  replaced s config = record s {
    config = config;
    loglevel = config.global.loglevel;
    logtarget = config.global.logtarget;
    dbfile = config.global.dbfile;
    dbmaxmatches = config.global.dbmaxmatches;
    dbpurgeage = config.global.dbpurgeage;
  }

  abbrev pub then_started : Server R N × Result (Unit {0}) → Server R N × Result ℕ
  then_started (s, ok _) = let (s', n) = start_all_enabled s in (s', ok n)
  then_started (s, err e) = (s, err e)

  unfoldable pub reload_config : Server R N → LoadedConfig N → Server R N × Result ℕ
  unfolding stop_all init_db start_all_enabled
  reload_config s config = then_started (init_db (replaced (stop_all s) config))

  abbrev pub added : Server R N → Option (JailEntry N) → Server R N × Result (Unit {0})
  added s none = (s, err Error.jail)
  added s (some entry) = start_jail s entry.settings.name

  unfoldable pub add_jail : Server R N → Str → Server R N × Result (Unit {0})
  unfolding Dict.lookup start_jail
  add_jail s name = added s (Dict.lookup name s.config.jails.jails)
