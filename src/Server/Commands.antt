-- ===== src/Server/Commands.antt =====
-- src/server/commands.rs and src/protocol.rs: the requests of a client. The texts of errors, the `{:?}` of
-- a list and the loader of the configuration are parameters.
use rail2ban.Prelude.{
  ℕ, suc, Bool, true, false, not, ◌==◌, Option, none, some, is_some, List, [], ◌∷◌, ◌++◌, map, Str,
  str_eq, codes, split, retain, length, if◌then◌else◌,
}
use rail2ban.Prelude.Dict
use rail2ban.Json.{Json, texts, object, count}
use rail2ban.Error.{Error, Result, ok, err, ◌>>=◌}
use rail2ban.Time.{parse, to_seconds_or_max}
use rail2ban.Action.{decimal}
use rail2ban.Jail.Task.{Event, ban_ip, unban_ip, attempt}
use rail2ban.Config.Definitions.{parse_u32}
use rail2ban.Config.Loaded.{LoadedConfig}
use rail2ban.Server.Jails.{
  JailHandle, Server, Machine, config_path, get_jail, stop_jail, stop_all, start_jail, restart_jail,
  start_all_enabled, reload_config, add_jail, send, unban_ip_all, unban_all, jails_banning,
  banned_map, set_loglevel, set_logtarget, set_dbfile, set_dbmaxmatches, set_dbpurgeage,
}
use rail2ban.Server.Stats.{jail_stats, get_jail_attr}

-- `payload` is the field `data` of the source.
pub record Response : Type 0 where
  pub ok : Bool
  pub message : Option Str
  pub payload : Option Json

abbrev pub said : Str → Response
said m = record { ok = true; message = some m; payload = none }

abbrev pub ok_data : Json → Response
ok_data v = record { ok = true; message = none; payload = some v }

abbrev pub refused : Str → Response
refused m = record { ok = false; message = some m; payload = none }

pub data Verb : Type 0 where
  do_ping do_echo do_version do_status do_start do_stop do_reload do_restart do_unban do_banned :
      Verb
  do_statistics do_get do_set do_add do_flushlogs : Verb

-- The words that `dispatch` matches.
abbrev pub verbs : List (Str × Verb)
verbs =
    (codes "ping", do_ping)
    ∷ (codes "echo", do_echo)
    ∷ (codes "version", do_version)
    ∷ (codes "status", do_status)
    ∷ (codes "start", do_start)
    ∷ (codes "stop", do_stop)
    ∷ (codes "reload", do_reload)
    ∷ (codes "restart", do_restart)
    ∷ (codes "unban", do_unban)
    ∷ (codes "banned", do_banned)
    ∷ (codes "stat", do_statistics)
    ∷ (codes "statistics", do_statistics)
    ∷ (codes "get", do_get)
    ∷ (codes "set", do_set)
    ∷ (codes "add", do_add)
    ∷ (codes "flushlogs", do_flushlogs)
    ∷ []

-- What the dispatcher is given.
pub record Front (R N : Type 0) : Type 0 where
  pub machine : Machine R N
  pub net_to_string : N → Str
  pub load : List Str → Result (LoadedConfig N)
  pub error_text : Error → Str
  pub debug : List Str → Str
  pub version : Str

-- The directories that `reload` reads.
unfoldable pub reload_dirs : Str → List Str
unfolding split retain str_eq
reload_dirs path = retain (λ s. not (str_eq s [])) (split (λ c. c == b',') path)

module _ {R N : Type 0} (front : Front R N) where
  abbrev pub Answer : Type 0
  Answer = Server R N × Response

  -- The answer to an operation.
  abbrev pub answer {ℓ} : {A : Type ℓ} → (A → Str) → (Error → Str) → Server R N × Result A → Answer
  answer good bad (s, ok a) = (s, said (good a))
  answer good bad (s, err e) = (s, refused (bad e))

  abbrev pub no_such_jail : Str → Response
  no_such_jail name = refused (codes "no such jail: " ++ name)

  abbrev pub stats_or_refused : Server R N → Str → Option (JailHandle R N) → Response
  stats_or_refused s name none = no_such_jail name
  stats_or_refused s name (some h) = ok_data (jail_stats s h)

  unfoldable pub status : Server R N → List Str → Response
  unfolding get_jail jail_stats
  status s [] = ok_data (
      object (
        (codes "jails", texts (map (λ h. h.name) s.jails))
        ∷ (codes "count", count (length s.jails))
        ∷ []))
  status s (name ∷ args) = stats_or_refused s name (get_jail s name)

  unfoldable pub start : Server R N → List Str → Answer
  unfolding start_all_enabled start_jail str_eq decimal
  start s [] = (
    s,
    refused (codes "start: missing jail name (or use 'start --all' to start all enabled jails)"),
  )
  start s (name ∷ args) =
      if str_eq name (codes "--all")
      then (let (s', n) = start_all_enabled front.machine s in
          (s', said (codes "started " ++ (decimal n ++ codes " jails"))))
      else answer (λ _. codes "started jail " ++ name) front.error_text
          (start_jail front.machine s name)

  unfoldable pub stop : Server R N → List Str → Answer
  unfolding stop_all stop_jail
  stop s [] = (stop_all s, said (codes "stopping all jails"))
  stop s (name ∷ args) =
      answer (λ _. codes "stopped jail " ++ name) front.error_text (stop_jail s name)

  -- The loop over the addresses, with the count of those that were found.
  unfoldable pub unban_each : List Str → Server R N × ℕ → Server R N × ℕ
  unfolding unban_ip_all
  unban_each [] r = r
  unban_each (ip ∷ ips) (s, n) =
      let (s', found) = unban_ip_all s ip in unban_each ips (s', if found then suc n else n)

  unfoldable pub unban : Server R N → List Str → Answer
  unfolding unban_all unban_each str_eq decimal
  unban s [] = (s, refused (codes "unban: missing IP or --all"))
  unban s (ip ∷ ips) =
      if str_eq ip (codes "--all")
      then (unban_all s, said (codes "unbanned all"))
      else (let (s', n) = unban_each (ip ∷ ips) (s, 0) in (s', said (decimal n)))

  abbrev pub list_entry : Str × List Str → Str × Json
  list_entry (name, ips) = (name, texts ips)

  unfoldable pub banned_in : Server R N → List Str → List (Str × Json)
  unfolding jails_banning
  banned_in s [] = []
  banned_in s (ip ∷ ips) = (ip, texts (jails_banning s ip)) ∷ banned_in s ips

  unfoldable pub banned : Server R N → List Str → Response
  unfolding banned_map banned_in
  banned s [] = ok_data (object (map list_entry (banned_map s)))
  banned s (ip ∷ ips) = ok_data (object (banned_in s (ip ∷ ips)))

  unfoldable pub statistics : Server R N → Response
  unfolding jail_stats
  statistics s = ok_data (object (map (λ h. (h.name, jail_stats s h)) s.jails))

  abbrev pub attr_or_refused : Server R N → Str → Str → Option (JailHandle R N) → Response
  attr_or_refused s name key none = no_such_jail name
  attr_or_refused s name key (some h) =
      said
        (get_jail_attr front.machine.outside.addressing.addr_to_string front.net_to_string s h key)

  abbrev pub get_other : Server R N → List Str → Response
  get_other s (name ∷ key ∷ more) = attr_or_refused s name key (get_jail s name)
  get_other s args = refused (codes "get: unknown " ++ front.debug args)

  unfoldable pub get : Server R N → List Str → Response
  unfolding get_jail get_jail_attr str_eq decimal
  get s [] = refused (codes "get: missing arguments")
  get s (key ∷ args) =
      if str_eq key (codes "loglevel")
      then said s.loglevel
      else if str_eq key (codes "logtarget")
      then said s.logtarget
      else if str_eq key (codes "dbfile")
      then said s.dbfile
      else if str_eq key (codes "dbmaxmatches")
      then said (decimal s.dbmaxmatches)
      else if str_eq key (codes "dbpurgeage")
      then said (decimal s.dbpurgeage)
      else get_other s (key ∷ args)

  -- `send` on the channel of a jail of the table.
  unfoldable pub send_to : Str → Event → List (JailHandle R N) → List (JailHandle R N)
  unfolding str_eq
  send_to name e [] = []
  send_to name e (h ∷ hs) = if str_eq h.name name then send e h ∷ hs else h ∷ send_to name e hs

  unfoldable pub send_each : Str → List Event → Server R N → Server R N
  unfolding send_to
  send_each name [] s = s
  send_each name (e ∷ es) s = send_each name es (record s { jails = send_to name e s.jails })

  abbrev pub attempted : Server R N → Str → List Str → Answer
  attempted s name [] = (s, refused (codes "attempt: missing IP"))
  attempted s name (ip ∷ failures) =
      (send_each name (attempt ip failures ∷ []) s, said (codes "OK"))

  unfoldable pub set_jail_attr : Server R N → Str → Str → List Str → Answer
  unfolding send_each str_eq decimal
  set_jail_attr s name action rest =
      if str_eq action (codes "banip")
      then (send_each name (map ban_ip rest) s, said (decimal (length rest)))
      else if str_eq action (codes "unbanip")
      then (send_each name (map unban_ip rest) s, said (decimal (length rest)))
      else if str_eq action (codes "attempt")
      then attempted s name rest
      else (s, refused (codes "set <jail> " ++ (action ++ codes ": not implemented")))

  abbrev pub set_other : Server R N → List Str → Answer
  set_other s (name ∷ action ∷ r ∷ rest) =
      if is_some (get_jail s name)
      then set_jail_attr s name action (r ∷ rest)
      else (s, no_such_jail name)
  set_other s args = (s, refused (codes "set: unknown " ++ front.debug args))

  -- A setting and its value.
  abbrev pub with_value : Server R N → Str → List Str → (Str → Answer) → Answer
  with_value s key [] f = (s, refused (codes "set " ++ (key ++ codes ": missing value")))
  with_value s key (v ∷ vs) f = f v

  abbrev pub set_number : Server R N → Str → Option ℕ → Answer
  set_number s v none = (s, refused (codes "invalid integer: " ++ v))
  set_number s v (some n) = (set_dbmaxmatches s n, said (codes "OK"))

  abbrev pub set_time : Server R N → Result ℕ → Answer
  set_time s (ok n) = (set_dbpurgeage s n, said (codes "OK"))
  set_time s (err e) = (s, refused (front.error_text e))

  abbrev pub in_seconds : Str → Result ℕ
  in_seconds v = parse v >>= λ t. ok (to_seconds_or_max t)

  unfoldable pub set : Server R N → List Str → Answer
  unfolding get_jail set_jail_attr set_loglevel set_logtarget set_dbfile set_dbmaxmatches
      set_dbpurgeage parse to_seconds_or_max str_eq
  set s [] = (s, refused (codes "set: missing arguments"))
  set s (key ∷ args) =
      if str_eq key (codes "loglevel")
      then with_value s key args (λ v. (set_loglevel s v, said (codes "OK")))
      else if str_eq key (codes "logtarget")
      then with_value s key args (λ v. (set_logtarget s v, said (codes "OK")))
      else if str_eq key (codes "dbfile")
      then with_value s key args (λ v. (set_dbfile s v, said (codes "OK")))
      else if str_eq key (codes "dbmaxmatches")
      then with_value s key args (λ v. set_number s v (parse_u32 v))
      else if str_eq key (codes "dbpurgeage")
      then with_value s key args (λ v. set_time s (in_seconds v))
      else set_other s (key ∷ args)

  unfoldable pub add : Server R N → List Str → Answer
  unfolding add_jail
  add s (name ∷ backend ∷ more) =
      answer (λ _. codes "added jail " ++ name) front.error_text (add_jail front.machine s name)
  add s args = (s, refused (codes "add: usage: add <JAIL> <BACKEND>"))

  abbrev pub reload_all : Server R N → LoadedConfig N → Answer
  reload_all s loaded =
      answer (λ n. codes "reloaded, started " ++ (decimal n ++ codes " jails"))
        (λ e. codes "reload failed: " ++ front.error_text e) (reload_config front.machine s loaded)

  -- What is loaded goes into the server with no name or `--all` alone.
  abbrev pub reload_loaded : Server R N → List Str → Result (LoadedConfig N) → Answer
  reload_loaded s args (err e) =
      (s, refused (codes "reload: failed to parse config: " ++ front.error_text e))
  reload_loaded s [] (ok loaded) = reload_all s loaded
  reload_loaded s (name ∷ args) (ok loaded) =
      if str_eq name (codes "--all")
      then reload_all s loaded
      else answer (λ _. codes "restarted jail " ++ name) front.error_text
          (restart_jail front.machine s name)

  abbrev pub reload_from : Server R N → List Str → List Str → Answer
  reload_from s args [] = (s, refused (codes "reload: no config search dirs available"))
  reload_from s args (d ∷ dirs) = reload_loaded s args (front.load (d ∷ dirs))

  unfoldable pub reload : Server R N → List Str → Answer
  unfolding config_path reload_dirs reload_config restart_jail str_eq decimal
  reload s args = reload_from s args (reload_dirs (config_path s))

  unfoldable pub restart : Server R N → List Str → Answer
  unfolding restart_jail
  restart s [] = (s, refused (codes "restart: missing jail name"))
  restart s (name ∷ args) =
      answer (λ _. codes "restarted jail " ++ name) front.error_text
        (restart_jail front.machine s name)

  abbrev pub second : List Str → Str
  second [] = []
  second (a ∷ args) = a

  abbrev pub obey : Server R N → Str → List Str → Option Verb → Answer
  obey s cmd args none = (s, refused (codes "unknown command: " ++ cmd))
  obey s cmd args (some do_ping) = (s, said (codes "pong"))
  obey s cmd args (some do_echo) = (s, said (second args))
  obey s cmd args (some do_version) = (s, said front.version)
  obey s cmd args (some do_status) = (s, status s args)
  obey s cmd args (some do_start) = start s args
  obey s cmd args (some do_stop) = stop s args
  obey s cmd args (some do_reload) = reload s args
  obey s cmd args (some do_restart) = restart s args
  obey s cmd args (some do_unban) = unban s args
  obey s cmd args (some do_banned) = (s, banned s args)
  obey s cmd args (some do_statistics) = (s, statistics s)
  obey s cmd args (some do_get) = (s, get s args)
  obey s cmd args (some do_set) = set s args
  obey s cmd args (some do_add) = add s args
  obey s cmd args (some do_flushlogs) = (s, said [])

  unfoldable pub dispatch : Server R N → List Str → Answer
  unfolding Dict.lookup status start stop reload restart unban banned statistics get set add
  dispatch s [] = (s, refused (codes "empty command"))
  dispatch s (cmd ∷ args) = obey s cmd args (Dict.lookup cmd verbs)
