-- ===== src/Web/Handlers.antt =====
-- src/web/handlers.rs: the handlers of the API. The bodies and the parts of the path have been decoded by
-- axum. The texts of errors, the package's name and version and the loader are parameters.
use rail2ban.Prelude.{
  ℕ, ◌+◌, Bool, true, false, not, Option, none, some, is_some, List, [], ◌∷◌, ◌++◌, map, length,
  Str, codes, if◌then◌else◌,
}
use rail2ban.Prelude.Dict
use rail2ban.Json.{Json, bool, text, num, object, array, texts, count, or_null}
use rail2ban.Error.{Result, ok, err}
use rail2ban.FailManager
use rail2ban.BanManager
use rail2ban.Jail.Task
use rail2ban.Config.Loaded.{LoadedConfig}
use rail2ban.Server.Jails.{JailHandle, Server, banned_map, jails_banning, set_loglevel, config_path}
use rail2ban.Server.Jails
use rail2ban.Server.Stats.{jail_stats}
use rail2ban.Server.Commands.{Front, reload_dirs, send_each, list_entry}
use rail2ban.Web.Users.{
  AuthError, AuthResult, AdminInfo, Hashing, done, fail, locked_out, incorrect_old_password,
  weak_password,
}
use rail2ban.Web.Sessions.{AuthManager, Readings, is_setup_required, logout, validate_session}
use rail2ban.Web.Sessions
use rail2ban.Web.Gate.{
  WebState, Response, extract_client_ip, extract_session_token, build_session_cookie,
  clear_session_cookie,
}

-- `ApiResponse::ok` and `ApiResponse::err`; a field that is `None` is left out.
abbrev pub api_ok : Json → Json
api_ok v = object ((codes "ok", bool true) ∷ (codes "data", v) ∷ [])

abbrev pub api_err : Str → Json
api_err m = object ((codes "ok", bool false) ∷ (codes "message", text m) ∷ [])

abbrev pub plain : ℕ → Json → Response
plain status body = record { status = status; headers = []; body = body }

abbrev pub with_cookie : Str → Json → Response
with_cookie cookie body = record {
  status = 200;
  headers = (codes "set-cookie", cookie) ∷ [];
  body = body;
}

abbrev pub says : Str → Json
says m = object ((codes "message", text m) ∷ [])

-- What the handlers are given.
pub record Site (R N : Type 0) : Type 0 where
  pub front : Front R N
  pub hashing : Hashing
  pub canonical_ip : Str → Option Str
  pub auth_text : AuthError → Str
  pub package_name : Str

abbrev pub login_status : AuthError → ℕ
login_status (locked_out n) = 429
login_status _ = 401

abbrev pub change_status : AuthError → ℕ
change_status incorrect_old_password = 401
change_status weak_password = 400
change_status _ = 500

abbrev pub sum_of : List ℕ → ℕ
sum_of [] = 0
sum_of (n ∷ ns) = n + sum_of ns

module _ {R N : Type 0} (site : Site R N) where
  abbrev pub State : Type 0
  State = WebState (Server R N)

  abbrev pub Served : Type 0
  Served = State × Response

  abbrev pub with_auth : State → AuthManager → State
  with_auth state m = record state { auth = m }

  abbrev pub logged_in : State → Str → AuthManager × AuthResult Str → Served
  logged_in state name (m, done token) = (
    with_auth state m,
    with_cookie (build_session_cookie token 28800) (
        api_ok (
          object (
            (codes "username", text name)
            ∷ (codes "message", text (codes "login successful"))
            ∷ []))),
  )
  logged_in state name (m, fail e) =
      (with_auth state m, plain (login_status e) (api_err (site.auth_text e)))

  unfoldable pub login : State → (Str → Option Str) → Option Str → Str → Str → Readings → Served
  unfolding extract_client_ip Sessions.login build_session_cookie
  login state header connect_info name password at =
      let ip = extract_client_ip site.canonical_ip header connect_info state.trust_proxy in
      logged_in state name (Sessions.login site.hashing state.auth name password ip at)

  abbrev pub logged_out : State → Option Str → State
  logged_out state none = state
  logged_out state (some token) = with_auth state (logout state.auth token)

  unfoldable pub logout_clear : State → (Str → Option Str) → Served
  unfolding extract_session_token logout clear_session_cookie
  logout_clear state header = (
    logged_out state (extract_session_token header),
    with_cookie clear_session_cookie (api_ok (says (codes "logged out"))),
  )

  -- The session of a request, and the state after the look at it.
  abbrev pub visitor : State → ℕ → Option Str → State × Option Str
  visitor state now none = (state, none)
  visitor state now (some token) =
      let (m, who) = validate_session state.auth token now in (with_auth state m, who)

  abbrev pub session_reply : State × Option Str → Served
  session_reply (state, some name) = (
    state,
    plain 200 (
        api_ok (
          object (
            (codes "authenticated", bool true)
            ∷ (codes "username", text name)
            ∷ (codes "setup_required", bool (is_setup_required state.auth))
            ∷ []))),
  )
  session_reply (state, none) = (
    state,
    plain 200 (
        api_ok (
          object (
            (codes "authenticated", bool false)
            ∷ (codes "setup_required", bool (is_setup_required state.auth))
            ∷ []))),
  )

  unfoldable pub check_session : State → (Str → Option Str) → ℕ → Served
  unfolding extract_session_token validate_session is_setup_required
  check_session state header now = session_reply (visitor state now (extract_session_token header))

  abbrev pub set_up : State → Str → AuthManager × AuthResult (Unit {0}) → Served
  set_up state name (m, done _) = (
    with_auth state m,
    plain 201 (
        api_ok (
          object (
            (codes "message", text (codes "admin user created, please log in"))
            ∷ (codes "username", text name)
            ∷ []))),
  )
  set_up state name (m, fail e) = (with_auth state m, plain 400 (api_err (site.auth_text e)))

  unfoldable pub setup : State → Str → Str → Readings → Served
  unfolding is_setup_required Sessions.setup
  setup state name password at =
      if not (is_setup_required state.auth)
      then (state, plain 400 (api_err (codes "setup already completed")))
      else set_up state name (Sessions.setup site.hashing state.auth name password at)

  abbrev pub password_changed : State → AuthManager × AuthResult (Unit {0}) → Served
  password_changed state (m, done _) = (
    with_auth state m,
    with_cookie clear_session_cookie
        (api_ok (says (codes "password changed, please log in again"))),
  )
  password_changed state (m, fail e) =
      (with_auth state m, plain (change_status e) (api_err (site.auth_text e)))

  abbrev pub change_for : Str → Str → Readings → State × Option Str → Served
  change_for old new at (state, none) = (state, plain 401 (api_err (codes "session expired")))
  change_for old new at (state, some name) =
      password_changed state (Sessions.change_password site.hashing state.auth name old new at)

  abbrev pub change_by : State → ℕ → Str → Str → Readings → Option Str → Served
  change_by state now old new at none = (state, plain 401 (api_err (codes "not authenticated")))
  change_by state now old new at (some token) =
      change_for old new at (visitor state now (some token))

  unfoldable pub change_password : State → (Str → Option Str) → ℕ → Str → Str → Readings → Served
  unfolding extract_session_token validate_session Sessions.change_password clear_session_cookie
  change_password state header now old new at =
      change_by state now old new at (extract_session_token header)

  abbrev pub info_reply : AuthResult AdminInfo → Response
  info_reply (done info) = plain 200 (
      api_ok (
        object (
          (codes "username", text info.username)
          ∷ (codes "created_at", num info.created_at)
          ∷ (codes "last_login", or_null info.last_login)
          ∷ [])))
  info_reply (fail e) = plain 500 (api_err (site.auth_text e))

  abbrev pub info_for : State × Option Str → Served
  info_for (state, none) = (state, plain 401 (api_err (codes "session expired")))
  info_for (state, some name) = (state, info_reply (Sessions.get_admin_info state.auth name))

  abbrev pub info_by : State → ℕ → Option Str → Served
  info_by state now none = (state, plain 401 (api_err (codes "not authenticated")))
  info_by state now (some token) = info_for (visitor state now (some token))

  unfoldable pub get_admin_info : State → (Str → Option Str) → ℕ → Served
  unfolding extract_session_token validate_session Sessions.get_admin_info
  get_admin_info state header now = info_by state now (extract_session_token header)

  -- A handler that only reads.
  abbrev pub reads : State → Json → Served
  reads state body = (state, plain 200 body)

  unfoldable pub get_status : State → Served
  unfolding BanManager.current_banned FailManager.current_failed is_setup_required
  get_status state =
      let jails = state.server.jails in
      reads state (
        api_ok (
          object (
            (codes "jails_count", count (length jails))
            ∷ (codes "jail_names", texts (map (λ h. h.name) jails))
            ∷ (
              codes "total_currently_banned",
              count (sum_of (map (λ h. BanManager.current_banned h.jail.ban_mgr) jails)),
            )
            ∷ (
              codes "total_currently_failed",
              count (sum_of (map (λ h. FailManager.current_failed h.jail.fail_mgr) jails)),
            )
            ∷ (codes "setup_required", bool (is_setup_required state.auth))
            ∷ [])))

  unfoldable pub get_stats : State → Served
  unfolding jail_stats
  get_stats state =
      reads state
        (api_ok (object (map (λ h. (h.name, jail_stats state.server h)) state.server.jails)))

  unfoldable pub get_version : State → Served
  get_version state = reads state (
      api_ok (
        object (
          (codes "version", text site.front.version)
          ∷ (codes "name", text site.package_name)
          ∷ [])))

  unfoldable pub get_loglevel : State → Served
  get_loglevel state =
      reads state (api_ok (object ((codes "loglevel", text state.server.loglevel) ∷ [])))

  abbrev pub with_server : State → Server R N → State
  with_server state s = record state { server = s }

  unfoldable pub set_loglevel_to : State → Str → Served
  unfolding set_loglevel
  set_loglevel_to state level =
      reads (with_server state (set_loglevel state.server level))
        (api_ok (object ((codes "loglevel", text level) ∷ [])))

  abbrev pub jail_row : JailHandle R N → Json
  jail_row h = object (
      (codes "name", text h.name)
      ∷ (codes "currently_banned", count (BanManager.current_banned h.jail.ban_mgr))
      ∷ (codes "total_banned", count h.jail.ban_mgr.total_banned)
      ∷ (codes "currently_failed", count (FailManager.current_failed h.jail.fail_mgr))
      ∷ (codes "total_failed", count (FailManager.total_failed h.jail.fail_mgr))
      ∷ [])

  unfoldable pub list_jails : State → Served
  unfolding BanManager.current_banned FailManager.current_failed FailManager.total_failed
  list_jails state = reads state (api_ok (array (map jail_row state.server.jails)))

  abbrev pub not_found : Str → Json
  not_found name = api_err (codes "jail not found: " ++ name)

  abbrev pub jail_reply : State → Str → Option (JailHandle R N) → Served
  jail_reply state name none = reads state (not_found name)
  jail_reply state name (some h) = reads state (api_ok (jail_stats state.server h))

  unfoldable pub get_jail : State → Str → Served
  unfolding jail_stats Jails.get_jail
  get_jail state name = jail_reply state name (Jails.get_jail state.server name)

  -- The answer to an operation on a jail, under a word for what was done.
  abbrev pub jail_done : State → Str → Str → Server R N × Result (Unit {0}) → Served
  jail_done state word name (s, ok _) =
      reads (with_server state s) (api_ok (object ((word, text name) ∷ [])))
  jail_done state word name (s, err e) =
      reads (with_server state s) (api_err (site.front.error_text e))

  unfoldable pub start_jail : State → Str → Served
  unfolding Jails.start_jail
  start_jail state name =
      jail_done state (codes "started") name (Jails.start_jail site.front.machine state.server name)

  unfoldable pub stop_jail : State → Str → Served
  unfolding Jails.stop_jail
  stop_jail state name = jail_done state (codes "stopped") name (Jails.stop_jail state.server name)

  unfoldable pub restart_jail : State → Str → Served
  unfolding Jails.restart_jail
  restart_jail state name =
      jail_done state (codes "restarted") name
        (Jails.restart_jail site.front.machine state.server name)

  unfoldable pub list_banned : State → Served
  unfolding banned_map
  list_banned state =
      reads state (api_ok (object (map (list_entry site.front) (banned_map state.server))))

  abbrev pub some_jail : List Str → Bool
  some_jail [] = false
  some_jail (n ∷ ns) = true

  unfoldable pub check_banned : State → Str → Served
  unfolding jails_banning
  check_banned state ip =
      let jails = jails_banning state.server ip in
      reads state (
        api_ok (
          object (
            (codes "ip", text ip)
            ∷ (codes "banned_in", texts jails)
            ∷ (codes "is_banned", bool (some_jail jails))
            ∷ [])))

  abbrev pub ban_in : State → Str → Option Str → Served
  ban_in state ip none = reads state (api_err (codes "jail field is required"))
  ban_in state ip (some name) =
      if is_some (Jails.get_jail state.server name)
      then reads (with_server state (send_each site.front name (Task.ban_ip ip ∷ []) state.server))
          (api_ok (object ((codes "banned", text ip) ∷ (codes "jail", text name) ∷ [])))
      else reads state (not_found name)

  unfoldable pub ban_ip : State → Option Str → Str → Served
  unfolding Jails.get_jail send_each
  ban_ip state jail ip = ban_in state ip jail

  unfoldable pub unban_ip : State → Str → Served
  unfolding Jails.unban_ip_all
  unban_ip state ip =
      let (s, found) = Jails.unban_ip_all state.server ip in
      reads (with_server state s)
        (api_ok (object ((codes "unbanned", text ip) ∷ (codes "was_banned", bool found) ∷ [])))

  unfoldable pub unban_all : State → Served
  unfolding Jails.unban_all
  unban_all state =
      reads (with_server state (Jails.unban_all state.server))
        (api_ok (object ((codes "action", text (codes "unbanned all")) ∷ [])))

  -- The values that a key of the configuration may be asked for.
  abbrev pub config_values : Server R N → List (Str × Json)
  config_values s =
      (codes "loglevel", text s.loglevel)
      ∷ (codes "logtarget", text s.logtarget)
      ∷ (codes "dbfile", text s.dbfile)
      ∷ (codes "dbmaxmatches", count s.dbmaxmatches)
      ∷ (codes "dbpurgeage", count s.dbpurgeage)
      ∷ (codes "socket", text (config_path s))
      ∷ []

  abbrev pub value_reply : Str → Option Json → Json
  value_reply key none = api_err (codes "unknown config key: " ++ key)
  value_reply key (some v) = api_ok (object ((key, v) ∷ []))

  abbrev pub config_reply : Server R N → Option Str → Json
  config_reply s none = api_ok (object (config_values s))
  config_reply s (some key) = value_reply key (Dict.lookup key (config_values s))

  unfoldable pub get_config : State → Option Str → Served
  unfolding config_path Dict.lookup
  get_config state key = reads state (config_reply state.server key)

  abbrev pub reloaded : State → Server R N × Result ℕ → Served
  reloaded state (s, ok n) =
      reads (with_server state s)
        (api_ok (object ((codes "reloaded", bool true) ∷ (codes "jails_started", count n) ∷ [])))
  reloaded state (s, err e) =
      reads (with_server state s) (api_err (codes "reload failed: " ++ site.front.error_text e))

  abbrev pub reload_with : State → Result (LoadedConfig N) → Served
  reload_with state (ok c) = reloaded state (Jails.reload_config site.front.machine state.server c)
  reload_with state (err e) =
      reads state (api_err (codes "config parse error: " ++ site.front.error_text e))

  abbrev pub reload_in : State → List Str → Served
  reload_in state [] = reads state (api_err (codes "no config search dirs available"))
  reload_in state (d ∷ dirs) = reload_with state (site.front.load (d ∷ dirs))

  unfoldable pub reload_config : State → Served
  unfolding config_path reload_dirs Jails.reload_config
  reload_config state = reload_in state (reload_dirs (config_path state.server))

  unfoldable pub get_log : State → Served
  get_log state = reads state (
      api_ok (
        object (
          (codes "lines", array [])
          ∷ (
            codes "note",
            text (codes "log streaming not yet implemented; use journalctl or log file directly"),
          )
          ∷ [])))
