-- ===== src/Web/Sessions.antt =====
-- src/web/auth.rs: `AuthManager`. A call that reads the clocks, the random source or a salt is given
-- them in a `Readings`; an `Instant` is its nanoseconds on the monotonic clock, and `duration_since`
-- stops at 0.
use rail2ban.Prelude.{
  ℕ, ◌-◌, Bool, true, false, not, ◌&&◌, Option, none, some, List, [], Str, str_eq, ltb, leb,
  if◌then◌else◌,
}
use rail2ban.Prelude.Dict
use rail2ban.Prelude.Int.{ℤ}
use rail2ban.Web.Users.{
  AuthError, invalid_credentials, locked_out, already_exists, AuthResult, done, fail, ◌>>=◌, AuthDb,
  AdminInfo, Hashing, admin_exists, create_admin, verify, log_attempt, update_last_login,
  count_recent_failures, validate_username, validate_password,
}
use rail2ban.Web.Users
use rail2ban.Web.Tokens.{generate_session_token}

pub record Session : Type 0 where
  pub username : Str
  pub created_at : ℕ
  pub last_access : ℕ

pub record AuthManager : Type 0 where
  pub db : AuthDb
  pub sessions : List (Str × Session)

-- `Utc::now` in seconds at the first count of failures, at the log of an attempt, at the second count
-- and at an update; `Instant::now`; the bytes that the random source gives; a salt.
pub record Readings : Type 0 where
  pub counted : ℤ
  pub logged : ℤ
  pub recounted : ℤ
  pub updated : ℤ
  pub instant : ℕ
  pub random : List ℕ
  pub salt : ℕ

abbrev pub session_idle_ttl : ℕ
session_idle_ttl = 28800000000000

abbrev pub session_absolute_ttl : ℕ
session_absolute_ttl = 86400000000000

abbrev pub max_login_attempts : ℕ
max_login_attempts = 5

-- `LOGIN_LOCKOUT` in seconds.
abbrev pub login_lockout : ℕ
login_lockout = 900

unfoldable pub new : AuthDb → AuthManager
new db = record { db = db; sessions = [] }

unfoldable pub is_setup_required : AuthManager → Bool
unfolding admin_exists
is_setup_required m = not (admin_exists m.db)

-- What a method leaves, and returns.
abbrev pub Reply {ℓ} : Type ℓ → Type ℓ
Reply A = AuthManager × AuthResult A

abbrev pub stores : AuthManager → AuthResult AuthDb → Reply (Unit {0})
stores m (done db) = (record m { db = db }, done tt)
stores m (fail e) = (m, fail e)

abbrev pub session_at : Str → ℕ → Session
session_at name now = record { username = name; created_at = now; last_access = now }

module _ (hashing : Hashing) where
  unfoldable pub setup : AuthManager → Str → Str → Readings → Reply (Unit {0})
  unfolding admin_exists validate_username validate_password create_admin
  setup m name password at =
      if admin_exists m.db
      then (m, fail already_exists)
      else stores m (
          validate_username name >>= λ _. validate_password password >>= λ _.
          create_admin hashing m.db name password at.salt at.updated)

  -- The rest of `login` once the credentials are checked.
  abbrev pub checked : AuthManager → Str → Str → Readings → AuthResult Bool → Reply Str
  checked m name ip at (fail e) = (m, fail e)
  checked m name ip at (done false) =
      let db = log_attempt m.db (some name) ip false at.logged in
      (
        record m { db = db },
        if leb max_login_attempts (count_recent_failures db ip at.recounted)
            then fail (locked_out login_lockout)
            else fail invalid_credentials,
      )
  checked m name ip at (done true) = (
    record {
      db = update_last_login (log_attempt m.db (some name) ip true at.logged) name at.updated;
      sessions =
          Dict.insert (generate_session_token at.random) (session_at name at.instant) m.sessions;
    },
    done (generate_session_token at.random),
  )

  unfoldable pub login : AuthManager → Str → Str → Str → Readings → Reply Str
  unfolding count_recent_failures verify log_attempt update_last_login Dict.insert
  login m name password ip at =
      if leb max_login_attempts (count_recent_failures m.db ip at.counted)
      then (m, fail (locked_out login_lockout))
      else checked m name ip at (verify hashing m.db name password)

  abbrev pub dropping : Str → AuthManager → AuthResult AuthDb → Reply (Unit {0})
  dropping name m (done db) = (
    record { db = db; sessions = Dict.keep (λ _ s. not (str_eq s.username name)) m.sessions },
    done tt,
  )
  dropping name m (fail e) = (m, fail e)

  unfoldable pub change_password : AuthManager → Str → Str → Str → Readings → Reply (Unit {0})
  unfolding validate_password Users.change_password Dict.keep
  change_password m name old new at = dropping name m (
      validate_password new >>= λ _.
      Users.change_password hashing m.db name old new at.salt at.updated)

unfoldable pub logout : AuthManager → Str → AuthManager
unfolding Dict.remove
logout m token = record m { sessions = Dict.remove token m.sessions }

abbrev pub live : ℕ → Session → Bool
live now s =
    ltb (now - s.created_at) session_absolute_ttl && ltb (now - s.last_access) session_idle_ttl

-- The session behind the token: past either limit it goes, else it is used now.
abbrev pub visited : AuthManager → Str → ℕ → Option Session → AuthManager × Option Str
visited m token now none = (m, none)
visited m token now (some s) =
    if leb session_absolute_ttl (now - s.created_at)
    then (record m { sessions = Dict.remove token m.sessions }, none)
    else if leb session_idle_ttl (now - s.last_access)
    then (record m { sessions = Dict.remove token m.sessions }, none)
    else (
      record m { sessions = Dict.insert token (record s { last_access = now }) m.sessions },
      some s.username,
    )

unfoldable pub validate_session : AuthManager → Str → ℕ → AuthManager × Option Str
unfolding Dict.lookup Dict.remove Dict.insert
validate_session m token now = visited m token now (Dict.lookup token m.sessions)

unfoldable pub get_admin_info : AuthManager → Str → AuthResult AdminInfo
unfolding Users.get_admin_info
get_admin_info m name = Users.get_admin_info m.db name

unfoldable pub cleanup_expired_sessions : AuthManager → ℕ → AuthManager
unfolding Dict.keep
cleanup_expired_sessions m now = record m { sessions = Dict.keep (λ _ s. live now s) m.sessions }
