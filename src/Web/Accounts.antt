-- ===== src/Web/Accounts.antt =====
-- src/web/auth.rs: the account, and what a login or a change of the password does to it and to the
-- sessions.
use rail2ban.Prelude.{
  ℕ, map, suc, ◌≡◌, refl, sym, ap, ◌∙◌, inl, inr, true, false, Bool-cases, Option, none, some,
  Option-cases, List, [], ◌∷◌, Str, arith, length, if◌then◌else◌, leb, ◌&&◌, not, str_eq, any,
}
use rail2ban.Prelude.Int.{ℤ}
use rail2ban.Prelude.Dict
use rail2ban.Prelude.Dict.{Unique, lookup-keep}
use rail2ban.Web.Users.{
  Hashing, User, AuthDb, AuthError, AuthResult, done, fail, admin_exists, count_recent_failures,
  log_attempt, find_user, verify, set_hash, touch, update_last_login, validate_password,
  validate_username, create_admin,
}
use rail2ban.Web.Users
use rail2ban.Web.Sessions.{AuthManager, Readings, max_login_attempts}
use rail2ban.Web.Sessions
use rail2ban.Web.Tokens.{generate_session_token}
use rail2ban.Web.Calls.{
  Call, setup, login, logout, validate_session, change_password, cleanup_expired_sessions, step,
  run,
}

module _ (hashing : Hashing) where
  -- A login that fails leaves the accounts and the sessions as they were.
  pub login-fail :
      (m : AuthManager) (name password ip : Str) (at : Readings) (e : AuthError)
      → (Sessions.login hashing m name password ip at).1 ≡ fail e
      → ((Sessions.login hashing m name password ip at).0.sessions ≡ m.sessions)
        × ((Sessions.login hashing m name password ip at).0.db.users ≡ m.db.users)
  unfolding Sessions.login log_attempt
  login-fail m name password ip at e h = ground arith

found-set_hash :
    (name h : Str) (now : ℤ) (us : List User)
    → any (Users.named name) us ≡ true
    → (u : User) × (find_user name (set_hash name h now us) ≡ some u) × (u.password_hash ≡ h)
unfolding any find_user set_hash
found-set_hash name h now [] e = absurd (cc)
found-set_hash name h now (u ∷ us) e = elim (Bool-cases (Users.named name u)) [
  | inl c ↦ rw c (record u { password_hash = h; updated_at = now }, rw c refl, refl)
  | inr c ↦ let (v, f, g) = found-set_hash name h now us (rw c at e) in rw c (v, rw c f, g)
]

-- The names of the accounts.
abbrev pub names : AuthDb → List Str
names db = map (λ u. u.username) db.users

names-touch :
    (name : Str) (now : ℤ) (us : List User)
    → map (λ u. u.username) (touch name now us) ≡ map (λ u. u.username) us
unfolding touch
names-touch name now [] = refl
names-touch name now (u ∷ us) = ground (arith, names-touch name now us)

names-set_hash :
    (name h : Str) (now : ℤ) (us : List User)
    → map (λ u. u.username) (set_hash name h now us) ≡ map (λ u. u.username) us
unfolding set_hash
names-set_hash name h now [] = refl
names-set_hash name h now (u ∷ us) = ground (arith, names-set_hash name h now us)

length-names : (us : List User) → length (map (λ u. u.username) us) ≡ length us
length-names [] = refl
length-names (u ∷ us) = ap suc (length-names us)

-- Stores with the same names both have an account, or none.
still_there : (d e : AuthDb) → names d ≡ names e → admin_exists d ≡ true → admin_exists e ≡ true
unfolding admin_exists
still_there d e same there =
    ground (arith, there, length-names d.users, length-names e.users, ap length same)

-- What is left of an answer for a user whose sessions are dropped.
abbrev pub dismissed : Str → Option Str → Option Str
dismissed name none = none
dismissed name (some u) = if str_eq u name then none else some u

module _ (hashing : Hashing) where
  -- A change that succeeds.
  changed :
      (m : AuthManager) (name old new : Str) (at : Readings)
      → (Sessions.change_password hashing m name old new at).1 ≡ done tt
      → (h : Str) × (hashing.make at.salt new ≡ some h)
        × (any (Users.named name) m.db.users ≡ true)
        × ((Sessions.change_password hashing m name old new at).0.db
            ≡ record m.db { users = set_hash name h at.updated m.db.users })
        × ((Sessions.change_password hashing m name old new at).0.sessions
            ≡ Dict.keep (λ _ s. not (str_eq s.username name)) m.sessions)
  unfolding Sessions.change_password Users.change_password
  changed m name old new at ok = elim (Option-cases (hashing.make at.salt new)) [
    | inl c ↦ absurd (ground arith)
    | inr (h, c) ↦ (h, c, ground arith, ground arith, ground arith)
  ]

  -- Where tokens have one session each, a password that is changed ends every session of its user and no
  -- other: each token is then accepted as before, unless it was a session of that user.
  pub validate_session-change_password :
      (m : AuthManager) (name old new : Str) (at : Readings) (token : Str) (now : ℕ)
      → Unique m.sessions
      → (Sessions.change_password hashing m name old new at).1 ≡ done tt
      → (Sessions.validate_session
          (Sessions.change_password hashing m name old new at).0
          token
          now).1
        ≡ dismissed name (Sessions.validate_session m token now).1
  unfolding Sessions.validate_session
  validate_session-change_password m name old new at token now u ok =
      let (h, _, _, _, kept) = changed m name old new at ok in
      rw (kept, lookup-keep (λ _ s. not (str_eq s.username name)) token m.sessions u) (ground arith)

  -- Where a hash that is made verifies its password, the user of a password that was changed logs in with
  -- the new one from every address that is not locked out.
  pub login-change_password :
      (m : AuthManager) (name old new : Str) (changing : Readings) (ip : Str) (at : Readings)
      → ((salt : ℕ) (password h : Str)
          → hashing.make salt password ≡ some h
          → (hashing.parses h && hashing.verifies password h) ≡ true)
      → (Sessions.change_password hashing m name old new changing).1 ≡ done tt
      → leb max_login_attempts (count_recent_failures m.db ip at.counted) ≡ false
      → (Sessions.login hashing
          (Sessions.change_password hashing m name old new changing).0
          name
          new
          ip
          at).1
        ≡ done (generate_session_token at.random)
  unfolding Sessions.login verify count_recent_failures
  login-change_password m name old new changing ip at law ok free =
      let (h, made, there, wrote, _) = changed m name old new changing ok in
      let (u, found, hashed) = found-set_hash name h changing.updated m.db.users there in
      let good : (hashing.parses u.password_hash && hashing.verifies new u.password_hash) ≡ true =
        rw hashed (law changing.salt new h made) in
      rw (wrote, free, found) (ground arith)

  names-login :
      (m : AuthManager) (name password ip : Str) (at : Readings)
      → names (Sessions.login hashing m name password ip at).0.db ≡ names m.db
  unfolding Sessions.login log_attempt update_last_login
  names-login m name password ip at = ground (arith, names-touch name at.updated m.db.users)

  names-change_password :
      (m : AuthManager) (name old new : Str) (at : Readings)
      → names (Sessions.change_password hashing m name old new at).0.db ≡ names m.db
  unfolding Sessions.change_password Users.change_password
  names-change_password m name old new at = elim (Option-cases (hashing.make at.salt new)) [
    | inl c ↦ ground arith
    | inr (h, c) ↦ ground (arith, names-set_hash name h at.updated m.db.users)
  ]

  names-setup :
      (m : AuthManager) (name password : Str) (at : Readings)
      → admin_exists m.db ≡ true
      → names (Sessions.setup hashing m name password at).0.db ≡ names m.db
  unfolding Sessions.setup
  names-setup m name password at there = rw there refl

  names-validate_session :
      (m : AuthManager) (token : Str) (now : ℕ)
      → names (Sessions.validate_session m token now).0.db ≡ names m.db
  unfolding Sessions.validate_session
  names-validate_session m token now = ground arith

  names-step :
      (m : AuthManager) (c : Call)
      → admin_exists m.db ≡ true
      → names (step hashing m c).db ≡ names m.db
  unfolding step Sessions.logout Sessions.cleanup_expired_sessions
  names-step m (setup name password at) there = names-setup m name password at there
  names-step m (login name password ip at) there = names-login m name password ip at
  names-step m (logout token) there = refl
  names-step m (validate_session token now) there = names-validate_session m token now
  names-step m (change_password name old new at) there = names-change_password m name old new at
  names-step m (cleanup_expired_sessions now) there = refl

  names-run :
      (cs : List Call) (m : AuthManager)
      → admin_exists m.db ≡ true
      → names (run hashing m cs).db ≡ names m.db
  unfolding run
  names-run [] m there = refl
  names-run (c ∷ cs) m there =
      let same = names-step m c there in
      names-run cs (step hashing m c) (still_there m.db (step hashing m c).db (sym same) there)
      ∙ same

  -- After a first setup on an empty store, whatever calls follow, the account that it made is the only
  -- one, under its name.
  pub names-setup_first :
      (name password : Str) (at : Readings) (cs : List Call)
      → (Sessions.setup hashing (Sessions.new Users.open_in_memory) name password at).1 ≡ done tt
      → names
          (run hashing
            (Sessions.setup hashing (Sessions.new Users.open_in_memory) name password at).0
            cs).db
        ≡ name ∷ []
  unfolding Sessions.setup Sessions.new Users.open_in_memory create_admin admin_exists any
  names-setup_first name password at cs ok = elim (Option-cases (hashing.make at.salt password)) [
    | inl c ↦ absurd (ground arith)
    | inr (h, c) ↦
        let one : names
              (Sessions.setup hashing (Sessions.new Users.open_in_memory) name password at).0.db
            ≡ name ∷ [] =
          ground arith in
        names-run cs _ (ground arith) ∙ one
  ]
