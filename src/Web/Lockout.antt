-- ===== src/Web/Lockout.antt =====
-- src/web/auth.rs: the limit on the failed logins of an address.
use rail2ban.Prelude.{
  ℕ, ◌+◌, ◌≤◌, ◌≡◌, refl, sym, ap, Bool, true, false, List, [], ◌∷◌, ◌++◌, Str, arith, length,
  retain, if◌then◌else◌, leb, ◌&&◌, not, str_eq, str_eq_iff, Option, some,
}
use mathlib.Core.Path.{subst}
use rail2ban.Prelude.Int.{ℤ, pos, ◌-ℤ◌, ◌≤ℤ◌, ltb_ℤ, ltb_ℤ→<ℤ, <ℤ→ltb_ℤ, int_laws}
use rail2ban.Web.Users.{
  Hashing, AuthDb, Attempt, AuthResult, done, fail, admin_exists, failed_since,
  count_recent_failures, log_attempt, verify, login_attempt_window, update_last_login,
}
use rail2ban.Web.Users
use rail2ban.Web.Sessions.{AuthManager, Readings, max_login_attempts}
use rail2ban.Web.Sessions
use rail2ban.Web.Calls.{
  Call, setup, login, logout, validate_session, change_password, cleanup_expired_sessions, step,
  run, InOrder, last_reading,
}

-- A later cutoff excludes more.
failed_later :
    (ip : Str) (t u : ℤ) (a : Attempt)
    → t ≤ℤ u
    → failed_since ip (u -ℤ pos login_attempt_window) a ≡ true
    → failed_since ip (t -ℤ pos login_attempt_window) a ≡ true
failed_later ip t u a later h =
    let recent : ltb_ℤ (u -ℤ pos login_attempt_window) a.attempted_at ≡ true = ground arith in
    let before : ltb_ℤ (t -ℤ pos login_attempt_window) a.attempted_at ≡ true =
      <ℤ→ltb_ℤ (t -ℤ pos login_attempt_window) a.attempted_at
        (omega (int_laws, ltb_ℤ→<ℤ (u -ℤ pos login_attempt_window) a.attempted_at recent)) in
    ground (arith, h, before)

count_narrower :
    (p q : Attempt → Bool) (log : List Attempt)
    → ((a : Attempt) → q a ≡ true → p a ≡ true)
    → length (retain q log) ≤ length (retain p log)
unfolding retain
count_narrower p q [] h = omega arith
count_narrower p q (a ∷ log) h = ground (arith, count_narrower p q log h, h a)

count_later :
    (db : AuthDb) (ip : Str) (t u : ℤ)
    → t ≤ℤ u
    → count_recent_failures db ip u ≤ count_recent_failures db ip t
unfolding count_recent_failures
count_later db ip t u later = count_narrower _ _ db.attempts (λ a. failed_later ip t u a later)

counted_after :
    (p : Attempt → Bool) (log : List Attempt) (a : Attempt)
    → length (retain p (log ++ a ∷ []))
      ≡ (if p a then length (retain p log) + 1 else length (retain p log))
unfolding retain
counted_after p [] a = ground arith
counted_after p (b ∷ log) a = ground (arith, counted_after p log a)

-- A login logged in the name of an address.
count-log_attempt :
    (db : AuthDb) (name : Option Str) (ip i : Str) (ok : Bool) (now t : ℤ)
    → count_recent_failures (log_attempt db name ip ok now) i t ≤ (
        if str_eq ip i && not ok
        then count_recent_failures db i t + 1
        else count_recent_failures db i t)
unfolding count_recent_failures log_attempt
count-log_attempt db name ip i ok now t = ground (
  arith,
  counted_after (failed_since i (t -ℤ pos login_attempt_window)) db.attempts
      (record { username = name; ip = ip; success = ok; attempted_at = now }),
)

count-update_last_login :
    (db : AuthDb) (name : Str) (now : ℤ) (i : Str) (t : ℤ)
    → count_recent_failures (update_last_login db name now) i t ≡ count_recent_failures db i t
unfolding count_recent_failures update_last_login
count-update_last_login db name now i t = refl

-- No address has more failures than the limit, at any instant from `now` on.
abbrev Limited : ℤ → AuthManager → Type 0
Limited now m = (ip : Str) (t : ℤ) → now ≤ℤ t → count_recent_failures m.db ip t ≤ max_login_attempts

none_yet : (now : ℤ) → Limited now (Sessions.new Users.open_in_memory)
unfolding count_recent_failures Sessions.new Users.open_in_memory retain
none_yet now ip t late = omega arith

module _ (hashing : Hashing) where
  checked-Limited :
      (m : AuthManager) (name ip : Str) (at : Readings) (r : AuthResult Bool) (i : Str) (t : ℤ)
      → at.counted ≤ℤ t
      → count_recent_failures m.db i t ≤ max_login_attempts
      → leb max_login_attempts (count_recent_failures m.db ip at.counted) ≡ false
      → count_recent_failures (Sessions.checked hashing m name ip at r).0.db i t
        ≤ max_login_attempts
  checked-Limited m name ip at (fail x) i t late h free = h
  checked-Limited m name ip at (done false) i t late h free = ground (
    arith,
    count-log_attempt m.db (some name) ip i false at.logged t,
    count_later m.db ip at.counted t late,
    str_eq_iff ip i,
  )
  checked-Limited m name ip at (done true) i t late h free = ground (
    arith,
    count-log_attempt m.db (some name) ip i true at.logged t,
    count-update_last_login (log_attempt m.db (some name) ip true at.logged) name at.updated i t,
  )

  login-Limited :
      (m : AuthManager) (name password ip : Str) (at : Readings) (i : Str) (t : ℤ)
      → at.counted ≤ℤ t
      → count_recent_failures m.db i t ≤ max_login_attempts
      → count_recent_failures (Sessions.login hashing m name password ip at).0.db i t
        ≤ max_login_attempts
  unfolding Sessions.login
  login-Limited m name password ip at i t late h =
      ground (arith, checked-Limited m name ip at (verify hashing m.db name password) i t late h)

  attempts-setup :
      (m : AuthManager) (name password : Str) (at : Readings)
      → (Sessions.setup hashing m name password at).0.db.attempts ≡ m.db.attempts
  unfolding Sessions.setup Users.create_admin
  attempts-setup m name password at = ground arith

  attempts-change_password :
      (m : AuthManager) (name old new : Str) (at : Readings)
      → (Sessions.change_password hashing m name old new at).0.db.attempts ≡ m.db.attempts
  unfolding Sessions.change_password Users.change_password
  attempts-change_password m name old new at = ground arith

  db-validate_session :
      (m : AuthManager) (token : Str) (now : ℕ)
      → (Sessions.validate_session m token now).0.db ≡ m.db
  unfolding Sessions.validate_session
  db-validate_session m token now = ground arith

  -- Equal logs count alike.
  Limited-attempts :
      (m n : AuthManager) (now : ℤ) → n.db.attempts ≡ m.db.attempts → Limited now m → Limited now n
  unfolding count_recent_failures
  Limited-attempts m n now e h i t late =
      subst
        (λ log.
          length (retain (failed_since i (t -ℤ pos login_attempt_window)) log) ≤ max_login_attempts)
        (sym e) (h i t late)

  run-Limited :
      (cs : List Call) (m : AuthManager) (now : ℤ)
      → InOrder now cs
      → Limited now m
      → Limited (last_reading now cs) (run hashing m cs)
  unfolding run step Sessions.logout Sessions.cleanup_expired_sessions
  run-Limited [] m now o h = h
  run-Limited (setup name password at ∷ cs) m now o h = run-Limited cs _ now o (
      Limited-attempts m (step hashing m (setup name password at)) now
        (attempts-setup m name password at) h)
  run-Limited (login name password ip at ∷ cs) m now o h =
      run-Limited cs _ at.recounted o.3 (λ i t late.
        login-Limited m name password ip at i t (omega (arith, o, late))
          (h i t (omega (arith, o, late))))
  run-Limited (logout token ∷ cs) m now o h = run-Limited cs _ now o h
  run-Limited (validate_session token instant ∷ cs) m now o h = run-Limited cs _ now o (
      Limited-attempts m (step hashing m (validate_session token instant)) now
        (ap (λ d. d.attempts) (db-validate_session m token instant)) h)
  run-Limited (change_password name old new at ∷ cs) m now o h = run-Limited cs _ now o (
      Limited-attempts m (step hashing m (change_password name old new at)) now
        (attempts-change_password m name old new at) h)
  run-Limited (cleanup_expired_sessions instant ∷ cs) m now o h = run-Limited cs _ now o h

  -- After any calls one after the other from a new manager on an empty store, whose clock does not go
  -- back, no address has more than 5 failed logins within 15 minutes.
  pub count_recent_failures-le-max_login_attempts :
      (cs : List Call) (start : ℤ) (ip : Str) (now : ℤ)
      → InOrder start cs
      → last_reading start cs ≤ℤ now
      → count_recent_failures (run hashing (Sessions.new Users.open_in_memory) cs).db ip now
        ≤ max_login_attempts
  unfolding Sessions.new Users.open_in_memory
  count_recent_failures-le-max_login_attempts cs start ip now o late =
      run-Limited cs _ start o (none_yet start) ip now late
