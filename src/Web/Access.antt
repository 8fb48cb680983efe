-- ===== src/Web/Access.antt =====
-- src/web/auth.rs: which tokens a manager accepts.
use rail2ban.Prelude.{
  ℕ, ◌-◌, ◌<◌, ◌≡◌, refl, inl, inr, Bool-cases, Option-cases, some, true, false, List, [], ◌∷◌, Str,
  arith, str_eq, leb, Bool, not,
}
use mathlib.Core.Path.{subst}
use rail2ban.Prelude.Dict
use rail2ban.Prelude.Dict.{Each, insert-Each, remove-Each, keep-Each, Each-lookup}
use rail2ban.Web.Users.{
  Hashing, AuthDb, AuthResult, done, fail, admin_exists, count_recent_failures, verify, log_attempt,
}
use rail2ban.Web.Sessions.{
  AuthManager, Session, Readings, session_absolute_ttl, session_idle_ttl, max_login_attempts,
  session_at, live,
}
use rail2ban.Web.Sessions
use rail2ban.Web.Tokens.{generate_session_token}
use rail2ban.Web.Calls.{
  Call, setup, login, logout, validate_session, change_password, cleanup_expired_sessions, step,
  run, Issued, here, later,
}

-- A property of a session's token, user and start.
abbrev On {ℓ} : (Str → Str → ℕ → Type ℓ) → Str → Session → Type ℓ
On P token s = P token s.username s.created_at

visited-Each {ℓ} :
    (P : Str → Str → ℕ → Type ℓ) (m : AuthManager) (token : Str) (now : ℕ)
    → Each (On P) m.sessions
    → Each (On P) (Sessions.validate_session m token now).0.sessions
unfolding Sessions.validate_session
visited-Each P m token now e = elim (Option-cases (Dict.lookup token m.sessions)) [
  | inl c ↦ rw c e
  | inr (s, c) ↦ rw c (elim (Bool-cases (leb session_absolute_ttl (now - s.created_at))) [
    | inl old ↦ rw old (remove-Each (On P) token m.sessions e)
    | inr young ↦ elim (Bool-cases (leb session_idle_ttl (now - s.last_access))) [
      | inl idle ↦ rw (young, idle) (remove-Each (On P) token m.sessions e)
      | inr used ↦
          rw (young, used)
            (insert-Each (On P) token (record s { last_access = now }) m.sessions
              (Each-lookup (On P) token m.sessions e c) e)
    ]
  ])
]

module _ (hashing : Hashing) where
  dropping-Each {ℓ} :
      (P : Str → Str → ℕ → Type ℓ) (m : AuthManager) (name : Str) (r : AuthResult AuthDb)
      → Each (On P) m.sessions
      → Each (On P) (Sessions.dropping hashing name m r).0.sessions
  dropping-Each P m name (done db) e =
      keep-Each (On P) (λ _ s. not (str_eq s.username name)) m.sessions e
  dropping-Each P m name (fail x) e = e

  checked-Each {ℓ} :
      (P : Str → Str → ℕ → Type ℓ) (m : AuthManager) (name ip : Str) (at : Readings)
      (r : AuthResult Bool)
      → Each (On P) m.sessions
      → ((Sessions.checked hashing m name ip at r).1 ≡ done (generate_session_token at.random)
          → P (generate_session_token at.random) name at.instant)
      → Each (On P) (Sessions.checked hashing m name ip at r).0.sessions
  unfolding log_attempt
  checked-Each P m name ip at (done true) e h =
      insert-Each (On P) (generate_session_token at.random) (session_at name at.instant) m.sessions
        (h refl) e
  checked-Each P m name ip at (done false) e h = e
  checked-Each P m name ip at (fail x) e h = e

  login-Each {ℓ} :
      (P : Str → Str → ℕ → Type ℓ) (m : AuthManager) (name password ip : Str) (at : Readings)
      → Each (On P) m.sessions
      → ((Sessions.login hashing m name password ip at).1 ≡ done (generate_session_token at.random)
          → P (generate_session_token at.random) name at.instant)
      → Each (On P) (Sessions.login hashing m name password ip at).0.sessions
  unfolding Sessions.login
  login-Each P m name password ip at e h =
      elim (Bool-cases (leb max_login_attempts (count_recent_failures m.db ip at.counted))) [
        | inl locked ↦ rw locked e
        | inr free ↦
            rw free
              (checked-Each P m name ip at (verify hashing m.db name password) e (rw free at h))
      ]

  stores-Each {ℓ} :
      (P : Str → Str → ℕ → Type ℓ) (m : AuthManager) (r : AuthResult AuthDb)
      → Each (On P) m.sessions
      → Each (On P) (Sessions.stores m r).0.sessions
  stores-Each P m (done db) e = e
  stores-Each P m (fail x) e = e

  setup-Each {ℓ} :
      (P : Str → Str → ℕ → Type ℓ) (m : AuthManager) (name password : Str) (at : Readings)
      → Each (On P) m.sessions
      → Each (On P) (Sessions.setup hashing m name password at).0.sessions
  unfolding Sessions.setup
  setup-Each P m name password at e = elim (Bool-cases (admin_exists m.db)) [
    | inl there ↦ rw there e
    | inr fresh ↦ rw fresh (stores-Each P m _ e)
  ]

  step-Each {ℓ} :
      (P : Str → Str → ℕ → Type ℓ) (m : AuthManager) (c : Call) (cs : List Call)
      → Each (On P) m.sessions
      → ((k u : Str) (t : ℕ) → Issued hashing m (c ∷ cs) k u t → P k u t)
      → Each (On P) (step hashing m c).sessions
  unfolding step Sessions.logout Sessions.change_password Sessions.cleanup_expired_sessions
  step-Each P m (setup name password at) cs e h = setup-Each P m name password at e
  step-Each P m (login name password ip at) cs e h =
      login-Each P m name password ip at e
        (λ ok. h (generate_session_token at.random) name at.instant (here ok))
  step-Each P m (logout token) cs e h = remove-Each (On P) token m.sessions e
  step-Each P m (validate_session token now) cs e h = visited-Each P m token now e
  step-Each P m (change_password name old new at) cs e h = dropping-Each P m name _ e
  step-Each P m (cleanup_expired_sessions now) cs e h =
      keep-Each (On P) (λ _ s. live now s) m.sessions e

  run-Each {ℓ} :
      (P : Str → Str → ℕ → Type ℓ) (m : AuthManager) (cs : List Call)
      → Each (On P) m.sessions
      → ((k u : Str) (t : ℕ) → Issued hashing m cs k u t → P k u t)
      → Each (On P) (run hashing m cs).sessions
  unfolding run
  run-Each P m [] e h = e
  run-Each P m (c ∷ cs) e h =
      run-Each P (step hashing m c) cs (step-Each P m c cs e h) (λ k u t i. h k u t (later i))

  visited_young :
      (m : AuthManager) (token name : Str) (now : ℕ)
      → (Sessions.validate_session m token now).1 ≡ some name
      → (s : Session) × (Dict.lookup token m.sessions ≡ some s)
        × (s.username ≡ name)
        × (now - s.created_at < session_absolute_ttl)
        × (now - s.last_access < session_idle_ttl)
  unfolding Sessions.validate_session
  visited_young m token name now h = elim (Option-cases (Dict.lookup token m.sessions)) [
    | inl c ↦ absurd (ground (arith))
    | inr (s, c) ↦ (s, c, ground arith, ground arith, ground arith)
  ]

  -- A token that is accepted after a run of calls from a new manager is one that a `login` of the same
  -- user in the run returned, less than 24 hours before.
  pub validate_session-Issued :
      (db : AuthDb) (cs : List Call) (token name : Str) (now : ℕ)
      → (Sessions.validate_session (run hashing (Sessions.new db) cs) token now).1 ≡ some name
      → (instant : ℕ) × Issued hashing (Sessions.new db) cs token name instant
        × (now - instant < session_absolute_ttl)
  unfolding Sessions.new
  validate_session-Issued db cs token name now h =
      let (s, c, u, young, fresh) =
        visited_young (run hashing (Sessions.new db) cs) token name now h in
      (
        s.created_at,
        subst (λ u. Issued hashing (Sessions.new db) cs token u s.created_at) u
            (Each-lookup (On (Issued hashing (Sessions.new db) cs)) token
              (run hashing (Sessions.new db) cs).sessions
              (run-Each (Issued hashing (Sessions.new db) cs) (Sessions.new db) cs tt
                (λ k u t i. i))
              c),
        young,
      )
