-- ===== src/Web/Calls.antt =====
-- src/web/auth.rs: the calls of an `AuthManager`, made one after the other.
use rail2ban.Prelude.{ℕ, ◌≡◌, List, [], ◌∷◌, Str}
use rail2ban.Prelude.Int.{ℤ, ◌≤ℤ◌}
use rail2ban.Web.Users.{Hashing, done}
use rail2ban.Web.Sessions.{AuthManager, Readings}
use rail2ban.Web.Sessions
use rail2ban.Web.Tokens.{generate_session_token}

pub data Call : Type 0 where
  setup : Str → Str → Readings → Call
  login : Str → Str → Str → Readings → Call
  logout : Str → Call
  validate_session : Str → ℕ → Call
  change_password : Str → Str → Str → Readings → Call
  cleanup_expired_sessions : ℕ → Call

module _ (hashing : Hashing) where
  unfoldable pub step : AuthManager → Call → AuthManager
  unfolding Sessions.setup Sessions.login Sessions.logout Sessions.validate_session
      Sessions.change_password Sessions.cleanup_expired_sessions
  step m (setup name password at) = (Sessions.setup hashing m name password at).0
  step m (login name password ip at) = (Sessions.login hashing m name password ip at).0
  step m (logout token) = Sessions.logout m token
  step m (validate_session token now) = (Sessions.validate_session m token now).0
  step m (change_password name old new at) = (Sessions.change_password hashing m name old new at).0
  step m (cleanup_expired_sessions now) = Sessions.cleanup_expired_sessions m now

  unfoldable pub run : AuthManager → List Call → AuthManager
  unfolding step
  run m [] = m
  run m (c ∷ cs) = run (step m c) cs

  -- Among the calls is a `login` of the user that returned the token, at an instant.
  pub data Issued : AuthManager → List Call → Str → Str → ℕ → Type 0 where
    here :
        {m : AuthManager} {name password ip : Str} {at : Readings} {cs : List Call}
        → (Sessions.login hashing m name password ip at).1 ≡ done (generate_session_token at.random)
        → Issued m
            (login name password ip at ∷ cs)
            (generate_session_token at.random)
            name
            at.instant
    later :
        {m : AuthManager} {c : Call} {cs : List Call} {token name : Str} {instant : ℕ}
        → Issued (step m c) cs token name instant
        → Issued m (c ∷ cs) token name instant

-- The clock does not go back within a call, nor from one call to the next.
abbrev pub InOrder : ℤ → List Call → Type 0
InOrder now [] = Unit
InOrder now (login name password ip at ∷ cs) =
    (now ≤ℤ at.counted)
    × (at.counted ≤ℤ at.logged)
    × (at.logged ≤ℤ at.recounted)
    × InOrder at.recounted cs
InOrder now (setup name password at ∷ cs) = InOrder now cs
InOrder now (logout token ∷ cs) = InOrder now cs
InOrder now (validate_session token instant ∷ cs) = InOrder now cs
InOrder now (change_password name old new at ∷ cs) = InOrder now cs
InOrder now (cleanup_expired_sessions instant ∷ cs) = InOrder now cs

-- The clock after the calls.
abbrev pub last_reading : ℤ → List Call → ℤ
last_reading now [] = now
last_reading now (login name password ip at ∷ cs) = last_reading at.recounted cs
last_reading now (setup name password at ∷ cs) = last_reading now cs
last_reading now (logout token ∷ cs) = last_reading now cs
last_reading now (validate_session token instant ∷ cs) = last_reading now cs
last_reading now (change_password name old new at ∷ cs) = last_reading now cs
last_reading now (cleanup_expired_sessions instant ∷ cs) = last_reading now cs
