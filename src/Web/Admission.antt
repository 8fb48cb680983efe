-- ===== src/Web/Admission.antt =====
-- src/web: a login, its cookie, and the gate before the other handlers.
use rail2ban.Prelude.{
  ℕ, ◌-◌, ◌<◌, ◌≡◌, refl, inl, inr, Bool, true, false, not, ◌||◌, Bool-cases, Option, some, ◌++◌,
  Str, str_eq, codes, any, arith, All, leb,
}
use rail2ban.Prelude.Dict
use rail2ban.Prelude.Dict.{lookup-insert_self}
use rail2ban.Web.Tokens.{generate_session_token}
use rail2ban.Web.Users.{Hashing, done, fail, AuthResult, count_recent_failures, verify}
use rail2ban.Web.Sessions.{
  AuthManager, Readings, validate_session, session_idle_ttl, session_absolute_ttl,
  max_login_attempts, session_at, checked,
}
use rail2ban.Web.Sessions
use rail2ban.Web.Gate.{WebState, Request, Next, starts_with, public_paths, require_auth}
use rail2ban.Web.Cookies.{
  session_pair, followed, preceded, Sessionless, extract_session_token-preceded,
}

module _ (hashing : Hashing) where
  -- The session of a login that succeeds.
  session-checked :
      (m : AuthManager) (name ip : Str) (at : Readings) (r : AuthResult Bool) (token : Str)
      → (checked hashing m name ip at r).1 ≡ done token
      → Dict.lookup (generate_session_token at.random) (checked hashing m name ip at r).0.sessions
        ≡ some (session_at name at.instant)
  session-checked m name ip at (fail e) token h = absurd (cc h)
  session-checked m name ip at (done false) token h = absurd (ground arith)
  session-checked m name ip at (done true) token h =
      lookup-insert_self (generate_session_token at.random) (session_at name at.instant) m.sessions

  session-login :
      (m : AuthManager) (name password ip : Str) (at : Readings) (token : Str)
      → (Sessions.login hashing m name password ip at).1 ≡ done token
      → Dict.lookup
          (generate_session_token at.random)
          (Sessions.login hashing m name password ip at).0.sessions
        ≡ some (session_at name at.instant)
  unfolding Sessions.login
  session-login m name password ip at token h =
      elim (Bool-cases (leb max_login_attempts (count_recent_failures m.db ip at.counted))) [
        | inl c ↦ absurd (cc (rw c at h))
        | inr c ↦
            rw c
              (session-checked m name ip at (verify hashing m.db name password) token (rw c at h))
      ]

  validate_session-login :
      (m : AuthManager) (name password ip : Str) (at : Readings) (token : Str) (now : ℕ)
      → (Sessions.login hashing m name password ip at).1 ≡ done token
      → now - at.instant < session_idle_ttl
      → (validate_session
          (Sessions.login hashing m name password ip at).0
          (generate_session_token at.random)
          now).1
        ≡ some name
  unfolding validate_session
  validate_session-login m name password ip at token now h soon =
      rw (session-login m name password ip at token h) (ground arith)

  module _ {S : Type 0} where
    -- Behind a login that succeeded, a request for a path that is not public, whose cookie header has
    -- the cookie of the login's token at its start, or behind other cookies of which none is the
    -- session's, less than 8 hours later: the gate lets it through, with the session used.
    pub require_auth-login :
        (m : AuthManager) (name password ip token : Str) (at : Readings) (now : ℕ) (next : Next S)
        (state : WebState S) (r : Request) (others more : Option Str)
        → (Sessions.login hashing m name password ip at).1 ≡ done token
        → All (λ b. b < 256) at.random
        → now - at.instant < session_idle_ttl
        → Sessionless others
        → r.header (codes "cookie")
          ≡ some
              (preceded others (session_pair (generate_session_token at.random) ++ followed more))
        → (any (str_eq r.path) public_paths || not (starts_with (codes "/emc/api/") r.path)) ≡ false
        → state.auth ≡ (Sessions.login hashing m name password ip at).0
        → require_auth now next state r
          ≡ next
              (record state {
                auth =
                    (validate_session
                      (Sessions.login hashing m name password ip at).0
                      (generate_session_token at.random)
                      now).0;
              })
              r
    unfolding require_auth
    require_auth-login m name password ip token at now next state r others more h bytes soon absent
          sent private here =
        let read =
          extract_session_token-preceded at.random others more r.header bytes absent sent in
        let who = validate_session-login m name password ip at token now h soon in
        rw (private, read, here, who) refl
