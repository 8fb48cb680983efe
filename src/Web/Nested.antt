-- ===== src/Web/Nested.antt =====
-- src/web/routes.rs: what the layers of the nested router do to a request of the API.
use rail2ban.Prelude.{
  ℕ, false, ◌≡◌, refl, inl, inr, Bool-cases, Option, some, ◌∷◌, ◌++◌, Str, codes, str_eq,
  str_eq_iff, any, strip_prefix, arith,
}
use rail2ban.Web.Gate.{
  WebState, Request, Next, starts_with, rate_limited_paths, require_auth, rate_limit_sensitive,
  guarded, security_headers, create_router,
}

-- A path that is rate limited is one of the API.
rate_limited-starts_with :
    (p : Str)
    → starts_with (codes "/emc/api/") p ≡ false
    → any (str_eq p) rate_limited_paths ≡ false
unfolding any strip_prefix
rate_limited-starts_with p other = elim (Bool-cases (str_eq p (codes "/emc/api/login"))) [
  | inl c ↦ absurd (cc (rw ((str_eq_iff p (codes "/emc/api/login")).0 c) at other))
  | inr c ↦ elim (Bool-cases (str_eq p (codes "/emc/api/setup"))) [
    | inl d ↦ absurd (cc (rw ((str_eq_iff p (codes "/emc/api/setup")).0 d) at other))
    | inr d ↦ rw (c, d) refl
  ]
]

module _ {S : Type 0} where
  guarded-other :
      (canonical_ip : Str → Option Str) (seen checked : ℕ) (handlers : Next S) (state : WebState S)
      (r : Request)
      → starts_with (codes "/emc/api/") r.path ≡ false
      → guarded canonical_ip seen checked handlers state r ≡ handlers state r
  unfolding guarded require_auth rate_limit_sensitive
  guarded-other canonical_ip seen checked handlers state r other =
      ground (arith, other, rate_limited-starts_with r.path other)

  -- Where `nest` strips the prefix, as axum documents it: a request for a path of the API, whatever its
  -- headers and whether it has a session or not, reaches the handlers at once, as if there were no
  -- `require_auth` and no `rate_limit_sensitive`.
  pub create_router-unguarded :
      (nest : Str → Str → Option Str) (canonical_ip : Str → Option Str) (seen checked : ℕ)
      (pages handlers : Next S) (state : WebState S) (r : Request) (rest : Str)
      → ((prefix tail : Str) → nest prefix (prefix ++ b'/' ∷ tail) ≡ some (b'/' ∷ tail))
      → r.path ≡ codes "/emc/api" ++ b'/' ∷ rest
      → starts_with (codes "/emc/api/") (b'/' ∷ rest) ≡ false
      → create_router nest canonical_ip seen checked pages handlers state r
        ≡ security_headers (λ s q. handlers s (record q { path = b'/' ∷ rest })) state r
  unfolding create_router security_headers
  create_router-unguarded nest canonical_ip seen checked pages handlers state r rest strips path
        other =
      rw
        (
          path,
          strips (codes "/emc/api") rest,
          guarded-other canonical_ip seen checked handlers state (record r { path = b'/' ∷ rest })
              other,
        )
        refl
