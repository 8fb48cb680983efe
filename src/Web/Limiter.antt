-- ===== src/Web/Limiter.antt =====
-- src/web/middleware.rs: `RateLimiter`. An `Instant` and a `Duration` are nanoseconds; `t > now - window`
-- is written without the difference.
use rail2ban.Prelude.{
  ℕ, ◌+◌, Bool, true, false, List, [], ◌∷◌, ◌++◌, Str, if◌then◌else◌, ltb, leb, length, retain,
  unwrap_or,
}
use rail2ban.Prelude.Dict

pub record RateLimiter : Type 0 where
  pub inner : List (Str × List ℕ)
  pub max_requests : ℕ
  pub window : ℕ

unfoldable pub new : ℕ → ℕ → RateLimiter
new max_requests window = record { inner = []; max_requests = max_requests; window = window }

abbrev pub recent : ℕ → ℕ → ℕ → Bool
recent window now t = ltb now (t + window)

abbrev pub entry_or_default : Str → RateLimiter → List ℕ
entry_or_default key l = unwrap_or (Dict.lookup key l.inner) []

-- The entry is stored pruned, also when the request is refused.
unfoldable pub check : RateLimiter → Str → ℕ → RateLimiter × Bool
unfolding Dict.lookup Dict.insert retain
check l key now =
    let entry = retain (recent l.window now) (entry_or_default key l) in
    if leb l.max_requests (length entry)
    then (record l { inner = Dict.insert key entry l.inner }, false)
    else (record l { inner = Dict.insert key (entry ++ now ∷ []) l.inner }, true)

-- `retain` with a test that prunes the entry it looks at.
unfoldable pub sweep : (ℕ → Bool) → List (Str × List ℕ) → List (Str × List ℕ)
unfolding retain
sweep p [] = []
sweep p ((key, entries) ∷ m) =
    let rest = sweep p m in
    if leb 1 (length (retain p entries)) then (key, retain p entries) ∷ rest else rest

unfoldable pub cleanup : RateLimiter → ℕ → RateLimiter
unfolding sweep
cleanup l now = record l { inner = sweep (recent l.window now) l.inner }
