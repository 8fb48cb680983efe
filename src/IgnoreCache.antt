-- ===== src/IgnoreCache.antt =====
-- src/server/jail.rs: the cache of `ignorecommand` results. An `Instant` is its nanoseconds on the
-- monotonic clock, and `duration_since` stops at 0.
pub mod Bound
use rail2ban.Prelude.{
  ℕ, ◌+◌, ◌-◌, ◌*◌, Bool, true, false, ◌&&◌, ◌||◌, Option, none, some, List, [], ◌∷◌, Str, codes,
  ltb, leb, ◌==◌, if◌then◌else◌, length, trim, split, strip_prefix, str_eq, and_then, unwrap_or,
}
use rail2ban.Prelude.Dict
use rail2ban.Error.{Result, ok, err}
use rail2ban.Time.{TimeValue, parse_u64, to_seconds_or_max}
use rail2ban.Time

pub record IgnoreCache : Type 0 where
  pub max_count : ℕ
  pub max_time : ℕ
  pub entries : List (Str × (Bool × ℕ))

abbrev with_count : ℕ × ℕ → Option ℕ → ℕ × ℕ
with_count limits none = limits
with_count (count, secs) (some n) = (n, secs)

abbrev with_time : ℕ × ℕ → Result TimeValue → ℕ × ℕ
with_time (count, secs) (ok v) = (count, to_seconds_or_max v)
with_time limits (err e) = limits

abbrev time_part : ℕ × ℕ → Option Str → ℕ × ℕ
time_part limits none = limits
time_part limits (some v) = with_time limits (Time.parse (trim v))

-- One `name=value` of the specification.
abbrev count_part : ℕ × ℕ → Str → Option Str → ℕ × ℕ
count_part limits part (some v) = with_count limits (parse_u64 (trim v))
count_part limits part none = time_part limits (strip_prefix (codes "max-time=") part)

unfoldable pub parse_parts : ℕ × ℕ → List Str → ℕ × ℕ
unfolding strip_prefix trim parse_u64 Time.parse to_seconds_or_max
parse_parts limits [] = limits
parse_parts limits (p ∷ ps) =
    parse_parts (count_part limits (trim p) (strip_prefix (codes "max-count=") (trim p))) ps

abbrev of_limits : ℕ × ℕ → Option IgnoreCache
of_limits (count, secs) =
    if count == 0
    then none
    else some (record { max_count = count; max_time = secs * 1000000000; entries = [] })

abbrev parse_spec : Str → Option IgnoreCache
unfolding parse_parts split
parse_spec [] = none
parse_spec (c ∷ cs) = of_limits (parse_parts (100, 3600) (split (λ d. d == b',') (c ∷ cs)))

unfoldable pub parse : Str → Option IgnoreCache
unfolding parse_parts split trim
parse spec = parse_spec (trim spec)

abbrev live_result : ℕ → ℕ → Bool × ℕ → Option Bool
live_result now max_time (result, inserted) =
    if ltb max_time (now - inserted) then none else some result

unfoldable pub get : IgnoreCache → Str → ℕ → Option Bool
get c key now = and_then (Dict.lookup key c.entries) (live_result now c.max_time)

-- The first key whose entry is too old.
unfoldable pub first_expired : ℕ → ℕ → List (Str × (Bool × ℕ)) → Option Str
first_expired now max_time [] = none
first_expired now max_time ((k, (_, t)) ∷ m) =
    if ltb max_time (now - t) then some k else first_expired now max_time m

abbrev evict_first : List (Str × (Bool × ℕ)) → List (Str × (Bool × ℕ))
evict_first [] = []
evict_first ((k, e) ∷ m) = Dict.remove k ((k, e) ∷ m)

abbrev evict_key : Option Str → List (Str × (Bool × ℕ)) → List (Str × (Bool × ℕ))
evict_key none m = evict_first m
evict_key (some k) m = Dict.remove k m

unfoldable pub make_room : IgnoreCache → ℕ → List (Str × (Bool × ℕ))
unfolding first_expired
make_room c now =
    if leb c.max_count (length c.entries)
    then evict_key (first_expired now c.max_time c.entries) c.entries
    else c.entries

unfoldable pub insert : IgnoreCache → Str → Bool → ℕ → IgnoreCache
unfolding make_room
insert c key result now = record c { entries = Dict.insert key (result, now) (make_room c now) }
