-- ===== src/IgnoreCache/Bound.antt =====
-- src/server/jail.rs: the size of the cache, and what it answers.
use rail2ban.Prelude.{
  ℕ, ◌-◌, ◌≤◌, ◌<◌, ◌≡◌, refl, Bool, Option, none, some, List, [], ◌∷◌, inl, inr, Str, arith,
  Bool-cases, if◌then◌else◌, leb, ltb, ◌==◌, ◌*◌, trim, split, length, str_eq, str_eq_refl,
  str_eq_iff,
}
use mathlib.Core.Path.{subst}
use rail2ban.Prelude.Dict
use rail2ban.Prelude.Dict.{
  Unique, remove-Unique, insert-Unique, length-insert, length-remove-le, lookup-insert,
  lookup-insert_self,
}
use rail2ban.IgnoreCache.{
  IgnoreCache, parse, get, insert, make_room, first_expired, evict_first, evict_key, of_limits,
  parse_spec, parse_parts,
}

-- Removing a key that is there makes the map shorter.
length-remove-lt :
    (k : Str) (m : List (Str × (Bool × ℕ))) {e : Bool × ℕ}
    → Dict.lookup k m ≡ some e
    → length (Dict.remove k m) < length m
unfolding Dict.lookup Dict.remove
length-remove-lt k [] h = cc
length-remove-lt k ((j, w) ∷ m) h = elim (Bool-cases (str_eq j k)) [
  | inl own ↦ rw own (omega (arith, length-remove-le k m))
  | inr other ↦ rw other (omega (arith, length-remove-lt k m (rw other at h)))
]

found : (k : Str) (e : Bool × ℕ) (m : List (Str × (Bool × ℕ))) → Dict.lookup k ((k, e) ∷ m) ≡ some e
unfolding Dict.lookup
found k e m = rw str_eq_refl

lookup-first_expired :
    (now max_time : ℕ) (m : List (Str × (Bool × ℕ))) (k : Str)
    → first_expired now max_time m ≡ some k
    → (e : Bool × ℕ) × (Dict.lookup k m ≡ some e)
unfolding first_expired Dict.lookup
lookup-first_expired now max_time [] k h = absurd (cc)
lookup-first_expired now max_time ((j, w) ∷ m) k h = elim (Bool-cases (str_eq j k)) [
  | inl own ↦ (w, rw own)
  | inr other ↦
      let next : first_expired now max_time m ≡ some k = ground (arith, str_eq_iff j k) in
      let (e, found) = lookup-first_expired now max_time m k next in (e, rw other found)
]

evict_key-lt :
    (now max_time : ℕ) (m : List (Str × (Bool × ℕ)))
    → 0 < length m
    → length (evict_key (first_expired now max_time m) m) < length m
evict_key-lt now max_time m some_entry = go (first_expired now max_time m) refl
  where
    first : (m : List (Str × (Bool × ℕ))) → 0 < length m → length (evict_first m) < length m
    first [] h = absurd (omega arith)
    first ((k, e) ∷ m) h = length-remove-lt k ((k, e) ∷ m) (found k e m)

    go : (o : Option Str) → first_expired now max_time m ≡ o → length (evict_key o m) < length m
    go none e = first m some_entry
    go (some k) e =
        let (_, found) = lookup-first_expired now max_time m k e in length-remove-lt k m found

make_room-lt :
    (c : IgnoreCache) (now : ℕ)
    → 0 < c.max_count
    → length c.entries ≤ c.max_count
    → length (make_room c now) < c.max_count
unfolding make_room
make_room-lt c now some_room bounded = elim (Bool-cases (leb c.max_count (length c.entries))) [
  | inl full ↦
      let some_entry : 0 < length c.entries = ground arith in
      rw full (omega (arith, evict_key-lt now c.max_time c.entries some_entry))
  | inr free ↦ rw free (ground arith)
]

make_room-Unique : (c : IgnoreCache) (now : ℕ) → Unique c.entries → Unique (make_room c now)
unfolding make_room
make_room-Unique c now u = elim (Bool-cases (leb c.max_count (length c.entries))) [
  | inl full ↦ rw full (evicted (first_expired now c.max_time c.entries))
  | inr free ↦ rw free u
]
  where
    first : (m : List (Str × (Bool × ℕ))) → Unique m → Unique (evict_first m)
    first [] u = u
    first ((k, e) ∷ m) u = remove-Unique k ((k, e) ∷ m) u

    evicted : (o : Option Str) → Unique (evict_key o c.entries)
    evicted none = first c.entries u
    evicted (some k) = remove-Unique k c.entries u

pub record IsValid (c : IgnoreCache) : Type 0 where
  pub positive : 0 < c.max_count
  pub bounded : length c.entries ≤ c.max_count
  pub unique : Unique c.entries

-- A parsed specification is a valid, empty cache.
pub parse-IsValid :
    (spec : Str) (c : IgnoreCache) → parse spec ≡ some c → IsValid c × (c.entries ≡ [])
unfolding parse
parse-IsValid spec c e = trimmed (trim spec) e
  where
    limited : (limits : ℕ × ℕ) → of_limits limits ≡ some c → IsValid c × (c.entries ≡ [])
    limited (count, secs) e = elim (Bool-cases (count == 0)) [
      | inl zero_count ↦ absurd (ground arith)
      | inr positive ↦
          let made : IgnoreCache = record {
            max_count = count;
            max_time = secs * 1000000000;
            entries = [];
          } in
          let e' : some made ≡ some c = rw positive at e in
          let same : made ≡ c = cc in
          subst (λ c. IsValid c × (c.entries ≡ [])) same
            (record { positive = ground arith; bounded = omega arith; unique = tt }, refl)
    ]

    trimmed : (s : Str) → parse_spec s ≡ some c → IsValid c × (c.entries ≡ [])
    trimmed [] e = absurd (cc)
    trimmed (d ∷ ds) e = limited (parse_parts (100, 3600) (split (λ d. d == b',') (d ∷ ds))) e

-- An insertion keeps the cache within its size and its keys distinct, and the key that was inserted
-- answers with the result for `max_time` from then on, and not after.
pub insert-IsValid :
    (c : IgnoreCache) (key : Str) (result : Bool) (now later : ℕ)
    → IsValid c
    → IsValid (insert c key result now)
      × (get (insert c key result now) key later
          ≡ (if ltb c.max_time (later - now) then none else some result))
unfolding insert get
insert-IsValid c key result now later v = (
  record {
    positive = v.positive;
    bounded = ground (
      arith,
      length-insert key (result, now) (make_room c now),
      make_room-lt c now v.positive v.bounded,
    );
    unique = insert-Unique key _ (make_room c now) (make_room-Unique c now v.unique);
  },
  rw lookup-insert_self refl,
)
