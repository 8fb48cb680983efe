-- ===== src/Prelude/Dict.antt =====
-- Maps keyed by text (`HashMap`, `IndexMap`) as association lists: a new key goes to the end and an
-- old one keeps its place, as in an `IndexMap`; of a `HashMap` this is one of the orders that an
-- iteration may take.
use Prim.Native.Nat.{◌+◌, ◌≤◌}
use mathlib.Core.Path.{◌≡◌, refl, subst}
use mathlib.Core.Logic.{inl, inr, ◌≢◌}
use mathlib.Core.Bool.{Bool, false}
use mathlib.Core.List.{List, [], ◌∷◌}
use mathlib.Core.Option.{Option, none, some}
use native.Mathlib.Omega.{arith}
use rail2ban.Prelude.Tests.{if◌then◌else◌, is_some, Bool-cases}
use rail2ban.Prelude.Lists.{length}
use rail2ban.Prelude.Text.{Str, str_eq, str_eq_iff, str_eq_refl}

module _ {ℓ} {V : Type ℓ} where
  unfoldable pub lookup : Str → List (Str × V) → Option V
  lookup k [] = none
  lookup k ((j, v) ∷ m) = if str_eq j k then some v else lookup k m

  unfoldable pub insert : Str → V → List (Str × V) → List (Str × V)
  insert k v [] = (k, v) ∷ []
  insert k v ((j, w) ∷ m) = if str_eq j k then (k, v) ∷ m else (j, w) ∷ insert k v m

  unfoldable pub remove : Str → List (Str × V) → List (Str × V)
  remove k [] = []
  remove k ((j, w) ∷ m) = if str_eq j k then remove k m else (j, w) ∷ remove k m

  -- `retain` on the entries.
  unfoldable pub keep : (Str → V → Bool) → List (Str × V) → List (Str × V)
  keep p [] = []
  keep p ((j, w) ∷ m) = if p j w then (j, w) ∷ keep p m else keep p m

  unfoldable pub values : List (Str × V) → List V
  values [] = []
  values ((j, w) ∷ m) = w ∷ values m

  abbrev pub contains_key : Str → List (Str × V) → Bool
  contains_key k m = is_some (lookup k m)

  -- No key stands twice.
  abbrev pub Unique : List (Str × V) → Type ℓ
  Unique [] = Unit
  Unique ((k, v) ∷ m) = (lookup k m ≡ none) × Unique m

  -- A property of every entry.
  abbrev pub Each {κ} : (Str → V → Type κ) → List (Str × V) → Type κ
  Each P [] = Unit
  Each P ((k, v) ∷ m) = P k v × Each P m

  pub lookup-insert :
      (k j : Str) (v : V) (m : List (Str × V))
      → lookup j (insert k v m) ≡ (if str_eq k j then some v else lookup j m)
  unfolding lookup insert
  lookup-insert k j v [] = refl
  lookup-insert k j v ((i, w) ∷ m) =
      ground (arith, str_eq_iff k j, str_eq_iff i k, str_eq_iff i j, lookup-insert k j v m)

  pub lookup-remove :
      (k j : Str) (m : List (Str × V))
      → lookup j (remove k m) ≡ (if str_eq k j then none else lookup j m)
  unfolding lookup remove
  lookup-remove k j [] = ground arith
  lookup-remove k j ((i, w) ∷ m) =
      ground (arith, str_eq_iff k j, str_eq_iff i k, str_eq_iff i j, lookup-remove k j m)

  pub lookup-insert_self : (k : Str) (v : V) (m : List (Str × V)) → lookup k (insert k v m) ≡ some v
  lookup-insert_self k v m = rw (lookup-insert, str_eq_refl)

  pub lookup-insert_ne :
      (k j : Str) (v : V) (m : List (Str × V)) → k ≢ j → lookup j (insert k v m) ≡ lookup j m
  lookup-insert_ne k j v m h = ground (arith, lookup-insert k j v m, str_eq_iff k j)

  pub lookup-remove_self : (k : Str) (m : List (Str × V)) → lookup k (remove k m) ≡ none
  lookup-remove_self k m = rw (lookup-remove, str_eq_refl)

  pub lookup-remove_ne :
      (k j : Str) (m : List (Str × V)) → k ≢ j → lookup j (remove k m) ≡ lookup j m
  lookup-remove_ne k j m h = ground (arith, lookup-remove k j m, str_eq_iff k j)

  pub lookup-cons_none :
      (k j : Str) (w : V) (m : List (Str × V))
      → lookup k ((j, w) ∷ m) ≡ none
      → (str_eq j k ≡ false) × (lookup k m ≡ none)
  unfolding lookup
  lookup-cons_none k j w m h = ground arith

  pub remove_absent : (k : Str) (m : List (Str × V)) → lookup k m ≡ none → remove k m ≡ m
  unfolding lookup remove
  remove_absent k [] h = refl
  remove_absent k ((i, w) ∷ m) h = ground (arith, remove_absent k m)

  pub insert-Unique : (k : Str) (v : V) (m : List (Str × V)) → Unique m → Unique (insert k v m)
  unfolding lookup insert
  insert-Unique k v [] u = (refl, tt)
  insert-Unique k v ((i, w) ∷ m) u =
      ground (arith, str_eq_iff i k, str_eq_iff k i, lookup-insert k i v m, insert-Unique k v m)

  pub remove-Unique : (k : Str) (m : List (Str × V)) → Unique m → Unique (remove k m)
  unfolding remove
  remove-Unique k [] u = tt
  remove-Unique k ((i, w) ∷ m) u = ground (arith, lookup-remove k i m, remove-Unique k m)

  keep-none :
      (p : Str → V → Bool) (k : Str) (m : List (Str × V))
      → lookup k m ≡ none
      → lookup k (keep p m) ≡ none
  unfolding lookup keep
  keep-none p k [] h = refl
  keep-none p k ((i, w) ∷ m) h = ground (arith, keep-none p k m)

  pub keep-Unique : (p : Str → V → Bool) (m : List (Str × V)) → Unique m → Unique (keep p m)
  unfolding keep
  keep-Unique p [] u = tt
  keep-Unique p ((i, w) ∷ m) u = ground (arith, keep-none p i m, keep-Unique p m)

  -- An entry that fails the test.
  abbrev pub filtered : (Str → V → Bool) → Str → Option V → Option V
  filtered p k none = none
  filtered p k (some v) = if p k v then some v else none

  pub lookup-keep :
      (p : Str → V → Bool) (k : Str) (m : List (Str × V))
      → Unique m
      → lookup k (keep p m) ≡ filtered p k (lookup k m)
  unfolding lookup keep
  lookup-keep p k [] u = refl
  lookup-keep p k ((i, w) ∷ m) u =
      ground (arith, str_eq_iff i k, lookup-keep p k m, keep-none p i m)

  pub insert-Each {κ} :
      (P : Str → V → Type κ) (k : Str) (v : V) (m : List (Str × V))
      → P k v
      → Each P m
      → Each P (insert k v m)
  unfolding insert
  insert-Each P k v [] h e = (h, e)
  insert-Each P k v ((i, w) ∷ m) h e = elim (Bool-cases (str_eq i k)) [
    | inl c ↦ rw c (h, e.1)
    | inr c ↦ rw c (e.0, insert-Each P k v m h e.1)
  ]

  pub remove-Each {κ} :
      (P : Str → V → Type κ) (k : Str) (m : List (Str × V)) → Each P m → Each P (remove k m)
  unfolding remove
  remove-Each P k [] e = e
  remove-Each P k ((i, w) ∷ m) e = elim (Bool-cases (str_eq i k)) [
    | inl c ↦ rw c (remove-Each P k m e.1)
    | inr c ↦ rw c (e.0, remove-Each P k m e.1)
  ]

  pub keep-Each {κ} :
      (P : Str → V → Type κ) (p : Str → V → Bool) (m : List (Str × V))
      → Each P m
      → Each P (keep p m)
  unfolding keep
  keep-Each P p [] e = e
  keep-Each P p ((i, w) ∷ m) e = elim (Bool-cases (p i w)) [
    | inl c ↦ rw c (e.0, keep-Each P p m e.1)
    | inr c ↦ rw c (keep-Each P p m e.1)
  ]

  pub Each-lookup {κ} :
      (P : Str → V → Type κ) (k : Str) (m : List (Str × V)) {v : V}
      → Each P m
      → lookup k m ≡ some v
      → P k v
  unfolding lookup
  Each-lookup P k [] e h = absurd (cc)
  Each-lookup P k ((i, w) ∷ m) {v} e h = elim (Bool-cases (str_eq i k)) [
    | inl c ↦
        let same : i ≡ k = (str_eq_iff i k).0 c in
        let here : some w ≡ some v = rw c at h in
        let got : w ≡ v = cc in subst (λ x. P k x) got (subst (λ x. P x w) same e.0)
    | inr c ↦ Each-lookup P k m e.1 (rw c at h)
  ]

  pub length-insert :
      (k : Str) (v : V) (m : List (Str × V))
      → length (insert k v m) ≡ (if contains_key k m then length m else length m + 1)
  unfolding lookup insert
  length-insert k v [] = refl
  length-insert k v ((i, w) ∷ m) = ground (arith, length-insert k v m)

  pub length-remove-le : (k : Str) (m : List (Str × V)) → length (remove k m) ≤ length m
  unfolding remove
  length-remove-le k [] = omega arith
  length-remove-le k ((i, w) ∷ m) = ground (arith, length-remove-le k m)

  pub length-keep-le : (p : Str → V → Bool) (m : List (Str × V)) → length (keep p m) ≤ length m
  unfolding keep
  length-keep-le p [] = omega arith
  length-keep-le p ((i, w) ∷ m) = ground (arith, length-keep-le p m)
