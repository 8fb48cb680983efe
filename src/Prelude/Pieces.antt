-- ===== src/Prelude/Pieces.antt =====
-- `str::split` and `str::trim` on texts of a known shape.
use Prim.Native.Nat.{ℕ, ◌<◌}
use mathlib.Core.Option.{some}
use mathlib.Core.Path.{◌≡◌, refl, ap, ◌∙◌}
use mathlib.Core.Logic.{inl, inr}
use mathlib.Core.Bool.{Bool, true, false}
use mathlib.Core.List.{List, [], ◌∷◌, ◌++◌, reverse_aux, reverse, reverse-reverse}
use native.Mathlib.Omega.{arith}
use rail2ban.Prelude.Tests.{Bool-cases, Option-cases}
use rail2ban.Prelude.Lists.{All, any, length}
use rail2ban.Prelude.Text.{Str, is_whitespace, trim_start, trim, split, split_once}

-- No whitespace at all.
abbrev pub Solid : Str → Type 0
Solid s = All (λ c. is_whitespace c ≡ false) s

-- No character passes the test.
abbrev pub Lacks : (ℕ → Bool) → Str → Type 0
Lacks p s = All (λ c. p c ≡ false) s

pub any-Lacks : (p : ℕ → Bool) (s : Str) → any p s ≡ false → Lacks p s
unfolding any
any-Lacks p [] h = tt
any-Lacks p (c ∷ s) h = (ground arith, any-Lacks p s (ground arith))

pub Lacks-append : (p : ℕ → Bool) (a b : Str) → Lacks p a → Lacks p b → Lacks p (a ++ b)
Lacks-append p [] b h k = k
Lacks-append p (c ∷ a) b h k = (h.0, Lacks-append p a b h.1 k)

trim_start-Solid : (s : Str) → Solid s → trim_start s ≡ s
unfolding trim_start
trim_start-Solid [] h = refl
trim_start-Solid (c ∷ cs) h = rw h.0 refl

reverse_aux-Solid : (a b : Str) → Solid a → Solid b → Solid (reverse_aux a b)
reverse_aux-Solid [] b h k = k
reverse_aux-Solid (c ∷ a) b h k = reverse_aux-Solid a (c ∷ b) h.1 (h.0, k)

pub trim-Solid : (s : Str) → Solid s → trim s ≡ s
unfolding trim
trim-Solid s h =
    ap (λ t. reverse (trim_start (reverse t))) (trim_start-Solid s h)
    ∙ ap reverse (trim_start-Solid (reverse s) (reverse_aux-Solid s [] h tt))
    ∙ reverse-reverse s

pub trim-space : (s : Str) → trim (b' ' ∷ s) ≡ trim s
unfolding trim trim_start is_whitespace
trim-space s = refl

split-some : (p : ℕ → Bool) (s : Str) → (q : Str) × (qs : List Str) × (split p s ≡ q ∷ qs)
unfolding split
split-some p [] = ([], [], refl)
split-some p (c ∷ s) = elim (Bool-cases (p c)) [
  | inl h ↦ ([], split p s, rw h refl)
  | inr h ↦ let (q, qs, e) = split-some p s in (c ∷ q, qs, rw (h, e) refl)
]

pub split-Lacks : (p : ℕ → Bool) (s : Str) → Lacks p s → split p s ≡ s ∷ []
unfolding split
split-Lacks p [] h = refl
split-Lacks p (c ∷ s) h = rw (h.0, split-Lacks p s h.1) refl

-- The pieces before and after a separator.
pub split-append :
    (p : ℕ → Bool) (a b : Str) (c : ℕ) → p c ≡ true → split p (a ++ c ∷ b) ≡ split p a ++ split p b
unfolding split
split-append p [] b c h = rw h refl
split-append p (x ∷ a) b c h =
    let (q, qs, e) = split-some p a in
    elim (Bool-cases (p x)) [
      | inl k ↦ rw (k, split-append p a b c h) refl
      | inr k ↦ rw (k, split-append p a b c h, e) refl
    ]

pub split_once-append :
    (p : ℕ → Bool) (a b : Str) (c : ℕ)
    → Lacks p a
    → p c ≡ true
    → split_once p (a ++ c ∷ b) ≡ some (a, b)
unfolding split_once
split_once-append p [] b c l h = rw h refl
split_once-append p (x ∷ a) b c l h = rw (l.0, split_once-append p a b c l.1 h) refl

-- What is behind the cut is shorter than the text.
pub split_once-shorter :
    (p : ℕ → Bool) (s a b : Str) → split_once p s ≡ some (a, b) → length b < length s
unfolding split_once
split_once-shorter p [] a b e = absurd (cc e)
split_once-shorter p (c ∷ s) a b e = elim (Bool-cases (p c)) [
  | inl h ↦ let same : some ([], s) ≡ some (a, b) = rw h at e in ground arith
  | inr h ↦ elim (Option-cases (split_once p s)) [
    | inl none_left ↦ absurd (ground arith)
    | inr ((x, y), got) ↦
        let shorter = split_once-shorter p s x y got in
        let same : some (c ∷ x, y) ≡ some (a, b) = rw (h, got) at e in ground arith
  ]
]
