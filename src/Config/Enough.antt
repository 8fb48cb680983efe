-- ===== src/Config/Enough.antt =====
-- src/config/interpolator.rs: the loop over the characters ends on the fuel that it has.
use rail2ban.Prelude.{
  ℕ, zero, suc, ◌+◌, ◌-◌, ◌≤◌, ◌<◌, ◌≡◌, refl, ap, inl, inr, Bool-cases, ◌==◌, ◌&&◌, some,
  Option-cases, [], ◌∷◌, Str, length, arith, if◌then◌else◌,
}
use rail2ban.Prelude.Pieces.{split_once-shorter}
use rail2ban.Error.{Result}
use rail2ban.Config.Interpolate.{
  InterpolationContext, read_until, read_tag, skip_s, named, percent, angle, scan,
  interpolate_inner, followed_by,
}

read_tag-shorter :
    (nested : ℕ) (s a b : Str) → read_tag nested s ≡ some (a, b) → length b < length s
unfolding read_tag
read_tag-shorter nested [] a b e = absurd (cc e)
read_tag-shorter nested (c ∷ s) a b e =
    let deeper = if c == b'<' then suc nested else if c == b'>' then nested - 1 else nested in
    elim (Bool-cases (c == b'>' && nested == 0)) [
      | inl h ↦ let same : some ([], s) ≡ some (a, b) = rw h at e in ground arith
      | inr h ↦ elim (Option-cases (read_tag deeper s)) [
        | inl none_left ↦ absurd (let gone = rw (h, none_left) at e in cc gone)
        | inr ((x, y), got) ↦
            let shorter = read_tag-shorter deeper s x y got in
            let same : some (c ∷ x, y) ≡ some (a, b) = rw (h, got) at e in ground arith
      ]
    ]

length-skip_s-le : (s : Str) → length (skip_s s) ≤ length s
length-skip_s-le [] = omega arith
length-skip_s-le (c ∷ s) = ground arith

module _ (ctx : InterpolationContext) where
  -- Two ways to go on agree on all texts up to a length.
  abbrev Same : (Str → Result Str) → (Str → Result Str) → ℕ → Type 0
  Same r q n = (t : Str) → length t ≤ n → r t ≡ q t

  named-Same :
      (go r q : Str → Result Str) (s : Str)
      → Same r q (length s)
      → named ctx go r (read_until b')' s) ≡ named ctx go q (read_until b')' s)
  unfolding read_until
  named-Same go r q s h = elim (Option-cases (read_until b')' s)) [
    | inl e ↦ rw e refl
    | inr ((name, after), e) ↦
        let shorter = split_once-shorter (λ c. c == b')') s name after e in
        rw (e, h (skip_s after) (omega (arith, shorter, length-skip_s-le after))) refl
  ]

  percent-Same :
      (go r q : Str → Result Str) (s : Str)
      → Same r q (length s)
      → percent ctx go r s ≡ percent ctx go q s
  percent-Same go r q [] h = refl
  percent-Same go r q (c ∷ s) h = elim (Bool-cases (c == b'%')) [
    | inl e ↦ rw (e, h s (omega arith)) refl
    | inr e ↦ elim (Bool-cases (c == b'(')) [
      | inl f ↦ rw (e, f) (named-Same go r q s (λ t k. h t (omega (arith, k))))
      | inr f ↦ rw (e, f) refl
    ]
  ]

  angle-Same :
      (go r q : Str → Result Str) (s : Str)
      → Same r q (length s)
      → angle ctx go r s (read_tag 0 s) ≡ angle ctx go q s (read_tag 0 s)
  angle-Same go r q s h = elim (Option-cases (read_tag 0 s)) [
    | inl e ↦ rw e refl
    | inr ((tag, after), e) ↦
        let shorter = read_tag-shorter 0 s tag after e in
        rw (e, h after (omega (arith, shorter))) refl
  ]

  scan-Same :
      (go : Str → Result Str) (n m : ℕ) (s : Str)
      → length s ≤ n
      → length s ≤ m
      → scan ctx go n s ≡ scan ctx go m s
  unfolding scan
  scan-Same go n m [] h k = refl
  scan-Same go zero m (c ∷ s) h k = absurd (ground arith)
  scan-Same go (suc n) zero (c ∷ s) h k = absurd (ground arith)
  scan-Same go (suc n) (suc m) (c ∷ s) h k =
      let rest : Same (scan ctx go n) (scan ctx go m) (length s) =
        λ t l. scan-Same go n m t (omega (arith, h, l)) (omega (arith, k, l)) in
      elim (Bool-cases (c == b'%')) [
        | inl e ↦ rw e (percent-Same go (scan ctx go n) (scan ctx go m) s rest)
        | inr e ↦ elim (Bool-cases (c == b'<')) [
          | inl f ↦ rw (e, f) (angle-Same go (scan ctx go n) (scan ctx go m) s rest)
          | inr f ↦ rw (e, f) (ap (λ r. followed_by r (c ∷ [])) (rest s (omega arith)))
        ]
      ]

  -- With any more fuel than the length of the text, the loop over the characters gives the same.
  scan-interpolate_inner :
      (left more : ℕ) (input : Str)
      → scan ctx (interpolate_inner ctx left) (length input + more) input
        ≡ interpolate_inner ctx (suc left) input
  unfolding interpolate_inner
  scan-interpolate_inner left more input =
      scan-Same (interpolate_inner ctx left) (length input + more) (length input) input
        (omega arith) (omega arith)
