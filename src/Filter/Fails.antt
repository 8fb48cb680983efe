-- ===== src/Filter/Fails.antt =====
-- src/filter/tags.rs: how the translation of tags fails, and that its loop ends on the fuel that it has.
use rail2ban.Prelude.{
  ℕ, zero, suc, ◌≤◌, ◌≡◌, refl, inl, inr, Bool-cases, ◌==◌, Option, none, some, Option-cases, [],
  ◌∷◌, Str, length, arith, split_once, strip_prefix,
}
use rail2ban.Prelude.Pieces.{split_once-shorter}
use rail2ban.Error.{Error, Result, ok, err, ◌>>=◌}
use rail2ban.Filter.Tags.{
  FTag, CompiledTag, is_single, slash_name, find, tag_named, opened, match_tag, expand_tag, found,
  compile_from, compile_tags,
}

-- Its error, if there is one, is of the regex kind.
abbrev FailsAsRegex {ℓ} : {A : Type ℓ} → Result A → Type 0
FailsAsRegex (ok a) = Unit {0}
FailsAsRegex (err e) = e ≡ Error.regex

bind-FailsAsRegex {ℓ κ} :
    {A : Type ℓ} {B : Type κ} (r : Result A) (f : A → Result B)
    → FailsAsRegex r
    → ((a : A) → FailsAsRegex (f a))
    → FailsAsRegex (r >>= f)
bind-FailsAsRegex (ok a) f h k = k a
bind-FailsAsRegex (err e) f h k = h

-- What a tag encloses and what is behind it are no longer than `n`.
abbrev Fits : ℕ → Result (Option (FTag × Str × Str)) → Type 0
Fits n (err e) = e ≡ Error.regex
Fits n (ok none) = Unit {0}
Fits n (ok (some (t, inner, behind))) = (length inner ≤ n) × (length behind ≤ n)

length-strip_prefix-le : (p s r : Str) → strip_prefix p s ≡ some r → length r ≤ length s
unfolding strip_prefix
length-strip_prefix-le [] s r h = ground arith
length-strip_prefix-le (c ∷ p) [] r h = absurd (cc h)
length-strip_prefix-le (c ∷ p) (x ∷ s) r h = elim (Bool-cases (c == x)) [
  | inl e ↦
      let shorter = length-strip_prefix-le p s r (let g = rw e at h in g) in omega (arith, shorter)
  | inr e ↦ absurd (let g = rw e at h in cc g)
]

length-find-le :
    (p s a b : Str) → find p s ≡ some (a, b) → (length a ≤ length s) × (length b ≤ length s)
unfolding find
length-find-le p [] a b h = absurd (cc h)
length-find-le p (c ∷ s) a b h = elim (Option-cases (strip_prefix p (c ∷ s))) [
  | inr (r, e) ↦
      let shorter = length-strip_prefix-le p (c ∷ s) r e in
      let same : some ([], r) ≡ some (a, b) = rw (e, find) at h in ground arith
  | inl e ↦ elim (Option-cases (find p s)) [
    | inl g ↦ absurd (let same = rw (e, find, g) at h in cc same)
    | inr ((x, y), g) ↦
        let shorter = length-find-le p s x y g in
        let same : some (c ∷ x, y) ≡ some (a, b) = rw (e, find, g) at h in ground arith
  ]
]

opened-Fits : (n : ℕ) (s : Str) (o : Option FTag) → length s ≤ n → Fits n (opened s o)
opened-Fits n s none l = tt
opened-Fits n s (some t) l = elim (Bool-cases (is_single t)) [
  | inl e ↦ rw e (omega arith, l)
  | inr e ↦ elim (Option-cases (find (b'<' ∷ slash_name t) s)) [
    | inl g ↦ rw (e, g) refl
    | inr ((a, b), g) ↦
        let (x, y) = length-find-le (b'<' ∷ slash_name t) s a b g in
        rw (e, g) (omega (arith, x, l), omega (arith, y, l))
  ]
]

match_tag-Fits : (s : Str) → Fits (length s) (match_tag s)
unfolding match_tag
match_tag-Fits s = elim (Option-cases (split_once (λ c. c == b'>') s)) [
  | inl e ↦ rw e refl
  | inr ((n, after), e) ↦
      let shorter = split_once-shorter (λ c. c == b'>') s n after e in
      rw e (opened-Fits (length s) after (tag_named n) (omega (arith, shorter)))
]

abbrev Below : (Str → Result CompiledTag) → ℕ → Type 0
Below go n = (s : Str) → length s ≤ n → FailsAsRegex (go s)

expand_tag-FailsAsRegex :
    (go : Str → Result CompiledTag) (t : FTag) (inner : Str)
    → FailsAsRegex (go inner)
    → FailsAsRegex (expand_tag go t inner)
unfolding expand_tag
expand_tag-FailsAsRegex go t inner h = elim (Bool-cases (is_single t)) [
  | inl e ↦ rw e tt
  | inr e ↦ rw e (bind-FailsAsRegex (go inner) _ h (λ c. tt))
]

found-FailsAsRegex :
    (go : Str → Result CompiledTag) (n : ℕ) (s : Str) (m : Result (Option (FTag × Str × Str)))
    → Below go n
    → length s ≤ n
    → Fits (length s) m
    → FailsAsRegex (found go s m)
unfolding found
found-FailsAsRegex go n s (err e) h l f = f
found-FailsAsRegex go n s (ok none) h l f = bind-FailsAsRegex (go s) _ (h s l) (λ r. tt)
found-FailsAsRegex go n s (ok (some (t, inner, behind))) h l f =
    bind-FailsAsRegex (expand_tag go t inner) _
      (expand_tag-FailsAsRegex go t inner (h inner (omega (arith, f.0, l))))
      (λ p. bind-FailsAsRegex (go behind) _ (h behind (omega (arith, f.1, l))) (λ r. tt))

compile_from-FailsAsRegex : (n : ℕ) → Below (compile_from n) n
unfolding compile_from
compile_from-FailsAsRegex n [] l = tt
compile_from-FailsAsRegex zero (c ∷ s) l = absurd (omega arith)
compile_from-FailsAsRegex (suc n) (c ∷ s) l = elim (Bool-cases (c == b'<')) [
  | inl e ↦ rw e (
      found-FailsAsRegex (compile_from n) n s (match_tag s) (compile_from-FailsAsRegex n)
        (omega arith) (match_tag-Fits s))
  | inr e ↦ rw e (
      bind-FailsAsRegex (compile_from n s) _ (compile_from-FailsAsRegex n s (omega arith))
        (λ r. tt))
]

-- When the tags of a text cannot be translated, the error is of the regex kind: the fuel is enough.
pub compile_tags-fails : (s : Str) (e : Error) → compile_tags s ≡ err e → e ≡ Error.regex
unfolding compile_tags
compile_tags-fails s e h =
    let fails = compile_from-FailsAsRegex (length s) s (omega arith) in
    let kind : e ≡ Error.regex = rw h at fails in kind
