-- ===== src/Filter/Patterns.antt =====
-- src/filter/tags.rs: patterns as trees of characters and tags, and what they are compiled to.
use rail2ban.Prelude.{
  ℕ, zero, suc, ◌≤◌, ◌≡◌, refl, ap, ◌∙◌, inl, inr, Bool-cases, true, false, ◌==◌, none, some,
  Option-cases, List, [], ◌∷◌, ◌++◌, Str, length, length-append, any, arith, split_once,
  strip_prefix, str_eq, ==_iff,
}
use rail2ban.Prelude.Pieces.{Lacks, any-Lacks}
use rail2ban.Error.{ok}
use rail2ban.Filter.Tags.{
  FTag, host, addr, f_user, f_alt_user, f_nofail, f_mlfid, f_mlfforget, f_mlfgained, f_content,
  CompiledTag, name, tag_named, is_single, slash_name, with_char, find, match_tag, group,
  expand_tag, found, compile_from, compile_tags,
}

-- A tree: characters, a `<` that opens no tag, tags alone and tags around a pattern.
pub data Pattern : Type 0 where
  done : Pattern
  char : ℕ → Pattern → Pattern
  angle : Pattern → Pattern
  single : FTag → Pattern → Pattern
  pair : FTag → Pattern → Pattern → Pattern

-- How it is written.
unfoldable pub print : Pattern → Str
unfolding name
print done = []
print (char c p) = c ∷ print p
print (angle p) = b'<' ∷ print p
print (single t p) = b'<' ∷ name t ++ b'>' ∷ print p
print (pair t q p) = b'<' ∷ name t ++ b'>' ∷ (print q ++ ((b'<' ∷ slash_name t) ++ print p))

-- What it means.
unfoldable pub regex : Pattern → Str
unfolding group
regex done = []
regex (char c p) = c ∷ regex p
regex (angle p) = b'<' ∷ regex p
regex (single t p) = group t ++ regex p
regex (pair t q p) = (group t ++ regex q ++ b')' ∷ []) ++ regex p

-- The tags that stand in no other.
unfoldable pub outer_tags : Pattern → List FTag
outer_tags done = []
outer_tags (char c p) = outer_tags p
outer_tags (angle p) = outer_tags p
outer_tags (single t p) = t ∷ outer_tags p
outer_tags (pair t q p) = t ∷ outer_tags p

-- A `<` is written only by `angle`, where what follows it names no tag but has its `>`, and what a tag
-- encloses does not have the tag's own closing.
unfoldable pub IsValid : Pattern → Type 0
unfolding match_tag find print
IsValid done = Unit {0}
IsValid (char c p) = ((c == b'<') ≡ false) × IsValid p
IsValid (angle p) = (match_tag (print p) ≡ ok none) × IsValid p
IsValid (single t p) = (is_single t ≡ true) × IsValid p
IsValid (pair t q p) =
    (is_single t ≡ false) × (find (b'<' ∷ slash_name t) (print q) ≡ none) × IsValid q × IsValid p

unfoldable pub compiled : Pattern → CompiledTag
unfolding regex outer_tags
compiled p = record { pattern = regex p; tags = outer_tags p }

split_once-name :
    (t : FTag) (r : Str) → split_once (λ c. c == b'>') (name t ++ b'>' ∷ r) ≡ some (name t, r)
unfolding split_once name
split_once-name host r = refl
split_once-name addr r = refl
split_once-name f_user r = refl
split_once-name f_alt_user r = refl
split_once-name f_nofail r = refl
split_once-name f_mlfid r = refl
split_once-name f_mlfforget r = refl
split_once-name f_mlfgained r = refl
split_once-name f_content r = refl

tag_named-name : (t : FTag) → tag_named (name t) ≡ some t
unfolding tag_named name str_eq
tag_named-name host = refl
tag_named-name addr = refl
tag_named-name f_user = refl
tag_named-name f_alt_user = refl
tag_named-name f_nofail = refl
tag_named-name f_mlfid = refl
tag_named-name f_mlfforget = refl
tag_named-name f_mlfgained = refl
tag_named-name f_content = refl

slash_name-any : (t : FTag) → any (λ c. c == b'<') (slash_name t) ≡ false
unfolding name any
slash_name-any host = refl
slash_name-any addr = refl
slash_name-any f_user = refl
slash_name-any f_alt_user = refl
slash_name-any f_nofail = refl
slash_name-any f_mlfid = refl
slash_name-any f_mlfforget = refl
slash_name-any f_mlfgained = refl
slash_name-any f_content = refl

slash_name-Lacks : (t : FTag) → Lacks (λ c. c == b'<') (slash_name t)
slash_name-Lacks t = any-Lacks (λ c. c == b'<') (slash_name t) (slash_name-any t)

strip_prefix-append : (p r : Str) → strip_prefix p (p ++ r) ≡ some r
unfolding strip_prefix
strip_prefix-append [] r = refl
strip_prefix-append (c ∷ p) r = rw ((==_iff c c).1 refl) (strip_prefix-append p r)

-- A text that is not at the start is not there either when it may go on behind a `<`.
strip_prefix-none :
    (p a r : Str)
    → Lacks (λ c. c == b'<') p
    → strip_prefix p a ≡ none
    → strip_prefix p (a ++ b'<' ∷ r) ≡ none
unfolding strip_prefix
strip_prefix-none [] a r l h = absurd (cc h)
strip_prefix-none (c ∷ p) [] r l h = rw l.0 refl
strip_prefix-none (c ∷ p) (x ∷ a) r l h = elim (Bool-cases (c == x)) [
  | inl e ↦ rw e (strip_prefix-none p a r l.1 (let g = rw e at h in g))
  | inr e ↦ rw e refl
]

find-later :
    (p s : Str) (c : ℕ) → strip_prefix p (c ∷ s) ≡ none → find p (c ∷ s) ≡ with_char c (find p s)
unfolding find
find-later p s c e = rw (e, find) refl

find-here : (p s r : Str) (c : ℕ) → strip_prefix p (c ∷ s) ≡ some r → find p (c ∷ s) ≡ some ([], r)
unfolding find
find-here p s r c e = rw (e, find) refl

find-none :
    (p s : Str) (c : ℕ)
    → find p (c ∷ s) ≡ none
    → (strip_prefix p (c ∷ s) ≡ none) × (find p s ≡ none)
find-none p s c h = elim (Option-cases (strip_prefix p (c ∷ s))) [
  | inr (x, e) ↦ absurd (cc (h, find-here p s x c e))
  | inl e ↦ elim (Option-cases (find p s)) [
    | inr (x, g) ↦ absurd (let k = find-later p s c e in let z = rw (k, g) at h in cc z)
    | inl g ↦ (e, g)
  ]
]

strip_prefix-later :
    (p a r : Str) (x : ℕ)
    → Lacks (λ c. c == b'<') p
    → strip_prefix (b'<' ∷ p) (x ∷ a) ≡ none
    → strip_prefix (b'<' ∷ p) (x ∷ a ++ b'<' ∷ r) ≡ none
unfolding strip_prefix
strip_prefix-later p a r x l h = elim (Bool-cases (b'<' == x)) [
  | inl e ↦ rw e (strip_prefix-none p a r l (let g = rw e at h in g))
  | inr e ↦ rw e refl
]

-- The first closing behind a text that has none is the one that follows it.
find-append :
    (p a r : Str)
    → Lacks (λ c. c == b'<') p
    → find (b'<' ∷ p) a ≡ none
    → find (b'<' ∷ p) (a ++ ((b'<' ∷ p) ++ r)) ≡ some (a, r)
find-append p [] r l h = find-here (b'<' ∷ p) (p ++ r) r b'<' (strip_prefix-append (b'<' ∷ p) r)
find-append p (c ∷ a) r l h =
    let (here, later) = find-none (b'<' ∷ p) a c h in
    find-later (b'<' ∷ p) (a ++ ((b'<' ∷ p) ++ r)) c (strip_prefix-later p a (p ++ r) c l here)
    ∙ ap (with_char c) (find-append p a r l later)

match_tag-single :
    (t : FTag) (r : Str)
    → is_single t ≡ true
    → match_tag (name t ++ b'>' ∷ r) ≡ ok (some (t, [], r))
unfolding match_tag
match_tag-single t r h = rw (split_once-name t r, tag_named-name t, h) refl

match_tag-pair :
    (t : FTag) (inner r : Str)
    → is_single t ≡ false
    → find (b'<' ∷ slash_name t) inner ≡ none
    → match_tag (name t ++ b'>' ∷ (inner ++ ((b'<' ∷ slash_name t) ++ r))) ≡ ok (some (t, inner, r))
unfolding match_tag
match_tag-pair t inner r h k =
    rw
      (
        split_once-name t (inner ++ ((b'<' ∷ slash_name t) ++ r)),
        tag_named-name t,
        h,
        find-append (slash_name t) inner r (slash_name-Lacks t) k,
      )
      refl

length-tail : (a r : Str) → length r ≤ length (a ++ r)
length-tail a r = omega (arith, length-append a r)

-- With fuel for its characters a pattern is compiled to what it means.
compile_from-print :
    (p : Pattern) (n : ℕ)
    → IsValid p
    → length (print p) ≤ n
    → compile_from n (print p) ≡ ok (compiled p)
unfolding compile_from found expand_tag print IsValid compiled
compile_from-print done n v l = refl
compile_from-print (char c p) zero v l = absurd (omega arith)
compile_from-print (char c p) (suc n) v l = rw (v.0, compile_from-print p n v.1 (omega arith)) refl
compile_from-print (angle p) zero v l = absurd (omega arith)
compile_from-print (angle p) (suc n) v l = rw (v.0, compile_from-print p n v.1 (omega arith)) refl
compile_from-print (single t p) zero v l = absurd (omega arith)
compile_from-print (single t p) (suc n) v l =
    rw
      (
        match_tag-single t (print p) v.0,
        v.0,
        compile_from-print p n v.1 (omega (arith, length-tail (name t) (b'>' ∷ print p))),
      )
      refl
compile_from-print (pair t q p) zero v l = absurd (omega arith)
compile_from-print (pair t q p) (suc n) v l =
    let closing = (b'<' ∷ slash_name t) ++ print p in
    let outside = length-tail (name t) (b'>' ∷ (print q ++ closing)) in
    let split = length-append (print q) closing in
    let behind = length-tail (b'<' ∷ slash_name t) (print p) in
    rw
      (
        match_tag-pair t (print q) (print p) v.0 v.1,
        v.0,
        compile_from-print q n v.2 (omega (arith, l, outside, split)),
        compile_from-print p n v.3 (omega (arith, l, outside, split, behind)),
      )
      refl

-- A valid pattern, as it is written, is compiled to the regex in which each of its tags, at any depth,
-- is a group of that tag around what it encloses, with the tags that stand in no other in their order.
pub compile_tags-print :
    (p : Pattern)
    → IsValid p
    → compile_tags (print p) ≡ ok (record { pattern = regex p; tags = outer_tags p })
unfolding compile_tags compiled
compile_tags-print p v = compile_from-print p (length (print p)) v (omega arith)
