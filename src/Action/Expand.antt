-- ===== src/Action/Expand.antt =====
-- src/action/mod.rs: what `expand_command` makes of a template.
use rail2ban.Prelude.{
  ℕ, zero, suc, ◌≡◌, refl, ap, ◌∙◌, Bool, false, Option, none, some, List, [], ◌∷◌, ◌++◌, Str,
  arith, ◌==◌, any, length,
}
use rail2ban.Action.{BanContext, until_close, tag_at, expand_from, expand_command, lookup_tag}

-- Whether a character occurs in a text.
abbrev pub has : ℕ → Str → Bool
has c s = any (λ d. d == c) s

until_close-append :
    (tag rest : Str) → has b'>' tag ≡ false → until_close (tag ++ b'>' ∷ rest) ≡ some tag
unfolding until_close any
until_close-append [] rest h = refl
until_close-append (c ∷ tag) rest h =
    let found = until_close-append tag rest (ground arith) in ground arith

-- The characters of a tag, and the one that closes it, are passed over.
expand_from-skip :
    (value : Str → Option Str) (tag : Str) (c : ℕ) (rest : Str)
    → expand_from value (suc (length tag)) (tag ++ c ∷ rest) ≡ expand_from value zero rest
unfolding expand_from
expand_from-skip value [] c rest = refl
expand_from-skip value (d ∷ tag) c rest = expand_from-skip value tag c rest

expand_from-plain :
    (value : Str → Option Str) (pre rest : Str)
    → has b'<' pre ≡ false
    → expand_from value zero (pre ++ rest) ≡ pre ++ expand_from value zero rest
unfolding expand_from tag_at any
expand_from-plain value [] rest h = refl
expand_from-plain value (c ∷ pre) rest h =
    let plain : (c == b'<') ≡ false = ground arith in
    let others : has b'<' pre ≡ false = ground arith in
    rw (expand_from, tag_at, plain) (ap (λ s. c ∷ s) (expand_from-plain value pre rest others))

expand_from-tag :
    (value : Str → Option Str) (tag v rest : Str)
    → has b'>' tag ≡ false
    → value tag ≡ some v
    → expand_from value zero (b'<' ∷ tag ++ b'>' ∷ rest) ≡ v ++ expand_from value zero rest
unfolding expand_from tag_at
expand_from-tag value tag v rest closed known =
    rw (expand_from, tag_at, until_close-append tag rest closed, known)
      (ap (λ s. v ++ s) (expand_from-skip value tag b'>' rest))

expand_from-unknown :
    (value : Str → Option Str) (tag rest : Str)
    → has b'>' tag ≡ false
    → value tag ≡ none
    → expand_from value zero (b'<' ∷ tag ++ b'>' ∷ rest)
      ≡ b'<' ∷ expand_from value zero (tag ++ b'>' ∷ rest)
unfolding expand_from
expand_from-unknown value tag rest closed unknown =
    rw (expand_from, tag_at, until_close-append tag rest closed, unknown) refl

-- The first tag of a template, if it has a value, is replaced by it, where no `<` stands before it and
-- no `>` within, and the rest is expanded behind it; the value itself is not expanded again.
pub expand_command-tag :
    (init : List (Str × Str)) (jail : Str) (ctx : Option BanContext) (pre tag v rest : Str)
    → has b'<' pre ≡ false
    → has b'>' tag ≡ false
    → lookup_tag tag init jail ctx ≡ some v
    → expand_command (pre ++ (b'<' ∷ (tag ++ b'>' ∷ rest))) init jail ctx
      ≡ pre ++ (v ++ expand_command rest init jail ctx)
unfolding expand_command
expand_command-tag init jail ctx pre tag v rest plain closed known =
    let value = λ (t : Str). lookup_tag t init jail ctx in
    expand_from-plain value pre (b'<' ∷ tag ++ b'>' ∷ rest) plain
    ∙ ap (λ s. pre ++ s) (expand_from-tag value tag v rest closed known)

-- A first tag that has no value, with no `<` before it and neither `<` nor `>` within, stays in the text
-- as it is written.
pub expand_command-unknown :
    (init : List (Str × Str)) (jail : Str) (ctx : Option BanContext) (pre tag rest : Str)
    → has b'<' pre ≡ false
    → has b'<' tag ≡ false
    → has b'>' tag ≡ false
    → lookup_tag tag init jail ctx ≡ none
    → expand_command (pre ++ (b'<' ∷ (tag ++ b'>' ∷ rest))) init jail ctx
      ≡ pre ++ (b'<' ∷ (tag ++ b'>' ∷ expand_command rest init jail ctx))
unfolding expand_command expand_from tag_at
expand_command-unknown init jail ctx pre tag rest plain bare closed unknown =
    let value = λ (t : Str). lookup_tag t init jail ctx in
    expand_from-plain value pre (b'<' ∷ tag ++ b'>' ∷ rest) plain
    ∙ ap (λ s. pre ++ s)
        (expand_from-unknown value tag rest closed unknown
          ∙ ap (λ s. b'<' ∷ s)
              (expand_from-plain value tag (b'>' ∷ rest) bare
                ∙ ap (λ s. tag ++ s) (closing value rest)))
  where
    closing :
        (value : Str → Option Str) (rest : Str)
        → expand_from value zero (b'>' ∷ rest) ≡ b'>' ∷ expand_from value zero rest
    closing value rest = refl
