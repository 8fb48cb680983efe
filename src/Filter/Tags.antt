-- ===== src/Filter/Tags.antt =====
-- src/filter/tags.rs: the `<HOST>` and `<F-...>` tags of a pattern become groups of a regex. The loop
-- over the characters runs on fuel, the length of the text. `compile_pattern` and `referenced_tags` of
-- src/filter/mod.rs, for the compiler of the regex package.
use rail2ban.Prelude.{
  ℕ, zero, suc, Bool, true, false, ◌==◌, Option, none, some, List, [], ◌∷◌, ◌++◌, Str, codes,
  length, if◌then◌else◌, split_once, strip_prefix, str_eq,
}
use rail2ban.Error.{Error, Result, ok, err, ◌>>=◌}

pub data FTag : Type 0 where
  host addr f_user f_alt_user f_nofail f_mlfid f_mlfforget f_mlfgained f_content : FTag

unfoldable pub name : FTag → Str
name host = codes "HOST"
name addr = codes "ADDR"
name f_user = codes "F-USER"
name f_alt_user = codes "F-ALT_USER"
name f_nofail = codes "F-NOFAIL"
name f_mlfid = codes "F-MLFID"
name f_mlfforget = codes "F-MLFFORGET"
name f_mlfgained = codes "F-MLFGAINED"
name f_content = codes "F-CONTENT"

pub record CompiledTag : Type 0 where
  pub pattern : Str
  pub tags : List FTag

abbrev pub host_regex : Str
host_regex = codes "(?P<host>(?:::f{4,6}:)?[\\w\\-.^_]*\\w)"

abbrev pub addr_regex : Str
addr_regex = codes "(?P<addr>[\\w\\-.^_]*)"

-- The tag of a name, in the order of the match.
abbrev first_named : Str → List FTag → Option FTag
first_named n [] = none
first_named n (t ∷ ts) = let rest = first_named n ts in if str_eq n (name t) then some t else rest

unfoldable pub tag_named : Str → Option FTag
unfolding name str_eq
tag_named n = first_named n (
    f_alt_user ∷ f_mlfforget ∷ f_mlfgained ∷ f_mlfid ∷ f_content ∷ f_nofail ∷ f_user ∷ host ∷ addr
    ∷ [])

-- The tags that have no closing.
abbrev pub is_single : FTag → Bool
is_single host = true
is_single addr = true
is_single _ = false

-- `</NAME>` behind its `<`.
abbrev pub slash_name : FTag → Str
slash_name t = b'/' ∷ name t ++ b'>' ∷ []

-- `str::find` of a text: what is before it, and what is behind it.
abbrev pub with_char : ℕ → Option (Str × Str) → Option (Str × Str)
with_char c none = none
with_char c (some (a, b)) = some (c ∷ a, b)

unfoldable pub find : Str → Str → Option (Str × Str)
unfolding strip_prefix
find p [] = none
find p (c ∷ s) = elim (strip_prefix p (c ∷ s)) [
  | none ↦ with_char c (find p s)
  | some rest ↦ some ([], rest)
]

abbrev pub closed : FTag → Option (Str × Str) → Result (Option (FTag × Str × Str))
closed t none = err Error.regex
closed t (some (inner, behind)) = ok (some (t, inner, behind))

abbrev pub opened : Str → Option FTag → Result (Option (FTag × Str × Str))
opened after none = ok none
opened after (some t) =
    if is_single t then ok (some (t, [], after)) else closed t (find (b'<' ∷ slash_name t) after)

abbrev pub up_to : Option (Str × Str) → Result (Option (FTag × Str × Str))
up_to none = err Error.regex
up_to (some (n, after)) = opened after (tag_named n)

-- Behind a `<`: the tag, what it encloses, and what is behind it.
unfoldable pub match_tag : Str → Result (Option (FTag × Str × Str))
unfolding split_once tag_named find name
match_tag s = up_to (split_once (λ c. c == b'>') s)

-- The name of a group with what stands before it.
unfoldable pub group : FTag → Str
group host = host_regex
group addr = addr_regex
group f_user = codes "(?P<user>"
group f_alt_user = codes "(?P<alt_user>"
group f_nofail = codes "(?P<nofail>"
group f_mlfid = codes "(?P<mlfid>"
group f_mlfforget = codes "(?P<mlfforget>"
group f_mlfgained = codes "(?P<mlfgained>"
group f_content = codes "(?P<content>"

-- `go` compiles what the tag encloses.
unfoldable pub expand_tag : (Str → Result CompiledTag) → FTag → Str → Result Str
unfolding group
expand_tag go t inner =
    if is_single t then ok (group t) else go inner >>= λ c. ok (group t ++ c.pattern ++ b')' ∷ [])

abbrev pub pushed : ℕ → CompiledTag → Result CompiledTag
pushed c r = ok (record r { pattern = c ∷ r.pattern })

abbrev pub in_front : FTag → Str → CompiledTag → Result CompiledTag
in_front t p r = ok (record { pattern = p ++ r.pattern; tags = t ∷ r.tags })

-- Behind a `<`, with what a tag there may be.
unfoldable pub found :
    (Str → Result CompiledTag) → Str → Result (Option (FTag × Str × Str)) → Result CompiledTag
unfolding expand_tag
found go s (err e) = err e
found go s (ok none) = go s >>= pushed b'<'
found go s (ok (some (t, inner, behind))) =
    expand_tag go t inner >>= λ p. go behind >>= in_front t p

unfoldable pub compile_from : ℕ → Str → Result CompiledTag
unfolding found match_tag
compile_from fuel [] = ok (record { pattern = []; tags = [] })
compile_from zero (c ∷ s) = err Error.other
compile_from (suc fuel) (c ∷ s) =
    if c == b'<'
    then found (compile_from fuel) s (match_tag s)
    else compile_from fuel s >>= pushed c

unfoldable pub compile_tags : Str → Result CompiledTag
unfolding compile_from
compile_tags s = compile_from (length s) s

-- `Regex::new`, with its error as one of the regex kind.
abbrev pub made : {R : Type 0} → Option R → Result R
made none = err Error.regex
made (some r) = ok r

unfoldable pub compile_pattern : {R : Type 0} → (Str → Option R) → Str → Result R
unfolding compile_tags
compile_pattern regex_new s = compile_tags s >>= λ c. made (regex_new c.pattern)

unfoldable pub referenced_tags : Str → List FTag
unfolding compile_tags
referenced_tags s = elim (compile_tags s) [ ok c ↦ c.tags | err e ↦ [] ]
