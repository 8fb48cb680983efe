-- ===== src/Config/Specs.antt =====
-- src/config/jail.rs and src/config/loader.rs: specs such as `name[key=value, …]`, and truth values.
-- `split_top_level`, `strip_quotes` and the loop over the parameters stand in both files.
use rail2ban.Prelude.{
  ℕ, Bool, true, false, not, ◌&&◌, ◌==◌, Option, none, some, map_option, or_option, unwrap_or, List,
  [], ◌∷◌, map, Str, str_eq, codes, any, to_ascii_lowercase, if◌then◌else◌, trim, cut, split_once,
}
use rail2ban.Prelude.Dict
use rail2ban.Error.{Error, Result, ok, err, ◌>>=◌}

-- The text before the last character that passes a test.
unfoldable pub before_last : (ℕ → Bool) → Str → Option Str
before_last p [] = none
before_last p (c ∷ cs) =
    or_option (map_option (λ s. c ∷ s) (before_last p cs)) (if p c then some [] else none)

-- A comma inside double quotes does not split.
unfoldable pub split_quoted : ℕ → Bool → Str → List Str
split_quoted sep in_quote [] = [] ∷ []
split_quoted sep in_quote (c ∷ cs) =
    let rest = split_quoted sep (if c == b'"' then not in_quote else in_quote) cs in
    if c == b'"' then cut false c rest else cut (c == sep && not in_quote) c rest

unfoldable pub split_top_level : Str → ℕ → List Str
unfolding split_quoted
split_top_level s sep = split_quoted sep false s

-- The text before a last character.
unfoldable pub without_last : ℕ → Str → Option Str
without_last q [] = none
without_last q (c ∷ []) = if c == q then some [] else none
without_last q (c ∷ d ∷ cs) = map_option (λ s. c ∷ s) (without_last q (d ∷ cs))

unfoldable pub inside : ℕ → Str → Option Str
unfolding without_last
inside q [] = none
inside q (c ∷ cs) = if c == q then without_last q cs else none

unfoldable pub strip_quotes : Str → Str
unfolding inside
strip_quotes s = unwrap_or (or_option (inside b'"' s) (inside b'\'' s)) s

abbrev pub with_param : List (Str × Str) → Option (Str × Str) → Result (List (Str × Str))
with_param params none = err Error.config
with_param params (some (k, v)) = ok (Dict.insert (trim k) (strip_quotes (trim v)) params)

abbrev pub one_param : List (Str × Str) → Str → Result (List (Str × Str))
one_param params [] = ok params
one_param params (c ∷ cs) = with_param params (split_once (λ d. d == b'=') (c ∷ cs))

unfoldable pub params_from : List Str → List (Str × Str) → Result (List (Str × Str))
unfolding trim split_once Dict.insert strip_quotes
params_from [] params = ok params
params_from (kv ∷ rest) params = one_param params (trim kv) >>= params_from rest

-- Behind the `[`.
abbrev pub bracketed : Option Str → Result (List (Str × Str))
bracketed none = err Error.config
bracketed (some body) = params_from (split_top_level body b',') []

abbrev pub filter_spec : Str → Option (Str × Str) → Result (Str × List (Str × Str))
filter_spec spec none = ok (spec, [])
filter_spec spec (some (name, rest)) =
    bracketed (before_last (λ c. c == b']') rest) >>= λ params. ok (trim name, params)

unfoldable pub parse_filter_spec : Str → Result (Str × List (Str × Str))
unfolding trim split_once before_last params_from split_top_level
parse_filter_spec spec = filter_spec (trim spec) (split_once (λ c. c == b'[') (trim spec))

abbrev pub name_in : Str → Option (Str × Str) → Str
name_in spec none = spec
name_in spec (some (name, rest)) = trim name

unfoldable pub action_name : Str → Str
unfolding trim split_once
action_name spec = name_in (trim spec) (split_once (λ c. c == b'[') (trim spec))

abbrev pub params_in : Option (Str × Str) → Result (List (Str × Str))
params_in none = ok []
params_in (some (name, rest)) = bracketed (before_last (λ c. c == b']') rest)

unfoldable pub action_params : Str → Result (List (Str × Str))
unfolding trim split_once before_last params_from split_top_level
action_params spec = params_in (split_once (λ c. c == b'[') (trim spec))

abbrev truths : List Str
truths = codes "true" ∷ codes "yes" ∷ codes "on" ∷ codes "1" ∷ []

abbrev falsehoods : List Str
falsehoods = codes "false" ∷ codes "no" ∷ codes "off" ∷ codes "0" ∷ []

unfoldable pub parse_bool : Str → Result Bool
unfolding trim to_ascii_lowercase any str_eq
parse_bool s =
    let word = map to_ascii_lowercase (trim s) in
    if any (str_eq word) truths
    then ok true
    else if any (str_eq word) falsehoods
    then ok false
    else err Error.config
