-- ===== src/Config/Interpolate.antt =====
-- src/config/interpolator.rs: `%(name)s` and `<tag>` in the values. The loop over the characters runs on
-- fuel, the length of the text. The set `visited` is handed on by the source and never read.
use rail2ban.Prelude.{
  ℕ, zero, suc, ◌-◌, ◌&&◌, ◌==◌, Option, none, some, and_then, or_option, unwrap_or, List, [], ◌∷◌,
  ◌++◌, Str, codes, length, any, if◌then◌else◌, trim, split_once, strip_prefix,
}
use rail2ban.Prelude.Dict
use rail2ban.Error.{Error, Result, ok, err, ◌>>=◌}
use rail2ban.Config.Ini.{IniDocument, section, get}

abbrev pub max_depth : ℕ
max_depth = 10

pub record InterpolationContext : Type 0 where
  pub doc : IniDocument
  pub defaults : List (Str × Str)
  pub builtins : List (Str × Str)
  pub current_section : Option Str
  pub init : List (Str × Str)
  pub known : List (Str × Str)

-- The text up to a character, and what is behind it.
unfoldable pub read_until : ℕ → Str → Option (Str × Str)
unfolding split_once
read_until end s = split_once (λ c. c == end) s

abbrev pub ok_or : Option Str → Result Str
ok_or none = err Error.config
ok_or (some v) = ok v

-- The value of a key in a section of the document.
unfoldable pub in_section : InterpolationContext → Str → Str → Option Str
unfolding section get
in_section ctx name key = and_then (section ctx.doc name) (λ sec. get sec key)

abbrev pub in_current : InterpolationContext → Str → Option Str → Option Str
in_current ctx key none = none
in_current ctx key (some name) = in_section ctx name key

abbrev pub plain_key : InterpolationContext → Str → Option (Str × Str) → Result Str
plain_key ctx key (some (name, parameter)) = ok_or (in_section ctx name parameter)
plain_key ctx key none = ok_or (
    or_option (in_current ctx key ctx.current_section)
      (or_option (Dict.lookup key ctx.defaults) (Dict.lookup key ctx.builtins)))

abbrev pub known_key : InterpolationContext → Str → Option Str → Result Str
known_key ctx key (some rest) =
    ok_or (or_option (Dict.lookup rest ctx.known) (Dict.lookup rest ctx.init))
known_key ctx key none = plain_key ctx key (split_once (λ c. c == b'/') key)

abbrev pub default_key : InterpolationContext → Str → Option Str → Result Str
default_key ctx key (some rest) =
    ok_or (or_option (Dict.lookup rest ctx.defaults) (Dict.lookup rest ctx.builtins))
default_key ctx key none = known_key ctx key (strip_prefix (codes "known/") key)

unfoldable pub lookup_percent : Str → InterpolationContext → Result Str
unfolding in_section Dict.lookup split_once strip_prefix
lookup_percent key ctx = default_key ctx key (strip_prefix (codes "default/") key)

-- `<lt_…/…>` and `<ipt_…/…>`: the section is chosen by the value of a variable, or by its name.
abbrev pub dynamic : InterpolationContext → Str → Option (Str × Str) → Result (Option Str)
dynamic ctx prefix none = err Error.config
dynamic ctx prefix (some (name, parameter)) =
    let chosen =
      unwrap_or (or_option (Dict.lookup name ctx.init) (Dict.lookup name ctx.defaults)) name in
    ok (some (unwrap_or (in_section ctx (prefix ++ chosen) parameter) []))

abbrev pub ipt_tag : InterpolationContext → Str → Option Str → Result (Option Str)
ipt_tag ctx tag (some rest) = dynamic ctx (codes "ipt_") (split_once (λ c. c == b'/') rest)
ipt_tag ctx tag none = ok (
    or_option (Dict.lookup tag ctx.init)
      (or_option (Dict.lookup tag ctx.defaults) (Dict.lookup tag ctx.builtins)))

abbrev pub lt_tag : InterpolationContext → Str → Option Str → Result (Option Str)
lt_tag ctx tag (some rest) = dynamic ctx (codes "lt_") (split_once (λ c. c == b'/') rest)
lt_tag ctx tag none = ipt_tag ctx tag (strip_prefix (codes "ipt_") tag)

abbrev pub known_tag : InterpolationContext → Str → Option Str → Result (Option Str)
known_tag ctx tag (some rest) =
    ok_or (or_option (Dict.lookup rest ctx.init) (Dict.lookup rest ctx.known)) >>= λ v. ok (some v)
known_tag ctx tag none = lt_tag ctx tag (strip_prefix (codes "lt_") tag)

-- `go` interpolates one level deeper.
unfoldable pub lookup_tag : (Str → Result Str) → Str → InterpolationContext → Result (Option Str)
unfolding in_section Dict.lookup split_once strip_prefix any
lookup_tag go tag ctx = (if any (λ c. c == b'<') tag then go tag else ok tag) >>= λ t.
    known_tag ctx t (strip_prefix (codes "known/") t)

-- The text of a tag up to its `>`, with the tags in it, and what is behind it.
abbrev pub tagged : ℕ → Option (Str × Str) → Option (Str × Str)
tagged c none = none
tagged c (some (tag, after)) = some (c ∷ tag, after)

unfoldable pub read_tag : ℕ → Str → Option (Str × Str)
read_tag nested [] = none
read_tag nested (c ∷ cs) =
    let deeper = if c == b'<' then suc nested else if c == b'>' then nested - 1 else nested in
    let rest = read_tag deeper cs in
    if c == b'>' && nested == 0 then some ([], cs) else tagged c rest

abbrev pub skip_s : Str → Str
skip_s [] = []
skip_s (c ∷ cs) = if c == b's' then cs else c ∷ cs

-- `push_str` in front of what the rest of the loop gives.
abbrev pub followed_by : Result Str → Str → Result Str
followed_by rest pushed = rest >>= λ r. ok (pushed ++ r)

abbrev pub open_paren : Str → Option Str
open_paren [] = none
open_paren (c ∷ cs) = if c == b'(' then some cs else none

module _ (ctx : InterpolationContext) where
  abbrev pub named : (Str → Result Str) → (Str → Result Str) → Option (Str × Str) → Result Str
  named go rest none = err Error.config
  named go rest (some (name, after)) =
      (lookup_percent (trim name) ctx >>= go) >>= followed_by (rest (skip_s after))

  -- Behind a `%`.
  abbrev pub percent : (Str → Result Str) → (Str → Result Str) → Str → Result Str
  percent go rest [] = err Error.config
  percent go rest (c ∷ cs) =
      if c == b'%'
      then followed_by (rest cs) (b'%' ∷ [])
      else if c == b'('
      then named go rest (read_until b')' cs)
      else err Error.config

  abbrev pub resolved : (Str → Result Str) → Str → Option Str → Result Str
  resolved go tag none = ok (b'<' ∷ tag ++ b'>' ∷ [])
  resolved go tag (some value) = go value

  -- Behind a `<`; without its `>`, all that is left is literal.
  abbrev pub angle : (Str → Result Str) → (Str → Result Str) → Str → Option (Str × Str) → Result Str
  angle go rest cs none = ok (b'<' ∷ cs)
  angle go rest cs (some (tag, after)) =
      (lookup_tag go tag ctx >>= resolved go tag) >>= followed_by (rest after)

  unfoldable pub scan : (Str → Result Str) → ℕ → Str → Result Str
  unfolding lookup_percent lookup_tag read_until read_tag trim
  scan go fuel [] = ok []
  scan go zero (c ∷ cs) = err Error.other
  scan go (suc fuel) (c ∷ cs) =
      if c == b'%'
      then percent go (scan go fuel) cs
      else if c == b'<'
      then angle go (scan go fuel) cs (read_tag 0 cs)
      else followed_by (scan go fuel cs) (c ∷ [])

  -- With what is left of the depth; none is left past `max_depth`.
  unfoldable pub interpolate_inner : ℕ → Str → Result Str
  unfolding scan
  interpolate_inner zero input = err Error.config
  interpolate_inner (suc left) input = scan (interpolate_inner left) (length input) input

  unfoldable pub interpolate : Str → Result Str
  unfolding interpolate_inner
  interpolate input = interpolate_inner (suc max_depth) input
