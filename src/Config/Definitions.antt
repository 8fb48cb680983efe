-- ===== src/Config/Definitions.antt =====
-- src/config/filter.rs and src/config/action.rs: a definition, its parameters and interpolation make the
-- settings of a filter or an action.
use rail2ban.Prelude.{
  ℕ, Bool, true, false, not, ◌==◌, Option, none, some, map_option, and_then, unwrap_or, List, [],
  ◌∷◌, ◌++◌, map, Str, str_eq, codes, retain, leb, if◌then◌else◌, trim, split, strip_suffix, lines,
}
use rail2ban.Prelude.Dict
use rail2ban.Error.{Error, Result, ok, err}
use rail2ban.Time.{parse_u64}
use rail2ban.Action.{ActionConfig}
use rail2ban.Config.Ini.{IniSection, IniDocument, get, section, sections_named}
use rail2ban.Config.Interpolate.{InterpolationContext, interpolate}
use rail2ban.Config.Specs.{parse_bool}

pub record FilterConfig : Type 0 where
  pub name : Str
  pub prefregex : Option Str
  pub failregex : List Str
  pub ignoreregex : List Str
  pub datepattern : Option Str
  pub maxlines : ℕ
  pub logtype : Str
  pub journalmatch : List Str
  pub init : List (Str × Str)

-- A `FilterDefinition` or an `ActionDefinition`, which have the same fields.
pub record Definition : Type 0 where
  pub name : Str
  pub doc : IniDocument

-- Each entry is inserted.
unfoldable pub extended : List (Str × Str) → List (Str × Str) → List (Str × Str)
unfolding Dict.insert
extended m [] = m
extended m ((k, v) ∷ es) = extended (Dict.insert k v m) es

abbrev pub entries_or_none : Option IniSection → List (Str × Str)
entries_or_none none = []
entries_or_none (some sec) = sec.entries

abbrev pub or_raw : Str → Result Str → Str
or_raw s (ok t) = t
or_raw s (err e) = s

-- The closure `get`: a value that cannot be interpolated is taken as it is.
unfoldable pub interpolated : InterpolationContext → IniSection → Str → Option Str
unfolding get interpolate
interpolated ctx def_sec key = map_option (λ s. or_raw s (interpolate ctx s)) (get def_sec key)

unfoldable pub regex_lines : Option Str → List Str
unfolding lines trim retain
regex_lines none = []
regex_lines (some s) = retain (λ l. not (str_eq l [])) (map trim (lines s))

unfoldable pub match_parts : Option Str → List Str
unfolding split trim retain
match_parts none = []
match_parts (some s) = retain (λ p. not (str_eq p [])) (map trim (split (λ c. c == b'+') s))

abbrev pub parse_u32 : Str → Option ℕ
parse_u32 s = and_then (parse_u64 s) (λ n. if leb n 4294967295 then some n else none)

-- The parameters of the `[Init]` section, then those of the jail.
unfoldable pub merged_init : IniDocument → List (Str × Str) → List (Str × Str)
unfolding extended section
merged_init doc init = extended (extended [] (entries_or_none (section doc (codes "Init")))) init

abbrev pub filter_of :
    Definition
    → List (Str × Str)
    → List (Str × Str)
    → List (Str × Str)
    → Option IniSection
    → Result FilterConfig
filter_of d init defaults builtins none = err Error.config
filter_of d init defaults builtins (some def_sec) =
    let merged = merged_init d.doc init in
    let value =
      interpolated
        (record {
          doc = d.doc;
          defaults = defaults;
          builtins = builtins;
          current_section = some (codes "Definition");
          init = merged;
          known = extended (extended [] def_sec.entries) merged;
        })
        def_sec in
    ok (record {
      name = d.name;
      prefregex = value (codes "prefregex");
      failregex = regex_lines (value (codes "failregex"));
      ignoreregex = regex_lines (value (codes "ignoreregex"));
      datepattern = value (codes "datepattern");
      maxlines = unwrap_or (and_then (value (codes "maxlines")) parse_u32) 1;
      logtype = unwrap_or (value (codes "logtype")) (codes "file");
      journalmatch = match_parts (value (codes "journalmatch"));
      init = merged;
    })

unfoldable pub materialize_filter :
    Definition → List (Str × Str) → List (Str × Str) → List (Str × Str) → Result FilterConfig
unfolding merged_init extended interpolated regex_lines match_parts section parse_u64
materialize_filter d init defaults builtins =
    filter_of d init defaults builtins (section d.doc (codes "Definition"))

-- The key without the suffix of a family, and whether it is that of another family than the chosen one.
abbrev pub for_family : Option Str → Str → Option (Str × Bool)
for_family family key =
    first (strip_suffix (codes "?family=inet6") key) (strip_suffix (codes "?family=inet4") key)
  where
    chosen : Str → Option Str → Bool
    chosen name none = false
    chosen name (some f) = str_eq f name

    first : Option Str → Option Str → Option (Str × Bool)
    first (some rest) other = some (rest, chosen (codes "inet6") family)
    first none (some rest) = some (rest, chosen (codes "inet4") family)
    first none none = none

abbrev pub noted : Str → Option (Str × Bool) → List (Str × Str) → List (Str × Str)
noted v (some (rest, true)) m = Dict.insert rest v m
noted v (some (rest, false)) m = m
noted v none m = m

-- The entries whose keys are of the chosen family, without the suffix.
unfoldable pub family_specific : Option Str → List (Str × Str) → List (Str × Str) → List (Str × Str)
unfolding strip_suffix Dict.insert
family_specific family [] m = m
family_specific family ((k, v) ∷ es) m = family_specific family es (noted v (for_family family k) m)

abbrev pub given : Str → Str → Option (Str × Bool) → List (Str × Str) → List (Str × Str)
given k v none m = Dict.insert k v m
given k v (some (rest, true)) m = Dict.insert rest v m
given k v (some (rest, false)) m = m

-- The parameters of the jail.
unfoldable pub with_jail_params :
    Option Str → List (Str × Str) → List (Str × Str) → List (Str × Str)
unfolding strip_suffix Dict.insert
with_jail_params family [] m = m
with_jail_params family ((k, v) ∷ es) m =
    with_jail_params family es (given k v (for_family family k) m)

unfoldable pub extended_by_sections : List (Str × Str) → List IniSection → List (Str × Str)
unfolding extended
extended_by_sections m [] = m
extended_by_sections m (s ∷ ss) = extended_by_sections (extended m s.entries) ss

abbrev pub of_family : IniDocument → Option Str → List IniSection
of_family doc none = []
of_family doc (some f) = sections_named doc (codes "Init?family=" ++ f)

unfoldable pub merged_params : IniDocument → Option Str → List (Str × Str) → List (Str × Str)
unfolding extended_by_sections sections_named family_specific extended with_jail_params
merged_params doc family jail_params =
    let m =
      extended_by_sections (extended_by_sections [] (sections_named doc (codes "Init")))
        (of_family doc family) in
    with_jail_params family jail_params (extended m (family_specific family m []))

abbrev pub truth : Result Bool → Bool
truth (ok b) = b
truth (err e) = false

abbrev pub action_of :
    Definition
    → List (Str × Str)
    → List (Str × Str)
    → List (Str × Str)
    → Option Str
    → Option IniSection
    → Result ActionConfig
action_of d params defaults builtins family none = err Error.config
action_of d params defaults builtins family (some def_sec) =
    let merged = merged_params d.doc family params in
    let value =
      interpolated
        (record {
          doc = d.doc;
          defaults = defaults;
          builtins = builtins;
          current_section = some (codes "Definition");
          init = merged;
          known = [];
        })
        def_sec in
    ok (record {
      name = d.name;
      actionstart = value (codes "actionstart");
      actionstop = value (codes "actionstop");
      actioncheck = value (codes "actioncheck");
      actionrepair = value (codes "actionrepair");
      actionflush = value (codes "actionflush");
      actionban = value (codes "actionban");
      actionunban = value (codes "actionunban");
      actionstart_on_demand =
          unwrap_or
            (map_option (λ s. truth (parse_bool s))
              (Dict.lookup (codes "actionstart_on_demand") merged))
            false;
      timeout = unwrap_or (and_then (Dict.lookup (codes "timeout") merged) parse_u64) 60;
      init = merged;
    })

unfoldable pub materialize_action :
    Definition
    → List (Str × Str)
    → List (Str × Str)
    → List (Str × Str)
    → Option Str
    → Result ActionConfig
unfolding merged_params interpolated section parse_u64 parse_bool Dict.lookup
materialize_action d params defaults builtins family =
    action_of d params defaults builtins family (section d.doc (codes "Definition"))
