-- ===== src/Config/Ini.antt =====
-- src/config/parser.rs: sections, documents and the parser. The errors have no messages here, so that the
-- numbers of the lines are not counted; `sections_named` gives a list.
use rail2ban.Prelude.{
  ℕ, Bool, true, false, ◌&&◌, ◌||◌, ◌==◌, Option, none, some, map_option, unwrap_or, List, [], ◌∷◌,
  ◌++◌, map, not, Str, str_eq, codes, retain, if◌then◌else◌, trim, trim_end, split, split_once,
  lines, is_whitespace,
}
use rail2ban.Prelude.Dict
use rail2ban.Error.{Error, Result, ok, err, ◌>>=◌}

pub record IniSection : Type 0 where
  pub name : Str
  pub entries : List (Str × Str)

pub record IniDocument : Type 0 where
  pub sections : List IniSection

unfoldable pub get : IniSection → Str → Option Str
unfolding Dict.lookup
get sec key = Dict.lookup key sec.entries

unfoldable pub set : IniSection → Str → Str → IniSection
unfolding Dict.insert
set sec key value = record sec { entries = Dict.insert key value sec.entries }

abbrev pub appended : Str → Str → Str
appended [] suffix = suffix
appended (c ∷ cs) suffix = (c ∷ cs) ++ b'\n' ∷ suffix

unfoldable pub append : IniSection → Str → Str → IniSection
unfolding Dict.lookup Dict.insert
append sec key suffix = record sec {
  entries =
      Dict.insert key (appended (unwrap_or (Dict.lookup key sec.entries) []) suffix) sec.entries;
}

unfoldable pub new_document : IniDocument
new_document = record { sections = [] }

unfoldable pub find_section : Str → List IniSection → Option IniSection
find_section name [] = none
find_section name (s ∷ ss) = if str_eq s.name name then some s else find_section name ss

unfoldable pub section : IniDocument → Str → Option IniSection
unfolding find_section
section doc name = find_section name doc.sections

unfoldable pub sections_named : IniDocument → Str → List IniSection
unfolding retain
sections_named doc name = retain (λ s. str_eq s.name name) doc.sections

-- `f` on the section that `section_or_insert` gives.
unfoldable pub section_or_insert :
    Str → (IniSection → IniSection) → List IniSection → List IniSection
section_or_insert name f [] = f (record { name = name; entries = [] }) ∷ []
section_or_insert name f (s ∷ ss) =
    if str_eq s.name name then f s ∷ ss else s ∷ section_or_insert name f ss

unfoldable pub insert_entries : List (Str × Str) → IniSection → IniSection
unfolding set
insert_entries [] sec = sec
insert_entries ((k, v) ∷ entries) sec = insert_entries entries (set sec k v)

unfoldable pub merge_sections : List IniSection → List IniSection → List IniSection
unfolding section_or_insert insert_entries
merge_sections ss [] = ss
merge_sections ss (t ∷ ts) =
    merge_sections (section_or_insert t.name (insert_entries t.entries) ss) ts

unfoldable pub merge : IniDocument → IniDocument → IniDocument
unfolding merge_sections
merge doc other = record { sections = merge_sections doc.sections other.sections }

-- The text before a `;` behind a space or a tab; `last_ws` tells of the character before.
abbrev comment_cut : ℕ → Option Str → Option Str
comment_cut c none = none
comment_cut c (some before) = some (c ∷ before)

unfoldable pub before_comment : Bool → Str → Option Str
before_comment last_ws [] = none
before_comment last_ws (c ∷ cs) =
    let rest = before_comment (c == b' ' || c == b'\t') cs in
    if c == b';' && last_ws then some [] else comment_cut c rest

unfoldable pub strip_inline_comment : Str → Str
unfolding before_comment trim_end
strip_inline_comment s = unwrap_or (map_option trim_end (before_comment false s)) s

unfoldable pub split_key_value : Str → Option (Str × Str)
unfolding split_once
split_key_value s = split_once (λ c. c == b'=') s

-- `f` on `sections.last_mut()`; `none` where there is no section.
unfoldable pub on_last : (IniSection → IniSection) → List IniSection → Option (List IniSection)
on_last f [] = none
on_last f (s ∷ []) = some (f s ∷ [])
on_last f (s ∷ t ∷ ss) = map_option (λ rest. s ∷ rest) (on_last f (t ∷ ss))

-- The document so far, and the key that a continuation line belongs to.
abbrev pub Parsed : Type 0
Parsed = List IniSection × Option Str

abbrev pub starts_blank : Str → Bool
starts_blank [] = false
starts_blank (c ∷ cs) = c == b' ' || c == b'\t'

-- The name in a header, whose `[` is left out.
abbrev header_of : List IniSection → Option (Str × Str) → Result Parsed
header_of ss none = err Error.config
header_of ss (some (name, _)) = ok (ss ++ record { name = trim name; entries = [] } ∷ [], none)

abbrev entry_in : Str → Option (List IniSection) → Result Parsed
entry_in key none = err Error.config
entry_in key (some ss) = ok (ss, some key)

abbrev entry_of : List IniSection → Option (Str × Str) → Result Parsed
entry_of ss none = err Error.config
entry_of ss (some (key, value)) =
    entry_in (trim key) (on_last (λ sec. set sec (trim key) (trim (strip_inline_comment value))) ss)

-- A line that continues nothing.
abbrev header_or_entry : List IniSection → Str → Result Parsed
header_or_entry ss [] = entry_of ss (split_key_value [])
header_or_entry ss (c ∷ cs) =
    if c == b'['
    then header_of ss (split_once (λ d. d == b']') cs)
    else entry_of ss (split_key_value (c ∷ cs))

abbrev pub content : Bool → Parsed → Str → Result Parsed
content true (ss, some key) text =
    ok (unwrap_or (on_last (λ sec. append sec key (trim text)) ss) ss, some key)
content true (ss, none) text = header_or_entry ss text
content false (ss, current) text = header_or_entry ss text

abbrev pub trimmed_line : Bool → Parsed → Str → Result Parsed
trimmed_line blank p [] = ok p
trimmed_line blank p (c ∷ cs) =
    if c == b'#' then ok p else content blank p (strip_inline_comment (c ∷ cs))

-- One turn of the loop. `trim_end_matches('\r')` takes away nothing that `trim` would leave.
unfoldable pub parse_line : Parsed → Str → Result Parsed
unfolding trim strip_inline_comment on_last append set split_once split_key_value
parse_line p line = trimmed_line (starts_blank line) p (trim line)

unfoldable pub parse_lines : Parsed → List Str → Result IniDocument
unfolding parse_line
parse_lines p [] = ok (record { sections = p.0 })
parse_lines p (line ∷ rest) = parse_line p line >>= λ q. parse_lines q rest

unfoldable pub parse_ini : Str → Result IniDocument
unfolding parse_lines lines
parse_ini input = parse_lines ([], none) (lines input)

pub record Includes : Type 0 where
  pub before : List Str
  pub after : List Str

-- The parts of a value, which are not empty.
unfoldable pub parts : Option Str → List Str
unfolding split trim retain is_whitespace
parts none = []
parts (some value) =
    retain (λ p. not (str_eq p [])) (map trim (split (λ c. is_whitespace c || c == b',') value))

unfoldable pub collect_from : List IniSection → Includes
unfolding get parts
collect_from [] = record { before = []; after = [] }
collect_from (sec ∷ ss) =
    let rest = collect_from ss in
    record {
      before = parts (get sec (codes "before")) ++ rest.before;
      after = parts (get sec (codes "after")) ++ rest.after;
    }

unfoldable pub collect_includes : IniDocument → Includes
unfolding sections_named collect_from
collect_includes doc = collect_from (sections_named doc (codes "INCLUDES"))
