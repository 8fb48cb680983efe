-- ===== src/Config/Merge.antt =====
-- src/config/parser.rs: what a merge of two documents leaves.
use rail2ban.Prelude.{
  ◌≡◌, refl, ap, ◌∙◌, inl, inr, false, Bool-cases, Option, Option-cases, none, some, and_then,
  or_option, unwrap_or, List, [], ◌∷◌, Str, str_eq, str_eq_iff, arith, All, if◌then◌else◌,
}
use rail2ban.Prelude.Dict
use rail2ban.Prelude.Dict.{Unique, lookup-insert}
use rail2ban.Config.Ini.{
  IniSection, IniDocument, get, set, find_section, section, section_or_insert, insert_entries,
  merge_sections, merge,
}

-- The value of a key in the first section of a name.
abbrev pub value_of : IniDocument → Str → Str → Option Str
value_of doc name key = and_then (section doc name) (λ sec. get sec key)

-- The value of a key in the last section of a name that has one.
abbrev pub latest : List IniSection → Str → Str → Option Str
latest [] name key = none
latest (t ∷ ts) name key =
    or_option (latest ts name key) (if str_eq t.name name then get t key else none)

get-set :
    (sec : IniSection) (j v key : Str)
    → get (set sec j v) key ≡ (if str_eq j key then some v else get sec key)
unfolding get set
get-set sec j v key = lookup-insert j key v sec.entries

name-insert_entries :
    (es : List (Str × Str)) (sec : IniSection) → (insert_entries es sec).name ≡ sec.name
unfolding insert_entries set
name-insert_entries [] sec = refl
name-insert_entries ((j, v) ∷ es) sec = name-insert_entries es (set sec j v)

get-insert_entries :
    (es : List (Str × Str)) (sec : IniSection) (key : Str)
    → Unique es
    → get (insert_entries es sec) key ≡ or_option (Dict.lookup key es) (get sec key)
unfolding insert_entries Dict.lookup
get-insert_entries [] sec key u = refl
get-insert_entries ((j, v) ∷ es) sec key u =
    ground
      (arith, get-insert_entries es (set sec j v) key u.1, get-set sec j v key, str_eq_iff j key)

-- The section of a name, or a new one.
abbrev found : Str → List IniSection → IniSection
found name ss = unwrap_or (find_section name ss) (record { name = name; entries = [] })

value-section_or_insert :
    (n name key : Str) (f : IniSection → IniSection) (ss : List IniSection)
    → ((sec : IniSection) → (f sec).name ≡ sec.name)
    → and_then (find_section name (section_or_insert n f ss)) (λ sec. get sec key) ≡ (
        if str_eq n name
        then get (f (found n ss)) key
        else and_then (find_section name ss) (λ sec. get sec key))
unfolding find_section section_or_insert
value-section_or_insert n name key f [] same = elim (Bool-cases (str_eq n name)) [
  | inl c ↦ rw (same (record { name = n; entries = [] }), c) refl
  | inr c ↦ rw (same (record { name = n; entries = [] }), c) refl
]
value-section_or_insert n name key f (s ∷ ss) same = elim (Bool-cases (str_eq s.name n)) [
  | inl c ↦
      let here : str_eq s.name name ≡ str_eq n name =
        ap (λ t. str_eq t name) ((str_eq_iff s.name n).0 c) in
      elim (Bool-cases (str_eq n name)) [
        | inl d ↦ rw (c, same s, here, d) refl
        | inr d ↦ rw (c, same s, here, d) refl
      ]
  | inr c ↦ elim (Bool-cases (str_eq s.name name)) [
    | inl d ↦
        let other : str_eq n name ≡ false =
          ground (arith, str_eq_iff s.name n, str_eq_iff s.name name, str_eq_iff n name) in
        rw (c, d, other) refl
    | inr d ↦ rw (c, d) (value-section_or_insert n name key f ss same)
  ]
]

get-found :
    (n key : Str) (ss : List IniSection)
    → get (found n ss) key ≡ and_then (find_section n ss) (λ sec. get sec key)
unfolding get Dict.lookup
get-found n key ss = elim (Option-cases (find_section n ss)) [
  | inl c ↦ rw c refl
  | inr (sec, c) ↦ rw c refl
]

or_option_assoc : (a b c : Option Str) → or_option a (or_option b c) ≡ or_option (or_option a b) c
or_option_assoc none b c = refl
or_option_assoc (some x) b c = refl

merged_value :
    (t : IniSection) (ss : List IniSection) (name key : Str) (more : Option Str)
    → Unique t.entries
    → or_option more (
        if str_eq t.name name
        then get (insert_entries t.entries (found t.name ss)) key
        else and_then (find_section name ss) (λ sec. get sec key))
      ≡ or_option
          (or_option more (if str_eq t.name name then get t key else none))
          (and_then (find_section name ss) (λ sec. get sec key))
unfolding get
merged_value t ss name key more u = elim (Bool-cases (str_eq t.name name)) [
  | inl c ↦
      let same : t.name ≡ name = (str_eq_iff t.name name).0 c in
      rw (c, get-insert_entries t.entries (found t.name ss) key u, get-found t.name key ss, same)
        (or_option_assoc more (Dict.lookup key t.entries) _)
  | inr c ↦ rw c (or_option_assoc more none _)
]

value-merge_sections :
    (ss ts : List IniSection) (name key : Str)
    → All (λ t. Unique t.entries) ts
    → and_then (find_section name (merge_sections ss ts)) (λ sec. get sec key)
      ≡ or_option (latest ts name key) (and_then (find_section name ss) (λ sec. get sec key))
unfolding merge_sections
value-merge_sections ss [] name key u = refl
value-merge_sections ss (t ∷ ts) name key u =
    let f = insert_entries t.entries in
    value-merge_sections (section_or_insert t.name f ss) ts name key u.1
    ∙ ap (or_option (latest ts name key))
        (value-section_or_insert t.name name key f ss (name-insert_entries t.entries))
    ∙ merged_value t ss name key (latest ts name key) u.0

-- A merge takes each value from the last section of the other document that has it, and else from the
-- document itself, where no section of the other has a key twice.
pub value_of-merge :
    (doc other : IniDocument) (name key : Str)
    → All (λ t. Unique t.entries) other.sections
    → value_of (merge doc other) name key
      ≡ or_option (latest other.sections name key) (value_of doc name key)
unfolding merge section
value_of-merge doc other name key u = value-merge_sections doc.sections other.sections name key u
