-- ===== src/Filter/DatePattern.antt =====
-- src/filter/datepattern.rs: `compile`, for the compiler of the regex package; the kinds of dates of
-- src/filter/mod.rs. The regexes of the named patterns are constants that the source unwraps: where the
-- compiler refuses one, the source panics, and this is an error here.
use rail2ban.Prelude.{
  ℕ, zero, suc, Bool, true, false, ◌||◌, ◌==◌, Option, none, some, [], ◌∷◌, ◌++◌, map, Str, codes,
  length, any, if◌then◌else◌, trim, strip_prefix, str_eq, to_ascii_lowercase,
}
use rail2ban.Error.{Result, ok, ◌>>=◌}
use rail2ban.Filter.Tags.{made}

pub data DateKind : Type 0 where
  strftime epoch_secs epoch_millis epoch_micros iso8601 syslog tai64n : DateKind

pub record DateMatcher (R : Type 0) : Type 0 where
  pub regex : R
  pub kind : DateKind

-- `str::trim_start_matches` of a text that is not empty, on fuel for its rounds.
unfoldable pub without_prefixes : ℕ → Str → Str → Str
unfolding strip_prefix
without_prefixes zero p s = s
without_prefixes (suc fuel) p s = elim (strip_prefix p s) [
  | none ↦ s
  | some rest ↦ without_prefixes fuel p rest
]

unfoldable pub trim_start_matches : Str → Str → Str
unfolding without_prefixes
trim_start_matches p s = without_prefixes (length s) p s

-- The regex of a specifier; its second part, the character itself, is for diagnostics.
unfoldable pub strftime_token : ℕ → Str
unfolding any
strftime_token spec =
    let among = λ (cs : Str). any (λ c. spec == c) cs in
    if spec == b'Y'
    then codes "\\d{4}"
    else if among (codes "mdHMSy")
    then codes "\\d{2}"
    else if spec == b'j'
    then codes "\\d{3}"
    else if among (codes "bBhaA")
    then codes "[A-Za-z]{3,9}"
    else if spec == b'p'
    then codes "(?:AM|PM)"
    else if spec == b'z'
    then codes "[+-]\\d{4}"
    else if spec == b'Z'
    then codes "[A-Za-z/]+"
    else if spec == b'%'
    then codes "%"
    else codes "\\S+"

unfoldable pub is_meta_character : ℕ → Bool
unfolding any
is_meta_character c = any (λ m. c == m) (codes "\\.+*?()|[]{}^$")

abbrev pub literal : ℕ → Str
literal c =
    if c == b' ' then codes "\\s+" else if is_meta_character c then b'\\' ∷ c ∷ [] else c ∷ []

-- The loop over the characters (`regex_str`); `spec` is behind a `%`. A `%` at the end is taken as `%%`.
unfoldable pub strftime_regex : (spec : Bool) → Str → Str
unfolding strftime_token is_meta_character
strftime_regex true [] = strftime_token b'%'
strftime_regex false [] = []
strftime_regex true (c ∷ s) = strftime_token c ++ strftime_regex false s
strftime_regex false (c ∷ s) =
    let rest = strftime_regex (c == b'%') s in if c == b'%' then rest else literal c ++ rest

module _ {R : Type 0} (regex_new : Str → Option R) where
  abbrev pub matcher : DateKind → Str → Result (DateMatcher R)
  matcher kind s = made (regex_new s) >>= λ r. ok (record { regex = r; kind = kind })

  unfoldable pub compile_strftime : Str → Result (DateMatcher R)
  unfolding strftime_regex
  compile_strftime fmt = matcher strftime (b'(' ∷ strftime_regex false fmt ++ b')' ∷ [])

  unfoldable pub compile_named : Str → Result (DateMatcher R)
  unfolding compile_strftime str_eq to_ascii_lowercase any
  compile_named pat =
      let is = λ (n : Str). str_eq (map to_ascii_lowercase pat) n in
      if is (codes "epoch")
      then matcher epoch_secs (codes "(\\d{10})")
      else if is (codes "epochmilli") || is (codes "epoch_milli")
      then matcher epoch_millis (codes "(\\d{13})")
      else if is (codes "epochmicro") || is (codes "epoch_micro")
      then matcher epoch_micros (codes "(\\d{16})")
      else if is (codes "iso8601") || is (codes "rfc3339")
      then matcher iso8601 (
          codes
            "(\\d{4}-\\d{2}-\\d{2}[T ]\\d{2}:\\d{2}:\\d{2}(?:\\.\\d+)?(?:Z|[+-]\\d{2}:?\\d{2})?)")
      else if is (codes "tai64n")
      then matcher tai64n (codes "(@40000000[0-9a-f]{8})")
      else if any (λ c. c == b'%') pat
      then compile_strftime pat
      else matcher iso8601 pat

  unfoldable pub compile : Str → Result (DateMatcher R)
  unfolding compile_named trim_start_matches trim
  compile pattern =
      compile_named
        (trim (trim_start_matches (codes "{UNB}") (trim_start_matches (codes "{^LN-BEG}") pattern)))
