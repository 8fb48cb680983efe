-- ===== src/Time.antt =====
-- src/time.rs: `TimeValue` and its parser.
pub mod Fuel
pub mod Digits
use rail2ban.Prelude.{
  ℕ, zero, suc, ◌+◌, ◌*◌, ◌-◌, min, Bool, true, false, ◌||◌, Option, none, some, List, [], ◌∷◌, map,
  Str, codes, str_eq, leb, ◌==◌, if◌then◌else◌, length, trim, is_whitespace, is_ascii_digit,
  is_ascii_alphabetic, to_ascii_lowercase, unwrap_or, map_option,
}
use rail2ban.Prelude.Int.{ℤ, pos, negsuc}
use rail2ban.Clock.{u64_max}
use rail2ban.Error.{Error, Result, ok, err}

pub record TimeValue : Type 0 where
  pub seconds : Option ℕ
  pub permanent : Bool

abbrev pub permanent_value : TimeValue
permanent_value = record { seconds = none; permanent = true }

-- Also `From<u64>`.
abbrev pub of_seconds : ℕ → TimeValue
of_seconds n = record { seconds = some n; permanent = false }

-- The value of decimal digits behind `acc`; `none` if one is no digit.
unfoldable pub digits_from : ℕ → Str → Option ℕ
digits_from acc [] = some acc
digits_from acc (c ∷ cs) =
    let rest = digits_from (acc * 10 + (c - 48)) cs in if is_ascii_digit c then rest else none

abbrev non_empty : Str → Option ℕ → Option ℕ
non_empty [] r = none
non_empty (c ∷ cs) r = r

abbrev bounded : ℕ → Option ℕ → Option ℕ
bounded bound none = none
bounded bound (some n) = if leb n bound then some n else none

-- `str::parse` of the standard library, at the unsigned and the signed 64-bit integers.
unfoldable pub parse_u64 : Str → Option ℕ
unfolding digits_from
parse_u64 [] = none
parse_u64 (c ∷ cs) =
    bounded u64_max (if c == b'+' then non_empty cs (digits_from 0 cs) else digits_from 0 (c ∷ cs))

abbrev negated : ℕ → ℤ
negated zero = pos zero
negated (suc n) = negsuc n

unfoldable pub parse_i64 : Str → Option ℤ
unfolding digits_from
parse_i64 [] = none
parse_i64 (c ∷ cs) =
    if c == b'-'
    then map_option negated (bounded 9223372036854775808 (non_empty cs (digits_from 0 cs)))
    else map_option pos (
        bounded 9223372036854775807
          (if c == b'+' then non_empty cs (digits_from 0 cs) else digits_from 0 (c ∷ cs)))

-- The longest prefix of characters that pass a test, and what is behind it.
unfoldable pub take_while : (ℕ → Bool) → Str → Str
take_while p [] = []
take_while p (c ∷ cs) = if p c then c ∷ take_while p cs else []

unfoldable pub drop_while : (ℕ → Bool) → Str → Str
drop_while p [] = []
drop_while p (c ∷ cs) = if p c then drop_while p cs else c ∷ cs

abbrev saturating : ℕ → ℕ
saturating n = min n u64_max

abbrev pub one_of : Str → List Str → Bool
one_of s [] = false
one_of s (t ∷ ts) = str_eq s t || one_of s ts

-- The seconds of a unit; `none` for an unknown one.
unfoldable pub unit_seconds : Str → Option ℕ
unfolding str_eq
unit_seconds u =
    if one_of u (codes "y" ∷ codes "year" ∷ codes "years" ∷ [])
    then some (365 * 86400)
    else if one_of u (codes "mo" ∷ codes "month" ∷ codes "months" ∷ [])
    then some (30 * 86400)
    else if one_of u (codes "w" ∷ codes "week" ∷ codes "weeks" ∷ [])
    then some (7 * 86400)
    else if one_of u (codes "d" ∷ codes "day" ∷ codes "days" ∷ [])
    then some 86400
    else if one_of u (codes "h" ∷ codes "hour" ∷ codes "hours" ∷ [])
    then some 3600
    else if one_of u (codes "m" ∷ codes "min" ∷ codes "minute" ∷ codes "minutes" ∷ [])
    then some 60
    else if one_of u (codes "s" ∷ codes "sec" ∷ codes "second" ∷ codes "seconds" ∷ [])
    then some 1
    else none

-- One `<number><unit>` at the head of the text: a whole pair with what is behind it, a bare number
-- (which ends the walk), or an error.
pub data Item : Type 0 where
  pair : ℕ → Str → Item
  bare : ℕ → Item
  bad : Item

abbrev pub unit_item : ℕ → Str → Str → Option ℕ → Item
unit_item n [] rest secs = bare n
unit_item n (u ∷ us) rest none = bad
unit_item n (u ∷ us) rest (some secs) = pair (saturating (n * secs)) rest

abbrev pub number_item : Str → Option ℕ → Item
number_item behind none = bad
number_item behind (some n) =
    unit_item n (take_while is_ascii_alphabetic behind) (drop_while is_ascii_alphabetic behind)
      (unit_seconds (take_while is_ascii_alphabetic behind))

unfoldable pub next_item : Str → Item
unfolding take_while drop_while unit_seconds parse_u64 is_ascii_digit is_ascii_alphabetic
next_item cs = number_item (drop_while is_ascii_digit cs) (parse_u64 (take_while is_ascii_digit cs))

-- The loop over the text, on fuel; `Error.other`, which the source does not give, is its end.
unfoldable pub walk : ℕ → Str → ℕ → Bool → Result TimeValue
unfolding next_item
walk zero cs total consumed = err Error.other
walk (suc fuel) [] total consumed = if consumed then ok (of_seconds total) else err Error.time_parse
walk (suc fuel) (c ∷ cs) total consumed =
    let skipped = walk fuel cs total consumed in
    let counted : Result TimeValue = elim (next_item (c ∷ cs)) [
      | pair secs rest ↦ walk fuel rest (saturating (total + secs)) true
      | bare n ↦ ok (of_seconds (saturating (total + n)))
      | bad ↦ err Error.time_parse
    ] in
    if is_whitespace c then skipped else counted

abbrev pub of_i64 : ℤ → TimeValue
of_i64 (pos n) = of_seconds n
of_i64 (negsuc n) = permanent_value

unfoldable pub parse_trimmed : Str → Result TimeValue
unfolding walk parse_i64 to_ascii_lowercase is_whitespace str_eq
parse_trimmed [] = err Error.time_parse
parse_trimmed (c ∷ cs) =
    let s = c ∷ cs in
    let lower = map to_ascii_lowercase s in
    if one_of lower (codes "permanent" ∷ codes "infinite" ∷ codes "never" ∷ [])
    then ok permanent_value
    else elim (parse_i64 s) [
      | some n ↦ ok (of_i64 n)
      | none ↦ walk (suc (length lower)) lower 0 false
    ]

-- `TimeValue::parse`.
unfoldable pub parse : Str → Result TimeValue
unfolding parse_trimmed trim
parse input = parse_trimmed (trim input)

-- `to_duration` in seconds, and `to_seconds_or_max`.
abbrev pub to_duration : TimeValue → Option ℕ
to_duration v = v.seconds

unfoldable pub to_seconds_or_max : TimeValue → ℕ
to_seconds_or_max v = unwrap_or v.seconds u64_max
