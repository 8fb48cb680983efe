-- ===== src/Time/Digits.antt =====
-- src/time.rs: a plain number of seconds.
use rail2ban.Prelude.{
  ℕ, zero, suc, ◌+◌, ◌*◌, ◌-◌, ◌/◌, ◌%◌, ◌≤◌, ◌<◌, ◌≡◌, refl, ap, ◌∙◌, sym, true, false, some, [],
  ◌∷◌, Str, arith, map, Bool-cases, inl, inr, ◌⊎◌, is_ascii_digit, to_ascii_lowercase,
  is_ascii_uppercase, ltb, leb, ◌==◌, str_eq, codes,
}
use rail2ban.Prelude.Int.{pos}
use rail2ban.Error.{ok}
use rail2ban.Time.{digits_from, parse_i64, parse_trimmed, of_seconds, one_of}
use rail2ban.Action.{decimal, decimal_from}

digit_cases : (n : ℕ) → ((n < 10) × (ltb n 10 ≡ true)) ⊎ ((10 ≤ n) × (ltb n 10 ≡ false))
digit_cases n = elim (Bool-cases (ltb n 10)) [
  | inl one_digit ↦ inl (ground arith, one_digit)
  | inr more ↦ inr (ground arith, more)
]

-- A digit character adds its digit.
digits_from-digit :
    (a d : ℕ) (acc : Str) → d < 10 → digits_from a ((d + 48) ∷ acc) ≡ digits_from (a * 10 + d) acc
unfolding digits_from is_ascii_digit
digits_from-digit a d acc h =
    let e : d + 48 - 48 ≡ d = omega arith in
    let yes_digit : is_ascii_digit (d + 48) ≡ true = ground arith in rw (e, yes_digit) refl

digits_from-decimal_from :
    (fuel n : ℕ) (acc : Str)
    → n < fuel
    → digits_from 0 (decimal_from fuel n acc) ≡ digits_from n acc
unfolding decimal_from
digits_from-decimal_from zero n acc h = absurd (omega arith)
digits_from-decimal_from (suc fuel) n acc h = elim (digit_cases n) [
  | inl (small, test) ↦
      rw test (digits_from-digit 0 n acc small ∙ ap (λ k. digits_from k acc) (omega arith))
  | inr (large, test) ↦ rw test (
      digits_from-decimal_from fuel (n / 10) ((n % 10 + 48) ∷ acc) (omega arith)
      ∙ digits_from-digit (n / 10) (n % 10) acc (omega arith)
      ∙ ap (λ k. digits_from k acc) (omega arith))
]

-- The characters that `decimal` begins with is a digit.
decimal_from-head :
    (fuel n : ℕ) (acc : Str)
    → n < fuel
    → (d : ℕ) × (cs : Str) × (decimal_from fuel n acc ≡ (d + 48) ∷ cs) × (d < 10)
unfolding decimal_from
decimal_from-head zero n acc h = absurd (omega arith)
decimal_from-head (suc fuel) n acc h = elim (digit_cases n) [
  | inl (small, test) ↦ (n, acc, rw test refl, small)
  | inr (large, test) ↦
      let (d, cs, e, less) = decimal_from-head fuel (n / 10) ((n % 10 + 48) ∷ acc) (omega arith) in
      (d, cs, rw test e, less)
]

no_keyword :
    (d : ℕ) (cs : Str)
    → d < 10
    → one_of
        (map to_ascii_lowercase ((d + 48) ∷ cs))
        (codes "permanent" ∷ codes "infinite" ∷ codes "never" ∷ [])
      ≡ false
unfolding to_ascii_lowercase is_ascii_uppercase str_eq
no_keyword d cs h =
    let lower : to_ascii_lowercase (d + 48) ≡ d + 48 = ground arith in
    let permanent : (d + 48 == b'p') ≡ false = ground arith in
    let infinite : (d + 48 == b'i') ≡ false = ground arith in
    let never : (d + 48 == b'n') ≡ false = ground arith in
    rw (lower, permanent, infinite, never) refl

parse_i64-digits :
    (d n : ℕ) (cs : Str)
    → d < 10
    → n < 9223372036854775808
    → digits_from 0 ((d + 48) ∷ cs) ≡ some n
    → parse_i64 ((d + 48) ∷ cs) ≡ some (pos n)
unfolding parse_i64
parse_i64-digits d n cs h small e =
    let minus : (d + 48 == b'-') ≡ false = ground arith in
    let plus : (d + 48 == b'+') ≡ false = ground arith in
    let fits : leb n 9223372036854775807 ≡ true = ground arith in rw (minus, plus, e, fits) refl

parse_trimmed-digits :
    (d n : ℕ) (cs : Str)
    → d < 10
    → n < 9223372036854775808
    → digits_from 0 ((d + 48) ∷ cs) ≡ some n
    → parse_trimmed ((d + 48) ∷ cs) ≡ ok (of_seconds n)
unfolding parse_trimmed
parse_trimmed-digits d n cs h small e =
    rw (no_keyword d cs h, parse_i64-digits d n cs h small e) refl

-- The parser takes the decimal digits of a number below 2^63 for that many seconds.
pub parse_trimmed-decimal :
    (n : ℕ) → n < 9223372036854775808 → parse_trimmed (decimal n) ≡ ok (of_seconds n)
unfolding decimal digits_from
parse_trimmed-decimal n h =
    let (d, cs, e, less) = decimal_from-head (suc n) n [] (omega arith) in
    let value : digits_from 0 ((d + 48) ∷ cs) ≡ some n =
      ap (digits_from 0) (sym e) ∙ digits_from-decimal_from (suc n) n [] (omega arith) in
    rw e (parse_trimmed-digits d n cs less h value)
