-- ===== src/Time/Fuel.antt =====
-- src/time.rs: the fuel of the loop of `TimeValue::parse`.
use rail2ban.Prelude.{
  ℕ, zero, suc, ◌≤◌, ◌<◌, ◌≡◌, refl, sym, Bool, true, false, if◌then◌else◌, map, to_ascii_lowercase,
  codes, Option-cases, trim, Option, none, some, [], ◌∷◌, Str, arith, length, Bool-cases, inl, inr,
  ◌⊎◌, is_whitespace, is_ascii_digit, is_ascii_alphabetic,
}
use rail2ban.Time.{
  Item, pair, bare, bad, take_while, drop_while, unit_seconds, unit_item, number_item, next_item,
  walk, one_of, permanent_value, of_i64, parse_i64, TimeValue, parse_trimmed, parse,
}
use rail2ban.Error.{Error, Result, ok, err}

length-drop_while-le : (p : ℕ → Bool) (cs : Str) → length (drop_while p cs) ≤ length cs
unfolding drop_while
length-drop_while-le p [] = omega arith
length-drop_while-le p (c ∷ cs) = ground (arith, length-drop_while-le p cs)

length-drop_while-lt :
    (p : ℕ → Bool) (cs : Str) {u : ℕ} {us : Str}
    → take_while p cs ≡ u ∷ us
    → length (drop_while p cs) < length cs
unfolding drop_while take_while
length-drop_while-lt p [] e = absurd (cc e)
length-drop_while-lt p (c ∷ cs) e = ground (arith, length-drop_while-le p cs)

-- A whole pair takes a letter at least.
number_item-shorter :
    (behind : Str) (o : Option ℕ) (total : ℕ) (rest : Str)
    → number_item behind o ≡ pair total rest
    → length rest < length behind
unfolding take_while drop_while unit_seconds
number_item-shorter behind none total rest e = absurd (cc e)
number_item-shorter behind (some n) total rest e =
    go (take_while is_ascii_alphabetic behind) refl
      (unit_seconds (take_while is_ascii_alphabetic behind)) e
  where
    go :
        (unit : Str)
        → take_while is_ascii_alphabetic behind ≡ unit
        → (secs : Option ℕ)
        → unit_item n unit (drop_while is_ascii_alphabetic behind) secs ≡ pair total rest
        → length rest < length behind
    go [] found secs e = absurd (cc e)
    go (u ∷ us) found none e = absurd (cc e)
    go (u ∷ us) found (some secs) e =
        let same : drop_while is_ascii_alphabetic behind ≡ rest = cc e in
        rw (sym same) (length-drop_while-lt is_ascii_alphabetic behind found)

next_item-shorter :
    (cs : Str) (total : ℕ) (rest : Str) → next_item cs ≡ pair total rest → length rest < length cs
unfolding next_item
next_item-shorter cs total rest e =
    let fewer = number_item-shorter (drop_while is_ascii_digit cs) _ total rest e in
    omega (arith, fewer, length-drop_while-le is_ascii_digit cs)

Item-cases :
    (i : Item)
    → ((n : ℕ) × (rest : Str) × (i ≡ pair n rest)) ⊎ (((n : ℕ) × (i ≡ bare n)) ⊎ (i ≡ bad))
Item-cases (pair n rest) = inl (n, rest, refl)
Item-cases (bare n) = inr (inl (n, refl))
Item-cases bad = inr (inr refl)

-- The error, if there is one, is that of a text that is no time.
abbrev FailsAsTime : Result TimeValue → Type 0
FailsAsTime (ok v) = Unit {0}
FailsAsTime (err e) = e ≡ Error.time_parse

-- Each round takes a character, so that fuel above the length of the text is never used up.
walk-FailsAsTime :
    (m : ℕ) (cs : Str) (total : ℕ) (consumed : Bool)
    → length cs < m
    → FailsAsTime (walk m cs total consumed)
unfolding walk
walk-FailsAsTime zero cs total consumed h = absurd (omega arith)
walk-FailsAsTime (suc m) [] total true h = tt
walk-FailsAsTime (suc m) [] total false h = refl
walk-FailsAsTime (suc m) (c ∷ cs) total consumed h = elim (Bool-cases (is_whitespace c)) [
  | inl space ↦ rw space (walk-FailsAsTime m cs total consumed (omega arith))
  | inr other ↦ elim (Item-cases (next_item (c ∷ cs))) [
    | inl (secs, rest, e) ↦
        let shorter = next_item-shorter (c ∷ cs) secs rest e in
        rw (other, e) (walk-FailsAsTime m rest _ true (omega (arith, shorter)))
    | inr (inl (secs, e)) ↦ rw (other, e) tt
    | inr (inr e) ↦ rw (other, e) refl
  ]
]

either-FailsAsTime :
    (b : Bool) (x y : Result TimeValue)
    → FailsAsTime x
    → FailsAsTime y
    → FailsAsTime (if b then x else y)
either-FailsAsTime true x y h k = h
either-FailsAsTime false x y h k = k

parse_trimmed-FailsAsTime : (s : Str) → FailsAsTime (parse_trimmed s)
unfolding parse_trimmed
parse_trimmed-FailsAsTime [] = refl
parse_trimmed-FailsAsTime (c ∷ cs) =
    let lower = map to_ascii_lowercase (c ∷ cs) in
    let word = one_of lower (codes "permanent" ∷ codes "infinite" ∷ codes "never" ∷ []) in
    elim (Option-cases (parse_i64 (c ∷ cs))) [
      | inl e ↦
          let walked = walk (suc (length lower)) lower 0 false in
          rw e (
            either-FailsAsTime word (ok permanent_value) walked tt
              (walk-FailsAsTime (suc (length lower)) lower 0 false (omega arith)))
      | inr (n, e) ↦ rw e (either-FailsAsTime word (ok permanent_value) (ok (of_i64 n)) tt tt)
    ]

-- On a text of any form the parser comes to its end: it gives a time, or the error of a text that is
-- none, and never runs out of the fuel of its loop.
pub parse-fails : (input : Str) (e : Error) → parse input ≡ err e → e ≡ Error.time_parse
unfolding parse
parse-fails input e h =
    let fails = parse_trimmed-FailsAsTime (trim input) in
    let kind : e ≡ Error.time_parse = rw h at fails in kind
