-- ===== src/Filter/Matching.antt =====
-- src/filter/mod.rs: which pattern a line is matched by.
use rail2ban.Prelude.{
  ℕ, zero, suc, ◌+◌, ◌≡◌, refl, ap, sym, true, false, Option, none, some, List, [], ◌∷◌, ◌++◌, Str,
  arith, length, any, is_some, unwrap_or, map_option, Bool-cases, Option-cases, inl, inr,
}
use rail2ban.Clock.{DateTime}
use rail2ban.Filter.{Engine, CompiledFilter, MatchResult, process_line, first_match, dated, matched}

module _ {R : Type 0} (engine : Engine R) where
  open engine use {is_match, captures}

  -- The pattern at an index is the first of the list that captures something in a text.
  abbrev pub FirstAt : ℕ → List R → Str → Type 0
  FirstAt i rs content =
      (pre : List R) × (r : R) × (post : List R) × (rs ≡ pre ++ r ∷ post)
      × (i ≡ length pre)
      × (any (λ p. is_some (captures p content)) pre ≡ false)
      × (is_some (captures r content) ≡ true)

  first_match-FirstAt :
      (i : ℕ) (rs : List R) (content : Str) (n : ℕ) (group : Str → Option Str)
      → first_match engine i rs content ≡ some (n, group)
      → (k : ℕ) × (n ≡ i + k) × FirstAt k rs content
  unfolding first_match any
  first_match-FirstAt i [] content n group e = absurd (cc e)
  first_match-FirstAt i (r ∷ rs) content n group e = elim (Option-cases (captures r content)) [
    | inl nothing ↦
        let (k, same, (pre, q, post, split, index, before, own)) =
          first_match-FirstAt (suc i) rs content n group (rw (first_match, nothing) at e) in
        (
          suc k,
          omega (arith, same),
          (r ∷ pre, q, post, ap (λ s. r ∷ s) split, omega (arith, index), rw nothing before, own),
        )
    | inr (g, found) ↦
        let same : i ≡ n = cc (rw (first_match, found) at e) in
        (zero, omega (arith, same), ([], r, rs, refl, refl, refl, rw found refl))
  ]

  -- A filter without prefregex reports a line only if no ignoreregex matches it once its date is gone,
  -- and then with the index of the first failregex that captures something in it,
  -- the instant of the date, and the line as it came.
  pub process_line-FirstAt :
      (f : CompiledFilter R) (line : Str) (m : MatchResult)
      → f.prefregex ≡ none
      → process_line engine f line ≡ some m
      → (any (λ r. is_match r (dated engine line (engine.extract_date line)).0) f.ignoreregex
          ≡ false)
        × FirstAt m.regex_index f.failregex (dated engine line (engine.extract_date line)).0
        × (m.timestamp ≡ (dated engine line (engine.extract_date line)).1)
        × (m.line ≡ line)
  unfolding process_line
  process_line-FirstAt f line m bare e =
      elim (Bool-cases (any (λ r. is_match r rest) f.ignoreregex)) [
        | inl dropped ↦ absurd (cc (rw dropped at e))
        | inr passes ↦
            let searched : matched engine line stamp none (first_match engine 0 f.failregex rest)
                ≡ some m =
              rw (passes, bare) at e in
            let (first, stamped, text) =
              found (first_match engine 0 f.failregex rest) refl searched in
            (passes, first, stamped, text)
      ]
    where
      rest : Str
      rest = (dated engine line (engine.extract_date line)).0

      stamp : Option DateTime
      stamp = (dated engine line (engine.extract_date line)).1

      found :
          (o : Option (ℕ × (Str → Option Str)))
          → first_match engine 0 f.failregex rest ≡ o
          → matched engine line stamp none o ≡ some m
          → FirstAt m.regex_index f.failregex rest × (m.timestamp ≡ stamp) × (m.line ≡ line)
      found none search e = absurd (cc e)
      found (some (i, group)) search e =
          let index : i ≡ m.regex_index =
            ap (λ o. unwrap_or (map_option (λ x. x.regex_index) o) 0) e in
          let stamped : stamp ≡ m.timestamp =
            ap (λ o. unwrap_or (map_option (λ x. x.timestamp) o) none) e in
          let text : line ≡ m.line = ap (λ o. unwrap_or (map_option (λ x. x.line) o) []) e in
          let (k, same, first) = first_match-FirstAt 0 f.failregex rest i group search in
          let here : k ≡ m.regex_index = omega (arith, same, index) in
          (rw (sym here) first, sym stamped, sym text)
