-- ===== src/Config/Depth.antt =====
-- src/config/interpolator.rs: how deep references may go.
use rail2ban.Prelude.{
  ℕ, zero, suc, ◌≤◌, ◌≡◌, refl, sym, ap, ◌∙◌, inl, inr, Bool-cases, ◌==◌, ◌||◌, [], ◌∷◌, ◌++◌, Str,
  codes, length, arith, if◌then◌else◌, ltb, leb, ==_iff, trim, append-nil,
}
use rail2ban.Prelude.Pieces.{Lacks, split_once-append}
use rail2ban.Error.{Error, Result, ok, err, ◌>>=◌}
use rail2ban.Config.Interpolate.{
  InterpolationContext, max_depth, lookup_percent, read_until, scan, interpolate_inner, interpolate,
  followed_by,
}

-- Nothing in the text is interpolated.
abbrev pub Plain : Str → Type 0
Plain s = Lacks (λ c. c == b'%' || c == b'<') s

-- Every `%` doubled.
abbrev pub escaped : Str → Str
escaped [] = []
escaped (c ∷ cs) = if c == b'%' then b'%' ∷ b'%' ∷ escaped cs else c ∷ escaped cs

followed_by-nil : (r : Result Str) → (r >>= followed_by (ok [])) ≡ r
followed_by-nil (ok r) = ap ok (append-nil r)
followed_by-nil (err e) = refl

module _ (ctx : InterpolationContext) where
  scan-escaped :
      (go : Str → Result Str) (fuel : ℕ) (s : Str)
      → length (escaped s) ≤ fuel
      → Lacks (λ c. c == b'<') s
      → scan ctx go fuel (escaped s) ≡ ok s
  unfolding scan
  scan-escaped go fuel [] h p = refl
  scan-escaped go zero (c ∷ cs) h p = ground arith
  scan-escaped go (suc fuel) (c ∷ cs) h p = elim (Bool-cases (c == b'%')) [
    | inl e ↦
        let long = rw e at h in
        let same : c ≡ b'%' = (==_iff c b'%').0 e in
        rw (e, scan-escaped go fuel cs (omega (arith, long)) p.1, same) refl
    | inr e ↦
        let long = rw e at h in
        rw (e, e, p.0, scan-escaped go fuel cs (omega (arith, long)) p.1) refl
  ]

  -- A text without `<` in which every `%` is doubled is interpolated to itself.
  pub interpolate-escaped :
      (s : Str) → Lacks (λ c. c == b'<') s → interpolate ctx (escaped s) ≡ ok s
  unfolding interpolate interpolate_inner
  interpolate-escaped s p = scan-escaped _ (length (escaped s)) s (omega arith) p

  -- A text, the number of references to follow from it, and the plain text at their end.
  pub data Chain : ℕ → Str → Str → Type 0 where
    end : {s : Str} → Plain s → Chain 0 s s
    link :
        {n : ℕ} {value s : Str} (key : Str)
        → Lacks (λ c. c == b')') key
        → lookup_percent (trim key) ctx ≡ ok value
        → Chain n value s
        → Chain (suc n) (codes "%(" ++ (key ++ codes ")s")) s

  escaped-Plain : (s : Str) → Plain s → (escaped s ≡ s) × Lacks (λ c. c == b'<') s
  escaped-Plain [] p = (refl, tt)
  escaped-Plain (c ∷ cs) p = ground (arith, escaped-Plain cs p.1)

  scan-Plain :
      (go : Str → Result Str) (fuel : ℕ) (s : Str)
      → length s ≤ fuel
      → Plain s
      → scan ctx go fuel s ≡ ok s
  scan-Plain go fuel s h p =
      let (same, lacks) = escaped-Plain s p in
      ap (scan ctx go fuel) (sym same)
      ∙ scan-escaped go fuel s (omega (arith, ap length same, h)) lacks

  scan-link :
      (go : Str → Result Str) (fuel : ℕ) (key value : Str)
      → Lacks (λ c. c == b')') key
      → lookup_percent (trim key) ctx ≡ ok value
      → scan ctx go (suc fuel) (codes "%(" ++ (key ++ codes ")s")) ≡ go value
  unfolding scan read_until
  scan-link go fuel key value l e =
      rw (split_once-append (λ c. c == b')') key (codes "s") b')' l refl, e)
        (followed_by-nil (go value))

  interpolate_inner-suc :
      (left : ℕ) (t : Str)
      → interpolate_inner ctx (suc left) t ≡ scan ctx (interpolate_inner ctx left) (length t) t
  unfolding interpolate_inner
  interpolate_inner-suc left t = ap (λ go. scan ctx go (length t) t) refl

  interpolate_inner-Chain :
      (left : ℕ) {n : ℕ} {t s : Str}
      → Chain n t s
      → interpolate_inner ctx left t ≡ (if ltb n left then ok s else err Error.config)
  unfolding interpolate_inner
  interpolate_inner-Chain zero c = ground arith
  interpolate_inner-Chain (suc left) {t = t} (end p) =
      interpolate_inner-suc left t
      ∙ scan-Plain (interpolate_inner ctx left) (length t) t (omega arith) p
      ∙ ground arith
  interpolate_inner-Chain (suc left) {t = t} (link key l e c) =
      interpolate_inner-suc left t
      ∙ scan-link (interpolate_inner ctx left) (suc (length (key ++ codes ")s"))) key _ l e
      ∙ interpolate_inner-Chain left c
      ∙ ground arith

  -- A chain of references that ends in a plain text is resolved to it when it has at most 10 links, and
  -- is an error otherwise.
  pub interpolate-Chain :
      (n : ℕ) (t s : Str)
      → Chain n t s
      → interpolate ctx t ≡ (if leb n max_depth then ok s else err Error.config)
  unfolding interpolate
  interpolate-Chain n t s c = interpolate_inner-Chain (suc max_depth) c ∙ ground arith
