-- ===== src/Database/Rows.antt =====
-- Filters of rows, by the tests that the statements make.
use rail2ban.Prelude.{◌≡◌, refl, Bool, true, false, not, List, [], ◌∷◌, arith, retain, any, ◌↔◌}
use rail2ban.Prelude.Int.{ℤ, eq_ℤ}

pub eq_ℤ_iff : (a b : ℤ) → (eq_ℤ a b ≡ true) ↔ (a ≡ b)
eq_ℤ_iff a b = ground arith

pub eq_ℤ_refl : (a : ℤ) → eq_ℤ a a ≡ true
eq_ℤ_refl a = ground arith

module _ {ℓ} {A : Type ℓ} where
  -- No row of a filtered table passes a test that the filter excludes.
  pub any-retain_excluded :
      (p q : A → Bool) (xs : List A)
      → ((x : A) → q x ≡ true → p x ≡ false)
      → any p (retain q xs) ≡ false
  unfolding any retain
  any-retain_excluded p q [] h = refl
  any-retain_excluded p q (x ∷ xs) h = ground (arith, h x, any-retain_excluded p q xs h)

  -- A filter that keeps every row passing the test does not change whether one does.
  pub any-retain_kept :
      (p q : A → Bool) (xs : List A)
      → ((x : A) → p x ≡ true → q x ≡ true)
      → any p (retain q xs) ≡ any p xs
  unfolding any retain
  any-retain_kept p q [] h = refl
  any-retain_kept p q (x ∷ xs) h = ground (arith, h x, any-retain_kept p q xs h)

  pub retain-absent :
      (p : A → Bool) (xs : List A) → any p xs ≡ false → retain (λ x. not (p x)) xs ≡ xs
  unfolding any retain
  retain-absent p [] h = refl
  retain-absent p (x ∷ xs) h = ground (arith, retain-absent p xs)

  pub retain-none : (p : A → Bool) (xs : List A) → any p xs ≡ false → retain p xs ≡ []
  unfolding any retain
  retain-none p [] h = refl
  retain-none p (x ∷ xs) h = ground (arith, retain-none p xs)
