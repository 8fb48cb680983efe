-- ===== src/Error.antt =====
-- src/error.rs: the kinds of error, without their messages, and the results that carry them.

pub data Error : Type 0 where
  config regex io database json time_parse ip_parse protocol action jail other anyhow : Error

pub data Result {ℓ} (A : Type ℓ) : Type ℓ where
  ok : A → Result A
  err : Error → Result A

infixl 5 ◌>>=◌
abbrev pub ◌>>=◌ {ℓ κ} : {A : Type ℓ} {B : Type κ} → Result A → (A → Result B) → Result B
ok a >>= f = f a
err e >>= f = err e
