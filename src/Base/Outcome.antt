-- ===== src/Base/Outcome.antt =====
-- The outcome of code that can stop the machine or loop.

-- `no_fuel` is a loop that had more rounds to go; `halt` is a call that never returns; `fault` is an
-- access through a null pointer or outside an array.
pub data Run {ℓ} (A : Type ℓ) : Type ℓ where
  done : A → Run A
  halt : Run A
  no_fuel : Run A
  fault : Run A

infixl 5 ◌>>=◌
abbrev pub ◌>>=◌ {ℓ κ} : {A : Type ℓ} {B : Type κ} → Run A → (A → Run B) → Run B
done a >>= f = f a
halt >>= f = halt
no_fuel >>= f = no_fuel
fault >>= f = fault

-- What an `int` function of the kernel reports: 0 or -1.
pub data Status : Type 0 where
  success failure : Status
