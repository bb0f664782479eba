-- ===== src/Base/Bits.antt =====
-- Binary digits: what `&`, `|` and shifts do to each digit of a word.
use Prim.Native.Nat.{
  ℕ, zero, suc, ◌+◌, ◌-◌, ◌*◌, ◌/◌, ◌%◌, ◌≤◌, ◌<◌, min, max, bit_and, bit_or, digits, bitwise,
  bit_and-bitwise, bit_or-bitwise,
}
use mathlib.Core.Path.{◌≡◌, refl, ◌∙◌, ap, ap₂}
use mathlib.Core.Logic.{◌≢◌}
use native.Mathlib.Omega.{arith}
use zju_sys3_sp25_kernel.Base.Word.{pow2, pow2_pos}

-- A digit-wise operation is given by its digits, however many rounds are run.
module _ (z : ℕ → ℕ) (f : ℕ → ℕ → ℕ) (drop : (b : ℕ) → z b ≡ z (b / 2) * 2 + f 0 (b % 2)) where
  digits-rounds : (n m a b : ℕ) → a ≤ n → a ≤ m → digits z f n a b ≡ digits z f m a b
  digits-rounds zero zero a b p q = refl
  digits-rounds zero (suc m) zero b p q = refl
  digits-rounds zero (suc m) (suc a) b p q = absurd (omega arith)
  digits-rounds (suc n) zero zero b p q = refl
  digits-rounds (suc n) zero (suc a) b p q = absurd (omega arith)
  digits-rounds (suc n) (suc m) zero b p q = refl
  digits-rounds (suc n) (suc m) (suc a) b p q =
      ap (λ x. x * 2 + f (suc a % 2) (b % 2))
        (digits-rounds n m (suc a / 2) (b / 2) (omega arith) (omega arith))

  bitwise_step : (a b : ℕ) → bitwise z f a b ≡ bitwise z f (a / 2) (b / 2) * 2 + f (a % 2) (b % 2)
  bitwise_step zero b = drop b
  bitwise_step (suc a) b =
      ap (λ x. x * 2 + f (suc a % 2) (b % 2))
        (digits-rounds a (suc a / 2) (suc a / 2) (b / 2) (omega arith) (omega arith))

pub and_step : (a b : ℕ) → bit_and a b ≡ bit_and (a / 2) (b / 2) * 2 + min (a % 2) (b % 2)
and_step a b = omega (
  arith,
  bit_and-bitwise a b,
  bit_and-bitwise (a / 2) (b / 2),
  bitwise_step (λ b. zero) min (λ b. omega arith) a b,
)

pub or_step : (a b : ℕ) → bit_or a b ≡ bit_or (a / 2) (b / 2) * 2 + max (a % 2) (b % 2)
or_step a b = omega (
  arith,
  bit_or-bitwise a b,
  bit_or-bitwise (a / 2) (b / 2),
  bitwise_step (λ b. b) max (λ b. omega arith) a b,
)

-- The digit of `x` at place `k`.
abbrev pub bit : ℕ → ℕ → ℕ
bit zero x = x % 2
bit (suc k) x = bit k (x / 2)

pub bit-zero : (k : ℕ) → bit k 0 ≡ 0
bit-zero zero = refl
bit-zero (suc k) = bit-zero k

pub bit-bit_or : (k a b : ℕ) → bit k (bit_or a b) ≡ max (bit k a) (bit k b)
bit-bit_or zero a b = omega (arith, or_step a b)
bit-bit_or (suc k) a b =
    let half : bit_or a b / 2 ≡ bit_or (a / 2) (b / 2) = omega (arith, or_step a b) in
    ap (bit k) half ∙ bit-bit_or k (a / 2) (b / 2)

pub bit-bit_and : (k a b : ℕ) → bit k (bit_and a b) ≡ min (bit k a) (bit k b)
bit-bit_and zero a b = omega (arith, and_step a b)
bit-bit_and (suc k) a b =
    let half : bit_and a b / 2 ≡ bit_and (a / 2) (b / 2) = omega (arith, and_step a b) in
    ap (bit k) half ∙ bit-bit_and k (a / 2) (b / 2)

pub bit_or-lt : (n a b : ℕ) → a < pow2 n → b < pow2 n → bit_or a b < pow2 n
bit_or-lt zero a b p q =
    let a0 : a ≡ 0 = omega arith in let b0 : b ≡ 0 = omega arith in rw (a0, b0) (omega arith)
bit_or-lt (suc n) a b p q =
    omega (arith, or_step a b, bit_or-lt n (a / 2) (b / 2) (omega arith) (omega arith))

-- The leading digit.
pub bit_top : (e x : ℕ) → pow2 e ≤ x → x < pow2 (suc e) → bit e x ≡ 1
bit_top zero x p q = omega arith
bit_top (suc e) x p q = bit_top e (x / 2) (omega arith) (omega arith)

pub all_ones : (e x : ℕ) → x < pow2 (suc e) → ((k : ℕ) → k ≤ e → bit k x ≡ 1) → suc x ≡ pow2 (suc e)
all_ones zero x lt ones = omega (arith, ones 0 (omega arith))
all_ones (suc e) x lt ones =
    let half = all_ones e (x / 2) (omega arith) (λ k le. ones (suc k) (omega arith)) in
    omega (arith, half, ones 0 (omega arith))

-- A power of two shares no digit with the number before it.
pub and-pow2 : (k : ℕ) → bit_and (pow2 k) (pow2 k - 1) ≡ 0
and-pow2 zero = refl
and-pow2 (suc k) =
    let half : pow2 (suc k) / 2 ≡ pow2 k = omega arith in
    let low : (pow2 (suc k) - 1) / 2 ≡ pow2 k - 1 = omega (arith, pow2_pos k) in
    omega (arith, and_step (pow2 (suc k)) (pow2 (suc k) - 1), ap₂ bit_and half low, and-pow2 k)

-- Between two powers of two, a number shares its leading digit with the number before it.
pub and-ne-zero : (e x : ℕ) → pow2 e < x → x < pow2 (suc e) → bit_and x (x - 1) ≢ 0
and-ne-zero e x p q z = omega (
  arith,
  bit-bit_and e x (x - 1),
  bit_top e x (omega arith) q,
  bit_top e (x - 1) (omega arith) (omega arith),
  ap (bit e) z,
  bit-zero e,
)
