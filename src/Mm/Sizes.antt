-- ===== src/Mm/Sizes.antt =====
-- `fixsize` and the rounding of a request in arch/riscv/kernel/mm.c: the least power of two.
use zju_sys3_sp25_kernel.Base.{
  ℕ, zero, suc, ◌+◌, ◌-◌, ◌/◌, ◌^◌, ◌≤◌, ◌<◌, ◌≡◌, refl, ◌∙◌, ap, arith, true, false, bit_and,
  eq→==, ne→==, pow2, pow2_pos, pow2_mono, w64,
}
use native.Mathlib.Decide.{dec_lt}
use zju_sys3_sp25_kernel.Base.Bits.{
  bit, bit-bit_or, bit_or-lt, bit_top, all_ones, and-pow2, and-ne-zero,
}
use zju_sys3_sp25_kernel.Mm.{is_power_of_2, smear, fixsize, round_pages}

-- The `w` digits of `x` from place `e` down are ones.
abbrev Ones : ℕ → ℕ → ℕ → Type 0
Ones w e x = (k : ℕ) → k ≤ e → e < k + w → bit k x ≡ 1

-- Two digits at most.
bit-le : (k x : ℕ) → bit k x ≤ 1
bit-le zero x = omega arith
bit-le (suc k) x = bit-le k (x / 2)

-- One round doubles the run of ones.
smear-Ones :
    (w e x s : ℕ)
    → ((k : ℕ) → bit k (x / 2 ^ s) ≡ bit (k + s) x)
    → s ≤ w
    → Ones w e x
    → Ones (w + s) e (smear s x)
smear-Ones w e x s shift le ones k hk hw = elim (dec_lt e (k + w)) [
  | yes near ↦ omega (arith, bit-bit_or k x (x / 2 ^ s), ones k hk near, bit-le k (x / 2 ^ s))
  | no far ↦ omega (
    arith,
    bit-bit_or k x (x / 2 ^ s),
    shift k,
    ones (k + s) (omega arith) (omega arith),
    bit-le k x,
  )
]

-- `x / 2 ^ s` drops `s` digits, for the shifts that `fixsize` makes.
bit-shift_one : (k x : ℕ) → bit k (x / 2 ^ 1) ≡ bit (k + 1) x
bit-shift_one k x = let e : k + 1 ≡ suc k = omega arith in rw e

bit-shift_double :
    (s k x : ℕ)
    → ((k x : ℕ) → bit k (x / 2 ^ s) ≡ bit (k + s) x)
    → x / 2 ^ (s + s) ≡ x / 2 ^ s / 2 ^ s
    → bit k (x / 2 ^ (s + s)) ≡ bit (k + (s + s)) x
bit-shift_double s k x h e =
    let places : k + s + s ≡ k + (s + s) = omega arith in
    ap (bit k) e ∙ h k (x / 2 ^ s) ∙ h (k + s) x ∙ ap (λ j. bit j x) places

bit-shift_2 : (k x : ℕ) → bit k (x / 2 ^ 2) ≡ bit (k + 2) x
bit-shift_2 k x = bit-shift_double 1 k x bit-shift_one (omega arith)

bit-shift_4 : (k x : ℕ) → bit k (x / 2 ^ 4) ≡ bit (k + 4) x
bit-shift_4 k x = bit-shift_double 2 k x bit-shift_2 (omega arith)

bit-shift_8 : (k x : ℕ) → bit k (x / 2 ^ 8) ≡ bit (k + 8) x
bit-shift_8 k x = bit-shift_double 4 k x bit-shift_4 (omega arith)

bit-shift_16 : (k x : ℕ) → bit k (x / 2 ^ 16) ≡ bit (k + 16) x
bit-shift_16 k x = bit-shift_double 8 k x bit-shift_8 (omega arith)

bit-shift_32 : (k x : ℕ) → bit k (x / 2 ^ 32) ≡ bit (k + 32) x
bit-shift_32 k x = bit-shift_double 16 k x bit-shift_16 (omega arith)

smear-lt : (n s x : ℕ) → x / 2 ^ s ≤ x → x < pow2 n → smear s x < pow2 n
smear-lt n s x le lt = bit_or-lt n x (x / 2 ^ s) lt (omega arith)

pub fixsize_one : fixsize 1 ≡ 1
unfolding fixsize
fixsize_one = refl

-- `fixsize` of a number above 2^e and up to 2^(e + 1) is 2^(e + 1).
pub fixsize_lem : (e n : ℕ) → e < 63 → pow2 e < n → n ≤ pow2 (suc e) → fixsize n ≡ pow2 (suc e)
unfolding fixsize
fixsize_lem e n he lo hi = rw plain (omega (arith, suc_all, pow2_mono (suc e) 63 (omega arith)))
  where
    y : ℕ
    y = n - 1

    plain : w64 (n + 2 ^ 64 - 1) ≡ y
    plain = omega (arith, pow2_mono (suc e) 63 (omega arith))

    x1 : ℕ
    x1 = smear 1 y

    x2 : ℕ
    x2 = smear 2 x1

    x3 : ℕ
    x3 = smear 4 x2

    x4 : ℕ
    x4 = smear 8 x3

    x5 : ℕ
    x5 = smear 16 x4

    x6 : ℕ
    x6 = smear 32 x5

    o0 : Ones 1 e y
    o0 k hk hw =
        let q : k ≡ e = omega arith in ap (λ j. bit j y) q ∙ bit_top e y (omega arith) (omega arith)

    o6 : Ones 64 e x6
    o6 =
        smear-Ones 32 e x5 32 (λ k. bit-shift_32 k x5) (omega arith)
          (smear-Ones 16 e x4 16 (λ k. bit-shift_16 k x4) (omega arith)
            (smear-Ones 8 e x3 8 (λ k. bit-shift_8 k x3) (omega arith)
              (smear-Ones 4 e x2 4 (λ k. bit-shift_4 k x2) (omega arith)
                (smear-Ones 2 e x1 2 (λ k. bit-shift_2 k x1) (omega arith)
                  (smear-Ones 1 e y 1 (λ k. bit-shift_one k y) (omega arith) o0)))))

    small : x6 < pow2 (suc e)
    small = smear-lt (suc e) 32 x5 (omega arith) (
        smear-lt (suc e) 16 x4 (omega arith) (
          smear-lt (suc e) 8 x3 (omega arith) (
            smear-lt (suc e) 4 x2 (omega arith) (
              smear-lt (suc e) 2 x1 (omega arith)
                (smear-lt (suc e) 1 y (omega arith) (omega arith))))))

    suc_all : suc x6 ≡ pow2 (suc e)
    suc_all = all_ones e x6 small (λ k le. o6 k le (omega arith))

-- `IS_POWER_OF_2` holds of the powers of two, and of no number between two of them.
pub is_power_of_2-pow2 : (k : ℕ) → k < 64 → is_power_of_2 (pow2 k) ≡ true
unfolding is_power_of_2
is_power_of_2-pow2 k h =
    let plain : w64 (pow2 k + 2 ^ 64 - 1) ≡ pow2 k - 1 =
      omega (arith, pow2_mono k 63 (omega arith), pow2_pos k) in
    rw plain (eq→== (bit_and (pow2 k) (pow2 k - 1)) 0 (and-pow2 k))

pub is_power_of_2-between :
    (e x : ℕ) → e < 63 → pow2 e < x → x < pow2 (suc e) → is_power_of_2 x ≡ false
unfolding is_power_of_2
is_power_of_2-between e x h p q =
    let plain : w64 (x + 2 ^ 64 - 1) ≡ x - 1 = omega (arith, pow2_mono (suc e) 63 (omega arith)) in
    rw plain (ne→== (bit_and x (x - 1)) 0 (and-ne-zero e x p q))

-- A request for more than 2^e pages, and up to 2^(e + 1), takes 2^(e + 1).
pub round_pages_lem :
    (e n : ℕ) → e < 63 → pow2 e < n → n ≤ pow2 (suc e) → round_pages n ≡ pow2 (suc e)
unfolding round_pages
round_pages_lem e n h lo hi = elim (dec_lt n (pow2 (suc e))) [
  | yes lt ↦
      rw (ne→== n 0 (omega arith), is_power_of_2-between e n h lo lt) (fixsize_lem e n h lo hi)
  | no ge ↦
      let q : n ≡ pow2 (suc e) = omega arith in
      rw (ne→== n 0 (omega arith), ap is_power_of_2 q ∙ is_power_of_2-pow2 (suc e) (omega arith)) q
]

pub round_pages_one : (n : ℕ) → n ≤ 1 → round_pages n ≡ 1
unfolding round_pages is_power_of_2
round_pages_one zero h = refl
round_pages_one (suc zero) h = refl
round_pages_one (suc (suc n)) h = absurd (omega arith)
