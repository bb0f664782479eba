-- ===== src/Malloc/Index.antt =====
-- The index of the size of a block in user/src/malloc.c.
use zju_sys3_sp25_kernel.Base.{
  ℕ, zero, suc, ◌+◌, ◌-◌, ◌*◌, ◌/◌, ◌^◌, ◌≤◌, ◌<◌, ◌≡◌, ◌≢◌, ◌∙◌, ◌⊎◌, inl, inr, refl, ap, sym,
  subst, arith, true, false, ltb, leb, ne→==, if◌then◌else◌, some, done, pow2, pow2_pos, pow2_mono,
}
use native.Mathlib.Decide.{ℕ_discrete}
use zju_sys3_sp25_kernel.Mm.{fixsize}
use zju_sys3_sp25_kernel.Mm.Sizes.{fixsize_lem, fixsize_one}
use zju_sys3_sp25_kernel.Malloc.{
  unit_size_slab, digit_loop, before, get_used_slab_idx, get_block_idx,
}

digit_loop-step :
    (f size idx : ℕ) → size ≢ 0 → digit_loop (suc f) size idx ≡ digit_loop f (size / 2) (idx + 1)
unfolding digit_loop
digit_loop-step f size idx n = rw (ne→== size 0 n) refl

digit_loop-over : (f idx : ℕ) → digit_loop (suc f) 0 idx ≡ done idx
unfolding digit_loop
digit_loop-over f idx = refl

-- A power of two has one digit more than its exponent.
digit_loop-pow2 : (e f idx : ℕ) → e + 1 < f → digit_loop f (pow2 e) idx ≡ done (idx + e + 1)
digit_loop-pow2 e zero idx l = absurd (omega (arith, l))
digit_loop-pow2 zero (suc zero) idx l = absurd (omega (arith, l))
digit_loop-pow2 zero (suc (suc f)) idx l =
    digit_loop-step (suc f) 1 idx (λ e. omega (arith, e))
    ∙ digit_loop-over f (idx + 1)
    ∙ ap (λ x. done x) (omega arith)
digit_loop-pow2 (suc e) (suc f) idx l =
    let half : pow2 (suc e) / 2 ≡ pow2 e = omega arith in
    let some_digit : pow2 (suc e) ≢ 0 = λ h. absurd (omega (arith, h, pow2_pos (suc e))) in
    digit_loop-step f (pow2 (suc e)) idx some_digit
    ∙ ap (λ x. digit_loop f x (idx + 1)) half
    ∙ digit_loop-pow2 e f (idx + 1) (omega (arith, l))
    ∙ ap (λ x. done x) (omega arith)

fixsize-pow2 : (e : ℕ) → e < 64 → fixsize (pow2 e) ≡ pow2 e
fixsize-pow2 zero l = fixsize_one
fixsize-pow2 (suc e) l =
    fixsize_lem e (pow2 (suc e)) (omega (arith, l)) (omega (arith, pow2_pos e)) (omega arith)

-- The least power of two that is not below a number.
least_power : (k n : ℕ) → 0 < n → n ≤ pow2 k → (e : ℕ) × (e ≤ k) × (n ≤ pow2 e) × (pow2 e < 2 * n)
least_power zero n p l = (0, omega arith, l, omega (arith, p))
least_power (suc k) n p l = elim (ℕ_discrete (if leb n (pow2 k) then 1 else 0) 1) [
  | yes h ↦
      let r : (e : ℕ) × (e ≤ k) × (n ≤ pow2 e) × (pow2 e < 2 * n) =
        least_power k n p (ground (arith, h)) in
      (r.0, omega (arith, r.1), r.2, r.3)
  | no h ↦ (suc k, omega arith, l, ground (arith, h))
]

fixsize-least : (e n : ℕ) → e < 64 → 0 < n → n ≤ pow2 e → pow2 e < 2 * n → fixsize n ≡ pow2 e
fixsize-least zero n l p a b =
    let one : n ≡ 1 = omega (arith, p, a) in ap fixsize one ∙ fixsize-pow2 0 l
fixsize-least (suc e) n l p a b = fixsize_lem e n (omega (arith, l)) (omega (arith, b)) a

index_small :
    (e n : ℕ)
    → n ≤ 2 ^ 11
    → e ≤ 11
    → fixsize n ≡ pow2 e
    → get_used_slab_idx n ≡ done (some (12 + e))
unfolding get_used_slab_idx before
index_small e n l small same =
    let low : leb n (2 ^ 11) ≡ true = ground (arith, l) in
    let digits : digit_loop 65 (fixsize n) 12 ≡ done (suc (12 + e)) =
      ap (λ x. digit_loop 65 x 12) same
      ∙ digit_loop-pow2 e 65 12 (omega (arith, small))
      ∙ ap (λ x. done x) (omega arith) in
    rw (low, digits) refl

unit_small : (e : ℕ) → unit_size_slab (12 + e) ≡ done (pow2 e)
unfolding unit_size_slab
unit_small e =
    let a : ltb (12 + e) 8 ≡ false = ground arith in
    let b : ltb (12 + e) 12 ≡ false = ground arith in
    let c : 12 + e - 12 ≡ e = omega arith in rw (a, b, c) refl

-- For a request of 1 to 2048 bytes `get_used_slab_idx` returns an index from 12 to 23, and the blocks of the slabs at this
-- index have at least this size and less than twice of it.
pub get_used_slab_idx-unit_size_slab :
    (n : ℕ)
    → 0 < n
    → n ≤ 2 ^ 11
    → (idx unit : ℕ) × (get_used_slab_idx n ≡ done (some idx))
      × (12 ≤ idx)
      × (idx < 24)
      × (unit_size_slab idx ≡ done unit)
      × (n ≤ unit)
      × (unit < 2 * n)
get_used_slab_idx-unit_size_slab n p l =
    let r : (e : ℕ) × (e ≤ 11) × (n ≤ pow2 e) × (pow2 e < 2 * n) = least_power 11 n p l in
    (
      12 + r.0,
      pow2 r.0,
      index_small r.0 n l r.1 (fixsize-least r.0 n (omega (arith, r.1)) p r.2 r.3),
      omega arith,
      omega (arith, r.1),
      unit_small r.0,
      r.2,
      r.3,
    )

block_low : (e : ℕ) → e < 12 → get_block_idx (pow2 e) ≡ done (some (12 + e))
unfolding get_block_idx before
block_low e l =
    let same : fixsize (pow2 e) ≡ pow2 e = fixsize-pow2 e (omega (arith, l)) in
    let top : pow2 e ≤ pow2 11 = pow2_mono e 11 (omega (arith, l)) in
    let low : ltb (pow2 e) (2 ^ 12) ≡ true = ground (arith, top) in
    let digits : digit_loop 65 (pow2 e) 12 ≡ done (suc (12 + e)) =
      digit_loop-pow2 e 65 12 (omega (arith, l)) ∙ ap (λ x. done x) (omega arith) in
    rw (same, low, digits) refl

suc_behind : (e : ℕ) → suc (12 + e) ≡ 12 + suc e
suc_behind e = omega arith

shifted : (e : ℕ) → pow2 e * 2 ^ 12 ≡ pow2 (12 + e)
shifted zero = refl
shifted (suc e) =
    let next : 2 * pow2 (12 + e) ≡ pow2 (12 + suc e) = ap pow2 (suc_behind e) in
    omega (arith, shifted e, next)

block_high : (e : ℕ) → e < 8 → get_block_idx (pow2 e * 2 ^ 12) ≡ done (some e)
unfolding get_block_idx before
block_high e l =
    let same : fixsize (pow2 e * 2 ^ 12) ≡ pow2 e * 2 ^ 12 =
      ap fixsize (shifted e) ∙ fixsize-pow2 (12 + e) (omega (arith, l)) ∙ sym (shifted e) in
    let high : ltb (pow2 e * 2 ^ 12) (2 ^ 12) ≡ false = ground (arith, pow2_pos e) in
    let pages : pow2 e * 2 ^ 12 / 2 ^ 12 ≡ pow2 e = omega arith in
    let digits : digit_loop 65 (pow2 e) 0 ≡ done (suc e) =
      digit_loop-pow2 e 65 0 (omega (arith, l)) ∙ ap (λ x. done x) (omega arith) in
    rw (same, high, pages, digits) refl

-- For an index below 8, or from 12 to 23, there is a size of the blocks, and `get_block_idx` of this size is the index: a
-- block goes back to a list of its own size.
pub get_block_idx-unit_size_slab :
    (idx : ℕ)
    → (idx < 8) ⊎ ((12 ≤ idx) × (idx < 24))
    → (unit : ℕ) × (unit_size_slab idx ≡ done unit) × (get_block_idx unit ≡ done (some idx))
get_block_idx-unit_size_slab idx (inl l) = (pow2 idx * 2 ^ 12, unit_large, block_high idx l)
  where
    unit_large : unit_size_slab idx ≡ done (pow2 idx * 2 ^ 12)
    unit_large = unfold unit_size_slab in ground (arith, l)
get_block_idx-unit_size_slab idx (inr (l, u)) =
    let e : 12 + (idx - 12) ≡ idx = omega (arith, l) in
    (
      pow2 (idx - 12),
      subst (λ x. unit_size_slab x ≡ done (pow2 (idx - 12))) e (unit_small (idx - 12)),
      block_low (idx - 12) (omega (arith, u)) ∙ ap (λ x. done (some x)) e,
    )
