-- ===== src/Vm/Entry.antt =====
-- The entries of a table and the parts of an address: the macros of arch/riscv/include/vm.h.
use zju_sys3_sp25_kernel.Base.{
  ℕ, zero, suc, ◌+◌, ◌-◌, ◌*◌, ◌/◌, ◌%◌, ◌^◌, ◌≤◌, ◌<◌, ◌≡◌, ◌∙◌, refl, arith, bit_or, Bool, true,
  false, ◌==◌, eq→==, ap, pow2, w64,
}
use native.Mathlib.Decide.{ℕ_discrete}
use zju_sys3_sp25_kernel.Base.Bits.{or_step}
use zju_sys3_sp25_kernel.Mm.{pa2va, va2pa}

abbrev pub get_subbitmap : ℕ → ℕ → ℕ → ℕ
get_subbitmap bitmap low high = (bitmap / 2 ^ low) % 2 ^ (high - low + 1)

-- The entry for page number `ppn` with the flags `perm`.
abbrev pub sv39_pte : ℕ → ℕ → ℕ
sv39_pte ppn perm = bit_or (w64 (ppn * 2 ^ 10)) perm % 2 ^ 54

abbrev pub get_ppn : ℕ → ℕ
get_ppn pte = get_subbitmap pte 10 53

abbrev pub get_perm : ℕ → ℕ
get_perm pte = pte % 2 ^ 10

-- `pte & SV39_PTE_V`
unfoldable pub valid : ℕ → Bool
valid pte = pte % 2 == 1

abbrev pub ppn2phys : ℕ → ℕ
ppn2phys x = w64 (x * 2 ^ 12)

abbrev pub phys2ppn : ℕ → ℕ
phys2ppn x = x / 2 ^ 12

-- The table or page that an entry points to.
unfoldable pub child : ℕ → ℕ
child pte = pa2va (ppn2phys (get_ppn pte))

-- The low bits, and what is left of the value.
abbrev pub extract_bits : ℕ → ℕ → ℕ × ℕ
extract_bits val num_bits = (val % 2 ^ num_bits, val / 2 ^ num_bits)

-- The indices into the three levels of tables.
pub record Vpn : Type 0 where
  pub v0 : ℕ
  pub v1 : ℕ
  pub v2 : ℕ

abbrev pub split_vpn : ℕ → Vpn
split_vpn vpn =
    let low = extract_bits vpn 9 in
    let middle = extract_bits low.1 9 in
    record { v0 = low.0; v1 = middle.0; v2 = (extract_bits middle.1 9).0 }

-- A page of the kernel's map of the memory.
abbrev pub IsPage : ℕ → Type 0
IsPage p = (p % 2 ^ 12 ≡ 0) × (18446743936270598144 ≤ p) × (p < 18446744069414584320)

or_upto : (n x : ℕ) → x ≤ n → bit_or x 0 ≡ x
or_upto zero x h = let x0 : x ≡ 0 = omega arith in rw x0 refl
or_upto (suc n) x h = elim (ℕ_discrete x 0) [
  | yes e ↦ rw e refl
  | no ne ↦
      let half : bit_or (x / 2) (0 / 2) ≡ x / 2 = or_upto n (x / 2) (omega (arith, h, ne)) in
      omega (arith, or_step x 0, half)
]

or-zero : (x : ℕ) → bit_or x 0 ≡ x
or-zero x = or_upto x x (omega arith)

twice : (x y : ℕ) → x * (2 * y) ≡ 2 * (x * y)
twice x y = grind arith

double : (x y : ℕ) → x * (2 * y) / 2 ≡ x * y
double x y = omega (arith, twice x y)

even_double : (x y : ℕ) → x * (2 * y) % 2 ≡ 0
even_double x y = omega (arith, twice x y)

-- Disjoint bits add up.
or-disjoint : (n x y : ℕ) → y < pow2 n → bit_or (x * pow2 n) y ≡ x * pow2 n + y
or-disjoint zero x y h = let y0 : y ≡ 0 = omega arith in rw y0 (or-zero (x * 1) ∙ omega arith)
or-disjoint (suc n) x y h =
    let half : x * pow2 (suc n) / 2 ≡ x * pow2 n = double x (pow2 n) in
    let even : x * pow2 (suc n) % 2 ≡ 0 = even_double x (pow2 n) in
    let low : bit_or (x * pow2 (suc n) / 2) (y / 2) ≡ x * pow2 n + y / 2 =
      ap (λ z. bit_or z (y / 2)) half ∙ or-disjoint n x (y / 2) (omega arith) in
    omega (arith, or_step (x * pow2 (suc n)) y, low, even, twice x (pow2 n))

or-flags : (ppn perm : ℕ) → ppn < 2 ^ 44 → perm < 2 ^ 10 → sv39_pte ppn perm ≡ ppn * 2 ^ 10 + perm
or-flags ppn perm h k =
    let word : w64 (ppn * 2 ^ 10) ≡ ppn * 2 ^ 10 = omega (arith, h) in
    let joined : bit_or (w64 (ppn * 2 ^ 10)) perm ≡ ppn * 2 ^ 10 + perm =
      ap (λ x. bit_or x perm) word ∙ or-disjoint 10 ppn perm k in
    omega (arith, joined, h, k)

pub get_ppn-sv39_pte :
    (ppn perm : ℕ) → ppn < 2 ^ 44 → perm < 2 ^ 10 → get_ppn (sv39_pte ppn perm) ≡ ppn
get_ppn-sv39_pte ppn perm h k = omega (arith, or-flags ppn perm h k, h, k)

pub valid-sv39_pte :
    (ppn perm : ℕ) → ppn < 2 ^ 44 → perm < 2 ^ 10 → perm % 2 ≡ 1 → valid (sv39_pte ppn perm) ≡ true
unfolding valid
valid-sv39_pte ppn perm h k o =
    let odd : sv39_pte ppn perm % 2 ≡ 1 = omega (arith, or-flags ppn perm h k, o) in
    eq→== (sv39_pte ppn perm % 2) 1 odd

-- The entry for a page points to it.
pub child-sv39_pte : (p : ℕ) → IsPage p → child (sv39_pte (phys2ppn (va2pa p)) 1) ≡ p
unfolding child
child-sv39_pte p h =
    let small : phys2ppn (va2pa p) < 2 ^ 44 = unfold va2pa in omega (arith, h.0, h.1, h.2) in
    ap (λ n. pa2va (ppn2phys n)) (get_ppn-sv39_pte (phys2ppn (va2pa p)) 1 small (omega arith))
    ∙ (unfold pa2va va2pa in omega (arith, h.0, h.1, h.2))

pub valid-child : (p : ℕ) → IsPage p → valid (sv39_pte (phys2ppn (va2pa p)) 1) ≡ true
valid-child p h =
    let small : phys2ppn (va2pa p) < 2 ^ 44 = unfold va2pa in omega (arith, h.0, h.1, h.2) in
    valid-sv39_pte (phys2ppn (va2pa p)) 1 small (omega arith) (omega arith)

pub valid-zero : valid 0 ≡ false
unfolding valid
valid-zero = refl
