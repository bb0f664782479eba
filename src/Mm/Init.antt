-- ===== src/Mm/Init.antt =====
-- `buddy_init` in arch/riscv/kernel/mm.c: the array that it fills stands for one free block, and
-- the pages that it then reserves are the first ones.
use zju_sys3_sp25_kernel.Base.{
  ℕ, zero, suc, ◌+◌, ◌-◌, ◌*◌, ◌/◌, ◌≤◌, ◌<◌, ◌≡◌, ◌≢◌, ◌∙◌, ap, refl, subst, arith, Bool-cases,
  inl, inr, ◌==◌, if◌then◌else◌, ==→eq, ==→ne, eq→==, ne→==, pow2, pow2_pos, pow2_mono, Words,
  write, write_self, write_ne,
}
use native.Mathlib.Decide.{ℕ_discrete, dec_lt}
use zju_sys3_sp25_kernel.Mm.{is_power_of_2, init_bitmap, buddy_setup}
use zju_sys3_sp25_kernel.Mm.Block.{free, starts}
use zju_sys3_sp25_kernel.Mm.Rep.{FullBelow}
use zju_sys3_sp25_kernel.Mm.Sizes.{is_power_of_2-pow2, is_power_of_2-between}
use zju_sys3_sp25_kernel.Mm.Refine.{Represents}

-- Index `i` stands on level `l`, where level 0 is the root.
abbrev Level : ℕ → ℕ → Type 0
Level l i = (pow2 l ≤ i + 1) × (i + 1 < pow2 (suc l))

-- `node_size` before round `i` of the loop: it is halved where a level begins.
abbrev Entering : ℕ → ℕ → ℕ → ℕ → Type 0
Entering d l i n = Level l i × (n ≡ (if i + 1 == pow2 l then pow2 (suc d - l) else pow2 (d - l)))

pow2-half : (d l : ℕ) → l ≤ d → pow2 (suc d - l) / 2 ≡ pow2 (d - l)
pow2-half d l h = let e : suc d - l ≡ suc (d - l) = omega arith in rw e (omega arith)

-- The value that round `i` writes.
entered :
    (d l i n : ℕ)
    → d < 62
    → l ≤ d
    → Entering d l i n
    → (if is_power_of_2 (i + 1) then n / 2 else n) ≡ pow2 (d - l)
entered d l i n hd hl h = elim (Bool-cases (i + 1 == pow2 l)) [
  | inl first ↦
      let e : i + 1 ≡ pow2 l = ==→eq (i + 1) (pow2 l) first in
      let n_is : n ≡ pow2 (suc d - l) = h.1 ∙ rw first in
      rw (e, is_power_of_2-pow2 l (omega arith), n_is) (pow2-half d l hl)
  | inr inner ↦
      let ne : i + 1 ≢ pow2 l = ==→ne (i + 1) (pow2 l) inner in
      let n_is : n ≡ pow2 (d - l) = h.1 ∙ rw inner in
      rw (is_power_of_2-between l (i + 1) (omega arith) (omega (arith, ne, h.0)) h.0.1) n_is
]

-- The level of the next index.
next_level : ℕ → ℕ → ℕ
next_level l i = if i + 2 == pow2 (suc l) then suc l else l

Entering-next : (d l i : ℕ) → l ≤ d → Level l i → Entering d (next_level l i) (i + 1) (pow2 (d - l))
unfolding next_level
Entering-next d l i hl h = elim (Bool-cases (i + 2 == pow2 (suc l))) [
  | inl e ↦
      let q : i + 2 ≡ pow2 (suc l) = ==→eq (i + 2) (pow2 (suc l)) e in
      let depth : d - l ≡ suc d - suc l = omega arith in
      rw e (
        omega (arith, q, h.0, h.1, pow2_pos l),
        rw (eq→== (i + 1 + 1) (pow2 (suc l)) (omega arith)) (ap pow2 depth),
      )
  | inr e ↦
      let ne : i + 2 ≢ pow2 (suc l) = ==→ne (i + 2) (pow2 (suc l)) e in
      rw e (omega (arith, ne, h.0, h.1), rw (ne→== (i + 1 + 1) (pow2 l) (omega (arith, h.0))))
]

-- A level is determined by an index on it.
Level-unique : (k l i : ℕ) → Level k i → Level l i → k ≡ l
Level-unique k l i p q = elim (ℕ_discrete k l) [
  | yes e ↦ e
  | no ne ↦ elim (dec_lt k l) [
    | yes lt ↦ absurd (omega (arith, pow2_mono (suc k) l lt))
    | no ge ↦ absurd (omega (arith, ne, pow2_mono (suc l) k (omega (arith, ne))))
  ]
]

Level-bound : (d l i : ℕ) → Level l i → i + 1 < pow2 (suc d) → l ≤ d
Level-bound d l i h lt = elim (dec_lt d l) [
  | yes deep ↦ absurd (omega (arith, pow2_mono (suc d) l deep))
  | no ok ↦ omega (arith, ok)
]

-- The loop leaves at every index the size of a node on its level.
init_bitmap-value :
    (d n i l m : ℕ) (b : Words) (j k : ℕ)
    → d < 62
    → i + n < pow2 (suc d)
    → Entering d l i m
    → Level k j
    → j < i + n
    → (j < i → b j ≡ pow2 (d - k))
    → init_bitmap n i m b j ≡ pow2 (d - k)
unfolding init_bitmap
init_bitmap-value d zero i l m b j k hd hn h hk hj old = old (omega arith)
init_bitmap-value d (suc n) i l m b j k hd hn h hk hj old =
    let hl : l ≤ d = Level-bound d l i h.0 (omega arith) in
    rw (entered d l i m hd hl h) (
      init_bitmap-value d n (i + 1) (next_level l i) (pow2 (d - l)) (write b i (pow2 (d - l))) j k
        hd (omega arith) (Entering-next d l i hl h.0) hk (omega arith) (newest hl))
  where
    newest : l ≤ d → j < i + 1 → write b i (pow2 (d - l)) j ≡ pow2 (d - k)
    newest hl lt = elim (ℕ_discrete j i) [
      | yes e ↦
          let at_i : Level k i = subst (Level k) e hk in
          ap (write b i (pow2 (d - l))) e
          ∙ write_self b i (pow2 (d - l))
          ∙ ap (λ x. pow2 (d - x)) (Level-unique l k i h.0 at_i)
      | no ne ↦ write_ne b i (pow2 (d - l)) j ne ∙ old (omega (arith, ne))
    ]

-- An array with these values stands for one free block.
FullBelow-values :
    (b : Words) (d : ℕ)
    → d < 62
    → ((j k : ℕ) → Level k j → j + 1 < pow2 (suc d) → b j ≡ pow2 (d - k))
    → (c i l : ℕ) → l + c ≡ d
    → Level l i
    → FullBelow b c i
FullBelow-values b d hd values zero i l q h = tt
FullBelow-values b d hd values (suc c) i l q h = (
  omega (arith, h.1, pow2_mono (suc l) 61 (omega arith)),
  omega (arith, pow2_mono (suc c) 61 (omega arith)),
  values (i * 2 + 1) (suc l) low (omega (arith, h.1, depth)) ∙ ap pow2 height,
  FullBelow-values b d hd values c (i * 2 + 1) (suc l) (omega arith) low,
  values (i * 2 + 2) (suc l) high (omega (arith, h.1, depth)) ∙ ap pow2 height,
  FullBelow-values b d hd values c (i * 2 + 2) (suc l) (omega arith) high,
)
  where
    low : Level (suc l) (i * 2 + 1)
    low = omega (arith, h.0, h.1)

    high : Level (suc l) (i * 2 + 2)
    high = omega (arith, h.0, h.1)

    height : d - suc l ≡ c
    height = omega arith

    depth : pow2 (suc (suc l)) ≤ pow2 (suc d)
    depth = pow2_mono (suc (suc l)) (suc d) (omega arith)

-- `buddy_init` sets up one free block of 2^d pages with no reference to any.
pub buddy_setup-Represents : (d : ℕ) → d < 62 → Represents (buddy_setup (pow2 d)) d free
unfolding buddy_setup starts
buddy_setup-Represents d hd = record {
  whole = refl;
  deep = hd;
  rep = (
    values 0 0 (omega arith) (omega (arith, pow2_pos d)) ∙ ap pow2 top,
    FullBelow-values start d hd values d 0 0 (omega arith) (omega arith),
  );
  counted = λ o lt. refl;
}
  where
    start : Words
    start = init_bitmap (2 * pow2 d - 1) 0 (2 * pow2 d) (λ _. 0)

    top : d - 0 ≡ d
    top = omega arith

    values : (j k : ℕ) → Level k j → j + 1 < pow2 (suc d) → start j ≡ pow2 (d - k)
    values j k h lt =
        let deeper : suc d ≡ suc d - 0 = omega arith in
        init_bitmap-value d (2 * pow2 d - 1) 0 0 (2 * pow2 d) (λ _. 0) j k hd
          (omega (arith, pow2_pos d)) (omega arith, ap pow2 deeper) h (omega arith)
          (λ z. absurd (omega arith))
