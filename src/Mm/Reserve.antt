-- ===== src/Mm/Reserve.antt =====
-- The pages that `buddy_init` in arch/riscv/kernel/mm.c reserves are the first ones.
use zju_sys3_sp25_kernel.Base.{
  ℕ, zero, suc, ◌+◌, ◌-◌, ◌≤◌, ◌<◌, ◌≡◌, ◌≢◌, ◌∙◌, ap, sym, refl, arith, true, false, Bool-cases,
  inl, inr, ltb, ltb→lt, ltb→ge, lt→ltb, ge→ltb, pow2, pow2_pos, done, w64, ◌*◌,
}
use native.Mathlib.Decide.{dec_lt}
use zju_sys3_sp25_kernel.Mm.{
  Buddy, buddy_setup, buddy_init, buddy_size, reserve, phys2pfn, va2pa, is_power_of_2,
}
use zju_sys3_sp25_kernel.Mm.Block.{
  Block, free, used, split, longest, left_half, right_half, alloc, position, covered, inside,
}
use zju_sys3_sp25_kernel.Mm.Rep.{Fits, Rep-Fits}
use zju_sys3_sp25_kernel.Mm.Sizes.{round_pages_one}
use zju_sys3_sp25_kernel.Mm.Alloc.{position-whole}
use zju_sys3_sp25_kernel.Mm.Pages.{
  search_induction, covered-halves, position-left, position-right, position_bound, covered-alloc,
  covered-position,
}
use zju_sys3_sp25_kernel.Mm.Refine.{Represents, Allocated, buddy_alloc-Allocated}
use zju_sys3_sp25_kernel.Mm.Init.{buddy_setup-Represents}

Fits-left : (d : ℕ) (t : Block) → Fits (suc d) t → Fits d (left_half t)
Fits-left d free h = tt
Fits-left d used h = tt
Fits-left d (split l r) h = h.0

Fits-right : (d : ℕ) (t : Block) → Fits (suc d) t → Fits d (right_half t)
Fits-right d free h = tt
Fits-right d used h = tt
Fits-right d (split l r) h = h.1

-- A free page is in a free block of at least one page.
room_of_free :
    (d : ℕ) (t : Block) (o : ℕ) → Fits d t → o < pow2 d → covered d t o ≡ false → 1 ≤ longest d t
unfolding covered
room_of_free d free o f lt c = pow2_pos d
room_of_free d used o f lt c = ground arith
room_of_free zero (split l r) o f lt c = absurd f
room_of_free (suc d) (split l r) o f lt c = elim (Bool-cases (ltb o (pow2 d))) [
  | inl low ↦ omega (arith, room_of_free d l o f.0 (ltb→lt o (pow2 d) low) (rw low at c))
  | inr high ↦ omega (
    arith,
    room_of_free d r (o - pow2 d) f.1 (omega (arith, ltb→ge o (pow2 d) high)) (rw high at c),
  )
]

-- With one page wanted, the first free one is taken.
abbrev Lowest : ℕ → Block → Type 0
Lowest d t = Fits d t → (o : ℕ) → o < position d 0 t → covered d t o ≡ true

module _ (d : ℕ) (t : Block) (ne : t ≢ used) (f : Fits (suc d) t) (o : ℕ) where
  lowest-left :
      pow2 0 ≤ longest d (left_half t)
      → (o < position d 0 (left_half t) → covered d (left_half t) o ≡ true)
      → o < position (suc d) 0 t
      → covered (suc d) t o ≡ true
  lowest-left room ih lt =
      let below : o < position d 0 (left_half t) =
        omega (arith, lt, position-left d 0 t (omega arith) room) in
      rw
        (
          covered-halves d t o ne,
          lt→ltb o (pow2 d)
              (omega (arith, below, position_bound d 0 (left_half t) (omega arith) room)),
        )
        (ih below)

  lowest-right :
      longest d (left_half t) < pow2 0
      → (o - pow2 d < position d 0 (right_half t) → covered d (right_half t) (o - pow2 d) ≡ true)
      → o < position (suc d) 0 t
      → covered (suc d) t o ≡ true
  lowest-right full ih lt = rw (covered-halves d t o ne) (elim (Bool-cases (ltb o (pow2 d))) [
    | inl low ↦ rw low (elim (Bool-cases (covered d (left_half t) o)) [
      | inl c ↦ c
      | inr c ↦ absurd (
          omega (
            arith,
            full,
            room_of_free d (left_half t) o (Fits-left d t f) (ltb→lt o (pow2 d) low) c,
          ))
    ])
    | inr high ↦ rw high (
        ih
          (omega (arith, lt, position-right d 0 t (omega arith) full, ltb→ge o (pow2 d) high, pos)))
  ])
    where
      pos : 0 ≤ position d 0 (right_half t)
      pos = omega arith

position-Lowest : (d : ℕ) (t : Block) → 1 ≤ longest d t → Lowest d t
position-Lowest d t room =
    search_induction Lowest 0 (λ f o lt. absurd (omega (arith, lt, position-whole 0 free)))
      (λ d t le ne room ih f o. lowest-left d t ne f o room (ih (Fits-left d t f) o))
      (λ d t le ne full ih f o. lowest-right d t ne f o full (ih (Fits-right d t f) (o - pow2 d))) d
      t (omega arith) room

-- The first `m` pages are handed out, and no other.
abbrev pub FirstPages : ℕ → Block → ℕ → Type 0
FirstPages d t m = (o : ℕ) → o < pow2 d → covered d t o ≡ ltb o m

module _ (d m : ℕ) (t : Block) (f : Fits d t) (first : FirstPages d t m) (lt : m < pow2 d) where
  room : 1 ≤ longest d t
  room = room_of_free d t m f lt (first m lt ∙ ge→ltb m m (omega arith))

  in_range : position d 0 t < pow2 d
  in_range = omega (arith, position_bound d 0 t (omega arith) room)

  position-first : position d 0 t ≡ m
  position-first = elim (dec_lt m (position d 0 t)) [
    | yes above ↦
        let c = position-Lowest d t room f m above in absurd (ground (arith, c, first m lt))
    | no le ↦ elim (dec_lt (position d 0 t) m) [
      | yes below ↦
          let own : inside (position d 0 t) (pow2 0) (position d 0 t) ≡ true = ground arith in
          let c = covered-position d 0 (position d 0 t) t (omega arith) room own in
          absurd (ground (arith, c, first (position d 0 t) in_range))
      | no ge ↦ omega (arith, le, ge)
    ]
  ]

  alloc-FirstPages : FirstPages d (alloc d 0 t) (m + 1)
  alloc-FirstPages o ho =
      covered-alloc d 0 o t (omega arith) room ho ∙ rw (position-first, first o ho) (ground arith)

pub record Reserved (n : ℕ) (s : Buddy) (d m : ℕ) : Type 0 where
  pub next : Buddy
  pub tree : Block
  pub result : reserve n s ≡ done next
  pub represents : Represents next d tree
  pub first : FirstPages d tree (m + n)

Reserved-alloc :
    (n d m : ℕ) (s : Buddy) (t : Block) (a : Allocated 1 s d 0 t)
    → Reserved n a.next d (m + 1)
    → Reserved (suc n) s d m
unfolding reserve
Reserved-alloc n d m s t a rest =
    let same : m + 1 + n ≡ m + suc n = omega arith in
    record {
      next = rest.next;
      tree = rest.tree;
      result = rw a.result rest.result;
      represents = rest.represents;
      first = λ o lt. rest.first o lt ∙ ap (ltb o) same;
    }

reserve-Reserved :
    (n d m : ℕ) (s : Buddy) (t : Block)
    → Represents s d t
    → FirstPages d t m
    → m + n ≤ pow2 d
    → Reserved n s d m
unfolding reserve
reserve-Reserved zero d m s t v first le = record {
  next = s;
  tree = t;
  result = refl;
  represents = v;
  first = λ o lt. first o lt ∙ ap (ltb o) same;
}
  where
    same : m ≡ m + 0
    same = omega arith
reserve-Reserved (suc n) d m s t v first le =
    let fits = Rep-Fits s.bitmap d 0 t v.rep in
    let lt : m < pow2 d = omega arith in
    let a =
      buddy_alloc-Allocated 1 0 d s t v (round_pages_one 1 (omega arith))
        (room d m t fits first lt) in
    Reserved-alloc n d m s t a (
      reserve-Reserved n d (m + 1) a.next (alloc d 0 t) a.represents
        (alloc-FirstPages d m t fits first lt) (omega arith))

-- After the loop that reserves `n` pages, exactly the first `n` pages are handed out.
pub buddy_setup-reserve : (d n : ℕ) → d < 62 → n ≤ pow2 d → Reserved n (buddy_setup (pow2 d)) d 0
unfolding covered
buddy_setup-reserve d n hd le =
    reserve-Reserved n d 0 (buddy_setup (pow2 d)) free (buddy_setup-Represents d hd)
      (λ o lt. sym (ge→ltb o 0 (omega arith))) (omega arith)

-- The page behind the kernel image and the two arrays.
abbrev pub first_free : ℕ → ℕ
first_free ekernel = phys2pfn (va2pa (w64 (ekernel + 2 * buddy_size * 8 + buddy_size * 8)))

-- If the kernel image and the two arrays fit in memory, `buddy_init` returns, with exactly the pages
-- in front of the page behind them handed out.
pub buddy_init_lem :
    (ekernel : ℕ)
    → first_free ekernel ≤ buddy_size
    → (next : Buddy) × (tree : Block) × (buddy_init ekernel ≡ done next)
      × Represents next 15 tree
      × FirstPages 15 tree (first_free ekernel)
unfolding buddy_init is_power_of_2
buddy_init_lem ekernel le =
    (r.next, r.tree, r.result, r.represents, λ o lt. r.first o lt ∙ ap (ltb o) (omega arith))
  where
    r : Reserved (first_free ekernel) (buddy_setup (pow2 15)) 15 0
    r = buddy_setup-reserve 15 (first_free ekernel) (omega arith) le
