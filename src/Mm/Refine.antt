-- ===== src/Mm/Refine.antt =====
-- `buddy_alloc` and the page functions of arch/riscv/kernel/mm.c implement the tree of blocks.
use zju_sys3_sp25_kernel.Base.{
  ℕ, suc, ◌+◌, ◌-◌, ◌*◌, ◌^◌, ◌≤◌, ◌<◌, ◌≡◌, ◌∙◌, ap, refl, arith, false, not, ltb, ◌==◌, ge→ltb,
  pow2, pow2_pos, pow2_mono, w64, Words, write, done,
}
use native.Mathlib.Decide.{dec_le}
use zju_sys3_sp25_kernel.Mm.{Buddy, rounds, descend, ascend, buddy_alloc, round_pages}
use zju_sys3_sp25_kernel.Mm.Block.{Block, longest, longest-le, alloc, position, starts}
use zju_sys3_sp25_kernel.Mm.Rep.{Rep, Rep-longest}
use zju_sys3_sp25_kernel.Mm.Alloc.{Taken, Rep-Taken}
use zju_sys3_sp25_kernel.Mm.Pages.{position_bound, starts-alloc}

-- The allocator's state stands for a tree of 2^d pages. A page has references exactly where a
-- block that is handed out starts.
pub record Represents (s : Buddy) (d : ℕ) (t : Block) : Type 0 where
  pub whole : s.size ≡ pow2 d
  pub deep : d < 62
  pub rep : Rep s.bitmap d 0 t
  pub counted : (o : ℕ) → o < pow2 d → (s.ref_cnt o == 0) ≡ not (starts d t o)

pub le_of_pow2 : (e d : ℕ) → pow2 e ≤ pow2 d → e ≤ d
le_of_pow2 e d h = elim (dec_le e d) [
  | yes p ↦ p
  | no p ↦ absurd (omega (arith, pow2_mono (suc d) e (omega arith), pow2_pos d))
]

pub size_bound : (d : ℕ) → d < 62 → pow2 d ≤ 2 ^ 61
size_bound d h = omega (arith, pow2_mono d 61 (omega arith))

-- The page number that `buddy_alloc` computes from a node.
pfn_lem :
    (d e j p : ℕ)
    → d < 62
    → suc j * pow2 e ≡ 1 * pow2 d + p
    → p < pow2 d
    → w64 (w64 (w64 (j + 1) * pow2 e) + 2 ^ 64 - pow2 d) ≡ p
pfn_lem d e j p deep place lt =
    let size : pow2 d ≤ 2 ^ 61 = size_bound d deep in
    let pos : 0 < pow2 e = pow2_pos e in
    let grow : suc j ≤ suc j * pow2 e = grind arith in
    let plain : w64 (j + 1) ≡ suc j = omega arith in rw plain (omega arith)

-- The two loops of `buddy_alloc` have enough fuel.
module _ (b : Words) (d e k : ℕ) (t : Block) (w : Taken b d e k 0 t) (few : k < 62) where
  descend_done : descend rounds b (pow2 e) (pow2 d) 0 ≡ done (pow2 e, w.j)
  descend_done =
      let fuel : 64 ≡ k + suc (63 - k) = omega arith in
      ap (λ x. descend x b (pow2 e) (pow2 d) 0) fuel ∙ w.search (63 - k)

  ascend_done : ascend rounds (write b w.j 0) w.j ≡ done w.after
  unfolding ascend
  ascend_done =
      let fuel : 64 ≡ k + suc (63 - k) = omega arith in
      ap (λ x. ascend x (write b w.j 0) w.j) fuel ∙ w.back (suc (63 - k))

-- The state after the block at node `j` is taken.
pub record Allocated (n : ℕ) (s : Buddy) (d e : ℕ) (t : Block) : Type 0 where
  pub next : Buddy
  pub result : buddy_alloc n s ≡ done (position d e t, next)
  pub represents : Represents next d (alloc d e t)
  pub counts : next.ref_cnt ≡ write s.ref_cnt (position d e t) 1

module _ (n e d : ℕ) (s : Buddy) (t : Block) (v : Represents s d t)
    (wanted : round_pages n ≡ pow2 e) (room : pow2 e ≤ longest d t) where
  le : e ≤ d
  le = le_of_pow2 e d (omega (arith, longest-le d t))

  taken : Taken s.bitmap d e (d - e) 0 t
  taken = Rep-Taken d e (d - e) s.bitmap 0 t (omega (arith, le)) v.rep room

  counted-alloc :
      (o : ℕ)
      → o < pow2 d
      → (write s.ref_cnt (position d e t) 1 o == 0) ≡ not (starts d (alloc d e t) o)
  unfolding write
  counted-alloc o lt = ground (arith, starts-alloc d e o t le room lt, v.counted o lt)

  not_full : ltb (s.bitmap 0) (pow2 e) ≡ false
  not_full = ge→ltb (s.bitmap 0) (pow2 e) (omega (arith, room, Rep-longest s.bitmap d 0 t v.rep))

  pfn : w64 (w64 (w64 (taken.j + 1) * pow2 e) + 2 ^ 64 - pow2 d) ≡ position d e t
  pfn =
      pfn_lem d e taken.j (position d e t) v.deep taken.place
        (omega (arith, position_bound d e t le room, pow2_pos e))

  -- With a free block that is large enough, `buddy_alloc` returns its first page, and the state
  -- stands for the tree in which exactly that block is handed out in addition.
  pub buddy_alloc-Allocated : Allocated n s d e t
  unfolding buddy_alloc
  buddy_alloc-Allocated = record {
    next = record s { bitmap = taken.after; ref_cnt = write s.ref_cnt (position d e t) 1 };
    result =
        rw (wanted, v.whole, not_full)
          (rw (descend_done s.bitmap d e (d - e) t taken (omega (arith, v.deep)))
            (rw (ascend_done s.bitmap d e (d - e) t taken (omega (arith, v.deep))) (rw pfn)));
    represents = record {
      whole = v.whole;
      deep = v.deep;
      rep = taken.rep;
      counted = counted-alloc;
    };
    counts = refl;
  }
