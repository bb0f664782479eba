-- ===== src/Mm/Release.antt =====
-- Dropping and adding references to a page, and giving its block back: `buddy_free` and its callers
-- in arch/riscv/kernel/mm.c.
use zju_sys3_sp25_kernel.Base.{
  ℕ, suc, ◌+◌, ◌-◌, ◌^◌, ◌<◌, ◌≡◌, ◌≢◌, ◌∙◌, ap, refl, arith, true, not, Bool-cases, inl, inr, ◌==◌,
  if◌then◌else◌, ==→eq, ==→ne, eq→==, ne→==, pow2, w64, Words, write, write_self, done,
}
use zju_sys3_sp25_kernel.Mm.{Buddy, rounds, climb, ascend_merge, buddy_free, buddy_pfn_decref}
use zju_sys3_sp25_kernel.Mm.Block.{Block, starts, release}
use zju_sys3_sp25_kernel.Mm.Free.{leaf, leaf_lem, Freed, Rep-Freed}
use zju_sys3_sp25_kernel.Mm.Pages.{starts-release, covered-starts}
use zju_sys3_sp25_kernel.Mm.Refine.{Represents, size_bound}

-- The two loops of `buddy_free` have enough fuel.
module _ (b : Words) (d o : ℕ) (t : Block) (w : Freed b d 0 t o) (deep : d < 62) where
  climb_done : climb rounds b 1 (leaf d 0 o) ≡ done (pow2 w.e, w.j)
  climb_done =
      let fuel : 64 ≡ w.e + suc (63 - w.e) = omega (arith, w.depth) in
      ap (λ x. climb x b 1 (leaf d 0 o)) fuel ∙ w.search (63 - w.e)

  ascend_merge_done : ascend_merge rounds (write b w.j (pow2 w.e)) (pow2 w.e) w.j ≡ done w.after
  unfolding ascend_merge
  ascend_merge_done =
      let fuel : 64 ≡ w.k + suc (63 - w.k) = omega (arith, w.depth) in
      ap (λ x. ascend_merge x (write b w.j (pow2 w.e)) (pow2 w.e) w.j) fuel
      ∙ w.back (suc (63 - w.k))

module _ (s : Buddy) (d p : ℕ) (t : Block) (v : Represents s d t) (lt : p < pow2 d)
    (start : starts d t p ≡ true) where
  freed : Freed s.bitmap d 0 t p
  freed = Rep-Freed d s.bitmap 0 t p v.rep lt (covered-starts d t p start lt)

  leaf_index : w64 (w64 (p + pow2 d) + 2 ^ 64 - 1) ≡ leaf d 0 p
  leaf_index = omega (arith, leaf_lem d 0 p lt, size_bound d v.deep)

  -- With the last reference gone, the block's node and its ancestors are updated.
  free_unreferenced :
      (r : Words)
      → r p ≡ 0
      → buddy_free p (record s { ref_cnt = r })
        ≡ done (record s { bitmap = freed.after; ref_cnt = r })
  unfolding buddy_free
  free_unreferenced r z =
      rw (eq→== (r p) 0 z, v.whole, leaf_index)
        (rw (climb_done s.bitmap d p t freed v.deep)
          (rw (ascend_merge_done s.bitmap d p t freed v.deep)))

  counted-release :
      s.ref_cnt p ≡ 1
      → (o : ℕ) → o < pow2 d
      → (write s.ref_cnt p 0 o == 0) ≡ not (starts d (release d t p) o)
  unfolding write
  counted-release one o ho = ground (arith, starts-release d t p o start lt ho, v.counted o ho)

  counted-drop :
      (n : ℕ) → n ≢ 0 → (o : ℕ) → o < pow2 d → (write s.ref_cnt p n o == 0) ≡ not (starts d t o)
  unfolding write
  counted-drop n ne o ho = ground (arith, v.counted o ho, start)

  referenced : s.ref_cnt p ≢ 0
  referenced z = ground (arith, v.counted p lt, start, z)

-- The state after one reference to page `p` is dropped: its block is free again if that was the
-- last one.
pub record Dropped (s : Buddy) (d p : ℕ) (t : Block) : Type 0 where
  pub next : Buddy
  pub result : buddy_pfn_decref p s ≡ done next
  pub represents : Represents next d (if s.ref_cnt p == 1 then release d t p else t)
  pub counts : next.ref_cnt ≡ write s.ref_cnt p (s.ref_cnt p - 1)

module _ (s : Buddy) (d p : ℕ) (t : Block) (v : Represents s d t) (lt : p < pow2 d)
    (start : starts d t p ≡ true) where
  drop_last : s.ref_cnt p ≡ 1 → Dropped s d p t
  unfolding buddy_pfn_decref
  drop_last one = record {
    next = record s { bitmap = (freed s d p t v lt start).after; ref_cnt = write s.ref_cnt p 0 };
    result =
        rw (one, write_self s.ref_cnt p 0)
          (free_unreferenced s d p t v lt start (write s.ref_cnt p 0) (write_self s.ref_cnt p 0));
    represents = rw one (record {
      whole = v.whole;
      deep = v.deep;
      rep = (freed s d p t v lt start).rep;
      counted = counted-release s d p t v lt start one;
    });
    counts = rw one;
  }

  drop_other : s.ref_cnt p ≢ 1 → Dropped s d p t
  unfolding buddy_pfn_decref
  drop_other more =
      let n = s.ref_cnt p - 1 in
      let ne : n ≢ 0 = omega (arith, more, referenced s d p t v lt start) in
      record {
        next = record s { ref_cnt = write s.ref_cnt p n };
        result = rw (
          ne→== (s.ref_cnt p) 0 (referenced s d p t v lt start),
          write_self s.ref_cnt p n,
          ne→== n 0 ne,
        );
        represents = rw (ne→== (s.ref_cnt p) 1 more) (record {
          whole = v.whole;
          deep = v.deep;
          rep = v.rep;
          counted = counted-drop s d p t v lt start n ne;
        });
        counts = refl;
      }

  -- `buddy_pfn_decref` on the first page of a block: one reference less, and with the last one
  -- gone exactly that block is free again.
  pub buddy_pfn_decref-Dropped : Dropped s d p t
  buddy_pfn_decref-Dropped = elim (Bool-cases (s.ref_cnt p == 1)) [
    | inl e ↦ drop_last (==→eq (s.ref_cnt p) 1 e)
    | inr e ↦ drop_other (==→ne (s.ref_cnt p) 1 e)
  ]
