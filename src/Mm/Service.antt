-- ===== src/Mm/Service.antt =====
-- What the callers of arch/riscv/kernel/mm.c rely on: exclusive pages, an error for a full memory,
-- reference counts, and the way back to the state before an allocation.
use zju_sys3_sp25_kernel.Base.{
  ℕ, ◌+◌, ◌^◌, ◌≤◌, ◌<◌, ◌≡◌, ◌≢◌, ◌∙◌, ap, refl, subst, arith, true, false, not, ◌||◌, Bool-cases,
  inl, inr, ◌==◌, eq→==, ne→==, pow2, pow2_pos, pow2_mono, Words, write, write_self, done, success,
  failure,
}
use zju_sys3_sp25_kernel.Mm.{
  Buddy, buddy_alloc, buddy_free, buddy_pfn_incref, buddy_pfn_decref, round_pages, pa2va, va2pa,
  pfn2phys, phys2pfn, alloc_pages, free_pages, ref_page, deref_page,
}
use zju_sys3_sp25_kernel.Mm.Block.{
  Block, longest, longest-le, alloc, position, covered, starts, release, inside,
}
use zju_sys3_sp25_kernel.Mm.Rep.{Rep-IsMerged}
use zju_sys3_sp25_kernel.Mm.Pages.{
  position_bound, starts-alloc, release-alloc, covered-alloc, covered-position,
}
use zju_sys3_sp25_kernel.Mm.Refine.{Represents, le_of_pow2, Allocated, buddy_alloc-Allocated}
use zju_sys3_sp25_kernel.Mm.Release.{Dropped, buddy_pfn_decref-Dropped}

-- A page's number is found again from its kernel address.
pub page_of_address : (p : ℕ) → p < 2 ^ 51 → phys2pfn (va2pa (pa2va (pfn2phys p))) ≡ p
unfolding phys2pfn va2pa pa2va pfn2phys
page_of_address p h = omega arith

abbrev pub address : ℕ → ℕ
address p = pa2va (pfn2phys p)

module _ (n e d : ℕ) (s : Buddy) (t : Block) (v : Represents s d t)
    (wanted : round_pages n ≡ pow2 e) (room : pow2 e ≤ longest d t) where
  got : Allocated n s d e t
  got = buddy_alloc-Allocated n e d s t v wanted room

  fits : e ≤ d
  fits = le_of_pow2 e d (omega (arith, longest-le d t))

  in_range : position d e t < pow2 d
  in_range = omega (arith, position_bound d e t fits room, pow2_pos e)

  new_start : starts d (alloc d e t) (position d e t) ≡ true
  new_start =
      starts-alloc d e (position d e t) t fits room in_range
      ∙ rw (eq→== (position d e t) (position d e t) refl)
          (elim (Bool-cases (starts d t (position d e t))) [ inl q ↦ rw q | inr q ↦ rw q ])

  -- The pages of the block that `buddy_alloc` returns were free, are handed out now, and no other
  -- page changes hands.
  pub buddy_alloc-exclusive :
      (next : Buddy) × (buddy_alloc n s ≡ done (position d e t, next))
      × Represents next d (alloc d e t)
      × ((o : ℕ)
          → o < pow2 d
          → (inside (position d e t) (pow2 e) o ≡ true → covered d t o ≡ false)
            × (covered d (alloc d e t) o ≡ (covered d t o || inside (position d e t) (pow2 e) o)))
  buddy_alloc-exclusive = (
    got.next,
    got.result,
    got.represents,
    λ o lt. (covered-position d e o t fits room, covered-alloc d e o t fits room lt),
  )

  -- One `buddy_pfn_decref` undoes `buddy_alloc`.
  pub decref-buddy_alloc :
      (s1 s2 : Buddy) × (buddy_alloc n s ≡ done (position d e t, s1))
      × (buddy_pfn_decref (position d e t) s1 ≡ done s2)
      × Represents s2 d t
  decref-buddy_alloc = (got.next, dropped.next, got.result, dropped.result, back)
    where
      one : got.next.ref_cnt (position d e t) ≡ 1
      one = rw got.counts (write_self s.ref_cnt (position d e t) 1)

      dropped : Dropped got.next d (position d e t) (alloc d e t)
      dropped =
          buddy_pfn_decref-Dropped got.next d (position d e t) (alloc d e t) got.represents in_range
            new_start

      whole : release d (alloc d e t) (position d e t) ≡ t
      whole = release-alloc d e t (Rep-IsMerged s.bitmap d 0 t v.rep) fits room

      back : Represents dropped.next d t
      back =
          subst (Represents dropped.next d)
            (rw (eq→== (got.next.ref_cnt (position d e t)) 1 one) whole) dropped.represents

  -- `deref_page` undoes `alloc_pages`, by the address that it returned.
  pub deref_page-alloc_pages :
      d < 52
      → (s1 s2 : Buddy) × (alloc_pages n s ≡ done (address (position d e t), s1))
        × (deref_page (address (position d e t)) s1 ≡ done (success, s2))
        × Represents s2 d t
  unfolding alloc_pages deref_page decref-buddy_alloc got
  deref_page-alloc_pages small = (
    decref-buddy_alloc.0,
    decref-buddy_alloc.1,
    rw decref-buddy_alloc.2,
    rw (page, ne→== (decref-buddy_alloc.0.ref_cnt (position d e t)) 0 held)
        (rw decref-buddy_alloc.3),
    decref-buddy_alloc.4,
  )
    where
      page : phys2pfn (va2pa (address (position d e t))) ≡ position d e t
      page =
          page_of_address (position d e t) (omega (arith, in_range, pow2_mono d 51 (omega arith)))

      held : got.next.ref_cnt (position d e t) ≢ 0
      held z = omega (
        arith,
        z,
        write_self s.ref_cnt (position d e t) 1,
        ap (λ (r : Words). r (position d e t)) got.counts,
      )

  -- `free_pages` takes no page back that `alloc_pages` returned: its reference is still counted.
  pub free_pages-alloc_pages :
      d < 52
      → (s1 : Buddy) × (alloc_pages n s ≡ done (address (position d e t), s1))
        × (free_pages (address (position d e t)) s1 ≡ done s1)
  unfolding alloc_pages free_pages buddy_free
  free_pages-alloc_pages small =
      (got.next, rw got.result, rw (page, got.counts, write_self s.ref_cnt (position d e t) 1))
    where
      page : phys2pfn (va2pa (address (position d e t))) ≡ position d e t
      page =
          page_of_address (position d e t) (omega (arith, in_range, pow2_mono d 51 (omega arith)))

-- Only a page that starts a block can be referenced.
module _ (d p : ℕ) (s : Buddy) (t : Block) (v : Represents s d t) (lt : p < pow2 d)
    (small : d < 52) where
  page_number : phys2pfn (va2pa (address p)) ≡ p
  page_number = page_of_address p (omega (arith, pow2_mono d 51 (omega arith)))

  -- Without a block that starts at the page, both `ref_page` and `deref_page` fail and change
  -- nothing.
  pub ref_page-deref_page-failure :
      starts d t p ≡ false
      → (ref_page (address p) s ≡ (failure, s)) × (deref_page (address p) s ≡ done (failure, s))
  unfolding ref_page deref_page
  ref_page-deref_page-failure no_block =
      let none_held : (s.ref_cnt p == 0) ≡ true = v.counted p lt ∙ rw no_block in
      (rw (page_number, none_held), rw (page_number, none_held))

  module _ (start : starts d t p ≡ true) where
    held : (s.ref_cnt p == 0) ≡ false
    held = v.counted p lt ∙ rw start

    counted-add :
        s.ref_cnt p + 1 < 2 ^ 64
        → (o : ℕ) → o < pow2 d
        → ((buddy_pfn_incref p s).ref_cnt o == 0) ≡ not (starts d t o)
    unfolding buddy_pfn_incref write
    counted-add fit o ho = ground (arith, v.counted o ho, start)

    incref-Represents : s.ref_cnt p + 1 < 2 ^ 64 → Represents (buddy_pfn_incref p s) d t
    unfolding buddy_pfn_incref
    incref-Represents fit = record {
      whole = v.whole;
      deep = v.deep;
      rep = v.rep;
      counted = counted-add fit;
    }

    -- `ref_page` adds one reference to a page that starts a block, and `deref_page` takes it back:
    -- the tree and every count are as before.
    pub deref_page-ref_page :
        s.ref_cnt p + 1 < 2 ^ 64
        → let (status, s1) = ref_page (address p) s in
          (status ≡ success)
          × (s1.ref_cnt p ≡ s.ref_cnt p + 1)
          × Represents s1 d t
          × ((s2 : Buddy) × (deref_page (address p) s1 ≡ done (success, s2))
              × Represents s2 d t
              × ((o : ℕ) → s2.ref_cnt o ≡ s.ref_cnt o))
    unfolding ref_page deref_page
    deref_page-ref_page fit =
        rw (page_number, held)
          (
            refl,
            count,
            incref-Represents fit,
            (
              dropped.next,
              rw (ne→== ((buddy_pfn_incref p s).ref_cnt p) 0 (omega (arith, count)))
                  (rw dropped.result),
              kept,
              same,
            ),
          )
      where
        count : (buddy_pfn_incref p s).ref_cnt p ≡ s.ref_cnt p + 1
        count = unfold buddy_pfn_incref write in ground arith

        dropped : Dropped (buddy_pfn_incref p s) d p t
        dropped =
            buddy_pfn_decref-Dropped (buddy_pfn_incref p s) d p t (incref-Represents fit) lt start

        many : ((buddy_pfn_incref p s).ref_cnt p == 1) ≡ false
        many = ne→== ((buddy_pfn_incref p s).ref_cnt p) 1 (λ q. ground (arith, q, count, held))

        kept : Represents dropped.next d t
        kept = rw many at dropped.represents

        same : (o : ℕ) → dropped.next.ref_cnt o ≡ s.ref_cnt o
        same o =
            ap (λ (r : Words). r o) dropped.counts
            ∙ (unfold buddy_pfn_incref write in ground (arith, count))
