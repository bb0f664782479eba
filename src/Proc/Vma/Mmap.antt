-- ===== src/Proc/Vma/Mmap.antt =====
-- `do_mmap` of arch/riscv/kernel/proc.c, on a list that has areas.
use zju_sys3_sp25_kernel.Base.{
  ℕ, suc, ◌+◌, ◌≡◌, ◌≢◌, ◌∙◌, inl, inr, ap, sym, subst, refl, arith, true, false, List, [], ◌∷◌,
  ◌==◌, ltb, Bool-cases, ne→==, ==→eq, if◌then◌else◌, w64, Run, done, ◌>>=◌,
}
use native.Mathlib.Decide.{ℕ_discrete}
use zju_sys3_sp25_kernel.Proc.Vma.{
  Slots, MmStruct, Area, nr_vma_slots, update, set_next, set_prev, place_loop, link_in, fill,
  finish, between, do_mmap,
}
use zju_sys3_sp25_kernel.Proc.Vma.Chain.{
  has, length, Chain, FreeChain, Chain-same, FreeChain-same, IsMm,
}
use zju_sys3_sp25_kernel.Proc.Vma.Insert.{
  insert, place, place_loop-place, place-here, place-next, place-prev, place-curr, link_in-next,
  link_in-prev, Linked, nonzero, Inserts, Chain-insert, has-insert, length-insert,
}

-- The neighbours differ, and without one before it the new slot stands before the first.
abbrev Distinct : ℕ × ℕ → Type 0
Distinct n = n.0 ≢ 0 → n.0 ≢ n.1

place-Distinct :
    (s : Slots) (va prev p : ℕ) (ps : List ℕ)
    → Chain s prev p ps
    → has prev ps ≡ false
    → Distinct (place s va prev ps)
place-Distinct s va prev p [] ch h = unfold place in λ n. n
place-Distinct s va prev p (q ∷ qs) ch h = elim (Bool-cases (ltb va (s q).vm_start)) [
  | inl e ↦
      subst (λ n. Distinct n) (sym (place-here s va 0 prev q qs e))
        (λ n m. absurd (ground (arith, h, m)))
  | inr e ↦
      subst (λ n. Distinct n) (sym (place-next s va 0 prev q qs e))
        (place-Distinct s va q (s q).vm_next qs ch.4 ch.3)
]

place-head :
    (s : Slots) (va p q : ℕ) (qs : List ℕ)
    → Chain s 0 p (q ∷ qs)
    → (place s va 0 (q ∷ qs)).0 ≡ 0
    → (p ≡ (place s va 0 (q ∷ qs)).1) × ((place s va 0 (q ∷ qs)).1 ≢ 0)
place-head s va p q qs ch =
    unfold place in
    elim (Bool-cases (ltb va (s q).vm_start)) [
      | inl e ↦ rw e (λ z. (ch.0, ch.1))
      | inr e ↦ rw e (λ z. elim (place-prev s va q qs) [
        | inl h ↦ absurd (ch.1 (sym h ∙ z))
        | inr h ↦ absurd (nonzero s q (s q).vm_next (place s va q qs).0 qs ch.4 h z)
      ])
    ]

-- What `do_mmap` makes of the list `ps`, with the slot `v`.
pub record Inserted (mm mm' : MmStruct) (a : Area) (v : ℕ) (ps fs : List ℕ) : Type 0 where
  pub linked : IsMm mm' (insert mm.slot a.start v ps) fs
  pub at_start : (mm'.slot v).vm_start ≡ a.start
  pub at_end : (mm'.slot v).vm_end ≡ w64 (a.start + a.len)
  pub starts : (x : ℕ) → has x ps ≡ true → (mm'.slot x).vm_start ≡ (mm.slot x).vm_start
  pub ends : (x : ℕ) → has x ps ≡ true → (mm'.slot x).vm_end ≡ (mm.slot x).vm_end

-- Clearing the link of a slot and filling it leaves the links of the others.
module _ (s : Slots) (v : ℕ) where
  set_next-other : (x : ℕ) → x ≢ v → set_next s v 0 x ≡ s x
  unfolding set_next update
  set_next-other x n = ground (arith, n)

  set_next-start : (x : ℕ) → (set_next s v 0 x).vm_start ≡ (s x).vm_start
  unfolding set_next update
  set_next-start x = ground arith

  set_next-end : (x : ℕ) → (set_next s v 0 x).vm_end ≡ (s x).vm_end
  unfolding set_next update
  set_next-end x = ground arith

  link_in-end : (mmap prev curr x : ℕ) → (link_in s mmap v prev curr x).vm_end ≡ (s x).vm_end
  unfolding link_in update set_next set_prev
  link_in-end mmap prev curr x = ground arith

  update-next : (a : Area) (m x : ℕ) → (update s v (fill m a (s v)) x).vm_next ≡ (s x).vm_next
  unfolding update fill
  update-next a m x = ground arith

  update-prev : (a : Area) (m x : ℕ) → (update s v (fill m a (s v)) x).vm_prev ≡ (s x).vm_prev
  unfolding update fill
  update-prev a m x = ground arith

-- A slot that is on one of two lists that have none in common is not on the other.
pub not_both :
    (xs ys : List ℕ) (a : ℕ)
    → ((x : ℕ) → has x xs ≡ true → has x ys ≡ false)
    → has a ys ≡ true
    → has a xs ≡ false
not_both xs ys a h m = elim (Bool-cases (has a xs)) [
  | inl e ↦ absurd (ground (arith, h a e, m))
  | inr e ↦ e
]

pub has-ne : (a b : ℕ) (xs : List ℕ) → has a xs ≡ true → has b xs ≡ false → a ≢ b
has-ne a b xs h n e = absurd (ground (arith, h, n, subst (λ y. has y xs ≡ true) e h))

insert-same :
    (s s' : Slots) (va v : ℕ) (ps : List ℕ)
    → ((x : ℕ) → (s x).vm_start ≡ (s' x).vm_start)
    → insert s va v ps ≡ insert s' va v ps
unfolding insert
insert-same s s' va v [] h = refl
insert-same s s' va v (q ∷ qs) h = rw (h q, insert-same s s' va v qs h) refl

pub FreeChain-nonzero :
    (s : Slots) (p a : ℕ) (ps : List ℕ) → FreeChain s p ps → has a ps ≡ true → a ≢ 0
FreeChain-nonzero s p a [] c h = absurd (ground (arith, h))
FreeChain-nonzero s p a (q ∷ qs) c h = elim (ℕ_discrete a q) [
  | yes e ↦ λ z. c.1 (sym e ∙ z)
  | no ne ↦ FreeChain-nonzero s (s q).vm_next a qs c.3 (ground (arith, h, ne))
]

module _ (mm : MmStruct) (a : Area) (p v : ℕ) (ps fs : List ℕ) (w : IsMm mm (p ∷ ps) (v ∷ fs)) where
  abbrev cleared : Slots
  cleared = set_next mm.slot v 0

  abbrev near : ℕ × ℕ
  near = place cleared a.start 0 (p ∷ ps)

  abbrev linked_in : Slots
  linked_in = link_in cleared mm.mmap v near.0 near.1

  abbrev mapped : MmStruct
  mapped = record mm {
    mmap = if near.0 == 0 then v else mm.mmap;
    free_vma_list = (mm.slot v).vm_next;
    slot = update linked_in v (fill mm.self a (linked_in v));
    num_vmas = w64 (mm.num_vmas + 1);
  }

  head_free : mm.free_vma_list ≡ v
  head_free = w.frees.0

  not_listed : has v (p ∷ ps) ≡ false
  not_listed = not_both (p ∷ ps) (v ∷ fs) v w.apart (ground arith)

  Chain-cleared : Chain cleared 0 mm.mmap (p ∷ ps)
  Chain-cleared =
      Chain-same mm.slot cleared 0 mm.mmap (p ∷ ps)
        (λ x h. set_next-other mm.slot v x (has-ne x v (p ∷ ps) h not_listed)) w.areas

  between-mapped : done (between mm a near) ≡ done (a.start, mapped)
  unfolding between finish
  between-mapped = rw head_free refl

  do_mmap-mapped : do_mmap mm a ≡ done (a.start, mapped)
  unfolding do_mmap
  do_mmap-mapped =
      let ne : mm.mmap ≢ 0 = λ z. w.areas.1 (sym w.areas.0 ∙ z) in
      let looked : place_loop (nr_vma_slots + 1) cleared a.start 0 mm.mmap ≡ done near =
        place_loop-place (nr_vma_slots + 1) cleared a.start 0 mm.mmap (p ∷ ps)
          (omega (arith, w.room)) Chain-cleared in
      let tail : Run (ℕ × ℕ) → Run (ℕ × MmStruct) = λ r. r >>= (λ n. done (between mm a n)) in
      let start : do_mmap mm a
          ≡ tail (
              place_loop (nr_vma_slots + 1) (set_next mm.slot mm.free_vma_list 0) a.start 0
                mm.mmap) =
        rw (ne→== mm.mmap 0 ne, ne→== mm.free_vma_list 0 (λ z. w.frees.1 (sym head_free ∙ z)))
          refl in
      start
      ∙ ap (λ u. tail (place_loop (nr_vma_slots + 1) (set_next mm.slot u 0) a.start 0 mm.mmap))
          head_free
      ∙ ap tail looked
      ∙ between-mapped

  near-prev : near.0 ≢ v
  near-prev = elim (place-prev cleared a.start 0 (p ∷ ps)) [
    | inl h ↦ λ e. w.frees.1 (sym e ∙ h)
    | inr h ↦ has-ne near.0 v (p ∷ ps) h not_listed
  ]

  near-curr : near.1 ≢ v
  near-curr = elim (place-curr cleared a.start 0 (p ∷ ps)) [
    | inl h ↦ λ e. w.frees.1 (sym e ∙ h)
    | inr h ↦ has-ne near.1 v (p ∷ ps) h not_listed
  ]

  zero_not : has 0 (p ∷ ps) ≡ false
  zero_not = elim (Bool-cases (has 0 (p ∷ ps))) [
    | inl e ↦ absurd (nonzero mm.slot 0 mm.mmap 0 (p ∷ ps) w.areas e refl)
    | inr e ↦ e
  ]

  Linked-mapped : Linked cleared mapped.slot v near.0 near.1
  Linked-mapped =
      let apart : near.0 ≢ 0 → near.0 ≢ near.1 =
        place-Distinct cleared a.start 0 mm.mmap (p ∷ ps) Chain-cleared zero_not in
      let head : near.0 ≡ 0 → (mm.mmap ≡ near.1) × (near.1 ≢ 0) =
        place-head cleared a.start mm.mmap p ps Chain-cleared in
      record {
        nexts = λ x n.
            update-next linked_in v a mm.self x
            ∙ link_in-next cleared mm.mmap v near.0 near.1 x n w.frees.1 near-prev near-curr apart
                head;
        prevs = λ x n.
            update-prev linked_in v a mm.self x
            ∙ link_in-prev cleared mm.mmap v near.0 near.1 x n w.frees.1 near-prev near-curr apart
                head;
      }

  Chain-mapped : Chain mapped.slot 0 mapped.mmap (insert mm.slot a.start v (p ∷ ps))
  Chain-mapped =
      let chain : Inserts cleared mapped.slot v 0 mm.mmap near (insert cleared a.start v (p ∷ ps)) =
        Chain-insert cleared mapped.slot a.start v 0 mm.mmap (p ∷ ps) w.frees.1 not_listed w.frees.1
          zero_not Chain-cleared in
      let head : (if 0 == near.0 then v else mm.mmap) ≡ mapped.mmap = ground arith in
      subst (λ ys. Chain mapped.slot 0 mapped.mmap ys)
        (insert-same cleared mm.slot a.start v (p ∷ ps) (set_next-start mm.slot v))
        (subst (λ m. Chain mapped.slot 0 m (insert cleared a.start v (p ∷ ps))) head
          (chain Linked-mapped))

  free_apart : (x : ℕ) → has x fs ≡ true → has x (p ∷ ps) ≡ false
  free_apart x h = not_both (p ∷ ps) (v ∷ fs) x w.apart (ground (arith, h))

  -- A free slot is none of those that change.
  free_link : (x : ℕ) → has x fs ≡ true → (mapped.slot x).vm_next ≡ (mm.slot x).vm_next
  free_link x h =
      let ne : x ≢ v = has-ne x v fs h w.frees.2 in
      let not_near : x ≢ near.0 = elim (place-prev cleared a.start 0 (p ∷ ps)) [
        | inl z ↦ λ e. FreeChain-nonzero mm.slot (mm.slot v).vm_next x fs w.frees.3 h (e ∙ z)
        | inr m ↦ λ e. has-ne near.0 x (p ∷ ps) m (free_apart x h) (sym e)
      ] in
      Linked-mapped.nexts x (FreeChain-nonzero mm.slot (mm.slot v).vm_next x fs w.frees.3 h)
      ∙ ground (arith, ne, not_near, set_next-other mm.slot v x ne)

  one_more : length (insert mm.slot a.start v (p ∷ ps)) ≡ suc (length (p ∷ ps))
  one_more = length-insert mm.slot a.start v (p ∷ ps)

  listed_apart : (x : ℕ) → has x (insert mm.slot a.start v (p ∷ ps)) ≡ true → has x fs ≡ false
  listed_apart x h = elim (Bool-cases (x == v)) [
    | inl e ↦ subst (λ y. has y fs ≡ false) (sym (==→eq x v e)) w.frees.2
    | inr n ↦
        let m : has x (p ∷ ps) ≡ true =
          ground (arith, sym (has-insert mm.slot a.start v x (p ∷ ps)) ∙ h, n) in
        let k : has x (v ∷ fs) ≡ false = w.apart x m in ground (arith, k)
  ]

  IsMm-mapped : IsMm mapped (insert mm.slot a.start v (p ∷ ps)) fs
  IsMm-mapped = record {
    areas = Chain-mapped;
    frees = FreeChain-same mm.slot mapped.slot (mm.slot v).vm_next fs free_link w.frees.3;
    apart = listed_apart;
    count = ap (λ n. w64 (n + 1)) w.count ∙ omega (arith, one_more, w.room);
    room = omega (arith, one_more, w.room);
  }

  mapped-start : (x : ℕ) → x ≢ v → (mapped.slot x).vm_start ≡ (mm.slot x).vm_start
  unfolding update link_in
  mapped-start x n = ground (arith, n, set_next-start mm.slot v x)

  mapped-end : (x : ℕ) → x ≢ v → (mapped.slot x).vm_end ≡ (mm.slot x).vm_end
  unfolding update link_in
  mapped-end x n = ground (arith, n, set_next-end mm.slot v x)

  -- With a free slot `do_mmap` succeeds: it links the slot in where the area belongs in the order of the
  -- starts, takes it off the free list, sets its bounds, and leaves the bounds of the other areas alone.
  pub do_mmap-Inserted :
      (mm' : MmStruct) × (do_mmap mm a ≡ done (a.start, mm')) × Inserted mm mm' a v (p ∷ ps) fs
  do_mmap-Inserted = (
    mapped,
    do_mmap-mapped,
    record {
      linked = IsMm-mapped;
      at_start = unfold update fill in ground arith;
      at_end = unfold update fill in ground arith;
      starts = λ x h. mapped-start x (has-ne x v (p ∷ ps) h not_listed);
      ends = λ x h. mapped-end x (has-ne x v (p ∷ ps) h not_listed);
    },
  )
