-- ===== src/Malloc/Blocks.antt =====
-- The blocks of user/src/malloc.c: the first request of a program, and a block that is taken and given back.
use zju_sys3_sp25_kernel.Base.{
  ℕ, suc, ◌+◌, ◌-◌, ◌*◌, ◌^◌, ◌≤◌, ◌<◌, ◌≡◌, ◌≢◌, ◌∙◌, ◌⊎◌, inl, inr, refl, ap, sym, subst, arith,
  false, ltb, ◌==◌, eq→==, ne→==, Bool-cases, some, done, fault, write, w64,
}
use zju_sys3_sp25_kernel.Malloc.{
  System, Heap, set_slab, push_avail, new_slab, slab_num_page, inflate_loop, alloc_slab,
  get_used_slab_idx, get_avail_slab, alloc_block, malloc, get_block_idx, take_block, free_block,
  unit_size_slab,
}
use zju_sys3_sp25_kernel.Malloc.Index.{
  get_used_slab_idx-unit_size_slab, get_block_idx-unit_size_slab,
}

slab_num_page-small : (idx : ℕ) → 12 ≤ idx → slab_num_page idx ≡ 1
unfolding slab_num_page
slab_num_page-small idx l = let b : ltb idx 12 ≡ false = ground (arith, l) in rw b refl

module _ {W : Type 0} (sys : System W) (h : Heap W) where
  inflate_loop-room :
      (f end : ℕ) → end ≤ w64 (h.heap_start + h.heap_size) → inflate_loop sys (suc f) end h ≡ done h
  unfolding inflate_loop
  inflate_loop-room f end l =
      let b : ltb (w64 (h.heap_start + h.heap_size)) end ≡ false = ground (arith, l) in rw b refl

  new_slab-null : (idx unit : ℕ) → h.avail_slab idx ≡ 0 → new_slab idx unit h ≡ fault
  unfolding new_slab push_avail set_slab
  new_slab-null idx unit e = rw e refl

  alloc_slab-null :
      (f idx unit : ℕ)
      → 12 ≤ idx
      → h.avail_slab idx ≡ 0
      → unit_size_slab idx ≡ done unit
      → h.ufree_start + 2 ^ 12 ≤ h.heap_start + h.heap_size
      → h.heap_start + h.heap_size < 2 ^ 64
      → alloc_slab sys (suc f) idx h ≡ fault
  unfolding alloc_slab
  alloc_slab-null f idx unit l e u room fits =
      let grown : ℕ = w64 (h.ufree_start + slab_num_page idx * 2 ^ 12) in
      let small : grown ≤ w64 (h.heap_start + h.heap_size) =
        omega (arith, slab_num_page-small idx l, room, fits) in
      rw (inflate_loop-room f grown small, u) (new_slab-null idx unit e)

  malloc-fault :
      (rounds size idx : ℕ)
      → get_used_slab_idx size ≡ done (some idx)
      → h.avail_slab idx ≡ 0
      → alloc_slab sys rounds idx h ≡ fault
      → malloc sys rounds size h ≡ fault
  unfolding malloc alloc_block get_avail_slab
  malloc-fault rounds size idx i e a = rw (i, eq→== (h.avail_slab idx) 0 e, a) refl

  -- As long as no slab is on a list, as after `heap_init`, and the heap has a page left, a request of 1 to 2048 bytes
  -- faults: `alloc_slab` runs, and writes the field `prev` of the first slab of an empty list.
  pub malloc-alloc_slab :
      (rounds size : ℕ)
      → 0 < size
      → size ≤ 2 ^ 11
      → ((idx : ℕ) → h.avail_slab idx ≡ 0)
      → h.ufree_start + 2 ^ 12 ≤ h.heap_start + h.heap_size
      → h.heap_start + h.heap_size < 2 ^ 64
      → malloc sys (suc rounds) size h ≡ fault
  malloc-alloc_slab rounds size p l e room fits =
      let r : (idx unit : ℕ) × (get_used_slab_idx size ≡ done (some idx))
          × (12 ≤ idx)
          × (idx < 24)
          × (unit_size_slab idx ≡ done unit)
          × (size ≤ unit)
          × (unit < 2 * size) =
        get_used_slab_idx-unit_size_slab size p l in
      malloc-fault (suc rounds) size r.0 r.2 (e r.0)
        (alloc_slab-null rounds r.0 r.1 r.3 (e r.0) r.5 room fits)

-- A block was taken and given back: the free list is as before, and so is all else, but the slab counts one block less.
pub record Uncounted {W : Type 0} (a : ℕ) (h h' : Heap W) : Type 0 where
  pub first : (h'.slabs a).bfreelist ≡ (h.slabs a).bfreelist
  pub links : (x : ℕ) → h'.link x ≡ h.link x
  pub fewer : (h'.slabs a).unit_count + 1 ≡ (h.slabs a).unit_count
  pub others : (x : ℕ) → x ≢ a → h'.slabs x ≡ h.slabs x
  pub lists : (h'.avail_slab ≡ h.avail_slab) × (h'.used_slab ≡ h.used_slab)

-- The block stands first on the list of the slab `a`.
put_first : {W : Type 0} → ℕ → ℕ → Heap W → Heap W
put_first block a h =
    set_slab a (record (h.slabs a) { bfreelist = block })
      (record h { link = write h.link block (h.slabs a).bfreelist })

free_block-put_first :
    {W : Type 0} (block idx : ℕ) (h : Heap W)
    → get_block_idx (h.slabs (h.link block)).unit_size ≡ done (some idx)
    → (h.slabs (h.link block)).unit_count ≢ 0
    → free_block block h ≡ done (put_first block (h.link block) h)
unfolding free_block put_first
free_block-put_first block idx h e n = rw (e, ne→== (h.slabs (h.link block)).unit_count 0 n) refl

module _ {W : Type 0} (h : Heap W) (idx a : ℕ) where
  -- The heap after the block is taken.
  taken : Heap W
  taken =
      set_slab a
        (record (h.slabs a) {
          bfreelist = h.link (h.slabs a).bfreelist;
          unit_count = (h.slabs a).unit_count - 1;
        })
        (record h { link = write h.link (h.slabs a).bfreelist a })

  given : Heap W
  given = put_first (h.slabs a).bfreelist a taken

  take_block-taken :
      (h.slabs a).bfreelist ≢ 0
      → 2 ≤ (h.slabs a).unit_count
      → take_block idx a h ≡ done ((h.slabs a).bfreelist, taken)
  unfolding take_block taken
  take_block-taken n c =
      let some_left : ((h.slabs a).unit_count == 1) ≡ false = ground (arith, c) in
      rw (ne→== (h.slabs a).bfreelist 0 n, some_left) refl

  back_to_slab : taken.link (h.slabs a).bfreelist ≡ a
  unfolding taken set_slab write
  back_to_slab = ground arith

  same_size : (taken.slabs a).unit_size ≡ (h.slabs a).unit_size
  unfolding taken set_slab
  same_size = ground arith

  count_taken : (taken.slabs a).unit_count ≡ (h.slabs a).unit_count - 1
  unfolding taken set_slab
  count_taken = ground arith

  free_block-given :
      2 ≤ (h.slabs a).unit_count
      → get_block_idx (h.slabs a).unit_size ≡ done (some idx)
      → free_block (h.slabs a).bfreelist taken ≡ done given
  unfolding given
  free_block-given c e =
      let counted : (taken.slabs a).unit_count ≢ 0 =
        λ z. absurd (omega (arith, z, c, count_taken)) in
      subst
        (λ x.
          free_block (h.slabs a).bfreelist taken ≡ done (put_first (h.slabs a).bfreelist x taken))
        back_to_slab
        (free_block-put_first (h.slabs a).bfreelist idx taken
          (ap (λ x. get_block_idx (taken.slabs x).unit_size) back_to_slab
            ∙ ap get_block_idx same_size
            ∙ e)
          (subst (λ x. (taken.slabs x).unit_count ≢ 0) (sym back_to_slab) counted))

  Uncounted-given : 2 ≤ (h.slabs a).unit_count → Uncounted a h given
  unfolding given put_first taken set_slab write
  Uncounted-given c = record {
    first = ground arith;
    links = λ x. elim (Bool-cases (x == (h.slabs a).bfreelist)) [
      | inl e ↦
          let same : x ≡ (h.slabs a).bfreelist = ground (arith, e) in
          ground (arith, e, ap h.link same)
      | inr e ↦ ground (arith, e)
    ];
    fewer = ground (arith, c);
    others = λ x n. ground (arith, n);
    lists = (refl, refl);
  }

  -- Of a slab with two free blocks or more, of a size that its list has, `take_block` takes the first one and `free_block`
  -- gives it back: both return, the free list and all else is as before, but the slab counts one free block less.
  pub free_block-take_block :
      (h.slabs a).bfreelist ≢ 0
      → 2 ≤ (h.slabs a).unit_count
      → (idx < 8) ⊎ ((12 ≤ idx) × (idx < 24))
      → unit_size_slab idx ≡ done (h.slabs a).unit_size
      → (h1 h2 : Heap W) × (take_block idx a h ≡ done ((h.slabs a).bfreelist, h1))
        × (free_block (h.slabs a).bfreelist h1 ≡ done h2)
        × Uncounted a h h2
  free_block-take_block n c range size =
      let r : (unit : ℕ) × (unit_size_slab idx ≡ done unit)
          × (get_block_idx unit ≡ done (some idx)) =
        get_block_idx-unit_size_slab idx range in
      let both : done r.0 ≡ done (h.slabs a).unit_size = sym r.1 ∙ size in
      let same : r.0 ≡ (h.slabs a).unit_size = cc in
      (
        taken,
        given,
        take_block-taken n c,
        free_block-given c (subst (λ u. get_block_idx u ≡ done (some idx)) same r.2),
        Uncounted-given c,
      )
