-- ===== src/Malloc.antt =====
-- user/src/malloc.c: the slabs of the user's heap, their free lists, and the two lists of slabs for each size. A slab and
-- a block are known by their addresses, and the indices of the lists are below 24; a write through a NULL pointer to a slab is a fault.
mod Blocks
mod Index
mod Tests
use zju_sys3_sp25_kernel.Base.{
  ℕ, zero, suc, ◌+◌, ◌-◌, ◌*◌, ◌/◌, ◌%◌, ◌^◌, Bool, true, false, not, ◌&&◌, ltb, leb, ◌==◌,
  if◌then◌else◌, Option, none, some, Run, done, no_fuel, fault, ◌>>=◌, w64, Words, write, pow2,
}
use zju_sys3_sp25_kernel.Mm.{fixsize}

-- `slab`
pub record Slab : Type 0 where
  pub va : ℕ
  pub unit_size : ℕ
  pub unit_count : ℕ
  pub bfreelist : ℕ
  pub prev : ℕ
  pub next : ℕ

-- `heap`, the slabs, the one word of each block (`meta` or `next`), and what `mmap` works on.
pub record Heap (W : Type 0) : Type 0 where
  pub used_slab : Words
  pub avail_slab : Words
  pub ufree_start : ℕ
  pub heap_start : ℕ
  pub heap_size : ℕ
  pub slabs : ℕ → Slab
  pub link : Words
  pub system : W

abbrev pub sizeof_slab : ℕ
sizeof_slab = 48

abbrev pub sizeof_mblock : ℕ
sizeof_mblock = 8

-- `UNIT_SIZE_SLAB`; from 8 to 11 the shift is by a negative number.
pub unit_size_slab : ℕ → Run ℕ
unit_size_slab idx =
    if ltb idx 8
    then done (pow2 idx * 2 ^ 12)
    else (if ltb idx 12 then fault else done (pow2 (idx - 12)))

pub slab_max_count : ℕ → ℕ
slab_max_count idx =
    if ltb idx 12 then 1 else (2 ^ 12 - sizeof_slab) / (pow2 (idx - 12) + sizeof_mblock)

pub slab_num_page : ℕ → ℕ
slab_num_page idx = if ltb idx 12 then pow2 idx else 1

-- `while (size) { size >>= 1; idx++; }`
pub digit_loop : ℕ → ℕ → ℕ → Run ℕ
digit_loop zero size idx = no_fuel
digit_loop (suc f) size idx =
    let rest = digit_loop f (size / 2) (idx + 1) in if size == 0 then done idx else rest

-- `idx - 1`, where -1 is no index.
pub before : ℕ → Option ℕ
before zero = none
before (suc n) = some n

pub get_used_slab_idx : ℕ → Run (Option ℕ)
unfolding digit_loop before
get_used_slab_idx size =
    if leb size (2 ^ 11)
    then digit_loop 65 (fixsize size) 12 >>= (λ i. done (before i))
    else digit_loop 65 (fixsize (w64 (size + sizeof_slab + sizeof_mblock)) / 2 ^ 12) 0
      >>= (λ i. done (before i))

pub get_block_idx : ℕ → Run (Option ℕ)
unfolding digit_loop before
get_block_idx size =
    let s = fixsize size in
    if ltb s (2 ^ 12)
    then digit_loop 65 s 12 >>= (λ i. done (before i))
    else digit_loop 65 (s / 2 ^ 12) 0 >>= (λ i. done (before i))

-- `slab->...`
pub set_slab : {W : Type 0} → ℕ → Slab → Heap W → Heap W
set_slab a s h = record h { slabs = λ b. if b == a then s else h.slabs b }

-- The loop of `alloc_slab` over the blocks: `n` links of `step` bytes each, then NULL.
pub link_blocks : ℕ → ℕ → ℕ → Words → Words
link_blocks zero step block m = write m block 0
link_blocks (suc n) step block m = link_blocks n step (block + step) (write m block (block + step))

-- `mmap` of the kernel: does it succeed?
pub record System (W : Type 0) : Type 0 where
  pub mmap : ℕ → ℕ → W → Bool × W

module _ {W : Type 0} (sys : System W) where
  pub heap_inflate : Heap W → Heap W
  heap_inflate h =
      let r = sys.mmap (w64 (h.heap_start + h.heap_size)) h.heap_size h.system in
      if r.0
      then record h { heap_size = w64 (h.heap_size * 2); system = r.1 }
      else record h { system = r.1 }

  -- The loop of `alloc_slab` that makes the heap large enough.
  pub inflate_loop : ℕ → ℕ → Heap W → Run (Heap W)
  unfolding heap_inflate
  inflate_loop zero end h = no_fuel
  inflate_loop (suc f) end h =
      let rest = inflate_loop f end (heap_inflate h) in
      if ltb (w64 (h.heap_start + h.heap_size)) end then rest else done h

-- The slab is the first one of its list then, and the one that was the first gets it as `prev`, which the code writes
-- without a test for NULL.
pub push_avail : {W : Type 0} → ℕ → ℕ → Heap W → Run (Heap W)
unfolding set_slab
push_avail idx a h =
    let first = h.avail_slab idx in
    let h1 = set_slab a (record (h.slabs a) { prev = 0; next = first }) h in
    let h2 = set_slab first (record (h1.slabs first) { prev = a }) h1 in
    if first == 0 then fault else done (record h2 { avail_slab = write h2.avail_slab idx a })

pub push_used : {W : Type 0} → ℕ → ℕ → Heap W → Run (Heap W)
unfolding set_slab
push_used idx a h =
    let first = h.used_slab idx in
    let h1 = set_slab a (record (h.slabs a) { prev = 0; next = first }) h in
    let h2 = set_slab first (record (h1.slabs first) { prev = a }) h1 in
    if first == 0 then fault else done (record h2 { used_slab = write h2.used_slab idx a })

-- `alloc_slab` behind its loop, with the size of the blocks.
pub new_slab : {W : Type 0} → ℕ → ℕ → Heap W → Run (ℕ × Heap W)
unfolding push_avail set_slab link_blocks
new_slab idx unit h =
    let a = h.ufree_start in
    let s = record (h.slabs a) { va = a; unit_size = unit; unit_count = slab_max_count idx } in
    let h1 = set_slab a s (record h { ufree_start = w64 (a + slab_num_page idx * 2 ^ 12) }) in
    push_avail idx a h1 >>= (λ h2.
      let first = w64 ((h2.slabs a).va + sizeof_slab) in
      let h3 = set_slab a (record (h2.slabs a) { bfreelist = first }) h2 in
      done (
        a,
        record h3 {
          link = link_blocks (slab_max_count idx - 1) (unit + sizeof_mblock) first h3.link;
        },
      ))

-- The slab leaves the list behind whose first entry it may be.
pub unlink : {W : Type 0} → ℕ → Heap W → Heap W
unfolding set_slab
unlink a h =
    let s = h.slabs a in
    let h1 =
      if s.prev == 0 then h else set_slab s.prev (record (h.slabs s.prev) { next = s.next }) h in
    if s.next == 0 then h1 else set_slab s.next (record (h1.slabs s.next) { prev = s.prev }) h1

-- The slab `a` has no free block any more.
pub to_used : {W : Type 0} → ℕ → ℕ → Heap W → Run (Heap W)
unfolding unlink push_used
to_used idx a h =
    let h1 =
      if a == h.avail_slab idx
      then record h { avail_slab = write h.avail_slab idx (h.slabs a).next }
      else h in
    push_used idx a (unlink a h1)

-- The slab `a` has a free block again.
pub to_avail : {W : Type 0} → ℕ → ℕ → Heap W → Run (Heap W)
unfolding unlink push_avail
to_avail idx a h =
    let h1 =
      if a == h.used_slab idx
      then record h { used_slab = write h.used_slab idx (h.slabs a).next }
      else h in
    push_avail idx a (unlink a h1)

-- A block of the slab `a` is taken; 0 is NULL.
pub take_block : {W : Type 0} → ℕ → ℕ → Heap W → Run (ℕ × Heap W)
unfolding to_used set_slab
take_block idx a h =
    let s = h.slabs a in
    let block = s.bfreelist in
    let taken = record s { bfreelist = h.link block; unit_count = s.unit_count - 1 } in
    let h1 = set_slab a taken (record h { link = write h.link block a }) in
    if block == 0
    then done (0, h)
    else (if s.unit_count == 1
        then to_used idx a h1 >>= (λ h2. done (block, h2))
        else done (block, h1))

pub free_block : {W : Type 0} → ℕ → Heap W → Run (Heap W)
unfolding to_avail set_slab
free_block block h =
    let a = h.link block in
    let s = h.slabs a in
    let given = record s { bfreelist = block } in
    let h1 = record h { link = write h.link block s.bfreelist } in
    get_block_idx s.unit_size >>= (λ o. elim o [
      | none ↦ fault
      | some idx ↦
          if s.unit_count == 0
          then to_avail idx a (set_slab a (record given { unit_count = 1 }) h1)
          else done (set_slab a given h1)
    ])

module _ {W : Type 0} (sys : System W) (rounds : ℕ) where
  pub alloc_slab : ℕ → Heap W → Run (ℕ × Heap W)
  unfolding inflate_loop new_slab
  alloc_slab idx h =
      inflate_loop sys rounds (w64 (h.ufree_start + slab_num_page idx * 2 ^ 12)) h
      >>= (λ h1. unit_size_slab idx >>= (λ u. new_slab idx u h1))

  pub get_avail_slab : ℕ → Heap W → Run (ℕ × Heap W)
  unfolding alloc_slab
  get_avail_slab idx h =
      if h.avail_slab idx == 0
      then alloc_slab idx h
        >>= (λ r. done (r.0, record r.1 { avail_slab = write r.1.avail_slab idx r.0 }))
      else done (h.avail_slab idx, h)

  pub alloc_block : ℕ → Heap W → Run (ℕ × Heap W)
  unfolding get_avail_slab take_block get_used_slab_idx
  alloc_block size h = get_used_slab_idx size >>= (λ o. elim o [
    | none ↦ done (0, h)
    | some idx ↦ get_avail_slab idx h >>= (λ r. take_block idx r.0 r.1)
  ])

  -- The address behind the block's own word.
  pub malloc : ℕ → Heap W → Run (ℕ × Heap W)
  unfolding alloc_block
  malloc size h = alloc_block size h >>= (λ r. done (w64 (r.0 + sizeof_mblock), r.1))

pub free : {W : Type 0} → ℕ → Heap W → Run (Heap W)
unfolding free_block
free ptr h = free_block (w64 (ptr + 2 ^ 64 - sizeof_mblock)) h
