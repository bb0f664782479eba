-- ===== src/Malloc/Tests.antt =====
-- A heap with one slab of blocks of 16 bytes, and the theorems at it.
use zju_sys3_sp25_kernel.Base.{
  ℕ, true, fault, ◌+◌, ◌*◌, ◌≤◌, ◌<◌, ◌≡◌, inr, refl, arith, some, done, ◌==◌, if◌then◌else◌,
}
use zju_sys3_sp25_kernel.Malloc.{
  System, Slab, Heap, malloc, take_block, free_block, unit_size_slab, get_used_slab_idx,
  get_block_idx,
}
use zju_sys3_sp25_kernel.Malloc.Index.{
  get_used_slab_idx-unit_size_slab, get_block_idx-unit_size_slab,
}
use zju_sys3_sp25_kernel.Malloc.Blocks.{malloc-alloc_slab, Uncounted, free_block-take_block}

get_used_slab_idx-unit_size_slab_example :
    (idx unit : ℕ) × (get_used_slab_idx 24 ≡ done (some idx))
    × (12 ≤ idx)
    × (idx < 24)
    × (unit_size_slab idx ≡ done unit)
    × (24 ≤ unit)
    × (unit < 2 * 24)
get_used_slab_idx-unit_size_slab_example =
    get_used_slab_idx-unit_size_slab 24 (omega arith) (omega arith)

get_block_idx-unit_size_slab_example :
    (unit : ℕ) × (unit_size_slab 16 ≡ done unit) × (get_block_idx unit ≡ done (some 16))
get_block_idx-unit_size_slab_example =
    get_block_idx-unit_size_slab 16 (inr (omega arith, omega arith))

abbrev slab : Slab
slab = record { va = 8192; unit_size = 16; unit_count = 3; bfreelist = 8240; prev = 0; next = 0 }

abbrev heap : Heap ℕ
heap = record {
  used_slab = λ i. 0;
  avail_slab = λ i. if i == 16 then 8192 else 0;
  ufree_start = 12288;
  heap_start = 8192;
  heap_size = 8192;
  slabs = λ a. slab;
  link = λ b. if b == 8240 then 8264 else 0;
  system = 0;
}

-- The heap that `heap_init` leaves.
abbrev new_heap : Heap ℕ
new_heap = record heap { avail_slab = λ i. 0; ufree_start = 8192; heap_size = 4096 }

abbrev system : System ℕ
system = record { mmap = λ p n w. (true, w + 1) }

malloc-alloc_slab_example : malloc system 8 24 new_heap ≡ fault
malloc-alloc_slab_example =
    malloc-alloc_slab system new_heap 7 24 (omega arith) (omega arith) (λ i. refl) (omega arith)
      (omega arith)

free_block-take_block_example :
    (h1 h2 : Heap ℕ) × (take_block 16 8192 heap ≡ done (8240, h1))
    × (free_block 8240 h1 ≡ done h2)
    × Uncounted 8192 heap h2
free_block-take_block_example =
    free_block-take_block heap 16 8192 (λ e. omega (arith, e)) (omega arith)
      (inr (omega arith, omega arith)) size
  where
    size : unit_size_slab 16 ≡ done 16
    size = unfold unit_size_slab in refl
