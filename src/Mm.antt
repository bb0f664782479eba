-- ===== src/Mm.antt =====
-- arch/riscv/kernel/mm.c: the buddy allocator of physical pages, with a reference count per page.
-- The two arrays of `buddy` are functions from an index to a word; `uint64_t` arithmetic wraps.
-- A loop runs on 64 rounds of fuel: each round halves an index or a size, both below 2^64.
mod Index
mod Block
mod Rep
mod Alloc
mod Free
mod Pages
mod Refine
mod Release
mod Service
pub mod Sizes
mod Init
mod Reserve
mod Tests
use zju_sys3_sp25_kernel.Base.{
  ℕ, zero, suc, ◌+◌, ◌-◌, ◌*◌, ◌/◌, ◌^◌, max, bit_and, bit_or, Bool, ltb, leb, ◌==◌, if◌then◌else◌,
  ◌&&◌, not, w64, Words, write, Run, done, halt, no_fuel, ◌>>=◌, Status, success, failure,
}

-- The macros on indices and pages.
pub left_leaf : ℕ → ℕ
left_leaf i = w64 (w64 (i * 2) + 1)

pub right_leaf : ℕ → ℕ
right_leaf i = w64 (w64 (i * 2) + 2)

pub parent : ℕ → ℕ
parent i = w64 (w64 (i + 1) / 2 + 2 ^ 64 - 1)

pub is_power_of_2 : ℕ → Bool
is_power_of_2 x = bit_and x (w64 (x + 2 ^ 64 - 1)) == 0

abbrev pub phy_start : ℕ
phy_start = 0x80000000

abbrev pub phy_size : ℕ
phy_size = 0x8000000

abbrev pub pgsize : ℕ
pgsize = 0x1000

abbrev pub pa2va_offset : ℕ
pa2va_offset = 0xffffffe000000000 - phy_start

unfoldable pub va2pa : ℕ → ℕ
va2pa x = w64 (x + 2 ^ 64 - pa2va_offset)

unfoldable pub pa2va : ℕ → ℕ
pa2va x = w64 (x + pa2va_offset)

pub pfn2phys : ℕ → ℕ
pfn2phys x = w64 (w64 (x * 2 ^ 12) + phy_start)

pub phys2pfn : ℕ → ℕ
phys2pfn x = w64 (x + 2 ^ 64 - phy_start) / 2 ^ 12

pub record Buddy : Type 0 where
  pub bitmap : Words
  pub ref_cnt : Words
  pub size : ℕ

-- `size |= size >> k`
abbrev pub smear : ℕ → ℕ → ℕ
smear k x = bit_or x (x / 2 ^ k)

pub fixsize : ℕ → ℕ
fixsize size =
    w64 (smear 32 (smear 16 (smear 8 (smear 4 (smear 2 (smear 1 (w64 (size + 2 ^ 64 - 1))))))) + 1)

abbrev pub rounds : ℕ
rounds = 64

-- The first loop of `buddy_free`: up from a page's leaf to the node that was handed out.
pub climb : ℕ → Words → ℕ → ℕ → Run (ℕ × ℕ)
climb zero b node_size index = no_fuel
climb (suc f) b node_size index =
    let doubled = w64 (node_size * 2) in
    let rest = climb f b doubled (parent index) in
    if b index == 0
    then done (node_size, index)
    else (if index == 0 then done (doubled, index) else rest)

-- One round of the second loop of `buddy_free`, at the parent.
pub merge_at : Words → ℕ → ℕ → Words
merge_at b node_size index =
    let left_longest = b (left_leaf index) in
    let right_longest = b (right_leaf index) in
    if w64 (left_longest + right_longest) == node_size
    then write b index node_size
    else write b index (max left_longest right_longest)

pub ascend_merge : ℕ → Words → ℕ → ℕ → Run Words
ascend_merge zero b node_size index = no_fuel
ascend_merge (suc f) b node_size index =
    let doubled = w64 (node_size * 2) in
    let rest = ascend_merge f (merge_at b doubled (parent index)) doubled (parent index) in
    if index == 0 then done b else rest

pub buddy_free : ℕ → Buddy → Run Buddy
buddy_free pfn s =
    if s.ref_cnt pfn == 0
    then climb rounds s.bitmap 1 (w64 (w64 (pfn + s.size) + 2 ^ 64 - 1)) >>= (λ n.
      ascend_merge rounds (write s.bitmap n.1 n.0) n.0 n.1
      >>= (λ b. done (record s { bitmap = b })))
    else done s

pub buddy_pfn_incref : ℕ → Buddy → Buddy
buddy_pfn_incref pfn s = record s { ref_cnt = write s.ref_cnt pfn (w64 (s.ref_cnt pfn + 1)) }

-- `if (ref_cnt[pfn] && !--ref_cnt[pfn]) buddy_free(pfn);`
pub buddy_pfn_decref : ℕ → Buddy → Run Buddy
buddy_pfn_decref pfn s =
    let s' = record s { ref_cnt = write s.ref_cnt pfn (s.ref_cnt pfn - 1) } in
    if s.ref_cnt pfn == 0
    then done s
    else (if s'.ref_cnt pfn == 0 then buddy_free pfn s' else done s')

-- The search of `buddy_alloc`: down to a node of the wanted size.
pub descend : ℕ → Words → ℕ → ℕ → ℕ → Run (ℕ × ℕ)
descend zero b nrpages node_size index = no_fuel
descend (suc f) b nrpages node_size index =
    let index' = if leb nrpages (b (left_leaf index)) then left_leaf index else right_leaf index in
    let rest = descend f b nrpages (node_size / 2) index' in
    if node_size == nrpages then done (node_size, index) else rest

-- One round of the last loop of `buddy_alloc`, at the parent.
pub refresh_at : Words → ℕ → Words
refresh_at b index = write b index (max (b (left_leaf index)) (b (right_leaf index)))

pub ascend : ℕ → Words → ℕ → Run Words
ascend zero b index = no_fuel
ascend (suc f) b index =
    let rest = ascend f (refresh_at b (parent index)) (parent index) in
    if index == 0 then done b else rest

-- The number of pages that is really taken.
pub round_pages : ℕ → ℕ
round_pages nrpages =
    if nrpages == 0 then 1 else (if not (is_power_of_2 nrpages) then fixsize nrpages else nrpages)

-- `halt` is the system reset when no free block is large enough.
pub buddy_alloc : ℕ → Buddy → Run (ℕ × Buddy)
buddy_alloc nrpages s =
    let wanted = round_pages nrpages in
    if ltb (s.bitmap 0) wanted
    then halt
    else descend rounds s.bitmap wanted s.size 0 >>= (λ n.
      let pfn = w64 (w64 (w64 (n.1 + 1) * n.0) + 2 ^ 64 - s.size) in
      ascend rounds (write s.bitmap n.1 0) n.1
      >>= (λ b. done (pfn, record s { bitmap = b; ref_cnt = write s.ref_cnt pfn 1 })))

-- The loop of `buddy_init` over the array, from `i` on, for the rounds that are left.
pub init_bitmap : ℕ → ℕ → ℕ → Words → Words
init_bitmap zero i node_size b = b
init_bitmap (suc n) i node_size b =
    let node_size' = if is_power_of_2 (i + 1) then node_size / 2 else node_size in
    init_bitmap n (i + 1) node_size' (write b i node_size')

-- `for (pfn = ...; pfn; --pfn) buddy_alloc(1);`
pub reserve : ℕ → Buddy → Run Buddy
reserve zero s = done s
reserve (suc n) s = buddy_alloc 1 s >>= (λ r. reserve n r.1)

abbrev pub buddy_size : ℕ
buddy_size = phy_size / pgsize

-- `buddy_init` up to the reservation of the kernel's own pages.
pub buddy_setup : ℕ → Buddy
unfolding init_bitmap
buddy_setup size = record {
  bitmap = init_bitmap (2 * size - 1) 0 (2 * size) (λ _. 0);
  ref_cnt = λ _. 0;
  size = size;
}

-- `ekernel` is where the linker ends the kernel; the two arrays stand behind it.
pub buddy_init : ℕ → Run Buddy
unfolding buddy_setup reserve
buddy_init ekernel =
    let size = if not (is_power_of_2 buddy_size) then fixsize buddy_size else buddy_size in
    let free_page_start = w64 (ekernel + 2 * size * 8 + size * 8) in
    reserve (phys2pfn (va2pa free_page_start)) (buddy_setup size)

pub alloc_pages : ℕ → Buddy → Run (ℕ × Buddy)
alloc_pages nrpages s = buddy_alloc nrpages s >>= (λ r. done (pa2va (pfn2phys r.0), r.1))

pub alloc_page : Buddy → Run (ℕ × Buddy)
alloc_page s = alloc_pages 1 s

pub free_pages : ℕ → Buddy → Run Buddy
free_pages va s = buddy_free (phys2pfn (va2pa va)) s

pub ref_page : ℕ → Buddy → Status × Buddy
ref_page va s =
    let pfn = phys2pfn (va2pa va) in
    if s.ref_cnt pfn == 0 then (failure, s) else (success, buddy_pfn_incref pfn s)

pub deref_page : ℕ → Buddy → Run (Status × Buddy)
deref_page va s =
    let pfn = phys2pfn (va2pa va) in
    if s.ref_cnt pfn == 0
    then done (failure, s)
    else buddy_pfn_decref pfn s >>= (λ s'. done (success, s'))

pub get_ref_cnt : ℕ → Buddy → ℕ
get_ref_cnt pa s = s.ref_cnt (phys2pfn pa)
