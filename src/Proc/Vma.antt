-- ===== src/Proc/Vma.antt =====
-- The virtual memory areas of arch/riscv/kernel/proc.c: a doubly linked list of slots that live in the
-- page of their `mm_struct`, with a singly linked list of the free ones.
-- A pointer to a slot is its number from 1 on, and 0 is NULL. `NR_VMA_SLOTS` is (4096 - 24) / 72.
pub mod Chain
mod Copy
mod Find
pub mod First
mod Insert
pub mod Mmap
pub mod Remove
mod Tests
use zju_sys3_sp25_kernel.Base.{
  ℕ, zero, suc, ◌+◌, ◌-◌, ◌*◌, ◌/◌, ◌%◌, ◌^◌, ltb, ◌==◌, if◌then◌else◌, w64, Run, done, no_fuel,
  fault, ◌>>=◌,
}

-- `struct vm_area_struct`
pub record Vma : Type 0 where
  pub vm_mm : ℕ
  pub vm_start : ℕ
  pub vm_end : ℕ
  pub vm_flags : ℕ
  pub vm_prev : ℕ
  pub vm_next : ℕ
  pub vm_file : ℕ
  pub vm_pgoff : ℕ
  pub vm_filesz : ℕ

abbrev pub Slots : Type 0
Slots = ℕ → Vma

-- `struct mm_struct`, at address `self`, with the slots behind it.
pub record MmStruct : Type 0 where
  pub self : ℕ
  pub mmap : ℕ
  pub num_vmas : ℕ
  pub free_vma_list : ℕ
  pub slot : Slots

abbrev pub nr_vma_slots : ℕ
nr_vma_slots = 56

-- `*p = v`
pub update : Slots → ℕ → Vma → Slots
update s p v q = if q == p then v else s q

pub set_next : Slots → ℕ → ℕ → Slots
unfolding update
set_next s p n = update s p (record (s p) { vm_next = n })

pub set_prev : Slots → ℕ → ℕ → Slots
unfolding update
set_prev s p n = update s p (record (s p) { vm_prev = n })

-- The loop of `find_vma`; 0 stands for the NULL that it returns.
unfoldable pub find_loop : ℕ → Slots → ℕ → ℕ → Run ℕ
find_loop zero s va p = no_fuel
find_loop (suc f) s va p =
    let rest = find_loop f s va (s p).vm_next in
    if p == 0
    then done 0
    else (if ltb va (s p).vm_start then done 0 else (if ltb va (s p).vm_end then done p else rest))

-- A list without a cycle has at most `nr_vma_slots` nodes.
unfoldable pub find_vma : MmStruct → ℕ → Run ℕ
unfolding find_loop
find_vma mm va = find_loop (nr_vma_slots + 1) mm.slot va mm.mmap

-- The first loop of `do_mmap`: slot `p` is followed by slot `p + 1`, for the rounds that are left.
pub link_slots : ℕ → ℕ → Slots → Slots
link_slots zero p s = s
link_slots (suc n) p s = link_slots n (p + 1) (set_next s p (p + 1))

-- The second loop of `do_mmap`: the neighbours `prev` and `curr` of the new area.
pub place_loop : ℕ → Slots → ℕ → ℕ → ℕ → Run (ℕ × ℕ)
place_loop zero s va prev curr = no_fuel
place_loop (suc f) s va prev curr =
    let rest = place_loop f s va curr (s curr).vm_next in
    if curr == 0
    then done (prev, curr)
    else (if ltb va (s curr).vm_start then done (prev, curr) else rest)

-- The new slot is linked in between its neighbours.
pub link_in : Slots → ℕ → ℕ → ℕ → ℕ → Slots
unfolding set_next set_prev
link_in s mmap vma prev curr =
    let head = set_prev (set_next (set_prev s vma 0) vma mmap) mmap vma in
    let inner = set_next (set_prev (set_next s vma curr) vma prev) prev vma in
    if prev == 0 then head else (if curr == 0 then inner else set_prev inner curr vma)

-- The arguments of `do_mmap` behind `mm`.
pub record Area : Type 0 where
  pub start : ℕ
  pub len : ℕ
  pub flags : ℕ
  pub file : ℕ
  pub pgoff : ℕ
  pub filesz : ℕ

pub fill : ℕ → Area → Vma → Vma
fill mm a v = record v {
  vm_mm = mm;
  vm_start = a.start;
  vm_end = w64 (a.start + a.len);
  vm_flags = a.flags;
  vm_file = a.file;
  vm_pgoff = a.pgoff;
  vm_filesz = a.filesz;
}

-- What `do_mmap` does to its first slot when the list is empty.
pub first_slot : MmStruct → Slots
first_slot mm =
    let linked = set_next (link_slots (nr_vma_slots - 1) 1 mm.slot) nr_vma_slots 0 in
    set_next (set_prev linked 1 0) 1 0

-- The end of `do_mmap`: the slot `vma` is filled and counted.
pub finish : MmStruct → ℕ → Area → ℕ × MmStruct
unfolding update fill
finish mm vma a = (
  a.start,
  record mm {
    slot = update mm.slot vma (fill mm.self a (mm.slot vma));
    num_vmas = w64 (mm.num_vmas + 1);
  },
)

-- `do_mmap` behind its second loop, with the neighbours that the loop found.
pub between : MmStruct → Area → ℕ × ℕ → ℕ × MmStruct
unfolding finish link_in set_next
between mm a n =
    let vma = mm.free_vma_list in
    finish
      (record mm {
        mmap = if n.0 == 0 then vma else mm.mmap;
        free_vma_list = (mm.slot vma).vm_next;
        slot = link_in (set_next mm.slot vma 0) mm.mmap vma n.0 n.1;
      })
      vma a

pub do_mmap : MmStruct → Area → Run (ℕ × MmStruct)
unfolding first_slot finish place_loop between
do_mmap mm a =
    let vma = mm.free_vma_list in
    let cleared = set_next mm.slot vma 0 in
    if mm.mmap == 0
    then done (finish (record mm { mmap = 1; free_vma_list = 2; slot = first_slot mm }) 1 a)
    else (if vma == 0
        then fault
        else place_loop (nr_vma_slots + 1) cleared a.start 0 mm.mmap
          >>= (λ n. done (between mm a n)))

abbrev pub zero_vma : Vma
zero_vma = record {
  vm_mm = 0;
  vm_start = 0;
  vm_end = 0;
  vm_flags = 0;
  vm_prev = 0;
  vm_next = 0;
  vm_file = 0;
  vm_pgoff = 0;
  vm_filesz = 0;
}

pub remove_vma : MmStruct → ℕ → MmStruct
unfolding update set_next set_prev
remove_vma mm vma =
    let prev = (mm.slot vma).vm_prev in
    let next = (mm.slot vma).vm_next in
    let s1 = if prev == 0 then mm.slot else set_next mm.slot prev next in
    let s2 = if next == 0 then s1 else set_prev s1 next prev in
    record mm {
      mmap = if vma == mm.mmap then next else mm.mmap;
      slot = update s2 vma (record zero_vma { vm_next = mm.free_vma_list });
      free_vma_list = vma;
      num_vmas = w64 (mm.num_vmas + 2 ^ 64 - 1);
    }

-- The address of a slot in the page of the `mm_struct` at `self`: 72 bytes each, behind 24 bytes.
pub slot_address : ℕ → ℕ → ℕ
slot_address self p = w64 (self + 24 + 72 * (p - 1))

-- The number that an address has among the slots of the page; one between two slots has a number that is no slot's.
pub slot_number : ℕ → ℕ → ℕ
slot_number self a =
    let offset = w64 (a + 2 ^ 64 - w64 (self + 24)) in offset / 72 + 1 + offset % 72 * 2 ^ 64

-- A pointer into the page at `src`, with `delta` added, as one into the page at `dst`.
pub moved : ℕ → ℕ → ℕ → ℕ
unfolding slot_address slot_number
moved dst src p =
    let delta = w64 (dst + 2 ^ 64 - src) in slot_number dst (w64 (slot_address src p + delta))

pub moved_link : ℕ → ℕ → ℕ → ℕ
unfolding moved
moved_link dst src p = if p == 0 then 0 else moved dst src p

-- The loop of `copy_mm`: the slots from `p` on of the page at `from` are copied to the slots from `q` on of the page at
-- `self`.
pub copy_loop : ℕ → ℕ → ℕ → Slots → Slots → ℕ → ℕ → Run Slots
unfolding update moved_link
copy_loop zero self from src dst p q = no_fuel
copy_loop (suc f) self from src dst p q =
    let v = src p in
    let next = moved_link self from v.vm_next in
    let copy = record v {
      vm_mm = self;
      vm_prev = moved_link self from v.vm_prev;
      vm_next = next;
    } in
    let rest = copy_loop f self from src (update dst q copy) v.vm_next next in
    if p == 0 then done dst else rest

pub copy_mm : MmStruct → MmStruct → Run MmStruct
copy_mm dst src =
    let first = moved dst.self src.self src.mmap in
    if src.mmap == 0
    then done (record dst { mmap = 0; num_vmas = 0 })
    else copy_loop (nr_vma_slots + 1) dst.self src.self src.slot dst.slot src.mmap first
      >>= (λ s. done (record dst { mmap = first; num_vmas = src.num_vmas; slot = s }))
