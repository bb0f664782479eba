-- ===== src/Trap.antt =====
-- arch/riscv/kernel/trap.c: the page fault handler, over the areas, the page tables and the page allocator. The
-- contents of the data pages are bytes at their kernel addresses, apart from the tables.
mod Demand
mod Share
mod Syscall
mod Tests
use zju_sys3_sp25_kernel.Base.{
  ℕ, zero, suc, ◌+◌, ◌-◌, ◌*◌, ◌/◌, ◌%◌, ◌^◌, bit_and, bit_or, Bool, true, false, not, ◌&&◌, ◌||◌,
  ltb, leb, ◌==◌, if◌then◌else◌, min, Option, none, some, Run, done, ◌>>=◌, w64, Words,
}
use zju_sys3_sp25_kernel.Base.Bits.{bit}
use zju_sys3_sp25_kernel.Mm.{pa2va, va2pa}
use zju_sys3_sp25_kernel.Str.{memcpy}
use zju_sys3_sp25_kernel.Proc.Vma.{Vma, MmStruct, find_vma}
use zju_sys3_sp25_kernel.Vm.{Pages, Tables, put, create_mapping, walk_page_table_pte, is_valid_pte}
use zju_sys3_sp25_kernel.Vm.Entry.{sv39_pte, get_ppn, phys2ppn}

-- What the handler uses of mm.c and of the files; `lseek` and `read` are the function pointers of a file, and `read`
-- writes to the memory.
pub record Services (S F : Type 0) : Type 0 where
  pub pages : Pages S
  pub get_ref_cnt : ℕ → S → ℕ
  pub lseek : ℕ → ℕ → F → Run F
  pub read : ℕ → ℕ → ℕ → Words → F → Run (Words × F)

pub record Space (S F : Type 0) : Type 0 where
  pub tables : Tables S
  pub bytes : Words
  pub files : F

-- V, U and A; R for VM_READ, W and D for VM_WRITE, X for VM_EXEC
pub vma_flags_to_perm : ℕ → ℕ
vma_flags_to_perm flags =
    let r = if bit 0 flags == 0 then 0x51 else bit_or 0x51 2 in
    let w = if bit 1 flags == 0 then r else bit_or r 0x84 in
    if bit 2 flags == 0 then w else bit_or w 8

-- The three tests of the access against the area's flags, for the causes 12 (instruction), 13 (load), 15 (store).
pub refused : ℕ → ℕ → Bool
refused scause flags =
    (scause == 12 && bit 2 flags == 0)
    || (scause == 13 && bit 0 flags == 0)
    || (scause == 15 && bit 1 flags == 0)

pub round_down : ℕ → ℕ
round_down va = va - va % 2 ^ 12

module _ {S F : Type 0} (svc : Services S F) where
  -- The first contents of a page: none for an anonymous area, else from the program's image behind `suapp`, or from
  -- the area's file.
  pub load : ℕ → Vma → ℕ → ℕ → Space S F → Run (Space S F)
  load suapp vma va page sp =
      let behind = w64 (va + 2 ^ 64 - vma.vm_start) in
      if not (bit 3 vma.vm_flags == 0)
      then done sp
      else (if vma.vm_file == 0
          then done (record sp {
            bytes =
                memcpy sp.bytes page (w64 (w64 (suapp + vma.vm_pgoff) + behind))
                  (min (2 ^ 12) (w64 (vma.vm_end + 2 ^ 64 - va)));
          })
          else svc.lseek vma.vm_file (w64 (vma.vm_pgoff + behind)) sp.files >>= (λ f.
            svc.read vma.vm_file page (2 ^ 12) sp.bytes f
            >>= (λ r. done (record sp { bytes = r.0; files = r.1 }))))

  -- A page that is not mapped yet.
  pub demand : ℕ → ℕ → Vma → ℕ → ℕ → Space S F → Run (Space S F)
  unfolding load vma_flags_to_perm
  demand suapp pgd vma va page sp = load suapp vma va page sp >>= (λ sp'.
      create_mapping svc.pages pgd va (va2pa page) (2 ^ 12) (vma_flags_to_perm vma.vm_flags)
        sp'.tables
      >>= (λ t. done (record sp' { tables = t })))

  -- A page that is mapped by the entry `e`: a store to a shared page copies it, or, if there is no other owner, makes it
  -- writable.
  pub unshare : ℕ → Vma → ℕ × ℕ → ℕ → Space S F → Run (Space S F)
  unfolding vma_flags_to_perm
  unshare scause vma e page sp =
      let t = sp.tables in
      let pte = t.mem e.0 e.1 in
      let pa = w64 (get_ppn pte * 2 ^ 12) in
      let own = bit_and pte (2 ^ 64 - 0x101) in
      let own' = if bit 1 vma.vm_flags == 0 then own else bit_or own 4 in
      let copied = memcpy sp.bytes page (pa2va pa) (2 ^ 12) in
      let new_pte = sv39_pte (phys2ppn (va2pa page)) (vma_flags_to_perm vma.vm_flags) in
      if not (scause == 15) || bit 8 pte == 0
      then done sp
      else (if leb 2 (svc.get_ref_cnt pa t.pages)
          then svc.pages.deref_page (pa2va pa) t.pages >>= (λ s. done (record sp {
            tables = record { mem = put t.mem e.0 e.1 new_pte; pages = s };
            bytes = copied;
          }))
          else (if svc.get_ref_cnt pa t.pages == 1
              then done (record sp { tables = record t { mem = put t.mem e.0 e.1 own' } })
              else done sp))

  pub resolve : ℕ → ℕ → ℕ → Vma → ℕ → ℕ → Option (ℕ × ℕ) → Space S F → Run (Space S F)
  unfolding demand unshare
  resolve suapp pgd scause vma va page none sp = demand suapp pgd vma va page sp
  resolve suapp pgd scause vma va page (some e) sp =
      if is_valid_pte sp.tables.mem (some e)
      then unshare scause vma e page sp
      else demand suapp pgd vma va page sp

  -- `do_page_fault` in the process with the areas `mm` and the root table `pgd`.
  pub do_page_fault : ℕ → ℕ → MmStruct → ℕ → ℕ → Space S F → Run (Space S F)
  unfolding resolve refused round_down
  do_page_fault suapp pgd mm scause stval sp = find_vma mm stval >>= (λ p.
      if p == 0 || refused scause (mm.slot p).vm_flags
      then done sp
      else svc.pages.alloc_page sp.tables.pages >>= (λ r.
        let va = round_down stval in
        resolve suapp pgd scause (mm.slot p) va r.0
          (walk_page_table_pte sp.tables.mem pgd (va / 2 ^ 12))
          (record sp { tables = record sp.tables { pages = r.1 } })))
