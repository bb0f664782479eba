-- ===== src/Munmap.antt =====
-- `sys_mmap` and `sys_munmap` of arch/riscv/kernel/ksyscalls.c, with `to_vm_flags` and `do_munmap` of
-- arch/riscv/kernel/proc.c: the calls on the areas of a process and the tables of its root `pgd`.
mod Whole
mod Tests
use zju_sys3_sp25_kernel.Base.{
  ℕ, zero, suc, ◌+◌, ◌-◌, ◌%◌, ◌^◌, bit_or, Bool, true, false, not, ◌&&◌, ◌||◌, ltb, leb, ◌==◌,
  if◌then◌else◌, Option, none, some, Run, done, no_fuel, fault, ◌>>=◌, w64,
}
use zju_sys3_sp25_kernel.Base.Bits.{bit}
use zju_sys3_sp25_kernel.Fs.{minus_one}
use zju_sys3_sp25_kernel.Proc.Vma.{Vma, MmStruct, Area, nr_vma_slots, find_vma, do_mmap, remove_vma}
use zju_sys3_sp25_kernel.Vm.{Pages, Tables, remove_mapping}

-- PROT_READ, PROT_WRITE, PROT_EXEC and MAP_ANON to VM_READ, VM_WRITE, VM_EXEC and VM_ANON.
pub to_vm_flags : ℕ → ℕ → ℕ
to_vm_flags prot flags =
    let r = if bit 0 prot == 0 then 0 else 1 in
    let w = if bit 1 prot == 0 then r else bit_or r 2 in
    let x = if bit 2 prot == 0 then w else bit_or w 4 in if bit 5 flags == 0 then x else bit_or x 8

-- `file_of` gives the address of a descriptor's entry.
pub sys_mmap : (ℕ → ℕ) → ℕ → ℕ → ℕ → ℕ → ℕ → ℕ → MmStruct → Run (ℕ × MmStruct)
unfolding to_vm_flags
sys_mmap file_of addr len prot flags fd offset mm =
    let area : Area = record {
      start = addr;
      len = len;
      flags = to_vm_flags prot flags;
      file = 0;
      pgoff = 0;
      filesz = 0;
    } in
    if bit 5 flags == 0
    then do_mmap mm (record area { file = file_of fd; pgoff = offset; filesz = len })
    else do_mmap mm area

-- The first loop of `do_munmap`: the area with the end of the range, behind areas without a gap; `none` is -1.
pub end_loop : ℕ → MmStruct → ℕ → ℕ → Run (Option ℕ)
end_loop zero mm end curr = no_fuel
end_loop (suc f) mm end curr =
    let c = mm.slot curr in
    let rest = end_loop f mm end c.vm_next in
    if curr == 0
    then done none
    else (if not (ltb c.vm_end end)
        then done (some curr)
        else (if c.vm_next == 0
            then done none
            else (if not ((mm.slot c.vm_next).vm_start == c.vm_end) then done none else rest)))

-- What is left of an area before the range, and behind it.
pub keep_before : ℕ → Vma → MmStruct → Run MmStruct
keep_before va v mm =
    if ltb v.vm_start va
    then do_mmap mm (record {
      start = v.vm_start;
      len = va - v.vm_start;
      flags = v.vm_flags;
      file = v.vm_file;
      pgoff = v.vm_pgoff;
      filesz = v.vm_filesz;
    })
      >>= (λ r. done r.1)
    else done mm

pub keep_behind : ℕ → Vma → MmStruct → Run MmStruct
keep_behind end v mm =
    if ltb end v.vm_end
    then do_mmap mm (record {
      start = end;
      len = v.vm_end - end;
      flags = v.vm_flags;
      file = v.vm_file;
      pgoff = v.vm_pgoff;
      filesz = v.vm_filesz;
    })
      >>= (λ r. done r.1)
    else done mm

-- The second loop of `do_munmap`, up to the area `last`.
pub cut_loop : ℕ → ℕ → ℕ → ℕ → ℕ → MmStruct → Run MmStruct
unfolding keep_before keep_behind
cut_loop zero va end last vma mm = no_fuel
cut_loop (suc f) va end last vma mm =
    let v = mm.slot vma in
    let rest : MmStruct → Run MmStruct = λ mm'. cut_loop f va end last v.vm_next mm' in
    if vma == last
    then done mm
    else keep_before va v (remove_vma mm vma) >>= (λ mm1. keep_behind end v mm1 >>= rest)

pub do_munmap :
    {S : Type 0} → Pages S → ℕ → ℕ → ℕ → MmStruct → Tables S → Run (ℕ × MmStruct × Tables S)
do_munmap ops pgd va len mm t =
    let end = w64 (va + len) in
    find_vma mm va >>= (λ vma.
      if vma == 0
        || (not (va % 2 ^ 12 == 0) || not (len % 2 ^ 12 == 0))
        || ltb va (mm.slot vma).vm_start
      then done (minus_one, mm, t)
      else end_loop (nr_vma_slots + 1) mm end vma >>= (λ o. elim o [
        | none ↦ done (minus_one, mm, t)
        | some curr ↦ remove_mapping ops pgd va len t >>= (λ t'.
            cut_loop (nr_vma_slots + 1) va end (mm.slot curr).vm_next vma mm
            >>= (λ mm'. done (1, mm', t')))
      ]))

pub sys_munmap :
    {S : Type 0} → Pages S → ℕ → ℕ → ℕ → MmStruct → Tables S → Run (ℕ × MmStruct × Tables S)
unfolding do_munmap
sys_munmap ops pgd addr len mm t = do_munmap ops pgd addr len mm t
