-- ===== src/Trap/Tests.antt =====
-- A process with one anonymous area and an empty root table, and the theorems at it.
use zju_sys3_sp25_kernel.Base.{
  ℕ, ◌≤◌, inr, ◌+◌, ◌%◌, ◌/◌, ◌^◌, ◌≡◌, refl, arith, false, some, done, Words,
}
use zju_sys3_sp25_kernel.Mm.{va2pa, pa2va}
use zju_sys3_sp25_kernel.Proc.Vma.{Vma, MmStruct, find_vma}
use zju_sys3_sp25_kernel.Vm.{walk_page_table_pte, is_valid_pte, walk_page_table}
use zju_sys3_sp25_kernel.Vm.Entry.{valid-zero}
use zju_sys3_sp25_kernel.Vm.Sample.{
  page, bump, Free, bump-Supply, places, empty, empty-Shape, empty-Free, shared_mem, shared_places,
  shared-Shape, shared_walk, shared_valid,
}
use zju_sys3_sp25_kernel.Trap.{Services, Space, refused, do_page_fault}
use zju_sys3_sp25_kernel.Trap.Demand.{do_page_fault-walk_page_table}
use zju_sys3_sp25_kernel.Trap.Share.{data_page, Copied, do_page_fault-Copied}

abbrev area : Vma
area = record {
  vm_mm = 0;
  vm_start = 0x1000;
  vm_end = 0x3000;
  vm_flags = 11;
  vm_prev = 0;
  vm_next = 0;
  vm_file = 0;
  vm_pgoff = 0;
  vm_filesz = 0;
}

abbrev areas : MmStruct
areas = record { self = 0; mmap = 1; num_vmas = 1; free_vma_list = 0; slot = λ p. area }

abbrev services : Services ℕ ℕ
services = record {
  pages = bump;
  get_ref_cnt = λ p s. 1;
  lseek = λ f o s. done o;
  read = λ f buf n m s. done (m, s);
}

abbrev zeros : Words
zeros i = 0

abbrev space : Space ℕ ℕ
space = record { tables = empty; bytes = zeros; files = 0 }

found : find_vma areas 0x2345 ≡ done 1
unfolding find_vma
found = refl

allowed : refused 15 11 ≡ false
unfolding refused
allowed = refl

absent : is_valid_pte empty.mem (walk_page_table_pte empty.mem (page 0) (0x2345 / 2 ^ 12)) ≡ false
unfolding is_valid_pte walk_page_table_pte
absent = rw valid-zero refl

do_page_fault-walk_page_table_example :
    (p : ℕ) × (s : ℕ) × (sp' : Space ℕ ℕ) × (bump.alloc_page 1 ≡ done (p, s))
    × (do_page_fault services 0 (page 0) areas 15 0x2345 space ≡ done sp')
    × (walk_page_table sp'.tables.mem (page 0) 0x2345 ≡ some (va2pa p + 0x2345 % 2 ^ 12))
    × (sp'.bytes ≡ zeros)
do_page_fault-walk_page_table_example =
    do_page_fault-walk_page_table services 0 (page 0) Free bump-Supply areas 15 0x2345 1 space
      places empty-Shape (empty-Free 514 (omega arith)) (omega arith) found (omega arith) allowed
      (omega arith) absent

abbrev shared_services : Services ℕ ℕ
shared_services = record services { get_ref_cnt = λ p s. 2 }

abbrev shared_space : Space ℕ ℕ
shared_space = record {
  tables = record { mem = shared_mem; pages = 10 };
  bytes = λ x. x % 256;
  files = 0;
}

old_before : data_page 0x200025d3 + 2 ^ 12 ≤ page 10
unfolding pa2va
old_before = omega arith

do_page_fault-Copied_example :
    (sp' : Space ℕ ℕ) × (do_page_fault shared_services 0 (page 0) areas 15 0x2345 shared_space
      ≡ done sp')
    × Copied shared_services 0 (page 0) 0x2345 (page 10) (data_page 0x200025d3) shared_space sp'
do_page_fault-Copied_example =
    do_page_fault-Copied shared_services 0 (page 0) areas 0x2345 1 (page 10) (page 2, 2) 11 11
      shared_space shared_places shared-Shape found (omega arith) allowed refl
      (omega arith, omega arith, omega arith) shared_walk shared_valid (omega arith) (omega arith)
      refl (inr old_before)
