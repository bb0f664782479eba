-- ===== src/Munmap/Tests.antt =====
-- An area of two pages that is unmapped as a whole.
use zju_sys3_sp25_kernel.Base.{refl}
use zju_sys3_sp25_kernel.Proc.Vma.{MmStruct, Area, zero_vma}
use zju_sys3_sp25_kernel.Proc.Vma.First.{do_mmap-IsMm}
use zju_sys3_sp25_kernel.Vm.Sample.{page}

abbrev area : Area
area = record { start = 0x2000; len = 0x2000; flags = 11; file = 0; pgoff = 0; filesz = 0 }

abbrev new_mm : MmStruct
new_mm = record { self = page 64; mmap = 0; num_vmas = 0; free_vma_list = 0; slot = λ _. zero_vma }

abbrev areas : MmStruct
areas = (do_mmap-IsMm new_mm area refl refl).0
