-- ===== src/Munmap/Whole.antt =====
-- `do_munmap` of arch/riscv/kernel/proc.c for the range of one area.
use zju_sys3_sp25_kernel.Proc.Vma.Chain.{Chain}
use zju_sys3_sp25_kernel.Vm.Shape.{Shape}
