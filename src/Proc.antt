-- ===== src/Proc.antt =====
-- arch/riscv/kernel/proc.c: the scheduler, and the areas of a task's address space.
pub mod Sched
pub mod Vma
