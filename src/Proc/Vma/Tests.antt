-- ===== src/Proc/Vma/Tests.antt =====
-- The areas of a process that maps two pages, and the theorems at them.
use zju_sys3_sp25_kernel.Base.{
  ℕ, true, ◌≤◌, ◌≡◌, inr, sym, subst, refl, arith, [], ◌∷◌, done, fault, ◌>>=◌,
}
use native.Mathlib.Decide.{ℕ_discrete}
use zju_sys3_sp25_kernel.Proc.Vma.{
  MmStruct, Area, nr_vma_slots, zero_vma, find_vma, do_mmap, remove_vma, copy_mm,
}
use zju_sys3_sp25_kernel.Proc.Vma.Chain.{has, IsMm}
use zju_sys3_sp25_kernel.Proc.Vma.Copy.{Copied, copy_mm-Copied, do_mmap-copy_mm-fault}
use zju_sys3_sp25_kernel.Proc.Vma.First.{run_from, do_mmap-IsMm}
use zju_sys3_sp25_kernel.Proc.Vma.Insert.{insert}
use zju_sys3_sp25_kernel.Proc.Vma.Mmap.{Inserted, do_mmap-Inserted}
use zju_sys3_sp25_kernel.Proc.Vma.Find.{Finds, Ordered, Fits, find_vma-Finds, do_mmap-Ordered}
use zju_sys3_sp25_kernel.Proc.Vma.Remove.{without, IsMm-remove_vma}

abbrev fresh : MmStruct
fresh = record { self = 65536; mmap = 0; num_vmas = 0; free_vma_list = 0; slot = λ _. zero_vma }

abbrev pages : ℕ → ℕ → Area
pages start len = record { start = start; len = len; flags = 3; file = 0; pgoff = 0; filesz = 0 }

abbrev Started : Type 0
Started =
    (mm' : MmStruct) × (do_mmap fresh (pages 8192 4096) ≡ done (8192, mm'))
    × IsMm mm' (1 ∷ []) (run_from 55 2)
    × ((mm'.slot 1).vm_start ≡ 8192)
    × ((mm'.slot 1).vm_end ≡ 12288)

abbrev one : MmStruct
one = (do_mmap-IsMm fresh (pages 8192 4096) refl refl).0

one-IsMm : IsMm one (1 ∷ []) (run_from 55 2)
one-IsMm = (do_mmap-IsMm fresh (pages 8192 4096) refl refl).2

one_start : (one.slot 1).vm_start ≡ 8192
one_start = (do_mmap-IsMm fresh (pages 8192 4096) refl refl).3

one_end : (one.slot 1).vm_end ≡ 12288
one_end = (do_mmap-IsMm fresh (pages 8192 4096) refl refl).4

one-Ordered : Ordered one.slot 0 (1 ∷ [])
one-Ordered = (ground arith, omega (arith, one_start, one_end), omega (arith, one_end))

-- An area below the first one.
one-Fits : Fits one.slot (pages 4096 4096) (1 ∷ [])
one-Fits q h = elim (ℕ_discrete q 1) [
  | yes e ↦ inr (subst (λ x. 8192 ≤ (one.slot x).vm_start) (sym e) (omega (arith, one_start)))
  | no n ↦ absurd (ground (arith, h, n))
]

do_mmap-Inserted_example :
    (mm' : MmStruct) × (do_mmap one (pages 4096 4096) ≡ done (4096, mm'))
    × Inserted one mm' (pages 4096 4096) 2 (1 ∷ []) (run_from 54 3)
do_mmap-Inserted_example = do_mmap-Inserted one (pages 4096 4096) 1 2 [] (run_from 54 3) one-IsMm

do_mmap-Ordered_example :
    (mm' : MmStruct) × (do_mmap one (pages 4096 4096) ≡ done (4096, mm'))
    × IsMm mm' (insert one.slot 4096 2 (1 ∷ [])) (run_from 54 3)
    × Ordered mm'.slot 0 (insert one.slot 4096 2 (1 ∷ []))
do_mmap-Ordered_example =
    do_mmap-Ordered one (pages 4096 4096) 1 2 [] (run_from 54 3) one-IsMm one-Ordered (ground arith)
      (ground arith) one-Fits

-- The new area stands before the first one.
inserted_first : insert one.slot 4096 2 (1 ∷ []) ≡ 2 ∷ 1 ∷ []
unfolding insert
inserted_first = rw one_start refl

find_vma-Finds_example : (r : ℕ) × (find_vma one 9000 ≡ done r) × Finds one.slot 9000 (1 ∷ []) r
find_vma-Finds_example = find_vma-Finds one 9000 (1 ∷ []) (run_from 55 2) one-IsMm one-Ordered

IsMm-remove_vma_example : IsMm (remove_vma one 1) (without 1 (1 ∷ [])) (1 ∷ run_from 55 2)
IsMm-remove_vma_example = IsMm-remove_vma one 1 (1 ∷ []) (run_from 55 2) one-IsMm refl

abbrev parent_page : MmStruct
parent_page = record one { self = 0x10000 }

parent_page-IsMm : IsMm parent_page (1 ∷ []) (run_from 55 2)
parent_page-IsMm = record {
  areas = one-IsMm.areas;
  frees = one-IsMm.frees;
  apart = one-IsMm.apart;
  count = one-IsMm.count;
  room = one-IsMm.room;
}

abbrev child_page : MmStruct
child_page = record fresh { self = 0x7000 }

copy_mm-Copied_example :
    (mm' : MmStruct) × (copy_mm child_page parent_page ≡ done mm')
    × Copied parent_page child_page mm' (1 ∷ [])
copy_mm-Copied_example =
    copy_mm-Copied child_page parent_page (1 ∷ []) (run_from 55 2) parent_page-IsMm (omega arith)
      (omega arith) small
  where
    small : (x : ℕ) → has x (1 ∷ []) ≡ true → x ≤ nr_vma_slots
    small x h = ground (arith, h)

do_mmap-copy_mm-fault_example :
    (copy_mm fresh one >>= (λ mm'. do_mmap mm' (pages 4096 4096))) ≡ fault
do_mmap-copy_mm-fault_example =
    do_mmap-copy_mm-fault fresh one (pages 4096 4096) 1 [] (run_from 55 2) one-IsMm refl
