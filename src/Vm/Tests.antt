-- ===== src/Vm/Tests.antt =====
-- The theorems at an empty root.
use zju_sys3_sp25_kernel.Base.{ℕ, ◌+◌, ◌^◌, ◌≡◌, arith, done, ◌>>=◌, none, some, if◌then◌else◌}
use zju_sys3_sp25_kernel.Mm.{phy_start}
use zju_sys3_sp25_kernel.Vm.Boot.{Image, setup_vm, gigapage, setup_vm-gigapage}
use zju_sys3_sp25_kernel.Vm.Delete.{
  delete_mapping, free_all, leaves_first, owned, delete_mapping-free_all,
}
use zju_sys3_sp25_kernel.Vm.{
  clear, Tables, create_mapping, full_perm, remove_mapping, walk_page_table,
}
use zju_sys3_sp25_kernel.Vm.Map.{Mapped, page_of, last_of, create_mapping-Mapped}
use zju_sys3_sp25_kernel.Vm.Unmap.{in_range, walk_page_table-remove_mapping}
use zju_sys3_sp25_kernel.Vm.Walk.{walk_page_table-create_mapping}
use zju_sys3_sp25_kernel.Vm.Sample.{
  page, bump, Free, bump-Supply, places, empty, empty-Shape, empty-Free, shared_mem, shared_places,
  shared-Shape,
}
use zju_sys3_sp25_kernel.Vm.Recycle.{Heap, recycle, Known, recycle-Tracks, shared, shared-Known}

create_mapping-Mapped_example :
    (t' : Tables ℕ) × (create_mapping bump (page 0) 0x10000 0x80200000 0x3000 6 empty ≡ done t')
    × Mapped (page 0) (full_perm 6) 0x80200 (page_of 0x10000) (last_of 0x10000 0x3000) empty t'
create_mapping-Mapped_example =
    create_mapping-Mapped bump Free bump-Supply (page 0) 0x10000 0x80200000 0x3000 6 empty places
      empty-Shape (empty-Free 513 (omega arith)) (omega arith) (omega arith)

walk_page_table-create_mapping_example :
    (t' : Tables ℕ) × (create_mapping bump (page 0) 0x10000 0x80200000 0x3000 6 empty ≡ done t')
    × (walk_page_table t'.mem (page 0) 0x11123 ≡ some 0x80201123)
walk_page_table-create_mapping_example =
    walk_page_table-create_mapping bump Free bump-Supply (page 0) 0x10000 0x80200000 0x3000 6
      0x11123 empty places empty-Shape (empty-Free 513 (omega arith)) (omega arith) (omega arith)
      (omega arith) (omega arith)

delete_mapping-free_all_example :
    delete_mapping bump (page 0) empty
    ≡ free_all bump (leaves_first empty.mem (owned empty.mem (2 ^ 9) (page 0) 0)) 1
      >>= (λ s. done (record { mem = clear empty.mem (page 0); pages = s }))
delete_mapping-free_all_example = delete_mapping-free_all bump (page 0) empty

abbrev image : Image
image = record {
  early_pgtbl = page 1;
  swapper_pg_dir = page 2;
  stext = page 16;
  etext = page 18;
  srodata = page 18;
  erodata = page 19;
  sdata = page 19;
  skernel = page 16;
}

setup_vm-gigapage_example :
    (gigapage (setup_vm image empty.mem) image.early_pgtbl (phy_start + 0x1234)
      ≡ some (phy_start + 0x1234, 0xcf))
    × (gigapage (setup_vm image empty.mem) image.early_pgtbl (0xffffffe000000000 + 0x1234)
        ≡ some (phy_start + 0x1234, 0xcf))
setup_vm-gigapage_example = setup_vm-gigapage image empty.mem 0x1234 (omega arith)

-- The page that the tree of three tables maps is unmapped, with the ones on either side.
walk_page_table-remove_mapping_example :
    (t' : Tables Heap) × (remove_mapping recycle (page 0) 0x1000 0x3000 shared ≡ done t')
    × ((a : ℕ)
        → walk_page_table t'.mem (page 0) a
          ≡ (if in_range 0x1000 0x3000 a then none else walk_page_table shared_mem (page 0) a))
walk_page_table-remove_mapping_example =
    walk_page_table-remove_mapping recycle Known recycle-Tracks (page 0) 0x1000 0x3000 shared
      shared_places shared-Shape (shared-Known 513 (omega arith)) (omega arith) (omega arith)
