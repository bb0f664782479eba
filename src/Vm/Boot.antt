-- ===== src/Vm/Boot.antt =====
-- The tables of the start-up in arch/riscv/kernel/vm.c. The addresses of the sections are the linker's.
use zju_sys3_sp25_kernel.Base.{
  ℕ, ◌+◌, ◌-◌, ◌*◌, ◌%◌, ◌^◌, ◌<◌, ◌≡◌, arith, bit_or, ◌||◌, ◌&&◌, not, Option, some, none, ap,
  ◌==◌, if◌then◌else◌, Run, done, ◌>>=◌, w64,
}
use zju_sys3_sp25_kernel.Mm.{va2pa, phy_start}
use zju_sys3_sp25_kernel.Vm.{Memory, Pages, Tables, put, clear, create_mapping}
use zju_sys3_sp25_kernel.Vm.Entry.{get_subbitmap, sv39_pte, get_ppn, get_perm, valid, phys2ppn}

-- Where `early_pgtbl` and `swapper_pg_dir` lie, and the sections that `setup_vm_final` maps.
pub record Image : Type 0 where
  pub early_pgtbl : ℕ
  pub swapper_pg_dir : ℕ
  pub stext : ℕ
  pub etext : ℕ
  pub srodata : ℕ
  pub erodata : ℕ
  pub sdata : ℕ
  pub skernel : ℕ

abbrev pub gigapage_ppn : ℕ
gigapage_ppn = get_subbitmap phy_start 30 38

abbrev pub gigapage_vpn : ℕ
gigapage_vpn = get_subbitmap 0xffffffe000000000 30 38

-- V, R, W, X, A and D
abbrev pub early_pte : ℕ
early_pte = sv39_pte (gigapage_ppn * 2 ^ 18) 0xcf

pub setup_vm : Image → Memory → Memory
setup_vm img m =
    put (put (clear m img.early_pgtbl) img.early_pgtbl gigapage_ppn early_pte) img.early_pgtbl
      gigapage_vpn early_pte

abbrev io_to_virt : ℕ → ℕ
io_to_virt pa = w64 (pa + 0xffffffc800000000)

-- The tables, and the value of `satp`.
pub setup_vm_final : {S : Type 0} → Pages S → Image → Tables S → Run (Tables S × ℕ)
setup_vm_final ops img t =
    let root = img.swapper_pg_dir in
    let size : ℕ → ℕ → ℕ = λ from to. w64 (to + 2 ^ 64 - from) in
    create_mapping ops root img.stext (va2pa img.stext) (size img.stext img.etext) 0x4a
      (record t { mem = clear t.mem root })
    >>= (λ t1.
        create_mapping ops root img.srodata (va2pa img.srodata) (size img.srodata img.erodata) 0x42
          t1
        >>= (λ t2.
            create_mapping ops root img.sdata (va2pa img.sdata)
              (size img.sdata (img.skernel + 0x8000000)) 0xc6 t2
            >>= (λ t3.
                create_mapping ops root (io_to_virt 0x10001000) 0x10001000 (0x1000 * 8) 7 t3
                >>= (λ t4. done (t4, bit_or (phys2ppn (va2pa root)) 0x8000000000000000)))))

-- The physical address and the flags that the root gives for `va`, when its entry is valid, is a leaf, which some of R, W
-- and X are set in, and is aligned to a gigabyte.
pub gigapage : Memory → ℕ → ℕ → Option (ℕ × ℕ)
gigapage m root va =
    let pte = m root (get_subbitmap va 30 38) in
    if (valid pte && not (get_subbitmap pte 1 3 == 0)) && get_ppn pte % 2 ^ 18 == 0
    then some (get_ppn pte * 2 ^ 12 + va % 2 ^ 30, get_perm pte)
    else none

entry-setup_vm :
    (img : Image) (m : Memory) (i : ℕ)
    → setup_vm img m img.early_pgtbl i
      ≡ (if i == gigapage_ppn || i == gigapage_vpn then early_pte else 0)
unfolding setup_vm
entry-setup_vm img m i = ground arith

-- The first gigabyte of the memory is mapped twice, by valid leaves with R, W, X, A and D: at its physical address, and at
-- the kernel's address of it.
pub setup_vm-gigapage :
    (img : Image) (m : Memory) (x : ℕ)
    → x < 2 ^ 30
    → (gigapage (setup_vm img m) img.early_pgtbl (phy_start + x) ≡ some (phy_start + x, 0xcf))
      × (gigapage (setup_vm img m) img.early_pgtbl (0xffffffe000000000 + x)
          ≡ some (phy_start + x, 0xcf))
unfolding gigapage valid
setup_vm-gigapage img m x l =
    let low : get_subbitmap (phy_start + x) 30 38 ≡ 2 = omega (arith, l) in
    let high : get_subbitmap (0xffffffe000000000 + x) 30 38 ≡ 384 = omega (arith, l) in
    let pte2 : setup_vm img m img.early_pgtbl 2 ≡ early_pte = entry-setup_vm img m 2 in
    let pte384 : setup_vm img m img.early_pgtbl 384 ≡ early_pte = entry-setup_vm img m 384 in
    (
      rw (low, pte2) (ap (λ a. some (a, 0xcf)) (omega (arith, l))),
      rw (high, pte384) (ap (λ a. some (a, 0xcf)) (omega (arith, l))),
    )
