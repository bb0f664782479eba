-- ===== src/Trap/Share.antt =====
-- A store to a page that has other owners: the page fault handler of arch/riscv/kernel/trap.c copies it.
use zju_sys3_sp25_kernel.Base.{
  ℕ, ◌+◌, ◌-◌, ◌*◌, ◌/◌, ◌%◌, ◌^◌, ◌≤◌, ◌≡◌, ◌≢◌, ◌∙◌, ap, refl, arith, true, false, leb, ne→==,
  if◌then◌else◌, some, done, w64,
}
use zju_sys3_sp25_kernel.Base.Bits.{bit}
use zju_sys3_sp25_kernel.Mm.{va2pa, pa2va}
use zju_sys3_sp25_kernel.Str.{memcpy}
use zju_sys3_sp25_kernel.Str.Fill.{Forward, within, memcpy-at}
use zju_sys3_sp25_kernel.Proc.Vma.{Vma, MmStruct, find_vma}
use zju_sys3_sp25_kernel.Vm.{put, walk_page_table_pte, is_valid_pte, walk_page_table}
use zju_sys3_sp25_kernel.Vm.Entry.{IsPage, sv39_pte, get_ppn, phys2ppn, valid}
use zju_sys3_sp25_kernel.Vm.Shape.{Place, Shape}
use zju_sys3_sp25_kernel.Vm.Walk.{translate, translated, same_page, walk_page_table-put}
use zju_sys3_sp25_kernel.Trap.{
  Services, Space, vma_flags_to_perm, refused, round_down, unshare, resolve, do_page_fault,
}
use zju_sys3_sp25_kernel.Trap.Demand.{
  round_down_page, page_range, page_start, lt-vma_flags_to_perm, fault-resolve,
}

-- The kernel's address of the page that an entry points to.
abbrev pub data_page : ℕ → ℕ
data_page pte = pa2va (w64 (get_ppn pte * 2 ^ 12))

vma_flags_to_perm_odd : (flags : ℕ) → vma_flags_to_perm flags % 2 ≡ 1
unfolding vma_flags_to_perm
vma_flags_to_perm_odd flags = ground arith

module _ {S F : Type 0} (svc : Services S F) (suapp pgd : ℕ) where
  -- The space with the copy in the place of the shared page.
  copied : Vma → ℕ × ℕ → ℕ → S → Space S F → Space S F
  copied vma e page s sp = record sp {
    tables = record {
      mem =
          put sp.tables.mem e.0 e.1
            (sv39_pte (phys2ppn (va2pa page)) (vma_flags_to_perm vma.vm_flags));
      pages = s;
    };
    bytes = memcpy sp.bytes page (data_page (sp.tables.mem e.0 e.1)) (2 ^ 12);
  }

  resolve-copied :
      (vma : Vma) (va page : ℕ) (e : ℕ × ℕ) (s' : S) (sp : Space S F)
      → valid (sp.tables.mem e.0 e.1) ≡ true
      → bit 8 (sp.tables.mem e.0 e.1) ≢ 0
      → 2 ≤ svc.get_ref_cnt (w64 (get_ppn (sp.tables.mem e.0 e.1) * 2 ^ 12)) sp.tables.pages
      → svc.pages.deref_page (data_page (sp.tables.mem e.0 e.1)) sp.tables.pages ≡ done s'
      → resolve svc suapp pgd 15 vma va page (some e) sp ≡ done (copied vma e page s' sp)
  unfolding resolve unshare copied is_valid_pte
  resolve-copied vma va page e s' sp ok shared owners d =
      let two : leb 2
            (svc.get_ref_cnt (w64 (get_ppn (sp.tables.mem e.0 e.1) * 2 ^ 12)) sp.tables.pages)
          ≡ true =
        ground (arith, owners) in
      rw (ok, ne→== (bit 8 (sp.tables.mem e.0 e.1)) 0 shared, two, d) refl

  new_page :
      (vma : Vma) (page a : ℕ)
      → IsPage page
      → translate a (sv39_pte (phys2ppn (va2pa page)) (vma_flags_to_perm vma.vm_flags))
        ≡ some (va2pa page + a % 2 ^ 12)
  new_page vma page a ok =
      let start : va2pa page % 2 ^ 12 ≡ 0 = page_start page ok in
      let top : va2pa page + 2 ^ 39 ≤ 2 ^ 56 = page_range page ok in
      translated a (λ p i. 0) 0 (phys2ppn (va2pa page)) (vma_flags_to_perm vma.vm_flags)
        (omega (arith, top)) (lt-vma_flags_to_perm vma.vm_flags)
        (vma_flags_to_perm_odd vma.vm_flags)
      ∙ ap (λ x. some (x + a % 2 ^ 12)) (omega (arith, start))

  -- What the copy leaves: the addresses of the page lead to the new page, all others as before; the new page has the
  -- bytes of the old one, and no byte elsewhere has changed.
  pub record Copied (stval page old : ℕ) (sp sp' : Space S F) : Type 0 where
    pub walks :
        (a : ℕ)
        → walk_page_table sp'.tables.mem pgd a ≡ (
            if same_page stval a
            then some (va2pa page + a % 2 ^ 12)
            else walk_page_table sp.tables.mem pgd a)
    pub bytes :
        (x : ℕ)
        → sp'.bytes x ≡ (if within page (2 ^ 12) x then sp.bytes (old + (x - page)) else sp.bytes x)

  Copied-copied :
      (vma : Vma) (stval page : ℕ) (e : ℕ × ℕ) (s s' : S) (sp : Space S F) (at : ℕ → Place)
      → Shape sp.tables.mem pgd at
      → walk_page_table_pte sp.tables.mem pgd (stval / 2 ^ 12) ≡ some e
      → IsPage page
      → Forward page (data_page (sp.tables.mem e.0 e.1)) (2 ^ 12)
      → Copied stval page
          (data_page (sp.tables.mem e.0 e.1))
          sp
          (copied vma e page s' (record sp { tables = record sp.tables { pages = s } }))
  unfolding copied
  Copied-copied vma stval page e s s' sp at w h ok f = record {
    walks = λ a.
        walk_page_table-put sp.tables.mem pgd stval a
          (sv39_pte (phys2ppn (va2pa page)) (vma_flags_to_perm vma.vm_flags)) e at w h
        ∙ ap (λ o. if same_page stval a then o else walk_page_table sp.tables.mem pgd a)
            (new_page vma page a ok);
    bytes = λ x. memcpy-at sp.bytes page (data_page (sp.tables.mem e.0 e.1)) (2 ^ 12) x f;
  }

  -- On a store to an address of a writable area, whose page is mapped, shared and has two owners or more, with tables that
  -- are a tree: if the allocator gives a page, in front of the old one or behind it, and the old one can be dereferenced,
  -- then the handler returns; the addresses of the page lead to the new one then, with the bytes of the old one, and
  -- all other addresses and bytes are as before.
  pub do_page_fault-Copied :
      (mm : MmStruct) (stval p page : ℕ) (e : ℕ × ℕ) (s s' : S) (sp : Space S F) (at : ℕ → Place)
      → Shape sp.tables.mem pgd at
      → find_vma mm stval ≡ done p
      → p ≢ 0
      → refused 15 (mm.slot p).vm_flags ≡ false
      → svc.pages.alloc_page sp.tables.pages ≡ done (page, s)
      → IsPage page
      → walk_page_table_pte sp.tables.mem pgd (stval / 2 ^ 12) ≡ some e
      → valid (sp.tables.mem e.0 e.1) ≡ true
      → bit 8 (sp.tables.mem e.0 e.1) ≢ 0
      → 2 ≤ svc.get_ref_cnt (w64 (get_ppn (sp.tables.mem e.0 e.1) * 2 ^ 12)) s
      → svc.pages.deref_page (data_page (sp.tables.mem e.0 e.1)) s ≡ done s'
      → Forward page (data_page (sp.tables.mem e.0 e.1)) (2 ^ 12)
      → (sp' : Space S F) × (do_page_fault svc suapp pgd mm 15 stval sp ≡ done sp')
        × Copied stval page (data_page (sp.tables.mem e.0 e.1)) sp sp'
  do_page_fault-Copied mm stval p page e s s' sp at w f n ok al isp h v shared owners d apart =
      let taken : Space S F = record sp { tables = record sp.tables { pages = s } } in
      let there : walk_page_table_pte sp.tables.mem pgd (round_down stval / 2 ^ 12) ≡ some e =
        ap (walk_page_table_pte sp.tables.mem pgd) (round_down_page stval) ∙ h in
      (
        copied (mm.slot p) e page s' taken,
        fault-resolve svc suapp pgd mm 15 stval p page s sp f n ok al
            ∙ ap (λ o. resolve svc suapp pgd 15 (mm.slot p) (round_down stval) page o taken) there
            ∙ resolve-copied (mm.slot p) (round_down stval) page e s' taken v shared owners d,
        Copied-copied (mm.slot p) stval page e s s' sp at w h isp apart,
      )
