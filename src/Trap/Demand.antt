-- ===== src/Trap/Demand.antt =====
-- A page fault on a page of an anonymous area that is not mapped: afterwards the access goes to the new page.
use zju_sys3_sp25_kernel.Base.{
  ℕ, ◌+◌, ◌-◌, ◌*◌, ◌/◌, ◌%◌, ◌^◌, ◌≤◌, ◌<◌, ◌≡◌, ◌≢◌, ◌∙◌, ap, sym, subst, refl, arith, true,
  false, ◌||◌, ◌==◌, ne→==, Option, none, some, done, w64,
}
use zju_sys3_sp25_kernel.Base.Bits.{bit}
use zju_sys3_sp25_kernel.Mm.{va2pa}
use zju_sys3_sp25_kernel.Proc.Vma.{Vma, MmStruct, find_vma}
use zju_sys3_sp25_kernel.Vm.{
  Tables, create_mapping, walk_page_table_pte, is_valid_pte, walk_page_table,
}
use zju_sys3_sp25_kernel.Vm.Entry.{IsPage, Vpn, split_vpn}
use zju_sys3_sp25_kernel.Vm.Shape.{Place, Shape}
use zju_sys3_sp25_kernel.Vm.Range.{Supply}
use zju_sys3_sp25_kernel.Vm.Map.{page_of, last_of, number}
use zju_sys3_sp25_kernel.Vm.Walk.{walk_page_table-create_mapping}
use zju_sys3_sp25_kernel.Trap.{
  Services, Space, vma_flags_to_perm, refused, round_down, load, demand, resolve, do_page_fault,
}

pub round_down_page : (x : ℕ) → round_down x / 2 ^ 12 ≡ x / 2 ^ 12
unfolding round_down
round_down_page x = omega arith

round_down_last :
    (x : ℕ) → x < 2 ^ 39 → w64 (round_down x + 2 ^ 12 + 2 ^ 64 - 1) / 2 ^ 12 ≡ x / 2 ^ 12
unfolding round_down
round_down_last x l = omega (arith, l)

one_root_entry : (a b c : Vpn) → a ≡ c → b ≡ c → 513 * (a.v2 + 1 - b.v2) ≤ 513
one_root_entry a b c e q =
    let first : a.v2 ≡ c.v2 = ap (λ x. x.v2) e in
    let second : b.v2 ≡ c.v2 = ap (λ x. x.v2) q in omega (arith, first, second)

pub page_range : (x : ℕ) → IsPage x → va2pa x + 2 ^ 39 ≤ 2 ^ 56
unfolding va2pa
page_range x p = omega (arith, p)

pub page_start : (x : ℕ) → IsPage x → va2pa x % 2 ^ 12 ≡ 0
unfolding va2pa
page_start x p = omega (arith, p)

translated : (x n r : ℕ) → x % 2 ^ 12 ≡ 0 → (x / 2 ^ 12 + (n - n)) * 2 ^ 12 + r ≡ x + r
translated x n r e = omega (arith, e)

pub lt-vma_flags_to_perm : (flags : ℕ) → vma_flags_to_perm flags < 2 ^ 10
unfolding vma_flags_to_perm
lt-vma_flags_to_perm flags = ground arith

module _ {S F : Type 0} (svc : Services S F) (suapp pgd : ℕ) where
  load-anonymous :
      (vma : Vma) (va page : ℕ) (sp : Space S F)
      → bit 3 vma.vm_flags ≢ 0
      → load svc suapp vma va page sp ≡ done sp
  unfolding load
  load-anonymous vma va page sp a = rw (ne→== (bit 3 vma.vm_flags) 0 a) refl

  demand-anonymous :
      (vma : Vma) (va page : ℕ) (sp : Space S F) (t : Tables S)
      → bit 3 vma.vm_flags ≢ 0
      → create_mapping svc.pages pgd va
          (va2pa page)
          (2 ^ 12)
          (vma_flags_to_perm vma.vm_flags)
          sp.tables
        ≡ done t
      → demand svc suapp pgd vma va page sp ≡ done (record sp { tables = t })
  unfolding demand
  demand-anonymous vma va page sp t a e = rw (load-anonymous vma va page sp a, e) refl

  resolve-demand :
      (scause : ℕ) (vma : Vma) (va page : ℕ) (o : Option (ℕ × ℕ)) (sp : Space S F)
      → is_valid_pte sp.tables.mem o ≡ false
      → resolve svc suapp pgd scause vma va page o sp ≡ demand svc suapp pgd vma va page sp
  unfolding resolve
  resolve-demand scause vma va page none sp e = refl
  resolve-demand scause vma va page (some q) sp e = rw e refl

  pub fault-resolve :
      (mm : MmStruct) (scause stval p page : ℕ) (s : S) (sp : Space S F)
      → find_vma mm stval ≡ done p
      → p ≢ 0
      → refused scause (mm.slot p).vm_flags ≡ false
      → svc.pages.alloc_page sp.tables.pages ≡ done (page, s)
      → do_page_fault svc suapp pgd mm scause stval sp
        ≡ resolve svc suapp pgd scause
            (mm.slot p)
            (round_down stval)
            page
            (walk_page_table_pte sp.tables.mem pgd (round_down stval / 2 ^ 12))
            (record sp { tables = record sp.tables { pages = s } })
  unfolding do_page_fault
  fault-resolve mm scause stval p page s sp f n ok al = rw (f, ne→== p 0 n, ok, al) refl

  fault-refused :
      (mm : MmStruct) (scause stval p : ℕ) (sp : Space S F)
      → find_vma mm stval ≡ done p
      → (p == 0 || refused scause (mm.slot p).vm_flags) ≡ true
      → do_page_fault svc suapp pgd mm scause stval sp ≡ done sp
  unfolding do_page_fault
  fault-refused mm scause stval p sp f e = rw (f, e) refl

  -- On a fault at an address of an anonymous area whose flags allow the access, on a page that is not mapped, with tables
  -- that are a tree and an allocator that has 514 pages: the handler takes a page, and after it the address is
  -- translated to the same place of that page; the bytes of the data pages stay as they are.
  pub do_page_fault-walk_page_table :
      (P : ℕ → S → (ℕ → ℕ) → Type 0)
      → Supply svc.pages P
      → (mm : MmStruct) (scause stval p : ℕ) (sp : Space S F) (at : ℕ → Place)
      → Shape sp.tables.mem pgd at
      → P 514 sp.tables.pages (λ q. (at q).level)
      → stval < 2 ^ 39
      → find_vma mm stval ≡ done p
      → p ≢ 0
      → refused scause (mm.slot p).vm_flags ≡ false
      → bit 3 (mm.slot p).vm_flags ≢ 0
      → is_valid_pte sp.tables.mem (walk_page_table_pte sp.tables.mem pgd (stval / 2 ^ 12)) ≡ false
      → (page : ℕ) × (s : S) × (sp' : Space S F) × (svc.pages.alloc_page sp.tables.pages
          ≡ done (page, s))
        × (do_page_fault svc suapp pgd mm scause stval sp ≡ done sp')
        × (walk_page_table sp'.tables.mem pgd stval ≡ some (va2pa page + stval % 2 ^ 12))
        × (sp'.bytes ≡ sp.bytes)
  do_page_fault-walk_page_table P sup mm scause stval p sp at w give low f n ok anon absent =
      let vma : Vma = mm.slot p in
      let va : ℕ = round_down stval in
      let new : (page : ℕ) × (s : S) × (svc.pages.alloc_page sp.tables.pages ≡ done (page, s))
          × ((at page).level ≡ 0)
          × IsPage page
          × ((level' : ℕ → ℕ) → ((q : ℕ) → q ≢ page → level' q ≡ (at q).level) → P 513 s level') =
        sup.gives 513 sp.tables.pages (λ q. (at q).level) give in
      let t : Tables S = record sp.tables { pages = new.1 } in
      let same : page_of va ≡ page_of stval = ap split_vpn (round_down_page stval) in
      let last : last_of va (2 ^ 12) ≡ page_of stval = ap split_vpn (round_down_last stval low) in
      let same' : number (page_of va) ≡ number (page_of stval) = ap number same in
      let last' : number (last_of va (2 ^ 12)) ≡ number (page_of stval) = ap number last in
      let budget : P (513 * ((last_of va (2 ^ 12)).v2 + 1 - (page_of va).v2)) t.pages
          (λ q. (at q).level) =
        sup.weaken 513 _ t.pages (λ q. (at q).level)
          (one_root_entry (last_of va (2 ^ 12)) (page_of va) (page_of stval) last same)
          (new.5 (λ q. (at q).level) (λ q ne. refl)) in
      let made : (t' : Tables S) × (create_mapping svc.pages pgd va (va2pa new.0) (2 ^ 12)
              (vma_flags_to_perm vma.vm_flags) t
            ≡ done t')
          × (walk_page_table t'.mem pgd stval
              ≡ some (
                  (va2pa new.0 / 2 ^ 12 + (number (page_of stval) - number (page_of va))) * 2 ^ 12
                  + stval % 2 ^ 12)) =
        walk_page_table-create_mapping svc.pages P sup pgd va (va2pa new.0) (2 ^ 12)
          (vma_flags_to_perm vma.vm_flags) stval t at w budget (page_range new.0 new.4)
          (lt-vma_flags_to_perm vma.vm_flags) (omega (arith, same')) (omega (arith, last')) in
      (
        new.0,
        new.1,
        record sp { tables = made.0 },
        new.2,
        fault-resolve mm scause stval p new.0 new.1 sp f n ok new.2
            ∙ resolve-demand scause vma va new.0 _ (record sp { tables = t })
                (subst
                  (λ x.
                    is_valid_pte sp.tables.mem (walk_page_table_pte sp.tables.mem pgd x) ≡ false)
                  (sym (round_down_page stval)) absent)
            ∙ demand-anonymous vma va new.0 (record sp { tables = t }) made.0 anon made.1,
        made.2
            ∙ ap (λ x. some x)
                (ap
                    (λ x.
                      (va2pa new.0 / 2 ^ 12 + (number (page_of stval) - x)) * 2 ^ 12
                      + stval % 2 ^ 12)
                    same'
                  ∙ translated (va2pa new.0) (number (page_of stval)) (stval % 2 ^ 12)
                      (page_start new.0 new.4)),
        refl,
      )
