-- ===== src/Vm.antt =====
-- The Sv39 page tables of arch/riscv/kernel/vm.c. A table is the page at its virtual address, an array of
-- 512 entries; `&table[i]` is the pair of the page and the index.
pub mod Entry
pub mod Boot
pub mod Delete
pub mod Shape
pub mod Map
pub mod Range
pub mod Rounds
pub mod Recycle
pub mod Sample
pub mod Unmap
mod Tests
pub mod Walk
use zju_sys3_sp25_kernel.Base.{
  ℕ, zero, suc, ◌+◌, ◌-◌, ◌*◌, ◌/◌, ◌%◌, ◌^◌, bit_and, bit_or, Bool, true, false, not, ◌&&◌, ◌||◌,
  ltb, leb, ◌==◌, if◌then◌else◌, Option, none, some, Run, done, ◌>>=◌, w64,
}
use zju_sys3_sp25_kernel.Mm.{pa2va, va2pa}
use zju_sys3_sp25_kernel.Vm.Entry.{
  sv39_pte, get_ppn, get_perm, ppn2phys, phys2ppn, valid, extract_bits, Vpn, split_vpn, child,
}

abbrev pub Memory : Type 0
Memory = ℕ → ℕ → ℕ

-- `table[i] = v`
abbrev pub put : Memory → ℕ → ℕ → ℕ → Memory
put m p i v q j = if q == p && j == i then v else m q j

-- `memset(table, 0, PGSIZE)`
abbrev pub clear : Memory → ℕ → Memory
clear m p q j = if q == p then 0 else m q j

-- `memcpy(dst, src, PGSIZE)`
abbrev pub copy : Memory → ℕ → ℕ → Memory
copy m dst src q j = if q == dst then m src j else m q j

-- The services of the page allocator, on its state `S`.
pub record Pages (S : Type 0) : Type 0 where
  pub alloc_page : S → Run (ℕ × S)
  pub deref_page : ℕ → S → Run S
  pub free_pages : ℕ → S → Run S

pub record Tables (S : Type 0) : Type 0 where
  pub mem : Memory
  pub pages : S

-- The table that entry `i` of the table `p` points to, with a new one if there is none.
pub ensure : {S : Type 0} → Pages S → ℕ → ℕ → Tables S → Run (ℕ × Tables S)
ensure ops p i t =
    let pte = t.mem p i in
    if not (valid pte)
    then ops.alloc_page t.pages >>= (λ r. done (
      r.0,
      record { mem = put (clear t.mem r.0) p i (sv39_pte (phys2ppn (va2pa r.0)) 1); pages = r.1 },
    ))
    else done (child pte, t)

-- What a mapping function does to an entry of the last level, with the next page number.
abbrev pub Leaf : Type 0 → Type 0
Leaf S = ℕ → ℕ → ℕ → Tables S → Run (ℕ × Tables S)

-- The loops over the three levels, for the rounds that are left; `lo` and `hi` are the first page and the last.
pub second_loop : {S : Type 0} → Leaf S → ℕ → ℕ → ℕ → ℕ → Tables S → Run (ℕ × Tables S)
second_loop leaf zero p vpn_second ppn t = done (ppn, t)
second_loop leaf (suc n) p vpn_second ppn t =
    leaf p vpn_second ppn t >>= (λ r. second_loop leaf n p (vpn_second + 1) r.0 r.1)

pub second_low : Vpn → ℕ → ℕ → ℕ
second_low lo i j = if i == lo.v2 && j == lo.v1 then lo.v0 else 0

pub second_high : Vpn → ℕ → ℕ → ℕ
second_high hi i j = if i == hi.v2 && j == hi.v1 then hi.v0 else 2 ^ 9 - 1

pub first_loop :
    {S : Type 0} → Pages S → Leaf S → Vpn → Vpn → ℕ → ℕ → ℕ → ℕ → ℕ → Tables S → Run (ℕ × Tables S)
unfolding ensure second_loop second_low second_high
first_loop ops leaf lo hi zero p i vpn_first ppn t = done (ppn, t)
first_loop ops leaf lo hi (suc n) p i vpn_first ppn t =
    let low = second_low lo i vpn_first in
    let high = second_high hi i vpn_first in
    ensure ops p vpn_first t >>= (λ e.
      second_loop leaf (high + 1 - low) e.0 low ppn e.1
      >>= (λ r. first_loop ops leaf lo hi n p i (vpn_first + 1) r.0 r.1))

pub root_loop :
    {S : Type 0} → Pages S → Leaf S → Vpn → Vpn → ℕ → ℕ → ℕ → ℕ → Tables S → Run (ℕ × Tables S)
unfolding first_loop
root_loop ops leaf lo hi zero root vpn_root ppn t = done (ppn, t)
root_loop ops leaf lo hi (suc n) root vpn_root ppn t =
    let low = if vpn_root == lo.v2 then lo.v1 else 0 in
    let high = if vpn_root == hi.v2 then hi.v1 else 2 ^ 9 - 1 in
    ensure ops root vpn_root t >>= (λ e.
      first_loop ops leaf lo hi (high + 1 - low) e.0 vpn_root low ppn e.1
      >>= (λ r. root_loop ops leaf lo hi n root (vpn_root + 1) r.0 r.1))

-- `perm | V | A`, and `| D` with `W`
pub full_perm : ℕ → ℕ
full_perm perm = let p = bit_or (bit_or perm 1) 64 in if bit_and p 4 == 0 then p else bit_or p 128

pub create_leaf : {S : Type 0} → ℕ → Leaf S
create_leaf perm p k ppn t =
    done (w64 (ppn + 1), record t { mem = put t.mem p k (sv39_pte ppn perm) })

pub create_mapping : {S : Type 0} → Pages S → ℕ → ℕ → ℕ → ℕ → ℕ → Tables S → Run (Tables S)
unfolding root_loop create_leaf full_perm
create_mapping ops pgtbl va pa sz perm t =
    let lo = split_vpn (va / 2 ^ 12) in
    let hi = split_vpn (w64 (va + sz + 2 ^ 64 - 1) / 2 ^ 12) in
    root_loop ops (create_leaf (full_perm perm)) lo hi (hi.v2 + 1 - lo.v2) pgtbl lo.v2 (pa / 2 ^ 12)
      t
    >>= (λ r. done r.1)

pub remove_leaf : {S : Type 0} → Pages S → Leaf S
remove_leaf ops p k ppn t =
    let pte = t.mem p k in
    let m = put t.mem p k (sv39_pte 0 0) in
    if valid pte
    then ops.deref_page (child pte) t.pages >>= (λ s. done (ppn, record { mem = m; pages = s }))
    else done (ppn, record t { mem = m })

pub remove_mapping : {S : Type 0} → Pages S → ℕ → ℕ → ℕ → Tables S → Run (Tables S)
unfolding root_loop remove_leaf
remove_mapping ops pgtbl va sz t =
    let lo = split_vpn (va / 2 ^ 12) in
    let hi = split_vpn (w64 (va + sz + 2 ^ 64 - 1) / 2 ^ 12) in
    root_loop ops (remove_leaf ops) lo hi (hi.v2 + 1 - lo.v2) pgtbl lo.v2 0 t >>= (λ r. done r.1)

-- The loops of `copy_mapping` over the entries of a table, from `j` and from `i` on.
pub copy_second : {S : Type 0} → Pages S → ℕ → ℕ → ℕ → ℕ → Tables S → Run (Tables S)
copy_second ops zero dst src j t = done t
copy_second ops (suc n) dst src j t =
    let pte = t.mem src j in
    let skip = copy_second ops n dst src (j + 1) t in
    if valid pte
    then ops.alloc_page t.pages >>= (λ r.
      let m = put t.mem dst j (sv39_pte (phys2ppn (va2pa r.0)) (get_perm pte)) in
      copy_second ops n dst src (j + 1) (record { mem = copy m r.0 (child pte); pages = r.1 }))
    else skip

pub copy_first : {S : Type 0} → Pages S → ℕ → ℕ → ℕ → ℕ → Tables S → Run (Tables S)
unfolding copy_second
copy_first ops zero dst src i t = done t
copy_first ops (suc n) dst src i t =
    let pte = t.mem src i in
    let skip = copy_first ops n dst src (i + 1) t in
    if valid pte
    then ops.alloc_page t.pages >>= (λ r.
      let m = put t.mem dst i (sv39_pte (phys2ppn (va2pa r.0)) (get_perm pte)) in
      copy_second ops (2 ^ 9) r.0 (child pte) 0 (record { mem = m; pages = r.1 })
      >>= (λ t'. copy_first ops n dst src (i + 1) t'))
    else skip

pub copy_mapping : {S : Type 0} → Pages S → ℕ → ℕ → Tables S → Run (Tables S)
unfolding copy_first
copy_mapping ops dst src t = copy_first ops (2 ^ 9) dst src 0 t

-- `walk_page_table_pte`; `none` stands for `INVALID_PA`.
unfoldable pub walk_page_table_pte : Memory → ℕ → ℕ → Option (ℕ × ℕ)
walk_page_table_pte m pgtbl vpn =
    let v = split_vpn vpn in
    let pte2 = m pgtbl v.v2 in
    let pte1 = m (child pte2) v.v1 in
    if not (valid pte2) then none else (if not (valid pte1) then none else some (child pte1, v.v0))

unfoldable pub is_valid_pte : Memory → Option (ℕ × ℕ) → Bool
is_valid_pte m none = false
is_valid_pte m (some e) = valid (m e.0 e.1)

-- The end of `walk_page_table`, at the entry that the walk found.
pub leads_to : Memory → ℕ → Option (ℕ × ℕ) → Option ℕ
leads_to m offset none = none
leads_to m offset (some e) =
    if is_valid_pte m (some e)
    then some (w64 (w64 (get_ppn (m e.0 e.1) * 2 ^ 12) + offset))
    else none

-- The physical address of `va`, if it is mapped.
pub walk_page_table : Memory → ℕ → ℕ → Option ℕ
walk_page_table m pgtbl va =
    let offset = extract_bits va 12 in leads_to m offset.0 (walk_page_table_pte m pgtbl offset.1)
