-- ===== src/Vm/Map.antt =====
-- `create_mapping` of arch/riscv/kernel/vm.c maps exactly the pages of its range.
use zju_sys3_sp25_kernel.Base.{
  ap, ℕ, suc, ◌+◌, ◌-◌, ◌*◌, ◌/◌, ◌^◌, ◌≤◌, ◌<◌, ◌≡◌, ◌∙◌, sym, subst, refl, arith, ◌&&◌,
  if◌then◌else◌, leb, w64, done,
}
use zju_sys3_sp25_kernel.Vm.{put, Pages, Tables, root_loop, create_leaf, create_mapping, full_perm}
use zju_sys3_sp25_kernel.Vm.Entry.{Vpn, sv39_pte, split_vpn}
use zju_sys3_sp25_kernel.Vm.Shape.{Place, Shape, entry}
use zju_sys3_sp25_kernel.Vm.Rounds.{IsRange, Written, Result, Writes, root_loop-Result}
use zju_sys3_sp25_kernel.Vm.Range.{Supply, linear}

-- What `create_mapping` leaves: a tree of tables, in which the pages of the range are mapped one after the
-- other, and every other page as before.
pub record Mapped {S : Type 0} (root perm ppn : ℕ) (lo hi : Vpn) (t t' : Tables S) : Type 0 where
  pub at : ℕ → Place
  pub shape : Shape t'.mem root at
  pub entries :
      (i j k : ℕ)
      → j < 2 ^ 9
      → k < 2 ^ 9
      → entry t'.mem root i j k ≡ (
          if leb (linear lo.v2 lo.v1 lo.v0) (linear i j k)
            && leb (linear i j k) (linear hi.v2 hi.v1 hi.v0)
          then sv39_pte (ppn + (linear i j k - linear lo.v2 lo.v1 lo.v0)) perm
          else entry t.mem root i j k)

-- The number of a page in the address space of 2^27 pages.
abbrev pub number : Vpn → ℕ
number v = linear v.v2 v.v1 v.v0

-- The first page and the last one of a range of addresses.
abbrev pub page_of : ℕ → Vpn
page_of va = split_vpn (va / 2 ^ 12)

abbrev pub last_of : ℕ → ℕ → Vpn
last_of va sz = split_vpn (w64 (va + sz + 2 ^ 64 - 1) / 2 ^ 12)

-- The range of a call is one of two indices each below 2^9.
pub IsRange-page_of :
    (va sz : ℕ)
    → number (page_of va) ≤ number (last_of va sz)
    → IsRange (page_of va) (last_of va sz)
IsRange-page_of va sz order = record {
  lo0 = omega arith;
  lo1 = omega arith;
  hi0 = omega arith;
  hi1 = omega arith;
  hi2 = omega arith;
  order = order;
}

-- The rounds of the outermost loop.
pub rounds_of :
    (va sz : ℕ)
    → number (page_of va) ≤ number (last_of va sz)
    → (m : ℕ) × ((page_of va).v2 + m ≡ (last_of va sz).v2)
      × ((last_of va sz).v2 + 1 - (page_of va).v2 ≡ suc m)
rounds_of va sz order =
    let rows : (page_of va).v2 ≤ (last_of va sz).v2 = omega (arith, order) in
    ((last_of va sz).v2 - (page_of va).v2, omega (arith, rows), omega (arith, rows))

create_mapping-loop :
    {S : Type 0} (ops : Pages S) (root va pa sz perm : ℕ) (t : Tables S) (m ppn : ℕ) (t' : Tables S)
    → (last_of va sz).v2 + 1 - (page_of va).v2 ≡ suc m
    → root_loop ops
        (create_leaf (full_perm perm))
        (page_of va)
        (last_of va sz)
        (suc m)
        root
        (page_of va).v2
        (pa / 2 ^ 12)
        t
      ≡ done (ppn, t')
    → create_mapping ops root va pa sz perm t ≡ done t'
unfolding create_mapping
create_mapping-loop ops root va pa sz perm t m ppn t' rounds result = rw (rounds, result) refl

-- The page number that belongs to page `x`, and its entry.
abbrev pub counted : ℕ → Vpn → ℕ → ℕ
counted ppn lo x = ppn + (x - linear lo.v2 lo.v1 lo.v0)

abbrev pub consecutive : ℕ → ℕ → Vpn → ℕ → ℕ
consecutive perm ppn lo x = sv39_pte (counted ppn lo x) perm

create_leaf-Writes :
    {S : Type 0} (P : ℕ → S → (ℕ → ℕ) → Type 0) (perm ppn : ℕ) (lo hi : Vpn) (old : ℕ → ℕ → ℕ → ℕ)
    → ppn < 2 ^ 52
    → hi.v2 < 2 ^ 9
    → hi.v1 < 2 ^ 9
    → hi.v0 < 2 ^ 9
    → Writes (λ x. P) (create_leaf perm) lo hi (consecutive perm ppn lo) (counted ppn lo) old
unfolding create_leaf
create_leaf-Writes P perm ppn lo hi old small h2 h1 h0 n i j k p t level bj bk l u e give =
    let x : ℕ = linear i j k in
    let word : w64 (counted ppn lo x + 1) ≡ counted ppn lo (x + 1) =
      omega (arith, small, l, u, h2, h1, h0) in
    (
      t.pages,
      ap (λ c. done (c, record t { mem = put t.mem p k (consecutive perm ppn lo x) })) word,
      give,
    )

-- `create_mapping` with an allocator that has 513 pages for each entry of the root that the range meets, and `n` more:
-- it returns, has written the entries of the range and no others, and leaves a tree of tables and `n` pages.
pub create_mapping-Written :
    {S : Type 0}
    → (ops : Pages S) (P : ℕ → S → (ℕ → ℕ) → Type 0) → Supply ops P
    → (root va pa sz perm n : ℕ) (t : Tables S) (at : ℕ → Place) → Shape t.mem root at
    → P (513 * ((last_of va sz).v2 + 1 - (page_of va).v2) + n) t.pages (λ q. (at q).level)
    → pa < 2 ^ 64
    → number (page_of va) ≤ number (last_of va sz)
    → (t' : Tables S) × (create_mapping ops root va pa sz perm t ≡ done t')
      × Written P root
          (consecutive (full_perm perm) (pa / 2 ^ 12) (page_of va))
          (page_of va)
          (last_of va sz)
          n
          t
          t'
create_mapping-Written {S} ops P sup root va pa sz perm n t at w give fits order =
    let lo : Vpn = page_of va in
    let hi : Vpn = last_of va sz in
    let m : (m : ℕ) × (lo.v2 + m ≡ hi.v2) × (hi.v2 + 1 - lo.v2 ≡ suc m) = rounds_of va sz order in
    let start : counted (pa / 2 ^ 12) lo (linear lo.v2 lo.v1 lo.v0) ≡ pa / 2 ^ 12 = omega arith in
    let r : Result P root (consecutive (full_perm perm) (pa / 2 ^ 12) lo) lo hi n t (
        root_loop ops (create_leaf (full_perm perm)) lo hi (suc m.0) root lo.v2
          (counted (pa / 2 ^ 12) lo (linear lo.v2 lo.v1 lo.v0)) t) =
      root_loop-Result ops (λ x. P) (λ x. sup) root lo hi
        (consecutive (full_perm perm) (pa / 2 ^ 12) lo) (counted (pa / 2 ^ 12) lo)
        (create_leaf (full_perm perm)) (entry t.mem root)
        (create_leaf-Writes P (full_perm perm) (pa / 2 ^ 12) lo hi (entry t.mem root)
          (omega (arith, fits)) (omega arith) (omega arith) (omega arith))
        (IsRange-page_of va sz order) m.0 n t at w
        (subst (λ x. P (513 * x + n) t.pages (λ q. (at q).level)) m.2 give) m.1 (λ i j k. refl) in
    (
      r.tables,
      create_mapping-loop ops root va pa sz perm t m.0 r.ppn_end r.tables m.2 (
          ap (λ c. root_loop ops (create_leaf (full_perm perm)) lo hi (suc m.0) root lo.v2 c t)
            (sym start)
          ∙ r.ran),
      r.writes,
    )

-- With an allocator that has 513 pages for each entry of the root that the range meets, and tables that are a
-- tree, `create_mapping` returns. The pages of the range are then mapped to consecutive pages from `pa` on,
-- with the flags completed, every other page is mapped as before, and the tables are a tree.
pub create_mapping-Mapped :
    {S : Type 0}
    → (ops : Pages S) (P : ℕ → S → (ℕ → ℕ) → Type 0) → Supply ops P
    → (root va pa sz perm : ℕ) (t : Tables S) (at : ℕ → Place) → Shape t.mem root at
    → P (513 * ((last_of va sz).v2 + 1 - (page_of va).v2)) t.pages (λ q. (at q).level)
    → pa < 2 ^ 64
    → number (page_of va) ≤ number (last_of va sz)
    → (t' : Tables S) × (create_mapping ops root va pa sz perm t ≡ done t')
      × Mapped root (full_perm perm) (pa / 2 ^ 12) (page_of va) (last_of va sz) t t'
create_mapping-Mapped ops P sup root va pa sz perm t at w give fits order =
    let rounds : ℕ = 513 * ((last_of va sz).v2 + 1 - (page_of va).v2) in
    let r : (t' : Tables _) × (create_mapping ops root va pa sz perm t ≡ done t')
        × Written P root (consecutive (full_perm perm) (pa / 2 ^ 12) (page_of va)) (page_of va)
            (last_of va sz) 0 t t' =
      create_mapping-Written ops P sup root va pa sz perm 0 t at w
        (sup.weaken rounds (rounds + 0) t.pages (λ q. (at q).level) (omega arith) give) fits
        order in
    (r.0, r.1, record { at = r.2.at; shape = r.2.shape; entries = r.2.entries })
