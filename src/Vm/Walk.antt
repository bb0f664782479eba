-- ===== src/Vm/Walk.antt =====
-- `walk_page_table` of arch/riscv/kernel/vm.c reads what `create_mapping` wrote.
use zju_sys3_sp25_kernel.Base.{
  ℕ, ◌+◌, ◌-◌, ◌*◌, ◌/◌, ◌%◌, ◌^◌, ◌≤◌, ◌<◌, ◌≡◌, ◌∙◌, inl, inr, ap, sym, subst, refl, arith, Bool,
  true, false, ◌==◌, ◌&&◌, if◌then◌else◌, Bool-cases, w64, done, Option, none, some, bit_or, pow2,
}
use zju_sys3_sp25_kernel.Base.Bits.{or_step, bit_or-lt}
use zju_sys3_sp25_kernel.Vm.{
  Memory, put, Pages, Tables, create_mapping, full_perm, walk_page_table_pte, is_valid_pte,
  leads_to, walk_page_table,
}
use zju_sys3_sp25_kernel.Vm.Entry.{
  Vpn, split_vpn, valid, child, get_ppn, sv39_pte, get_ppn-sv39_pte, valid-sv39_pte, valid-zero,
}
use zju_sys3_sp25_kernel.Vm.Shape.{
  Place, Shape, entry, entry-none, entry-none_below, entry-Leads, Leads, Leads-place, entry-written,
}
use zju_sys3_sp25_kernel.Vm.Range.{Supply, linear}
use zju_sys3_sp25_kernel.Vm.Map.{Mapped, page_of, last_of, number, create_mapping-Mapped}

-- The entry for a page.
abbrev pub entry_of : Memory → ℕ → Vpn → ℕ
entry_of m root v = entry m root v.v2 v.v1 v.v0

-- The ways of the walk.
module _ (m : Memory) (root vpn : ℕ) where
  abbrev v : Vpn
  v = split_vpn vpn

  walk-none : valid (m root v.v2) ≡ false → walk_page_table_pte m root vpn ≡ none
  unfolding walk_page_table_pte
  walk-none e = rw e refl

  walk-none_below :
      valid (m root v.v2) ≡ true
      → valid (m (child (m root v.v2)) v.v1) ≡ false
      → walk_page_table_pte m root vpn ≡ none
  unfolding walk_page_table_pte
  walk-none_below e f = rw (e, f) refl

  walk-found :
      valid (m root v.v2) ≡ true
      → valid (m (child (m root v.v2)) v.v1) ≡ true
      → walk_page_table_pte m root vpn ≡ some (child (m (child (m root v.v2)) v.v1), v.v0)
  unfolding walk_page_table_pte
  walk-found e f = rw (e, f) refl

module _ (m : Memory) (root va : ℕ) where
  abbrev physical : ℕ → ℕ
  physical pte = w64 (w64 (get_ppn pte * 2 ^ 12) + va % 2 ^ 12)

  table-none : walk_page_table_pte m root (va / 2 ^ 12) ≡ none → walk_page_table m root va ≡ none
  unfolding walk_page_table leads_to
  table-none e = ap (λ x. leads_to m (va % 2 ^ 12) x) e

  table-some :
      (e : ℕ × ℕ)
      → walk_page_table_pte m root (va / 2 ^ 12) ≡ some e
      → walk_page_table m root va
        ≡ (if valid (m e.0 e.1) then some (physical (m e.0 e.1)) else none)
  unfolding walk_page_table leads_to is_valid_pte
  table-some e h = ap (λ x. leads_to m (va % 2 ^ 12) x) h

  if-none : (e : ℕ) → e ≡ 0 → none ≡ (if valid e then some (physical e) else none)
  if-none e z = rw (z, valid-zero) refl

  -- `walk_page_table` returns the address that the entry for the page leads to, if it is valid.
  walk-entry : walk_page_table m root va ≡ (
      if valid (entry_of m root (page_of va))
      then some (physical (entry_of m root (page_of va)))
      else none)
  walk-entry =
      let p : Vpn = page_of va in
      elim (Bool-cases (valid (m root p.v2))) [
        | inr e ↦
            table-none (walk-none m root (va / 2 ^ 12) e)
            ∙ if-none (entry_of m root p) (entry-none m root p.v2 p.v1 p.v0 e)
        | inl e ↦ elim (Bool-cases (valid (m (child (m root p.v2)) p.v1))) [
          | inr f ↦
              table-none (walk-none_below m root (va / 2 ^ 12) e f)
              ∙ if-none (entry_of m root p) (entry-none_below m root p.v2 p.v1 p.v0 e f)
          | inl f ↦
              let l : Leads m root p.v2 p.v1 (child (m (child (m root p.v2)) p.v1)) = record {
                first = e;
                second = f;
                table = refl;
              } in
              let at_page : entry_of m root p ≡ m (child (m (child (m root p.v2)) p.v1)) p.v0 =
                entry-Leads m root p.v2 p.v1 (child (m (child (m root p.v2)) p.v1)) p.v0 l in
              table-some (child (m (child (m root p.v2)) p.v1), p.v0)
                (walk-found m root (va / 2 ^ 12) e f)
              ∙ ap (λ x. if valid x then some (physical x) else none) (sym at_page)
        ]
      ]

full_perm_lt : (perm : ℕ) → perm < 2 ^ 10 → full_perm perm < 2 ^ 10
full_perm_lt perm h =
    let a : bit_or perm 1 < pow2 10 = bit_or-lt 10 perm 1 h (omega arith) in
    let b : bit_or (bit_or perm 1) 64 < pow2 10 = bit_or-lt 10 (bit_or perm 1) 64 a (omega arith) in
    let c : bit_or (bit_or (bit_or perm 1) 64) 128 < pow2 10 =
      bit_or-lt 10 (bit_or (bit_or perm 1) 64) 128 b (omega arith) in
    unfold full_perm in ground (arith, b, c)

full_perm_odd : (perm : ℕ) → full_perm perm % 2 ≡ 1
full_perm_odd perm =
    let a : bit_or perm 1 % 2 ≡ 1 = omega (arith, or_step perm 1) in
    let b : bit_or (bit_or perm 1) 64 % 2 ≡ 1 = omega (arith, or_step (bit_or perm 1) 64, a) in
    let c : bit_or (bit_or (bit_or perm 1) 64) 128 % 2 ≡ 1 =
      omega (arith, or_step (bit_or (bit_or perm 1) 64) 128, b) in
    unfold full_perm in ground (arith, b, c)

pub translated :
    (a : ℕ) (m : Memory) (root ppn perm : ℕ)
    → ppn < 2 ^ 44
    → perm < 2 ^ 10
    → perm % 2 ≡ 1
    → (if valid (sv39_pte ppn perm) then some (physical m root a (sv39_pte ppn perm)) else none)
      ≡ some (ppn * 2 ^ 12 + a % 2 ^ 12)
translated a m root ppn perm h k o =
    let number_back : get_ppn (sv39_pte ppn perm) ≡ ppn = get_ppn-sv39_pte ppn perm h k in
    let address : physical m root a (sv39_pte ppn perm) ≡ ppn * 2 ^ 12 + a % 2 ^ 12 =
      omega (arith, number_back, h) in
    rw (valid-sv39_pte ppn perm h k o) (ap (λ x. some x) address)

-- Where an entry of the last level takes the address `a`.
abbrev pub translate : ℕ → ℕ → Option ℕ
translate a pte = if valid pte then some (w64 (w64 (get_ppn pte * 2 ^ 12) + a % 2 ^ 12)) else none

-- `walk_page_table` follows the entry for the page of the address.
pub walk_page_table-translate :
    (m : Memory) (root a : ℕ) → walk_page_table m root a ≡ translate a (entry_of m root (page_of a))
walk_page_table-translate m root a = walk-entry m root a

-- With an allocator that has 513 pages for each entry of the root that the range meets, tables that are a tree, flags below
-- 2^10, and `pa + 2^39` at most 2^56: `create_mapping` returns, and `walk_page_table` translates every address of a page of
-- the range to the address that lies as far behind the page of `pa` as the page lies behind the first one.
pub walk_page_table-create_mapping :
    {S : Type 0}
    → (ops : Pages S) (P : ℕ → S → (ℕ → ℕ) → Type 0) → Supply ops P
    → (root va pa sz perm a : ℕ) (t : Tables S) (at : ℕ → Place) → Shape t.mem root at
    → P (513 * ((last_of va sz).v2 + 1 - (page_of va).v2)) t.pages (λ q. (at q).level)
    → pa + 2 ^ 39 ≤ 2 ^ 56
    → perm < 2 ^ 10
    → number (page_of va) ≤ number (page_of a)
    → number (page_of a) ≤ number (last_of va sz)
    → (t' : Tables S) × (create_mapping ops root va pa sz perm t ≡ done t')
      × (walk_page_table t'.mem root a
          ≡ some ((pa / 2 ^ 12 + (number (page_of a) - number (page_of va))) * 2 ^ 12 + a % 2 ^ 12))
walk_page_table-create_mapping ops P sup root va pa sz perm a t at w give fits flags from to =
    let run : (t' : Tables _) × (create_mapping ops root va pa sz perm t ≡ done t')
        × Mapped root (full_perm perm) (pa / 2 ^ 12) (page_of va) (last_of va sz) t t' =
      create_mapping-Mapped ops P sup root va pa sz perm t at w give (omega (arith, fits))
        (omega (arith, from, to)) in
    let ppn : ℕ = pa / 2 ^ 12 + (number (page_of a) - number (page_of va)) in
    let small : ppn < 2 ^ 44 = omega (arith, fits) in
    let pte : entry_of run.0.mem root (page_of a) ≡ sv39_pte ppn (full_perm perm) =
      run.2.entries (page_of a).v2 (page_of a).v1 (page_of a).v0 (omega arith) (omega arith)
      ∙ ground (arith, from, to) in
    (
      run.0,
      run.1,
      walk-entry run.0.mem root a
          ∙ ap (λ x. if valid x then some (physical run.0.mem root a x) else none) pte
          ∙ translated a run.0.mem root ppn (full_perm perm) small (full_perm_lt perm flags)
              (full_perm_odd perm),
    )

-- The walk ends at the place of the entry for the page.
pub walk_page_table_pte-Leads :
    (m : Memory) (root va : ℕ) (e : ℕ × ℕ)
    → walk_page_table_pte m root (va / 2 ^ 12) ≡ some e
    → Leads m root (page_of va).v2 (page_of va).v1 e.0 × (e.1 ≡ (page_of va).v0)
walk_page_table_pte-Leads m root va e h =
    let p : Vpn = page_of va in
    elim (Bool-cases (valid (m root p.v2))) [
      | inr f ↦ absurd (none-some (sym (walk-none m root (va / 2 ^ 12) f) ∙ h))
      | inl f ↦ elim (Bool-cases (valid (m (child (m root p.v2)) p.v1))) [
        | inr g ↦ absurd (none-some (sym (walk-none_below m root (va / 2 ^ 12) f g) ∙ h))
        | inl g ↦
            let same : some (child (m (child (m root p.v2)) p.v1), p.v0) ≡ some e =
              sym (walk-found m root (va / 2 ^ 12) f g) ∙ h in
            let table : child (m (child (m root p.v2)) p.v1) ≡ e.0 = cc in
            let place : p.v0 ≡ e.1 = cc in
            (record { first = f; second = g; table = table }, sym place)
      ]
    ]
  where
    none-some : {x : ℕ × ℕ} → none ≡ some x → ⊥
    none-some q = cc

-- The addresses are on one page.
abbrev pub same_page : ℕ → ℕ → Bool
same_page va a = number (page_of a) == number (page_of va)

chosen :
    (b c : Bool) (a new old pte : ℕ)
    → b ≡ c
    → pte ≡ (if b then new else old)
    → translate a pte ≡ (if c then translate a new else translate a old)
chosen true c a new old pte e h =
    subst (λ x. translate a pte ≡ (if x then translate a new else translate a old)) e
      (ap (translate a) h)
chosen false c a new old pte e h =
    subst (λ x. translate a pte ≡ (if x then translate a new else translate a old)) e
      (ap (translate a) h)

indices-linear :
    (i j k i' j' k' : ℕ)
    → j < 2 ^ 9
    → k < 2 ^ 9
    → j' < 2 ^ 9
    → k' < 2 ^ 9
    → ((i == i' && j == j') && k == k') ≡ (linear i j k == linear i' j' k')
indices-linear i j k i' j' k' a b c d = ground (arith, a, b, c, d)

-- A write to the entry that the walk found: only the addresses of its page are translated otherwise.
pub walk_page_table-put :
    (m : Memory) (root va a pte : ℕ) (e : ℕ × ℕ) (at : ℕ → Place)
    → Shape m root at
    → walk_page_table_pte m root (va / 2 ^ 12) ≡ some e
    → walk_page_table (put m e.0 e.1 pte) root a
      ≡ (if same_page va a then translate a pte else walk_page_table m root a)
walk_page_table-put m root va a pte e at w h =
    let p : Vpn = page_of va in
    let q : Vpn = page_of a in
    let l : Leads m root p.v2 p.v1 e.0 × (e.1 ≡ p.v0) = walk_page_table_pte-Leads m root va e h in
    let low : (at e.0).level ≡ 3 = (Leads-place m root at w p.v2 p.v1 e.0 l.0).0 in
    let there : entry_of (put m e.0 e.1 pte) root q
        ≡ (if (q.v2 == p.v2 && q.v1 == p.v1) && q.v0 == e.1 then pte else entry_of m root q) =
      entry-written m root at w e.0 e.1 pte low p.v2 p.v1 q.v2 q.v1 q.v0 l.0 in
    let one : ((q.v2 == p.v2 && q.v1 == p.v1) && q.v0 == e.1) ≡ same_page va a =
      ap (λ x. (q.v2 == p.v2 && q.v1 == p.v1) && q.v0 == x) l.1
      ∙ indices-linear q.v2 q.v1 q.v0 p.v2 p.v1 p.v0 (omega arith) (omega arith) (omega arith)
          (omega arith) in
    walk_page_table-translate (put m e.0 e.1 pte) root a
    ∙ chosen ((q.v2 == p.v2 && q.v1 == p.v1) && q.v0 == e.1) (same_page va a) a pte
        (entry_of m root q) (entry_of (put m e.0 e.1 pte) root q) one there
    ∙ ap (λ o. if same_page va a then translate a pte else o)
        (sym (walk_page_table-translate m root a))
