-- ===== src/Vm/Unmap.antt =====
-- `remove_mapping` of arch/riscv/kernel/vm.c unmaps exactly the pages of its range.
use zju_sys3_sp25_kernel.Base.{
  ℕ, suc, ◌+◌, ◌-◌, ◌*◌, ◌^◌, ◌/◌, ◌%◌, ◌==◌, ltb, ◌<◌, ◌≤◌, ◌≡◌, ◌∙◌, inl, inr, ap, sym, subst,
  refl, arith, true, false, ◌&&◌, if◌then◌else◌, leb, done, none, Bool, Bool-cases,
}
use mathlib.Core.Path.{fun_ext}
use zju_sys3_sp25_kernel.Vm.{
  Memory, put, Pages, Tables, root_loop, remove_leaf, remove_mapping, walk_page_table,
}
use zju_sys3_sp25_kernel.Vm.Entry.{Vpn, valid, valid-zero, child}
use zju_sys3_sp25_kernel.Vm.Shape.{Place, Shape, entry}
use zju_sys3_sp25_kernel.Vm.Range.{Supply, linear}
use zju_sys3_sp25_kernel.Vm.Rounds.{Written, Result, Writes, root_loop-Result}
use zju_sys3_sp25_kernel.Vm.Map.{page_of, last_of, number, rounds_of, IsRange-page_of}
use zju_sys3_sp25_kernel.Vm.Walk.{entry_of, translate, walk_page_table-translate}

-- The entries of the last level, with the one of page `x` cleared.
abbrev pub unset : (ℕ → ℕ) → ℕ → ℕ → ℕ
unset entries x y = if y == x then 0 else entries y

-- An allocator that knows the entries of the last level: each valid one of the user half holds a reference of its page, and
-- `n` further pages can be allocated. Dereferencing the page of an entry that is cleared succeeds.
pub record Tracks {S : Type 0} (ops : Pages S) (H : (ℕ → ℕ) → ℕ → S → (ℕ → ℕ) → Type 0)
    : Type 0 where
  pub supply : (entries : ℕ → ℕ) → Supply ops (H entries)
  pub drops :
      (entries : ℕ → ℕ) (n x : ℕ) (s : S) (level : ℕ → ℕ)
      → x < 2 ^ 26
      → valid (entries x) ≡ true
      → H entries n s level
      → (s' : S) × (ops.deref_page (child (entries x)) s ≡ done s') × H (unset entries x) n s' level
  pub skips :
      (entries : ℕ → ℕ) (n x : ℕ) (s : S) (level : ℕ → ℕ)
      → x < 2 ^ 26
      → valid (entries x) ≡ false
      → H entries n s level
      → H (unset entries x) n s level

-- The entries of the last level by the number of their page.
abbrev pub numbered : Memory → ℕ → ℕ → ℕ
numbered m root x = entry m root (x / 2 ^ 18) (x / 2 ^ 9 % 2 ^ 9) (x % 2 ^ 9)

-- The entries when those from page `lo` up to, but not including, page `x` are cleared.
abbrev pub cleared_to : (ℕ → ℕ) → ℕ → ℕ → ℕ → ℕ
cleared_to entries lo x y = if leb lo y && ltb y x then 0 else entries y

numbered-linear :
    (m : Memory) (root i j k : ℕ)
    → j < 2 ^ 9
    → k < 2 ^ 9
    → numbered m root (linear i j k) ≡ entry m root i j k
numbered-linear m root i j k bj bk =
    let a : linear i j k / 2 ^ 18 ≡ i = omega (arith, bj, bk) in
    let b : linear i j k / 2 ^ 9 % 2 ^ 9 ≡ j = omega (arith, bj, bk) in
    let c : linear i j k % 2 ^ 9 ≡ k = omega (arith, bj, bk) in rw (a, b, c) refl

cleared_to-next :
    (entries : ℕ → ℕ) (lo x : ℕ)
    → lo ≤ x
    → unset (cleared_to entries lo x) x ≡ cleared_to entries lo (x + 1)
cleared_to-next entries lo x h = fun_ext λ y. ground (arith, h)

cleared_to-here : (entries : ℕ → ℕ) (lo x : ℕ) → cleared_to entries lo x x ≡ entries x
cleared_to-here entries lo x = ground arith

cleared_to-start : (entries : ℕ → ℕ) (lo : ℕ) → cleared_to entries lo lo ≡ entries
cleared_to-start entries lo = fun_ext λ y. ground arith

abbrev pub cleared : ℕ → ℕ
cleared x = 0

abbrev pub uncounted : ℕ → ℕ
uncounted x = 0

-- Is the page of the address among those of the range?
abbrev pub in_range : ℕ → ℕ → ℕ → Bool
in_range va sz a =
    leb (number (page_of va)) (number (page_of a))
    && leb (number (page_of a)) (number (last_of va sz))

module _ {S : Type 0} (ops : Pages S) (H : (ℕ → ℕ) → ℕ → S → (ℕ → ℕ) → Type 0) where
  leaf-valid :
      (p k ppn : ℕ) (t : Tables S) (s : S)
      → valid (t.mem p k) ≡ true
      → ops.deref_page (child (t.mem p k)) t.pages ≡ done s
      → remove_leaf ops p k ppn t ≡ done (ppn, record { mem = put t.mem p k 0; pages = s })
  unfolding remove_leaf
  leaf-valid p k ppn t s e d = rw (e, d) refl

  leaf-invalid :
      (p k ppn : ℕ) (t : Tables S)
      → valid (t.mem p k) ≡ false
      → remove_leaf ops p k ppn t ≡ done (ppn, record { mem = put t.mem p k 0; pages = t.pages })
  unfolding remove_leaf
  leaf-invalid p k ppn t e = rw e refl

  -- What the allocator has when the loop has reached page `x`.
  abbrev Cleared : (ℕ → ℕ) → ℕ → ℕ → ℕ → S → (ℕ → ℕ) → Type 0
  Cleared entries lo x = H (cleared_to entries lo x)

  remove_leaf-Writes :
      (lo hi : Vpn) (m : Memory) (root : ℕ)
      → Tracks ops H
      → linear hi.v2 hi.v1 hi.v0 < 2 ^ 26
      → Writes
          (Cleared (numbered m root) (linear lo.v2 lo.v1 lo.v0))
          (remove_leaf ops)
          lo
          hi
          cleared
          uncounted
          (entry m root)
  remove_leaf-Writes lo hi m root r user n i j k p t level bj bk l u e give =
      let low : ℕ = linear lo.v2 lo.v1 lo.v0 in
      let x : ℕ = linear i j k in
      let now : ℕ → ℕ = cleared_to (numbered m root) low x in
      let own : t.mem p k ≡ now x =
        e ∙ sym (cleared_to-here (numbered m root) low x ∙ numbered-linear m root i j k bj bk) in
      let next : unset now x ≡ cleared_to (numbered m root) low (x + 1) =
        cleared_to-next (numbered m root) low x l in
      elim (Bool-cases (valid (t.mem p k))) [
        | inl v ↦
            let d : (s : S) × (ops.deref_page (child (now x)) t.pages ≡ done s)
                × H (unset now x) n s level =
              r.drops now n x t.pages level (omega (arith, u, user)) (ap valid (sym own) ∙ v)
                give in
            (
              d.0,
              leaf-valid p k 0 t d.0 v (ap (λ y. ops.deref_page (child y) t.pages) own ∙ d.1),
              subst (λ f. H f n d.0 level) next d.2,
            )
        | inr v ↦ (
          t.pages,
          leaf-invalid p k 0 t v,
          subst (λ f. H f n t.pages level) next
              (r.skips now n x t.pages level (omega (arith, u, user)) (ap valid (sym own) ∙ v)
                give),
        )
      ]

  remove_mapping-loop :
      (root va sz : ℕ) (t : Tables S) (m ppn : ℕ) (t' : Tables S)
      → (last_of va sz).v2 + 1 - (page_of va).v2 ≡ suc m
      → root_loop ops
          (remove_leaf ops)
          (page_of va)
          (last_of va sz)
          (suc m)
          root
          (page_of va).v2
          0
          t
        ≡ done (ppn, t')
      → remove_mapping ops root va sz t ≡ done t'
  unfolding remove_mapping
  remove_mapping-loop root va sz t m ppn t' rounds result = rw (rounds, result) refl

  -- The entries by number after the range is cleared.
  numbered-Written :
      (root va sz n : ℕ) (P : ℕ → S → (ℕ → ℕ) → Type 0) (t t' : Tables S)
      → Written P root cleared (page_of va) (last_of va sz) n t t'
      → cleared_to (numbered t.mem root) (number (page_of va)) (number (last_of va sz) + 1)
        ≡ numbered t'.mem root
  numbered-Written root va sz n P t t' w = fun_ext λ y.
      let e : linear (y / 2 ^ 18) (y / 2 ^ 9 % 2 ^ 9) (y % 2 ^ 9) ≡ y = omega arith in
      let f : numbered t'.mem root y ≡ (
          if leb (number (page_of va)) y && leb y (number (last_of va sz))
          then 0
          else numbered t.mem root y) =
        w.entries (y / 2 ^ 18) (y / 2 ^ 9 % 2 ^ 9) (y % 2 ^ 9) (omega arith) (omega arith)
        ∙ rw e refl in
      ground (arith, f)

  -- `remove_mapping` on a range in the user half, with an allocator that knows the entries and has 513 pages for each
  -- entry of the root that the range meets, and `n` more: it returns, has cleared the entries of the range and no
  -- others, and leaves a tree of tables, and an allocator that knows its entries and has `n` pages.
  pub remove_mapping-Written :
      Tracks ops H
      → (root va sz n : ℕ) (t : Tables S) (at : ℕ → Place) → Shape t.mem root at
      → H
          (numbered t.mem root)
          (513 * ((last_of va sz).v2 + 1 - (page_of va).v2) + n)
          t.pages
          (λ q. (at q).level)
      → number (page_of va) ≤ number (last_of va sz)
      → number (last_of va sz) < 2 ^ 26
      → (t' : Tables S) × (remove_mapping ops root va sz t ≡ done t')
        × Written (H (numbered t'.mem root)) root cleared (page_of va) (last_of va sz) n t t'
  remove_mapping-Written r root va sz n t at w give order user =
      let lo : Vpn = page_of va in
      let hi : Vpn = last_of va sz in
      let old : ℕ → ℕ = numbered t.mem root in
      let m : (m : ℕ) × (lo.v2 + m ≡ hi.v2) × (hi.v2 + 1 - lo.v2 ≡ suc m) = rounds_of va sz order in
      let s : Result (H (cleared_to old (number lo) (number hi + 1))) root cleared lo hi n t
          (root_loop ops (remove_leaf ops) lo hi (suc m.0) root lo.v2 0 t) =
        root_loop-Result ops (Cleared old (number lo))
          (λ x. r.supply (cleared_to old (number lo) x)) root lo hi cleared uncounted
          (remove_leaf ops) (entry t.mem root) (remove_leaf-Writes lo hi t.mem root r user)
          (IsRange-page_of va sz order) m.0 n t at w
          (subst (λ f. H f (513 * suc m.0 + n) t.pages (λ q. (at q).level))
            (sym (cleared_to-start old (number lo)))
            (subst (λ x. H old (513 * x + n) t.pages (λ q. (at q).level)) m.2 give))
          m.1 (λ i j k. refl) in
      (
        s.tables,
        remove_mapping-loop root va sz t m.0 s.ppn_end s.tables m.2 s.ran,
        subst (λ f. Written (H f) root cleared lo hi n t s.tables)
            (numbered-Written root va sz n (H (cleared_to old (number lo) (number hi + 1))) t
              s.tables s.writes)
            s.writes,
      )

  translate-choice :
      (b : Bool) (a pte' pte : ℕ)
      → pte' ≡ (if b then 0 else pte)
      → translate a pte' ≡ (if b then none else translate a pte)
  translate-choice true a pte' pte e = rw (e, valid-zero) refl
  translate-choice false a pte' pte e = ap (translate a) e

  -- Afterwards no address of the range is translated, and every other one as before.
  pub walk_page_table-Written :
      (P : ℕ → S → (ℕ → ℕ) → Type 0) (root va sz n a : ℕ) (t t' : Tables S)
      → Written P root cleared (page_of va) (last_of va sz) n t t'
      → walk_page_table t'.mem root a
        ≡ (if in_range va sz a then none else walk_page_table t.mem root a)
  walk_page_table-Written P root va sz n a t t' w =
      let there : entry_of t'.mem root (page_of a)
          ≡ (if in_range va sz a then 0 else entry_of t.mem root (page_of a)) =
        w.entries (page_of a).v2 (page_of a).v1 (page_of a).v0 (omega arith) (omega arith) in
      walk_page_table-translate t'.mem root a
      ∙ translate-choice (in_range va sz a) a (entry_of t'.mem root (page_of a))
          (entry_of t.mem root (page_of a)) there
      ∙ ap (λ o. if in_range va sz a then none else o)
          (sym (walk_page_table-translate t.mem root a))

  -- With an allocator that knows the entries of the tables and has 513 pages for each entry of the root that the range
  -- meets, a range that lies in the user half, and tables that are a tree, `remove_mapping` returns; then no address of a
  -- page of the range is translated, and every other address is translated as before.
  pub walk_page_table-remove_mapping :
      Tracks ops H
      → (root va sz : ℕ) (t : Tables S) (at : ℕ → Place) → Shape t.mem root at
      → H
          (numbered t.mem root)
          (513 * ((last_of va sz).v2 + 1 - (page_of va).v2))
          t.pages
          (λ q. (at q).level)
      → number (page_of va) ≤ number (last_of va sz)
      → number (last_of va sz) < 2 ^ 26
      → (t' : Tables S) × (remove_mapping ops root va sz t ≡ done t')
        × ((a : ℕ)
            → walk_page_table t'.mem root a
              ≡ (if in_range va sz a then none else walk_page_table t.mem root a))
  walk_page_table-remove_mapping r root va sz t at w give order user =
      let rounds : ℕ = 513 * ((last_of va sz).v2 + 1 - (page_of va).v2) in
      let d : (t' : Tables S) × (remove_mapping ops root va sz t ≡ done t')
          × Written (H (numbered t'.mem root)) root cleared (page_of va) (last_of va sz) 0 t t' =
        remove_mapping-Written r root va sz 0 t at w
          ((r.supply (numbered t.mem root)).weaken rounds (rounds + 0) t.pages (λ q. (at q).level)
            (omega arith) give)
          order user in
      (d.0, d.1, λ a. walk_page_table-Written (H (numbered d.0.mem root)) root va sz 0 a t d.0 d.2)
