-- ===== src/Vm/Shape.antt =====
-- The tree of tables that a memory holds, and the entry of the last level that a page number leads to.
pub mod First
mod New
pub mod Second
use zju_sys3_sp25_kernel.Base.{
  ℕ, ◌≡◌, ◌≢◌, ◌∙◌, ◌⊎◌, inl, inr, ap, sym, subst, refl, arith, true, false, ◌&&◌, ◌==◌,
  if◌then◌else◌, Bool-cases,
}
use native.Mathlib.Decide.{ℕ_discrete}
use zju_sys3_sp25_kernel.Vm.{Memory, put, clear}
use zju_sys3_sp25_kernel.Vm.Entry.{valid, child, valid-zero}

-- Where a page stands: the root is at level 1, a table for the root's entry `row` at level 2, a table for
-- entry `col` of that one at level 3, and all else at level 0.
pub record Place : Type 0 where
  pub level : ℕ
  pub row : ℕ
  pub col : ℕ

abbrev pub move : (ℕ → Place) → ℕ → Place → ℕ → Place
move at p place q = if q == p then place else at q

pub record Shape (m : Memory) (root : ℕ) (at : ℕ → Place) : Type 0 where
  pub top : (at root).level ≡ 1
  pub firsts :
      (i : ℕ)
      → valid (m root i) ≡ true
      → ((at (child (m root i))).level ≡ 2) × ((at (child (m root i))).row ≡ i)
  pub seconds :
      (p j : ℕ)
      → (at p).level ≡ 2
      → valid (m p j) ≡ true
      → ((at (child (m p j))).level ≡ 3)
        × ((at (child (m p j))).row ≡ (at p).row)
        × ((at (child (m p j))).col ≡ j)

-- The entry that the indices lead to, 0 where a table is missing.
pub entry : Memory → ℕ → ℕ → ℕ → ℕ → ℕ
entry m root i j k =
    let e2 = m root i in
    let e1 = m (child e2) j in if valid e2 then (if valid e1 then m (child e1) k else 0) else 0

-- The indices lead to the table `p`.
pub record Leads (m : Memory) (root i j p : ℕ) : Type 0 where
  pub first : valid (m root i) ≡ true
  pub second : valid (m (child (m root i)) j) ≡ true
  pub table : child (m (child (m root i)) j) ≡ p

pub entry-none : (m : Memory) (root i j k : ℕ) → valid (m root i) ≡ false → entry m root i j k ≡ 0
unfolding entry
entry-none m root i j k e = rw e refl

pub entry-none_below :
    (m : Memory) (root i j k : ℕ)
    → valid (m root i) ≡ true
    → valid (m (child (m root i)) j) ≡ false
    → entry m root i j k ≡ 0
unfolding entry
entry-none_below m root i j k e f = rw (e, f) refl

pub entry-Leads : (m : Memory) (root i j p k : ℕ) → Leads m root i j p → entry m root i j k ≡ m p k
unfolding entry
entry-Leads m root i j p k l = rw (l.first, l.second, l.table) refl

-- Only the three entries on the way matter.
pub entry-frame :
    (m m' : Memory) (root i j k : ℕ)
    → m' root i ≡ m root i
    → (valid (m root i) ≡ true → m' (child (m root i)) j ≡ m (child (m root i)) j)
    → (Leads m root i j (child (m (child (m root i)) j))
        → m' (child (m (child (m root i)) j)) k ≡ m (child (m (child (m root i)) j)) k)
    → entry m' root i j k ≡ entry m root i j k
entry-frame m m' root i j k h2 h1 h0 = elim (Bool-cases (valid (m root i))) [
  | inr e ↦ entry-none m' root i j k (ap valid h2 ∙ e) ∙ sym (entry-none m root i j k e)
  | inl e ↦
      let table : child (m' root i) ≡ child (m root i) = ap child h2 in
      let below : m' (child (m' root i)) j ≡ m (child (m root i)) j =
        ap (λ q. m' q j) table ∙ h1 e in
      elim (Bool-cases (valid (m (child (m root i)) j))) [
        | inr f ↦
            entry-none_below m' root i j k (ap valid h2 ∙ e) (ap valid below ∙ f)
            ∙ sym (entry-none_below m root i j k e f)
        | inl f ↦
            let l : Leads m root i j (child (m (child (m root i)) j)) = record {
              first = e;
              second = f;
              table = refl;
            } in
            let l' : Leads m' root i j (child (m (child (m root i)) j)) = record {
              first = ap valid h2 ∙ e;
              second = ap valid below ∙ f;
              table = ap child below;
            } in
            entry-Leads m' root i j (child (m (child (m root i)) j)) k l'
            ∙ h0 l
            ∙ sym (entry-Leads m root i j (child (m (child (m root i)) j)) k l)
      ]
]

module _ (m : Memory) (root : ℕ) (at : ℕ → Place) (w : Shape m root at) where
  -- The table that the indices lead to stands at its place.
  pub Leads-place :
      (i j p : ℕ) → Leads m root i j p → ((at p).level ≡ 3) × ((at p).row ≡ i) × ((at p).col ≡ j)
  Leads-place i j p l =
      let f : ((at (child (m root i))).level ≡ 2) × ((at (child (m root i))).row ≡ i) =
        w.firsts i l.first in
      let s : ((at (child (m (child (m root i)) j))).level ≡ 3)
          × ((at (child (m (child (m root i)) j))).row ≡ (at (child (m root i))).row)
          × ((at (child (m (child (m root i)) j))).col ≡ j) =
        w.seconds (child (m root i)) j f.0 l.second in
      subst (λ q. ((at q).level ≡ 3) × ((at q).row ≡ i) × ((at q).col ≡ j)) l.table
        (s.0, s.1 ∙ f.1, s.2)

  -- A write to a table of the last level.
  module _ (p k v : ℕ) (low : (at p).level ≡ 3) where
    abbrev written : Memory
    written = put m p k v

    pub written-other : (q x : ℕ) → (at q).level ≢ 3 → written q x ≡ m q x
    written-other q x n = ground (arith, different)
      where
        different : q ≢ p
        different e = n (ap (λ y. (at y).level) e ∙ low)

    root_same : (i : ℕ) → written root i ≡ m root i
    root_same i = written-other root i (λ e. absurd (omega (arith, e, w.top)))

    middle_same : (q j : ℕ) → (at q).level ≡ 2 → written q j ≡ m q j
    middle_same q j lv = written-other q j (λ e. absurd (omega (arith, e, lv)))

    pub Shape-written : Shape written root at
    Shape-written = record {
      top = w.top;
      firsts = λ i h.
          let same : written root i ≡ m root i = root_same i in
          subst (λ e. ((at (child e)).level ≡ 2) × ((at (child e)).row ≡ i)) (sym same)
            (w.firsts i (ap valid (sym same) ∙ h));
      seconds = λ q j lv h.
          let same : written q j ≡ m q j = middle_same q j lv in
          subst
            (λ e.
              ((at (child e)).level ≡ 3)
              × ((at (child e)).row ≡ (at q).row)
              × ((at (child e)).col ≡ j))
            (sym same) (w.seconds q j lv (ap valid (sym same) ∙ h));
    }

    pub Leads-written : (i j q : ℕ) → Leads m root i j q → Leads written root i j q
    Leads-written i j q l =
        let same : written root i ≡ m root i = root_same i in
        let below : written (child (written root i)) j ≡ m (child (m root i)) j =
          ap (λ e. written (child e) j) same
          ∙ middle_same (child (m root i)) j (w.firsts i l.first).0 in
        record {
          first = ap valid same ∙ l.first;
          second = ap valid below ∙ l.second;
          table = ap child below ∙ l.table;
        }

    at_table : (x : ℕ) → written p x ≡ (if x == k then v else m p x)
    at_table x = ground arith

    elsewhere :
        (i j i' j' k' : ℕ)
        → Leads m root i j p
        → (i' ≢ i) ⊎ (j' ≢ j)
        → entry written root i' j' k' ≡ entry m root i' j' k'
    elsewhere i j i' j' k' l d =
        entry-frame m written root i' j' k' (root_same i')
          (λ h. middle_same (child (m root i')) j' (w.firsts i' h).0)
          (λ l'. ground (arith, apart l'))
      where
        apart :
            Leads m root i' j' (child (m (child (m root i')) j'))
            → child (m (child (m root i')) j') ≢ p
        apart l' e =
            let here : ((at p).level ≡ 3) × ((at p).row ≡ i) × ((at p).col ≡ j) =
              Leads-place i j p l in
            let there : ((at p).level ≡ 3) × ((at p).row ≡ i') × ((at p).col ≡ j') =
              Leads-place i' j' p (record { first = l'.first; second = l'.second; table = e }) in
            elim d [ inl n ↦ n (sym there.1 ∙ here.1) | inr n ↦ n (sym there.2 ∙ here.2) ]

    pub entry-written :
        (i j i' j' k' : ℕ)
        → Leads m root i j p
        → entry written root i' j' k'
          ≡ (if (i' == i && j' == j) && k' == k then v else entry m root i' j' k')
    entry-written i j i' j' k' l = elim (ℕ_discrete i' i) [
      | no n ↦ elsewhere i j i' j' k' l (inl n) ∙ ground (arith, n)
      | yes ei ↦ elim (ℕ_discrete j' j) [
        | no n ↦ elsewhere i j i' j' k' l (inr n) ∙ ground (arith, n)
        | yes ej ↦
            rw (ei, ej)
              (entry-Leads written root i j p k' (Leads-written i j p l)
                ∙ at_table k'
                ∙ ground (arith, entry-Leads m root i j p k' l))
      ]
    ]
