-- ===== src/Vm/Shape/First.antt =====
-- A new table of the second level, for an entry of the root.
use zju_sys3_sp25_kernel.Base.{ℕ, ◌≡◌, ◌≢◌, ◌∙◌, inl, inr, ap, sym, subst, arith, true, false}
use native.Mathlib.Decide.{ℕ_discrete}
use zju_sys3_sp25_kernel.Vm.{Memory, put, clear}
use zju_sys3_sp25_kernel.Vm.Entry.{valid, child, valid-zero}
use zju_sys3_sp25_kernel.Vm.Shape.{
  Place, move, Shape, entry, entry-none, entry-none_below, Leads, entry-frame, Leads-place,
}
use zju_sys3_sp25_kernel.Vm.Shape.New.{
  grown-at, grown-new, grown-other, move-other, move-new, moved, level-ne, root_used, first_used,
}

true-false : true ≢ false
true-false e = absurd (ground (arith, e))

module _ (m : Memory) (root : ℕ) (at : ℕ → Place) (w : Shape m root at) where
  -- For entry `i` of the root.
  module _ (p i v : ℕ) (fresh : (at p).level ≡ 0) (ok : valid v ≡ true) (to : child v ≡ p) where
    abbrev row_place : Place
    row_place = record { level = 2; row = i; col = 0 }

    abbrev wider : Memory
    wider = put (clear m p) root i v

    pub entry-grown :
        (i' j' k' : ℕ)
        → valid (m root i) ≡ false
        → entry wider root i' j' k' ≡ entry m root i' j' k'
    entry-grown i' j' k' none = elim (ℕ_discrete i' i) [
      | yes e ↦
          let at_i : wider root i' ≡ v =
            ap (λ y. wider root y) e
            ∙ grown-at m root at w p root i v fresh (root_used m root at w) row_place in
          let below : wider (child (wider root i')) j' ≡ 0 =
            ap (λ y. wider (child y) j') at_i
            ∙ ap (λ y. wider y j') to
            ∙ grown-new m root at w p root i v fresh (root_used m root at w) row_place j' in
          entry-none_below wider root i' j' k' (ap valid at_i ∙ ok) (ap valid below ∙ valid-zero)
          ∙ sym (entry-none m root i' j' k' (ap (λ y. valid (m root y)) e ∙ none))
      | no n ↦
          entry-frame m wider root i' j' k'
            (grown-other m root at w p root i v fresh (root_used m root at w) row_place root i'
              (root_used m root at w) (inr n))
            (λ h.
              grown-other m root at w p root i v fresh (root_used m root at w) row_place
                (child (m root i')) j' (first_used m root at w i' h)
                (inl (
                  level-ne m root at w (child (m root i')) root
                    (λ e. absurd (omega (arith, e, (w.firsts i' h).0, w.top))))))
            (λ l. third l)
    ]
      where
        third :
            Leads m root i' j' (child (m (child (m root i')) j'))
            → wider (child (m (child (m root i')) j')) k' ≡ m (child (m (child (m root i')) j')) k'
        third l =
            let lv : (at (child (m (child (m root i')) j'))).level ≡ 3 =
              (Leads-place m root at w i' j' (child (m (child (m root i')) j')) l).0 in
            grown-other m root at w p root i v fresh (root_used m root at w) row_place
              (child (m (child (m root i')) j')) k' (λ e. absurd (omega (arith, e, lv)))
              (inl (
                level-ne m root at w (child (m (child (m root i')) j')) root
                  (λ e. absurd (omega (arith, e, lv, w.top)))))

    abbrev F : ℕ → ℕ → Type 0
    F i' e =
        ((move at p row_place (child e)).level ≡ 2) × ((move at p row_place (child e)).row ≡ i')

    firsts-grown : (i' : ℕ) → valid (wider root i') ≡ true → F i' (wider root i')
    firsts-grown i' h = elim (ℕ_discrete i' i) [
      | yes e ↦
          let at_i : wider root i' ≡ v =
            ap (λ y. wider root y) e
            ∙ grown-at m root at w p root i v fresh (root_used m root at w) row_place in
          let here : move at p row_place (child v) ≡ row_place =
            ap (λ y. move at p row_place y) to
            ∙ move-new m root at w p root i v fresh (root_used m root at w) row_place in
          subst (λ y. F i' y) (sym at_i) (ap (λ y. y.level) here, ap (λ y. y.row) here ∙ sym e)
      | no n ↦
          let same : wider root i' ≡ m root i' =
            grown-other m root at w p root i v fresh (root_used m root at w) row_place root i'
              (root_used m root at w) (inr n) in
          let h' : valid (m root i') ≡ true = ap valid (sym same) ∙ h in
          let there : move at p row_place (child (m root i')) ≡ at (child (m root i')) =
            move-other m root at w p root i v fresh (root_used m root at w) row_place
              (child (m root i')) (first_used m root at w i' h') in
          subst (λ y. F i' y) (sym same)
            (
              ap (λ y. y.level) there ∙ (w.firsts i' h').0,
              ap (λ y. y.row) there ∙ (w.firsts i' h').1,
            )
    ]

    abbrev G : ℕ → ℕ → ℕ → Type 0
    G q' j' e =
        ((move at p row_place (child e)).level ≡ 3)
        × ((move at p row_place (child e)).row ≡ (move at p row_place q').row)
        × ((move at p row_place (child e)).col ≡ j')

    seconds-grown :
        (q' j' : ℕ)
        → (move at p row_place q').level ≡ 2
        → valid (wider q' j') ≡ true
        → G q' j' (wider q' j')
    seconds-grown q' j' lv h =
        elim (moved m root at w p root i v fresh (root_used m root at w) row_place q') [
          | inl e ↦
              let none : wider q' j' ≡ 0 =
                ap (λ y. wider y j') e
                ∙ grown-new m root at w p root i v fresh (root_used m root at w) row_place j' in
              absurd (true-false (sym h ∙ ap valid none ∙ valid-zero))
          | inr o ↦
              let lv' : (at q').level ≡ 2 = ap (λ y. y.level) (sym o.1) ∙ lv in
              let same : wider q' j' ≡ m q' j' =
                grown-other m root at w p root i v fresh (root_used m root at w) row_place q' j'
                  (λ e. absurd (omega (arith, e, lv')))
                  (inl
                    (level-ne m root at w q' root (λ e. absurd (omega (arith, e, lv', w.top))))) in
              let h' : valid (m q' j') ≡ true = ap valid (sym same) ∙ h in
              let s : ((at (child (m q' j'))).level ≡ 3)
                  × ((at (child (m q' j'))).row ≡ (at q').row)
                  × ((at (child (m q' j'))).col ≡ j') =
                w.seconds q' j' lv' h' in
              let there : move at p row_place (child (m q' j')) ≡ at (child (m q' j')) =
                move-other m root at w p root i v fresh (root_used m root at w) row_place
                  (child (m q' j')) (λ e. absurd (omega (arith, e, s.0))) in
              subst (λ y. G q' j' y) (sym same)
                (
                  ap (λ y. y.level) there ∙ s.0,
                  ap (λ y. y.row) there ∙ s.1 ∙ ap (λ y. y.row) (sym o.1),
                  ap (λ y. y.col) there ∙ s.2,
                )
        ]

    pub Shape-grown : Shape wider root (move at p row_place)
    Shape-grown = record {
      top =
          ap (λ y. y.level)
            (move-other m root at w p root i v fresh (root_used m root at w) row_place root
              (root_used m root at w))
          ∙ w.top;
      firsts = firsts-grown;
      seconds = seconds-grown;
    }
