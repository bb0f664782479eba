-- ===== src/Vm/Shape/Second.antt =====
-- A new table of the last level, for an entry of a table of the second level.
use zju_sys3_sp25_kernel.Base.{
  ℕ, ◌≡◌, ◌≢◌, ◌∙◌, ◌⊎◌, inl, inr, ap, sym, subst, arith, true, false, Bool-cases,
}
use native.Mathlib.Decide.{ℕ_discrete}
use zju_sys3_sp25_kernel.Vm.{Memory, put, clear}
use zju_sys3_sp25_kernel.Vm.Entry.{valid, child}
use zju_sys3_sp25_kernel.Vm.Shape.{
  Place, move, Shape, entry, entry-none, entry-none_below, Leads, entry-Leads, entry-frame,
  Leads-place,
}
use zju_sys3_sp25_kernel.Vm.Shape.New.{
  grown-at, grown-new, grown-other, move-other, move-new, moved, level-ne, root_used, first_used,
}

module _ (m : Memory) (root : ℕ) (at : ℕ → Place) (w : Shape m root at) where
  -- For entry `j` of the table `q` of the second level.
  module _ (p q j v : ℕ) (fresh : (at p).level ≡ 0) (ok : valid v ≡ true) (to : child v ≡ p)
      (lq : (at q).level ≡ 2) where
    q_used : (at q).level ≢ 0
    q_used e = absurd (omega (arith, e, lq))

    abbrev col_place : Place
    col_place = record { level = 3; row = (at q).row; col = j }

    abbrev deeper : Memory
    deeper = put (clear m p) q j v

    root_kept : (i' : ℕ) → deeper root i' ≡ m root i'
    root_kept i' =
        grown-other m root at w p q j v fresh q_used col_place root i' (root_used m root at w)
          (inl (level-ne m root at w root q (λ e. absurd (omega (arith, e, lq, w.top)))))

    third_kept :
        (i' j' k' : ℕ)
        → Leads m root i' j' (child (m (child (m root i')) j'))
        → deeper (child (m (child (m root i')) j')) k' ≡ m (child (m (child (m root i')) j')) k'
    third_kept i' j' k' l =
        let lv : (at (child (m (child (m root i')) j'))).level ≡ 3 =
          (Leads-place m root at w i' j' (child (m (child (m root i')) j')) l).0 in
        grown-other m root at w p q j v fresh q_used col_place (child (m (child (m root i')) j')) k'
          (λ e. absurd (omega (arith, e, lv)))
          (inl (
            level-ne m root at w (child (m (child (m root i')) j')) q
              (λ e. absurd (omega (arith, e, lv, lq)))))

    entry-apart :
        (i' j' k' : ℕ)
        → (child (m root i') ≢ q) ⊎ (j' ≢ j)
        → entry deeper root i' j' k' ≡ entry m root i' j' k'
    entry-apart i' j' k' d =
        entry-frame m deeper root i' j' k' (root_kept i')
          (λ h.
            grown-other m root at w p q j v fresh q_used col_place (child (m root i')) j'
              (first_used m root at w i' h) d)
          (third_kept i' j' k')

    entry-new :
        (i' j' k' : ℕ)
        → valid (m q j) ≡ false
        → child (m root i') ≡ q
        → j' ≡ j
        → valid (m root i') ≡ true
        → entry deeper root i' j' k' ≡ entry m root i' j' k'
    entry-new i' j' k' none eq ej h =
        let below : deeper (child (deeper root i')) j' ≡ v =
          ap (λ y. deeper (child y) j') (root_kept i')
          ∙ ap (λ y. deeper y j') eq
          ∙ ap (λ y. deeper q y) ej
          ∙ grown-at m root at w p q j v fresh q_used col_place in
        let leads : Leads deeper root i' j' p = record {
          first = ap valid (root_kept i') ∙ h;
          second = ap valid below ∙ ok;
          table = ap child below ∙ to;
        } in
        entry-Leads deeper root i' j' p k' leads
        ∙ grown-new m root at w p q j v fresh q_used col_place k'
        ∙ sym (
            entry-none_below m root i' j' k' h
              (ap (λ y. valid (m y j')) eq ∙ ap (λ y. valid (m q y)) ej ∙ none))

    pub entry-grown_below :
        (i' j' k' : ℕ) → valid (m q j) ≡ false → entry deeper root i' j' k' ≡ entry m root i' j' k'
    entry-grown_below i' j' k' none = elim (ℕ_discrete (child (m root i')) q) [
      | no n ↦ entry-apart i' j' k' (inl n)
      | yes eq ↦ elim (ℕ_discrete j' j) [
        | no n ↦ entry-apart i' j' k' (inr n)
        | yes ej ↦ elim (Bool-cases (valid (m root i'))) [
          | inl h ↦ entry-new i' j' k' none eq ej h
          | inr h ↦
              entry-none deeper root i' j' k' (ap valid (root_kept i') ∙ h)
              ∙ sym (entry-none m root i' j' k' h)
        ]
      ]
    ]

    abbrev F2 : ℕ → ℕ → Type 0
    F2 i' e =
        ((move at p col_place (child e)).level ≡ 2) × ((move at p col_place (child e)).row ≡ i')

    firsts-grown_below : (i' : ℕ) → valid (deeper root i') ≡ true → F2 i' (deeper root i')
    firsts-grown_below i' h =
        let same : deeper root i' ≡ m root i' = root_kept i' in
        let h' : valid (m root i') ≡ true = ap valid (sym same) ∙ h in
        let there : move at p col_place (child (m root i')) ≡ at (child (m root i')) =
          move-other m root at w p q j v fresh q_used col_place (child (m root i'))
            (first_used m root at w i' h') in
        subst (λ y. F2 i' y) (sym same)
          (ap (λ y. y.level) there ∙ (w.firsts i' h').0, ap (λ y. y.row) there ∙ (w.firsts i' h').1)

    abbrev G2 : ℕ → ℕ → ℕ → Type 0
    G2 q' j' e =
        ((move at p col_place (child e)).level ≡ 3)
        × ((move at p col_place (child e)).row ≡ (move at p col_place q').row)
        × ((move at p col_place (child e)).col ≡ j')

    seconds-kept :
        (q' j' : ℕ)
        → move at p col_place q' ≡ at q'
        → (at q').level ≡ 2
        → (q' ≢ q) ⊎ (j' ≢ j)
        → valid (deeper q' j') ≡ true
        → G2 q' j' (deeper q' j')
    seconds-kept q' j' o lv' d h =
        let same : deeper q' j' ≡ m q' j' =
          grown-other m root at w p q j v fresh q_used col_place q' j'
            (λ e. absurd (omega (arith, e, lv'))) d in
        let h' : valid (m q' j') ≡ true = ap valid (sym same) ∙ h in
        let s : ((at (child (m q' j'))).level ≡ 3)
            × ((at (child (m q' j'))).row ≡ (at q').row)
            × ((at (child (m q' j'))).col ≡ j') =
          w.seconds q' j' lv' h' in
        let there : move at p col_place (child (m q' j')) ≡ at (child (m q' j')) =
          move-other m root at w p q j v fresh q_used col_place (child (m q' j'))
            (λ e. absurd (omega (arith, e, s.0))) in
        subst (λ y. G2 q' j' y) (sym same)
          (
            ap (λ y. y.level) there ∙ s.0,
            ap (λ y. y.row) there ∙ s.1 ∙ ap (λ y. y.row) (sym o),
            ap (λ y. y.col) there ∙ s.2,
          )

    seconds-new : (q' j' : ℕ) → q' ≡ q → j' ≡ j → G2 q' j' (deeper q' j')
    seconds-new q' j' eq ej =
        let at_j : deeper q' j' ≡ v =
          ap (λ y. deeper y j') eq
          ∙ ap (λ y. deeper q y) ej
          ∙ grown-at m root at w p q j v fresh q_used col_place in
        let here : move at p col_place (child v) ≡ col_place =
          ap (λ y. move at p col_place y) to
          ∙ move-new m root at w p q j v fresh q_used col_place in
        let there : move at p col_place q' ≡ at q =
          ap (λ y. move at p col_place y) eq
          ∙ move-other m root at w p q j v fresh q_used col_place q q_used in
        subst (λ y. G2 q' j' y) (sym at_j)
          (
            ap (λ y. y.level) here,
            ap (λ y. y.row) here ∙ ap (λ y. y.row) (sym there),
            ap (λ y. y.col) here ∙ sym ej,
          )

    seconds-grown_below :
        (q' j' : ℕ)
        → (move at p col_place q').level ≡ 2
        → valid (deeper q' j') ≡ true
        → G2 q' j' (deeper q' j')
    seconds-grown_below q' j' lv h = elim (moved m root at w p q j v fresh q_used col_place q') [
      | inl e ↦
          let three : (move at p col_place q').level ≡ 3 =
            ap (λ y. (move at p col_place y).level) e
            ∙ ap (λ y. y.level) (move-new m root at w p q j v fresh q_used col_place) in
          absurd (omega (arith, lv, three))
      | inr o ↦
          let lv' : (at q').level ≡ 2 = ap (λ y. y.level) (sym o.1) ∙ lv in
          elim (ℕ_discrete q' q) [
            | no n ↦ seconds-kept q' j' o.1 lv' (inl n) h
            | yes eq ↦ elim (ℕ_discrete j' j) [
              | no n ↦ seconds-kept q' j' o.1 lv' (inr n) h
              | yes ej ↦ seconds-new q' j' eq ej
            ]
          ]
    ]

    pub Shape-grown_below : Shape deeper root (move at p col_place)
    Shape-grown_below = record {
      top =
          ap (λ y. y.level)
            (move-other m root at w p q j v fresh q_used col_place root (root_used m root at w))
          ∙ w.top;
      firsts = firsts-grown_below;
      seconds = seconds-grown_below;
    }
