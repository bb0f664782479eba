-- ===== src/Vm/Shape/New.antt =====
-- A cleared page that becomes a table: an entry of another table points to it.
use zju_sys3_sp25_kernel.Base.{ℕ, ◌≡◌, ◌≢◌, ◌∙◌, ◌⊎◌, inl, inr, ap, sym, arith, true}
use native.Mathlib.Decide.{ℕ_discrete}
use zju_sys3_sp25_kernel.Vm.{Memory, put, clear}
use zju_sys3_sp25_kernel.Vm.Entry.{valid, child}
use zju_sys3_sp25_kernel.Vm.Shape.{Place, move, Shape}

module _ (m : Memory) (root : ℕ) (at : ℕ → Place) (w : Shape m root at) where
  pub level-ne : (a b : ℕ) → (at a).level ≢ (at b).level → a ≢ b
  level-ne a b n e = n (ap (λ y. (at y).level) e)

  -- A new table `p` for entry `x` of the table `q`.
  module _ (p q x v : ℕ) (fresh : (at p).level ≡ 0) (used : (at q).level ≢ 0) (place : Place) where
    abbrev grown : Memory
    grown = put (clear m p) q x v

    new_ne : (a : ℕ) → (at a).level ≢ 0 → a ≢ p
    new_ne a n = level-ne a p (λ e. n (e ∙ fresh))

    pub grown-at : grown q x ≡ v
    grown-at = ground arith

    pub grown-new : (y : ℕ) → grown p y ≡ 0
    grown-new y = let ne : p ≢ q = λ e. new_ne q used (sym e) in ground (arith, ne)

    pub grown-other : (a y : ℕ) → (at a).level ≢ 0 → (a ≢ q) ⊎ (y ≢ x) → grown a y ≡ m a y
    grown-other a y n d = ground (arith, new_ne a n, d)

    pub move-other : (a : ℕ) → (at a).level ≢ 0 → move at p place a ≡ at a
    move-other a n = ground (arith, new_ne a n)

    pub move-new : move at p place p ≡ place
    move-new = ground arith

    -- A page that has a level above 0 now is the new one, or had it before.
    pub moved : (a : ℕ) → (a ≡ p) ⊎ ((a ≢ p) × (move at p place a ≡ at a))
    moved a = elim (ℕ_discrete a p) [ yes e ↦ inl e | no n ↦ inr (n, ground (arith, n)) ]

  pub root_used : (at root).level ≢ 0
  root_used e = absurd (omega (arith, e, w.top))

  pub first_used : (i : ℕ) → valid (m root i) ≡ true → (at (child (m root i))).level ≢ 0
  first_used i h e = absurd (omega (arith, e, (w.firsts i h).0))
