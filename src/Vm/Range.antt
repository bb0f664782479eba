-- ===== src/Vm/Range.antt =====
-- The loops of `create_mapping` of arch/riscv/kernel/vm.c, page by page.
use zju_sys3_sp25_kernel.Base.{
  ℕ, suc, ◌+◌, ◌*◌, ◌^◌, ◌≤◌, ◌<◌, ◌≡◌, ◌≢◌, ◌∙◌, inl, inr, ap, sym, subst, refl, arith, true,
  false, ◌&&◌, ◌==◌, if◌then◌else◌, Bool-cases, ltb, leb, done,
}
use native.Mathlib.Decide.{ℕ_discrete}
use zju_sys3_sp25_kernel.Mm.{va2pa}
use zju_sys3_sp25_kernel.Vm.{Memory, put, clear, Pages, Tables, ensure}
use zju_sys3_sp25_kernel.Vm.Entry.{
  valid, child, sv39_pte, phys2ppn, Vpn, IsPage, child-sv39_pte, valid-child,
}
use zju_sys3_sp25_kernel.Vm.Shape.{
  Place, move, Shape, entry, Leads, Leads-place, Shape-written, Leads-written, entry-written,
}
use zju_sys3_sp25_kernel.Vm.Shape.First.{entry-grown, Shape-grown}
use zju_sys3_sp25_kernel.Vm.Shape.Second.{entry-grown_below, Shape-grown_below}

-- An allocator that has `n` pages left to give, none of them at a level above 0.
pub record Supply {S : Type 0} (ops : Pages S) (P : ℕ → S → (ℕ → ℕ) → Type 0) : Type 0 where
  pub weaken : (n m : ℕ) (s : S) (level : ℕ → ℕ) → m ≤ n → P n s level → P m s level
  pub gives :
      (n : ℕ) (s : S) (level : ℕ → ℕ)
      → P (suc n) s level
      → (p : ℕ) × (s' : S) × (ops.alloc_page s ≡ done (p, s'))
        × (level p ≡ 0)
        × IsPage p
        × ((level' : ℕ → ℕ) → ((q : ℕ) → q ≢ p → level' q ≡ level q) → P n s' level')

-- The page number that the indices make up.
abbrev pub linear : ℕ → ℕ → ℕ → ℕ
linear i j k = i * 2 ^ 18 + j * 2 ^ 9 + k

ensure-found :
    {S : Type 0} (ops : Pages S) (p i : ℕ) (t : Tables S)
    → valid (t.mem p i) ≡ true
    → ensure ops p i t ≡ done (child (t.mem p i), t)
unfolding ensure
ensure-found ops p i t e = rw e refl

same-indices :
    (i j k i' j' k' : ℕ)
    → i' ≡ i
    → j' ≡ j
    → k' ≡ k
    → (a b : ℕ) → (if (i' == i && j' == j) && k' == k then a else b) ≡ a
same-indices i j k i' j' k' ei ej ek a b = ground (arith, ei, ej, ek)

other-indices :
    (i j k i' j' k' : ℕ)
    → linear i' j' k' ≢ linear i j k
    → (a b : ℕ) → (if (i' == i && j' == j) && k' == k then a else b) ≡ b
other-indices i j k i' j' k' n a b = ground (arith, n)

put-at : (m : Memory) (q j v : ℕ) → put m q j v q j ≡ v
put-at m q j v = ground arith

module _ {S : Type 0} (ops : Pages S) (Q : ℕ → ℕ → S → (ℕ → ℕ) → Type 0)
    (sup : (x : ℕ) → Supply ops (Q x)) (root : ℕ) (lo hi : Vpn) (new count : ℕ → ℕ)
    (old : ℕ → ℕ → ℕ → ℕ) where
  abbrev pub low : ℕ
  low = linear lo.v2 lo.v1 lo.v0

  -- The entries when those of the pages from `low` up to, but not including, page `x` are written.
  abbrev pub mapped : ℕ → ℕ → ℕ → ℕ → ℕ
  mapped x i j k =
      if leb low (linear i j k) && ltb (linear i j k) x then new (linear i j k) else old i j k

  mapped-here : (x i j k : ℕ) → linear i j k ≡ x → low ≤ x → mapped (x + 1) i j k ≡ new x
  mapped-here x i j k e h =
      let in_range : (leb low x && ltb x (x + 1)) ≡ true = ground (arith, h) in
      rw (e, in_range) refl

  mapped-kept : (x i j k : ℕ) → linear i j k ≢ x → mapped x i j k ≡ mapped (x + 1) i j k
  mapped-kept x i j k n = ground (arith, n)

  -- The tables are a tree, `n` further pages can be allocated, and the loop has reached page `x`, with its
  -- number.
  pub record Upto (x n ppn : ℕ) (t : Tables S) : Type 0 where
    pub at : ℕ → Place
    pub shape : Shape t.mem root at
    pub supply : Q x n t.pages (λ q. (at q).level)
    pub reached : low ≤ x
    pub next : ppn ≡ count x
    pub entries : (i j k : ℕ) → j < 2 ^ 9 → k < 2 ^ 9 → entry t.mem root i j k ≡ mapped x i j k

  abbrev Given : ℕ → ℕ → S → (ℕ → ℕ) → Type 0
  Given x n s level =
      (p : ℕ) × (s' : S) × (ops.alloc_page s ≡ done (p, s'))
      × (level p ≡ 0)
      × IsPage p
      × ((level' : ℕ → ℕ) → ((q : ℕ) → q ≢ p → level' q ≡ level q) → Q x n s' level')

  -- The root's entry `i` points to the table `p`.
  abbrev pub Row : Tables S → ℕ → ℕ → Type 0
  Row t i p = (valid (t.mem root i) ≡ true) × (child (t.mem root i) ≡ p)

  pub Upto-weaken : (x n m ppn : ℕ) (t : Tables S) → m ≤ n → Upto x n ppn t → Upto x m ppn t
  Upto-weaken x n m ppn t h u = record {
    at = u.at;
    shape = u.shape;
    supply = (sup x).weaken n m t.pages (λ q. (u.at q).level) h u.supply;
    reached = u.reached;
    next = u.next;
    entries = u.entries;
  }

  -- A missing table of the second level is made.
  module _ (x n ppn i : ℕ) (t : Tables S) (u : Upto x (suc n) ppn t)
      (none : valid (t.mem root i) ≡ false) where
    abbrev given : Given x n t.pages (λ q. (u.at q).level)
    given = (sup x).gives n t.pages (λ q. (u.at q).level) u.supply

    abbrev pte : ℕ
    pte = sv39_pte (phys2ppn (va2pa given.0)) 1

    abbrev widened : Tables S
    widened = record { mem = put (clear t.mem given.0) root i pte; pages = given.1 }

    ensure-widened : ensure ops root i t ≡ done (given.0, widened)
    unfolding ensure
    ensure-widened = rw (none, given.2) refl

    Upto-widened : Upto x n ppn widened
    Upto-widened =
        let ok : valid pte ≡ true = valid-child given.0 given.4 in
        let to : child pte ≡ given.0 = child-sv39_pte given.0 given.4 in
        record {
          at = move u.at given.0 (record { level = 2; row = i; col = 0 });
          shape = Shape-grown t.mem root u.at u.shape given.0 i pte given.3 ok to;
          supply =
              given.5 (λ q. (move u.at given.0 (record { level = 2; row = i; col = 0 }) q).level)
                (λ q ne. ground (arith, ne));
          reached = u.reached;
          next = u.next;
          entries = λ i' j' k' a b.
              entry-grown t.mem root u.at u.shape given.0 i pte given.3 ok to i' j' k' none
              ∙ u.entries i' j' k' a b;
        }

    Row-widened : Row widened i given.0
    Row-widened =
        let at_i : widened.mem root i ≡ pte = ground arith in
        (
          ap valid at_i ∙ valid-child given.0 given.4,
          ap child at_i ∙ child-sv39_pte given.0 given.4,
        )

  pub ensure-Row :
      (x n ppn i : ℕ) (t : Tables S)
      → Upto x (suc n) ppn t
      → (p : ℕ) × (t' : Tables S) × (ensure ops root i t ≡ done (p, t'))
        × Upto x n ppn t'
        × Row t' i p
  ensure-Row x n ppn i t u = elim (Bool-cases (valid (t.mem root i))) [
    | inl e ↦ (
      child (t.mem root i),
      t,
      ensure-found ops root i t e,
      Upto-weaken x (suc n) n ppn t (omega arith) u,
      (e, refl),
    )
    | inr e ↦ (
      (given x n ppn i t u e).0,
      widened x n ppn i t u e,
      ensure-widened x n ppn i t u e,
      Upto-widened x n ppn i t u e,
      Row-widened x n ppn i t u e,
    )
  ]

  -- The table of a row stands at the second level.
  pub Row-level :
      (x n ppn i q : ℕ) (t : Tables S) (u : Upto x n ppn t)
      → Row t i q
      → ((u.at q).level ≡ 2) × ((u.at q).row ≡ i)
  Row-level x n ppn i q t u r =
      subst (λ y. ((u.at y).level ≡ 2) × ((u.at y).row ≡ i)) r.1 (u.shape.firsts i r.0)

  -- A missing table of the last level is made.
  module _ (x n ppn i j q : ℕ) (t : Tables S) (u : Upto x (suc n) ppn t) (r : Row t i q)
      (none : valid (t.mem q j) ≡ false) where
    abbrev given_below : Given x n t.pages (λ a. (u.at a).level)
    given_below = (sup x).gives n t.pages (λ a. (u.at a).level) u.supply

    abbrev pte_below : ℕ
    pte_below = sv39_pte (phys2ppn (va2pa given_below.0)) 1

    abbrev deepened : Tables S
    deepened = record { mem = put (clear t.mem given_below.0) q j pte_below; pages = given_below.1 }

    ensure-deepened : ensure ops q j t ≡ done (given_below.0, deepened)
    unfolding ensure
    ensure-deepened = rw (none, given_below.2) refl

    Upto-deepened : Upto x n ppn deepened
    Upto-deepened =
        let ok : valid pte_below ≡ true = valid-child given_below.0 given_below.4 in
        let to : child pte_below ≡ given_below.0 = child-sv39_pte given_below.0 given_below.4 in
        let lq : (u.at q).level ≡ 2 = (Row-level x (suc n) ppn i q t u r).0 in
        record {
          at = move u.at given_below.0 (record { level = 3; row = (u.at q).row; col = j });
          shape =
              Shape-grown_below t.mem root u.at u.shape given_below.0 q j pte_below given_below.3 ok
                to lq;
          supply =
              given_below.5
                (λ a.
                  (move u.at given_below.0 (record { level = 3; row = (u.at q).row; col = j })
                    a).level)
                (λ a ne. ground (arith, ne));
          reached = u.reached;
          next = u.next;
          entries = λ i' j' k' a b.
              entry-grown_below t.mem root u.at u.shape given_below.0 q j pte_below given_below.3 ok
                to lq i' j' k' none
              ∙ u.entries i' j' k' a b;
        }

    root_kept : deepened.mem root i ≡ t.mem root i
    root_kept =
        let lq : (u.at q).level ≡ 2 = (Row-level x (suc n) ppn i q t u r).0 in
        let not_q : root ≢ q =
          λ e. absurd (omega (arith, u.shape.top, lq, ap (λ a. (u.at a).level) e)) in
        let not_new : root ≢ given_below.0 =
          λ e. absurd (omega (arith, u.shape.top, given_below.3, ap (λ a. (u.at a).level) e)) in
        ground (arith, not_q, not_new)

    Row-deepened : Row deepened i q
    Row-deepened = (ap valid root_kept ∙ r.0, ap child root_kept ∙ r.1)

    Leads-deepened : Leads deepened.mem root i j given_below.0
    Leads-deepened =
        let at_j : deepened.mem (child (deepened.mem root i)) j ≡ pte_below =
          ap (λ a. deepened.mem a j) Row-deepened.1
          ∙ put-at (clear t.mem given_below.0) q j pte_below in
        record {
          first = Row-deepened.0;
          second = ap valid at_j ∙ valid-child given_below.0 given_below.4;
          table = ap child at_j ∙ child-sv39_pte given_below.0 given_below.4;
        }

  pub ensure-Leads :
      (x n ppn i j q : ℕ) (t : Tables S)
      → Upto x (suc n) ppn t
      → Row t i q
      → (p : ℕ) × (t' : Tables S) × (ensure ops q j t ≡ done (p, t'))
        × Upto x n ppn t'
        × Row t' i q
        × Leads t'.mem root i j p
  ensure-Leads x n ppn i j q t u r = elim (Bool-cases (valid (t.mem q j))) [
    | inl e ↦ (
      child (t.mem q j),
      t,
      ensure-found ops q j t e,
      Upto-weaken x (suc n) n ppn t (omega arith) u,
      r,
      record {
        first = r.0;
        second = ap (λ a. valid (t.mem a j)) r.1 ∙ e;
        table = ap (λ a. child (t.mem a j)) r.1;
      },
    )
    | inr e ↦ (
      (given_below x n ppn i j q t u r e).0,
      deepened x n ppn i j q t u r e,
      ensure-deepened x n ppn i j q t u r e,
      Upto-deepened x n ppn i j q t u r e,
      Row-deepened x n ppn i j q t u r e,
      Leads-deepened x n ppn i j q t u r e,
    )
  ]

  -- One entry of the last level.
  module _ (n ppn i j k q p : ℕ) (t : Tables S) (s : S) (bj : j < 2 ^ 9) (bk : k < 2 ^ 9)
      (u : Upto (linear i j k) n ppn t) (r : Row t i q) (l : Leads t.mem root i j p)
      (kept : Q (linear i j k + 1) n s (λ a. (u.at a).level)) where
    abbrev value : ℕ
    value = new (linear i j k)

    abbrev pub filled : Tables S
    filled = record { mem = put t.mem p k value; pages = s }

    at_level : ((u.at p).level ≡ 3) × ((u.at p).row ≡ i) × ((u.at p).col ≡ j)
    at_level = Leads-place t.mem root u.at u.shape i j p l

    filled-entries :
        (i' j' k' : ℕ)
        → j' < 2 ^ 9
        → k' < 2 ^ 9
        → entry filled.mem root i' j' k' ≡ mapped (linear i j k + 1) i' j' k'
    filled-entries i' j' k' a b =
        entry-written t.mem root u.at u.shape p k value at_level.0 i j i' j' k' l
        ∙ elim (ℕ_discrete (linear i' j' k') (linear i j k)) [
          | yes e ↦
              let ei : i' ≡ i = omega (arith, e, a, b, bj, bk) in
              let ej : j' ≡ j = omega (arith, e, ei, a, b, bj, bk) in
              let ek : k' ≡ k = omega (arith, e, ei, ej) in
              same-indices i j k i' j' k' ei ej ek value (entry t.mem root i' j' k')
              ∙ sym (mapped-here (linear i j k) i' j' k' e u.reached)
          | no ne ↦
              other-indices i j k i' j' k' ne value (entry t.mem root i' j' k')
              ∙ u.entries i' j' k' a b
              ∙ mapped-kept (linear i j k) i' j' k' ne
        ]

    pub Upto-filled : Upto (linear i j k + 1) n (count (linear i j k + 1)) filled
    Upto-filled = record {
      at = u.at;
      shape = Shape-written t.mem root u.at u.shape p k value at_level.0;
      supply = kept;
      reached = omega (arith, u.reached);
      next = refl;
      entries = filled-entries;
    }

    pub Leads-filled : Leads filled.mem root i j p
    Leads-filled = Leads-written t.mem root u.at u.shape p k value at_level.0 i j p l

    pub Row-filled : Row filled i q
    Row-filled =
        let not_root : root ≢ p =
          λ e. absurd (omega (arith, u.shape.top, at_level.0, ap (λ a. (u.at a).level) e)) in
        let same : filled.mem root i ≡ t.mem root i = ground (arith, not_root) in
        (ap valid same ∙ r.0, ap child same ∙ r.1)
