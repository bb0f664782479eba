-- ===== src/Vm/Rounds.antt =====
-- The loops of `create_mapping` and `remove_mapping` in arch/riscv/kernel/vm.c, for any change of the entries of the
-- last level.
use zju_sys3_sp25_kernel.Base.{
  ap, ℕ, zero, suc, ◌+◌, ◌-◌, ◌*◌, ◌^◌, ◌≤◌, ◌<◌, ◌≡◌, ◌∙◌, sym, subst, refl, arith, ◌&&◌, ◌==◌,
  if◌then◌else◌, leb, Run, done,
}
use zju_sys3_sp25_kernel.Vm.{
  Memory, put, Pages, Tables, ensure, second_loop, first_loop, root_loop, second_low, second_high,
  Leaf,
}
use zju_sys3_sp25_kernel.Vm.Entry.{Vpn}
use zju_sys3_sp25_kernel.Vm.Shape.{Place, Shape, entry, entry-Leads, Leads}
use zju_sys3_sp25_kernel.Vm.Range.{
  Supply, Upto, Upto-weaken, Row, linear, mapped, ensure-Row, ensure-Leads, Upto-filled,
  Leads-filled, Row-filled, filled,
}

-- The first page of a range is not behind its last one.
pub record IsRange (lo hi : Vpn) : Type 0 where
  pub lo0 : lo.v0 < 2 ^ 9
  pub lo1 : lo.v1 < 2 ^ 9
  pub hi0 : hi.v0 < 2 ^ 9
  pub hi1 : hi.v1 < 2 ^ 9
  pub hi2 : hi.v2 < 2 ^ 9
  pub order : linear lo.v2 lo.v1 lo.v0 ≤ linear hi.v2 hi.v1 hi.v0

abbrev first_low : Vpn → ℕ → ℕ
first_low lo i = if i == lo.v2 then lo.v1 else 0

abbrev first_high : Vpn → ℕ → ℕ
first_high hi i = if i == hi.v2 then hi.v1 else 2 ^ 9 - 1

-- What a mapping function leaves: a tree of tables, in which the entries of the range are the new ones, and every
-- other one is as before, and an allocator with `n` pages.
pub record Written {S : Type 0} (P : ℕ → S → (ℕ → ℕ) → Type 0) (root : ℕ) (new : ℕ → ℕ)
    (lo hi : Vpn) (n : ℕ) (t t' : Tables S) : Type 0 where
  pub at : ℕ → Place
  pub shape : Shape t'.mem root at
  pub supply : P n t'.pages (λ q. (at q).level)
  pub entries :
      (i j k : ℕ)
      → j < 2 ^ 9
      → k < 2 ^ 9
      → entry t'.mem root i j k ≡ (
          if leb (linear lo.v2 lo.v1 lo.v0) (linear i j k)
            && leb (linear i j k) (linear hi.v2 hi.v1 hi.v0)
          then new (linear i j k)
          else entry t.mem root i j k)

pub record Result {S : Type 0} (P : ℕ → S → (ℕ → ℕ) → Type 0) (root : ℕ) (new : ℕ → ℕ) (lo hi : Vpn)
    (n : ℕ) (t : Tables S) (r : Run (ℕ × Tables S)) : Type 0 where
  pub ppn_end : ℕ
  pub tables : Tables S
  pub ran : r ≡ done (ppn_end, tables)
  pub writes : Written P root new lo hi n t tables

-- On a page of the range whose entry is the old one, the leaf writes the entry `new x`, counts its number on, and takes
-- the allocator from what is said of it at this page to what is said at the next one.
abbrev pub Writes :
    {S : Type 0}
    → (ℕ → ℕ → S → (ℕ → ℕ) → Type 0)
    → Leaf S
    → Vpn
    → Vpn
    → (ℕ → ℕ)
    → (ℕ → ℕ)
    → (ℕ → ℕ → ℕ → ℕ)
    → Type 0
Writes {S} Q leaf lo hi new count old =
    (n i j k p : ℕ) (t : Tables S) (level : ℕ → ℕ)
    → j < 2 ^ 9
    → k < 2 ^ 9
    → linear lo.v2 lo.v1 lo.v0 ≤ linear i j k
    → linear i j k ≤ linear hi.v2 hi.v1 hi.v0
    → t.mem p k ≡ old i j k
    → Q (linear i j k) n t.pages level
    → (s : S) × (leaf p k (count (linear i j k)) t
        ≡ done (
          count (linear i j k + 1),
          record { mem = put t.mem p k (new (linear i j k)); pages = s },
        ))
      × Q (linear i j k + 1) n s level

module _ {S : Type 0} (ops : Pages S) (Q : ℕ → ℕ → S → (ℕ → ℕ) → Type 0)
    (sup : (x : ℕ) → Supply ops (Q x)) (root : ℕ) (lo hi : Vpn) (new count : ℕ → ℕ) (leaf : Leaf S)
    (old : ℕ → ℕ → ℕ → ℕ) (writes : Writes Q leaf lo hi new count old) (range : IsRange lo hi) where
  abbrev U : ℕ → ℕ → ℕ → Tables S → Type 0
  U = Upto ops Q sup root lo hi new count old

  abbrev R : Tables S → ℕ → ℕ → Type 0
  R = Row ops Q sup root lo hi new count old

  -- The loops end with the mapping at page `x`.
  record Loop (x n : ℕ) (r : Run (ℕ × Tables S)) : Type 0 where
    ppn : ℕ
    tables : Tables S
    result : r ≡ done (ppn, tables)
    upto : U x n ppn tables

  record LoopRow (x n i q : ℕ) (r : Run (ℕ × Tables S)) : Type 0 where
    loop : Loop x n r
    row : R loop.tables i q

  old_here :
      (i j k : ℕ) → mapped ops Q sup root lo hi new count old (linear i j k) i j k ≡ old i j k
  old_here i j k = ground arith

  second_loop-step :
      (m p k ppn c : ℕ) (t t' : Tables S)
      → leaf p k ppn t ≡ done (c, t')
      → second_loop leaf (suc m) p k ppn t ≡ second_loop leaf m p (k + 1) c t'
  unfolding second_loop
  second_loop-step m p k ppn c t t' e = rw e refl

  second_loop-zero : (p k ppn : ℕ) (t : Tables S) → second_loop leaf zero p k ppn t ≡ done (ppn, t)
  unfolding second_loop
  second_loop-zero p k ppn t = refl

  second_loop-LoopRow :
      (m n ppn i j k q p y : ℕ) (t : Tables S)
      → i < 2 ^ 9
      → j < 2 ^ 9
      → k + m ≤ 2 ^ 9
      → y ≡ linear i j (k + m)
      → y ≤ linear hi.v2 hi.v1 hi.v0 + 1
      → U (linear i j k) n ppn t
      → R t i q
      → Leads t.mem root i j p
      → LoopRow y n i q (second_loop leaf m p k ppn t)
  second_loop-LoopRow zero n ppn i j k q p y t bi bj bk e top u r l =
      let here : linear i j k ≡ y = omega (arith, e) in
      record {
        loop = record {
          ppn = ppn;
          tables = t;
          result = second_loop-zero p k ppn t;
          upto = subst (λ x. U x n ppn t) here u;
        };
        row = r;
      }
  second_loop-LoopRow (suc m) n ppn i j k q p y t bi bj bk e top u r l =
      let bk' : k < 2 ^ 9 = omega (arith, bk) in
      let x : ℕ = linear i j k in
      let w : (s : S) × (leaf p k (count x) t
            ≡ done (count (x + 1), record { mem = put t.mem p k (new x); pages = s }))
          × Q (x + 1) n s (λ a. (u.at a).level) =
        writes n i j k p t (λ a. (u.at a).level) bj bk' u.reached (omega (arith, e, top))
          (sym (entry-Leads t.mem root i j p k l) ∙ u.entries i j k bj bk' ∙ old_here i j k)
          u.supply in
      let t' : Tables S =
        filled ops Q sup root lo hi new count old n ppn i j k q p t w.0 bj bk' u r l w.2 in
      let next : x + 1 ≡ linear i j (k + 1) = omega arith in
      subst (λ z. LoopRow y n i q z)
        (sym
          (second_loop-step m p k ppn (count (x + 1)) t t' (ap (λ c. leaf p k c t) u.next ∙ w.1)))
        (second_loop-LoopRow m n (count (x + 1)) i j (k + 1) q p y t' bi bj (omega (arith, bk))
          (omega (arith, e)) top
          (subst (λ z. U z n (count (x + 1)) t') next
            (Upto-filled ops Q sup root lo hi new count old n ppn i j k q p t w.0 bj bk' u r l w.2))
          (Row-filled ops Q sup root lo hi new count old n ppn i j k q p t w.0 bj bk' u r l w.2)
          (Leads-filled ops Q sup root lo hi new count old n ppn i j k q p t w.0 bj bk' u r l w.2))

  -- The bounds of the innermost loop.
  module _ (i j : ℕ) (from : lo.v2 ≤ i) (to : i ≤ hi.v2) (from_j : first_low lo i ≤ j)
      (to_j : j ≤ first_high hi i) where
    bounds : (j < 2 ^ 9) × (second_low lo i j ≤ second_high hi i j) × (second_high hi i j < 2 ^ 9)
    unfolding second_low second_high
    bounds = (
      ground (arith, range.hi1),
      ground (arith, range.hi0, range.hi1, range.lo0, range.order),
      ground (arith, range.hi0),
    )

    below_last : linear i j (second_high hi i j) ≤ linear hi.v2 hi.v1 hi.v0
    unfolding second_high
    below_last = ground (arith, to, to_j, range.hi1, range.hi0)

  -- One round of the loop over a table of the second level.
  record Round (y n ppn i j q : ℕ) (t : Tables S) : Type 0 where
    table : ℕ
    found : Tables S
    ensured : ensure ops q j t ≡ done (table, found)
    filled_row : LoopRow y n i q (
        second_loop leaf
          (second_high hi i j + 1 - second_low lo i j)
          table
          (second_low lo i j)
          ppn
          found)

  opening :
      (n ppn i j q : ℕ) (t : Tables S)
      → lo.v2 ≤ i
      → i ≤ hi.v2
      → first_low lo i ≤ j
      → j ≤ first_high hi i
      → U (linear i j (second_low lo i j)) (suc n) ppn t
      → R t i q
      → Round (linear i j (second_high hi i j) + 1) n ppn i j q t
  opening n ppn i j q t from to from_j to_j u r =
      let b : (j < 2 ^ 9)
          × (second_low lo i j ≤ second_high hi i j)
          × (second_high hi i j < 2 ^ 9) =
        bounds i j from to from_j to_j in
      let e : (p : ℕ) × (t' : Tables S) × (ensure ops q j t ≡ done (p, t'))
          × U (linear i j (second_low lo i j)) n ppn t'
          × R t' i q
          × Leads t'.mem root i j p =
        ensure-Leads ops Q sup root lo hi new count old (linear i j (second_low lo i j)) n ppn i j q
          t u r in
      record {
        table = e.0;
        found = e.1;
        ensured = e.2;
        filled_row =
            second_loop-LoopRow (second_high hi i j + 1 - second_low lo i j) n ppn i j
              (second_low lo i j) q e.0 (linear i j (second_high hi i j) + 1) e.1
              (omega (arith, to, range.hi2)) b.0 (omega (arith, b.1, b.2)) (omega (arith, b.1))
              (omega (arith, below_last i j from to from_j to_j)) e.3 e.4 e.5;
      }

  -- The start of the next round.
  module _ (i j : ℕ) (from : lo.v2 ≤ i) (from_j : first_low lo i ≤ j) where
    next_low : second_low lo i (j + 1) ≡ 0
    unfolding second_low
    next_low = ground (arith, from_j)

    next_high : j < first_high hi i → second_high hi i j ≡ 2 ^ 9 - 1
    unfolding second_high
    next_high h = ground (arith, h)

    next_first :
        j < first_high hi i
        → linear i j (second_high hi i j) + 1 ≡ linear i (j + 1) (second_low lo i (j + 1))
    next_first h = omega (arith, next_low, next_high h)

  first_loop-step :
      (y n ppn i j q m : ℕ) (t : Tables S) (w : Round y n ppn i j q t)
      → first_loop ops leaf lo hi (suc m) q i j ppn t
        ≡ first_loop ops leaf lo hi m q i (j + 1) w.filled_row.loop.ppn w.filled_row.loop.tables
  unfolding first_loop
  first_loop-step y n ppn i j q m t w = rw (w.ensured, w.filled_row.loop.result) refl

  first_loop-zero :
      (q i j ppn : ℕ) (t : Tables S) → first_loop ops leaf lo hi zero q i j ppn t ≡ done (ppn, t)
  unfolding first_loop
  first_loop-zero q i j ppn t = refl

  abbrev row_end : ℕ → ℕ
  row_end i = linear i (first_high hi i) (second_high hi i (first_high hi i)) + 1

  first_loop-Loop :
      (m n ppn i j q : ℕ) (t : Tables S)
      → lo.v2 ≤ i
      → i ≤ hi.v2
      → first_low lo i ≤ j
      → j + m ≡ first_high hi i
      → U (linear i j (second_low lo i j)) (suc m + n) ppn t
      → R t i q
      → Loop (row_end i) n (first_loop ops leaf lo hi (suc m) q i j ppn t)
  first_loop-Loop zero n ppn i j q t from to from_j end u r =
      let last : j ≡ first_high hi i = omega (arith, end) in
      let w : Round (linear i j (second_high hi i j) + 1) n ppn i j q t =
        opening n ppn i j q t from to from_j (omega (arith, last))
          (Upto-weaken ops Q sup root lo hi new count old (linear i j (second_low lo i j)) (1 + n)
            (suc n) ppn t (omega arith) u)
          r in
      record {
        ppn = w.filled_row.loop.ppn;
        tables = w.filled_row.loop.tables;
        result =
            first_loop-step (linear i j (second_high hi i j) + 1) n ppn i j q zero t w
            ∙ first_loop-zero q i (j + 1) w.filled_row.loop.ppn w.filled_row.loop.tables;
        upto =
            subst
              (λ x.
                U (linear i x (second_high hi i x) + 1) n w.filled_row.loop.ppn
                  w.filled_row.loop.tables)
              last w.filled_row.loop.upto;
      }
  first_loop-Loop (suc m) n ppn i j q t from to from_j end u r =
      let before : j < first_high hi i = omega (arith, end) in
      let w : Round (linear i j (second_high hi i j) + 1) (suc m + n) ppn i j q t =
        opening (suc m + n) ppn i j q t from to from_j (omega (arith, before))
          (Upto-weaken ops Q sup root lo hi new count old (linear i j (second_low lo i j))
            (suc (suc m) + n) (suc (suc m + n)) ppn t (omega arith) u)
          r in
      subst (λ x. Loop (row_end i) n x)
        (sym
          (first_loop-step (linear i j (second_high hi i j) + 1) (suc m + n) ppn i j q (suc m) t w))
        (first_loop-Loop m n w.filled_row.loop.ppn i (j + 1) q w.filled_row.loop.tables from to
          (omega (arith, from_j)) (omega (arith, end))
          (subst (λ x. U x (suc m + n) w.filled_row.loop.ppn w.filled_row.loop.tables)
            (next_first i j from from_j before) w.filled_row.loop.upto)
          w.filled_row.row)

  -- The bounds of a row, and the start of the next one.
  module _ (i : ℕ) (from : lo.v2 ≤ i) (to : i ≤ hi.v2) where
    row_bounds : (first_low lo i ≤ first_high hi i) × (first_high hi i < 2 ^ 9)
    row_bounds = (
      ground (arith, range.hi0, range.hi1, range.lo0, range.lo1, range.order),
      ground (arith, range.hi1),
    )

    next_row :
        i < hi.v2
        → row_end i
          ≡ linear (i + 1) (first_low lo (i + 1)) (second_low lo (i + 1) (first_low lo (i + 1)))
    unfolding second_low second_high
    next_row h = ground (arith, from, h)

  -- One round of the loop over the root.
  record Rows (y n ppn i : ℕ) (t : Tables S) : Type 0 where
    table : ℕ
    found : Tables S
    ensured : ensure ops root i t ≡ done (table, found)
    filled_rows : Loop y n (
        first_loop ops leaf lo hi
          (first_high hi i + 1 - first_low lo i)
          table
          i
          (first_low lo i)
          ppn
          found)

  abbrev row_start : ℕ → ℕ
  row_start i = linear i (first_low lo i) (second_low lo i (first_low lo i))

  root_round :
      (n ppn i : ℕ) (t : Tables S)
      → lo.v2 ≤ i
      → i ≤ hi.v2
      → U (row_start i) (513 + n) ppn t
      → Rows (row_end i) n ppn i t
  root_round n ppn i t from to u =
      let e : (p : ℕ) × (t' : Tables S) × (ensure ops root i t ≡ done (p, t'))
          × U (row_start i) (512 + n) ppn t'
          × R t' i p =
        ensure-Row ops Q sup root lo hi new count old (row_start i) (512 + n) ppn i t (
          Upto-weaken ops Q sup root lo hi new count old (row_start i) (513 + n) (suc (512 + n)) ppn
            t (omega arith) u) in
      let b : (first_low lo i ≤ first_high hi i) × (first_high hi i < 2 ^ 9) =
        row_bounds i from to in
      let m : ℕ = first_high hi i - first_low lo i in
      let rounds : first_high hi i + 1 - first_low lo i ≡ suc m = omega (arith, b.0) in
      record {
        table = e.0;
        found = e.1;
        ensured = e.2;
        filled_rows =
            subst
              (λ x. Loop (row_end i) n (first_loop ops leaf lo hi x e.0 i (first_low lo i) ppn e.1))
              (sym rounds)
              (first_loop-Loop m n ppn i (first_low lo i) e.0 e.1 from to (omega arith)
                (omega (arith, b.0))
                (Upto-weaken ops Q sup root lo hi new count old (row_start i) (512 + n) (suc m + n)
                  ppn e.1 (omega (arith, b.1)) e.3)
                e.4);
      }

  root_loop-step :
      (y n ppn i m : ℕ) (t : Tables S) (w : Rows y n ppn i t)
      → root_loop ops leaf lo hi (suc m) root i ppn t
        ≡ root_loop ops leaf lo hi m root (i + 1) w.filled_rows.ppn w.filled_rows.tables
  unfolding root_loop
  root_loop-step y n ppn i m t w = rw (w.ensured, w.filled_rows.result) refl

  root_loop-zero :
      (i ppn : ℕ) (t : Tables S) → root_loop ops leaf lo hi zero root i ppn t ≡ done (ppn, t)
  unfolding root_loop
  root_loop-zero i ppn t = refl

  root_loop-Loop :
      (m n ppn i : ℕ) (t : Tables S)
      → lo.v2 ≤ i
      → i + m ≡ hi.v2
      → U (row_start i) (513 * suc m + n) ppn t
      → Loop (row_end hi.v2) n (root_loop ops leaf lo hi (suc m) root i ppn t)
  root_loop-Loop zero n ppn i t from end u =
      let last : i ≡ hi.v2 = omega (arith, end) in
      let w : Rows (row_end i) n ppn i t = root_round n ppn i t from (omega (arith, last)) u in
      record {
        ppn = w.filled_rows.ppn;
        tables = w.filled_rows.tables;
        result =
            root_loop-step (row_end i) n ppn i zero t w
            ∙ root_loop-zero (i + 1) w.filled_rows.ppn w.filled_rows.tables;
        upto =
            subst (λ x. U (row_end x) n w.filled_rows.ppn w.filled_rows.tables) last
              w.filled_rows.upto;
      }
  root_loop-Loop (suc m) n ppn i t from end u =
      let before : i < hi.v2 = omega (arith, end) in
      let left : ℕ = 513 * suc m + n in
      let w : Rows (row_end i) left ppn i t = root_round left ppn i t from (omega (arith, before)) (
        Upto-weaken ops Q sup root lo hi new count old (row_start i) (513 * suc (suc m) + n)
          (513 + left) ppn t (omega arith) u) in
      subst (λ x. Loop (row_end hi.v2) n x)
        (sym (root_loop-step (row_end i) left ppn i (suc m) t w))
        (root_loop-Loop m n w.filled_rows.ppn (i + 1) w.filled_rows.tables (omega (arith, from))
          (omega (arith, end))
          (subst (λ x. U x left w.filled_rows.ppn w.filled_rows.tables)
            (next_row i from (omega (arith, before)) before) w.filled_rows.upto))

  -- Nothing is mapped before the first page.
  start_entries :
      (m : Memory)
      → ((i j k : ℕ) → entry m root i j k ≡ old i j k)
      → (i j k : ℕ)
      → entry m root i j k ≡ mapped ops Q sup root lo hi new count old (row_start lo.v2) i j k
  unfolding second_low
  start_entries m e i j k = e i j k ∙ ground arith

  start_low : linear lo.v2 lo.v1 lo.v0 ≡ row_start lo.v2
  unfolding second_low
  start_low = ground arith

  last_page : row_end hi.v2 ≡ linear hi.v2 hi.v1 hi.v0 + 1
  unfolding second_high
  last_page = ground arith

  -- All rows of the range.
  module _ (m n : ℕ) (t : Tables S) (at : ℕ → Place) (w : Shape t.mem root at)
      (give : Q (linear lo.v2 lo.v1 lo.v0) (513 * suc m + n) t.pages (λ q. (at q).level))
      (end : lo.v2 + m ≡ hi.v2) (same : (i j k : ℕ) → entry t.mem root i j k ≡ old i j k) where
    start : U (row_start lo.v2) (513 * suc m + n) (count (row_start lo.v2)) t
    start = record {
      at = at;
      shape = w;
      supply = subst (λ x. Q x (513 * suc m + n) t.pages (λ q. (at q).level)) start_low give;
      reached = omega (arith, start_low);
      next = refl;
      entries = λ i j k a b. start_entries t.mem same i j k;
    }

    whole :
        Loop
          (row_end hi.v2)
          n
          (root_loop ops leaf lo hi (suc m) root lo.v2 (count (row_start lo.v2)) t)
    whole = root_loop-Loop m n (count (row_start lo.v2)) lo.v2 t (omega arith) end start

    Written-whole : Written (Q (linear hi.v2 hi.v1 hi.v0 + 1)) root new lo hi n t whole.tables
    Written-whole = record {
      at = whole.upto.at;
      shape = whole.upto.shape;
      supply =
          subst (λ x. Q x n whole.tables.pages (λ q. (whole.upto.at q).level)) last_page
            whole.upto.supply;
      entries = λ i j k a b. whole.upto.entries i j k a b ∙ in_range i j k;
    }
      where
        in_range :
            (i j k : ℕ)
            → mapped ops Q sup root lo hi new count old (row_end hi.v2) i j k ≡ (
                if leb (linear lo.v2 lo.v1 lo.v0) (linear i j k)
                  && leb (linear i j k) (linear hi.v2 hi.v1 hi.v0)
                then new (linear i j k)
                else entry t.mem root i j k)
        in_range i j k = ground (arith, last_page, same i j k)

    pub root_loop-Result :
        Result
          (Q (linear hi.v2 hi.v1 hi.v0 + 1))
          root
          new
          lo
          hi
          n
          t
          (root_loop ops leaf lo hi (suc m) root lo.v2 (count (linear lo.v2 lo.v1 lo.v0)) t)
    root_loop-Result =
        subst
          (λ x.
            Result (Q (linear hi.v2 hi.v1 hi.v0 + 1)) root new lo hi n t
              (root_loop ops leaf lo hi (suc m) root lo.v2 (count x) t))
          (sym start_low)
          (record {
            ppn_end = whole.ppn;
            tables = whole.tables;
            ran = whole.result;
            writes = Written-whole;
          })
