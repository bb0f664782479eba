-- ===== src/Vm/Recycle.antt =====
-- An allocator that hands out the pages that were given back before new ones, as mm.c does, and a tree of three tables
-- with one page that is mapped.
use zju_sys3_sp25_kernel.Base.{
  ap, ℕ, suc, ◌+◌, ◌^◌, ◌≤◌, ◌<◌, ◌≡◌, ◌≢◌, ◌∙◌, sym, refl, subst, arith, true, false, ◌/◌, ◌%◌,
  ◌==◌, List, [], ◌∷◌, done, Bool-cases, inl, inr, Run,
}
use native.Mathlib.Decide.{ℕ_discrete}
use zju_sys3_sp25_kernel.Mm.{pa2va}
use zju_sys3_sp25_kernel.Proc.Vma.Chain.{has}
use zju_sys3_sp25_kernel.Vm.{Pages, Tables}
use zju_sys3_sp25_kernel.Vm.Entry.{IsPage, child, valid, valid-zero}
use zju_sys3_sp25_kernel.Vm.Shape.{Leads, entry, entry-none, entry-none_below, entry-Leads}
use zju_sys3_sp25_kernel.Vm.Range.{Supply}
use zju_sys3_sp25_kernel.Vm.Unmap.{Tracks, unset, numbered}
use zju_sys3_sp25_kernel.Vm.Sample.{
  page, shared_mem, shared_places, root_entry, middle_entry, first_child, second_child,
}

-- The number of the next new page, and the pages that were given back.
abbrev pub Heap : Type 0
Heap = ℕ × List ℕ

abbrev take : ℕ → List ℕ → Run (ℕ × Heap)
take next [] = done (page next, (next + 1, []))
take next (q ∷ qs) = done (q, (next, qs))

abbrev pub recycle : Pages Heap
recycle = record {
  alloc_page = λ s. take s.0 s.1;
  deref_page = λ p s. done (s.0, p ∷ s.1);
  free_pages = λ p s. done s;
}

abbrev Distinct : List ℕ → Type 0
Distinct [] = Unit
Distinct (q ∷ qs) = (has q qs ≡ false) × Distinct qs

-- `n` new pages are left, the pages that were given back are no tables, and each mapped page has one entry, is no table, and
-- has not been given back.
pub record Known (entries : ℕ → ℕ) (n : ℕ) (s : Heap) (level : ℕ → ℕ) : Type 0 where
  room : s.0 + n ≤ 2 ^ 15
  new : (q : ℕ) → page s.0 ≤ q → level q ≡ 0
  back : (q : ℕ) → has q s.1 ≡ true → IsPage q × (level q ≡ 0) × (q < page s.0)
  distinct : Distinct s.1
  held :
      (x : ℕ)
      → x < 2 ^ 26
      → valid (entries x) ≡ true
      → IsPage (child (entries x))
        × (level (child (entries x)) ≡ 0)
        × (child (entries x) < page s.0)
        × (has (child (entries x)) s.1 ≡ false)
  once :
      (x y : ℕ)
      → x < 2 ^ 26
      → y < 2 ^ 26
      → valid (entries x) ≡ true
      → valid (entries y) ≡ true
      → child (entries x) ≡ child (entries y)
      → x ≡ y

Known-Supply : (entries : ℕ → ℕ) → Supply recycle (Known entries)
Known-Supply entries = record {
  weaken = λ n m s level h k. record {
    room = omega (arith, k.room, h);
    new = k.new;
    back = k.back;
    distinct = k.distinct;
    held = k.held;
    once = k.once;
  };
  gives = λ n s level k. given n s.0 s.1 level k;
}
  where
    given :
        (n next : ℕ) (l : List ℕ) (level : ℕ → ℕ)
        → Known entries (suc n) (next, l) level
        → (p : ℕ) × (s' : Heap) × (take next l ≡ done (p, s'))
          × (level p ≡ 0)
          × IsPage p
          × ((level' : ℕ → ℕ) → ((q : ℕ) → q ≢ p → level' q ≡ level q) → Known entries n s' level')
    given n next [] level k = (
      page next,
      (next + 1, []),
      refl,
      k.new (page next) (omega arith),
      (omega arith, omega arith, omega (arith, k.room)),
      λ level' h. record {
        room = omega (arith, k.room);
        new = λ q b. h q (omega (arith, b)) ∙ k.new q (omega (arith, b));
        back = λ q b. absurd (ground (arith, b));
        distinct = tt;
        held = λ x u v.
            let c : IsPage (child (entries x))
                × (level (child (entries x)) ≡ 0)
                × (child (entries x) < page next)
                × (has (child (entries x)) [] ≡ false) =
              k.held x u v in
            (c.0, h (child (entries x)) (omega (arith, c.2)) ∙ c.1, omega (arith, c.2), refl);
        once = k.once;
      },
    )
    given n next (r ∷ rs) level k =
        let b : IsPage r × (level r ≡ 0) × (r < page next) = k.back r (ground arith) in
        (
          r,
          (next, rs),
          refl,
          b.1,
          b.0,
          λ level' h. record {
            room = omega (arith, k.room);
            new = λ q l. h q (omega (arith, l, b.2)) ∙ k.new q l;
            back = λ q o.
                let c : IsPage q × (level q ≡ 0) × (q < page next) = k.back q (ground (arith, o)) in
                let apart : q ≢ r =
                  λ e. absurd (ground (arith, k.distinct.0, ap (λ z. has z rs) (sym e), o)) in
                (c.0, h q apart ∙ c.1, c.2);
            distinct = k.distinct.1;
            held = λ x u v.
                let c : IsPage (child (entries x))
                    × (level (child (entries x)) ≡ 0)
                    × (child (entries x) < page next)
                    × (has (child (entries x)) (r ∷ rs) ≡ false) =
                  k.held x u v in
                let apart : child (entries x) ≢ r = λ e. absurd (ground (arith, c.3, e)) in
                (c.0, h (child (entries x)) apart ∙ c.1, c.2, ground (arith, c.3));
            once = k.once;
          },
        )

-- Clearing an entry that is not valid, or whose page is given back.
unset-valid :
    (entries : ℕ → ℕ) (x y : ℕ)
    → valid (unset entries x y) ≡ true
    → (y ≢ x) × (unset entries x y ≡ entries y)
unset-valid entries x y v = elim (Bool-cases (y == x)) [
  | inl e ↦ absurd (ground (arith, e, v, valid-zero))
  | inr e ↦ (ground (arith, e), rw e refl)
]

Known-unset :
    (entries : ℕ → ℕ) (n x : ℕ) (s : Heap) (level : ℕ → ℕ) (l : List ℕ)
    → Known entries n s level
    → ((q : ℕ) → has q l ≡ true → IsPage q × (level q ≡ 0) × (q < page s.0))
    → Distinct l
    → ((y : ℕ) → y < 2 ^ 26 → y ≢ x → valid (entries y) ≡ true → has (child (entries y)) l ≡ false)
    → Known (unset entries x) n (s.0, l) level
Known-unset entries n x s level l k back distinct away = record {
  room = k.room;
  new = k.new;
  back = back;
  distinct = distinct;
  held = λ y u v.
      let o : (y ≢ x) × (unset entries x y ≡ entries y) = unset-valid entries x y v in
      let w : valid (entries y) ≡ true = ap valid (sym o.1) ∙ v in
      let c : IsPage (child (entries y))
          × (level (child (entries y)) ≡ 0)
          × (child (entries y) < page s.0)
          × (has (child (entries y)) s.1 ≡ false) =
        k.held y u w in
      subst
        (λ e.
          IsPage (child e)
          × (level (child e) ≡ 0)
          × (child e < page s.0)
          × (has (child e) l ≡ false))
        (sym o.1) (c.0, c.1, c.2, away y u o.0 w);
  once = λ y z u u' v v' e.
      let o : (y ≢ x) × (unset entries x y ≡ entries y) = unset-valid entries x y v in
      let o' : (z ≢ x) × (unset entries x z ≡ entries z) = unset-valid entries x z v' in
      k.once y z u u' (ap valid (sym o.1) ∙ v) (ap valid (sym o'.1) ∙ v')
        (ap child (sym o.1) ∙ e ∙ ap child o'.1);
}

pub recycle-Tracks : Tracks recycle Known
recycle-Tracks = record {
  supply = Known-Supply;
  drops = λ entries n x s level u v k.
      let c : IsPage (child (entries x))
          × (level (child (entries x)) ≡ 0)
          × (child (entries x) < page s.0)
          × (has (child (entries x)) s.1 ≡ false) =
        k.held x u v in
      (
        (s.0, child (entries x) ∷ s.1),
        refl,
        Known-unset entries n x s level (child (entries x) ∷ s.1) k
            (λ q o. elim (ℕ_discrete q (child (entries x))) [
              | yes e ↦
                  subst (λ r. IsPage r × (level r ≡ 0) × (r < page s.0)) (sym e) (c.0, c.1, c.2)
              | no m ↦ k.back q (ground (arith, o, m))
            ])
            (c.3, k.distinct)
            (λ y b m w.
              let apart : child (entries y) ≢ child (entries x) = λ e. m (k.once y x b u w v e) in
              ground (arith, apart, (k.held y b w).3)),
      );
  skips = λ entries n x s level u v k.
      Known-unset entries n x s level s.1 k k.back k.distinct (λ y b m w. (k.held y b w).3);
}

pub recycle-Supply : (entries : ℕ → ℕ) → Supply recycle (Known entries)
recycle-Supply entries = recycle-Tracks.supply entries

-- The tree of three tables, with 10 pages handed out.
abbrev pub shared : Tables Heap
shared = record { mem = shared_mem; pages = (10, []) }

data_child : child 0x200025d3 ≡ page 9
unfolding child pa2va
data_child = refl

pub last_entry : (k : ℕ) → valid (shared_mem (page 2) k) ≡ true → k ≡ 2
last_entry k h = elim (ℕ_discrete k 2) [
  | yes e ↦ e
  | no n ↦ absurd (ground (arith, n, h, valid-zero))
]

-- The one valid entry of the tree.
mapped_entry :
    (i j k : ℕ) → valid (entry shared_mem (page 0) i j k) ≡ true → (i ≡ 0) × (j ≡ 0) × (k ≡ 2)
mapped_entry i j k v = elim (Bool-cases (valid (shared_mem (page 0) i))) [
  | inr n ↦
      absurd
        (ground (arith, ap valid (sym (entry-none shared_mem (page 0) i j k n)) ∙ v, valid-zero))
  | inl y ↦
      let e : i ≡ 0 = root_entry i y in
      let to : child (shared_mem (page 0) i) ≡ page 1 =
        ap (λ x. child (shared_mem (page 0) x)) e ∙ first_child in
      elim (Bool-cases (valid (shared_mem (child (shared_mem (page 0) i)) j))) [
        | inr n ↦ absurd (
            ground (
              arith,
              ap valid (sym (entry-none_below shared_mem (page 0) i j k y n)) ∙ v,
              valid-zero,
            ))
        | inl z ↦
            let f : j ≡ 0 = middle_entry j (ap (λ q. valid (shared_mem q j)) (sym to) ∙ z) in
            let last : child (shared_mem (child (shared_mem (page 0) i)) j) ≡ page 2 =
              ap (λ q. child (shared_mem q j)) to
              ∙ ap (λ x. child (shared_mem (page 1) x)) f
              ∙ second_child in
            let l : Leads shared_mem (page 0) i j (page 2) = record {
              first = y;
              second = z;
              table = last;
            } in
            (
              e,
              f,
              last_entry k (ap valid (sym (entry-Leads shared_mem (page 0) i j (page 2) k l)) ∙ v),
            )
      ]
]

mapped_number : (x : ℕ) → valid (numbered shared_mem (page 0) x) ≡ true → x ≡ 2
mapped_number x v =
    let e : (x / 2 ^ 18 ≡ 0) × (x / 2 ^ 9 % 2 ^ 9 ≡ 0) × (x % 2 ^ 9 ≡ 2) =
      mapped_entry (x / 2 ^ 18) (x / 2 ^ 9 % 2 ^ 9) (x % 2 ^ 9) v in
    omega (arith, e.0, e.1, e.2)

mapped_page : child (numbered shared_mem (page 0) 2) ≡ page 9
unfolding valid
mapped_page =
    let l : Leads shared_mem (page 0) 0 0 (page 2) = record {
      first = refl;
      second = ap (λ q. valid (shared_mem q 0)) first_child;
      table = ap (λ q. child (shared_mem q 0)) first_child ∙ second_child;
    } in
    ap child (entry-Leads shared_mem (page 0) 0 0 (page 2) 2 l) ∙ data_child

pub shared-Known :
    (n : ℕ)
    → n ≤ 2048
    → Known (numbered shared_mem (page 0)) n (10, []) (λ q. (shared_places q).level)
shared-Known n h = record {
  room = omega (arith, h);
  new = λ q b. ground (arith, b);
  back = λ q b. absurd (ground (arith, b));
  distinct = tt;
  held = λ x u v.
      let to : child (numbered shared_mem (page 0) x) ≡ page 9 =
        ap (λ y. child (numbered shared_mem (page 0) y)) (mapped_number x v) ∙ mapped_page in
      subst (λ c. IsPage c × ((shared_places c).level ≡ 0) × (c < page 10) × (has c [] ≡ false))
        (sym to) ((omega arith, omega arith, omega arith), refl, omega arith, refl);
  once = λ x y u u' v v' e. mapped_number x v ∙ sym (mapped_number y v');
}
