-- ===== src/Vm/Sample.antt =====
-- An allocator that hands out one page behind the other, and an empty root table.
use zju_sys3_sp25_kernel.Base.{
  ap, ℕ, ◌+◌, ◌*◌, ◌^◌, ◌≤◌, ◌≡◌, ◌∙◌, sym, refl, arith, true, some, ◌/◌, ◌==◌, if◌then◌else◌, List,
  [], ◌∷◌, done, ◌>>=◌,
}
use zju_sys3_sp25_kernel.Vm.{Memory, clear, Pages, Tables, walk_page_table_pte}
use native.Mathlib.Decide.{ℕ_discrete}
use zju_sys3_sp25_kernel.Mm.{pa2va}
use zju_sys3_sp25_kernel.Vm.Delete.{
  delete_mapping, free_all, leaves_first, owned, delete_mapping-free_all,
}
use zju_sys3_sp25_kernel.Vm.Entry.{child, valid, valid-zero}
use zju_sys3_sp25_kernel.Vm.Shape.{Place, Shape}
use zju_sys3_sp25_kernel.Vm.Range.{Supply}

-- Page `s` of the kernel's map of the memory.
abbrev pub page : ℕ → ℕ
page s = 18446743936270598144 + s * 2 ^ 12

abbrev pub bump : Pages ℕ
bump = record {
  alloc_page = λ s. done (page s, s + 1);
  deref_page = λ p s. done s;
  free_pages = λ p s. done s;
}

-- Pages from `s` on are free, and `n` of them fit.
abbrev pub Free : ℕ → ℕ → (ℕ → ℕ) → Type 0
Free n s level = (s + n ≤ 2 ^ 15) × ((q : ℕ) → page s ≤ q → level q ≡ 0)

pub bump-Supply : Supply bump Free
bump-Supply = record {
  weaken = λ n m s level h f. (omega (arith, f.0, h), f.1);
  gives = λ n s level f. (
    page s,
    s + 1,
    refl,
    f.1 (page s) (omega arith),
    (omega arith, omega arith, omega (arith, f.0)),
    λ level' h. (omega (arith, f.0), λ q b. h q (omega (arith, b)) ∙ f.1 q (omega (arith, b))),
  );
}

abbrev pub places : ℕ → Place
places q = record { level = if q == page 0 then 1 else 0; row = 0; col = 0 }

abbrev pub empty : Tables ℕ
empty = record { mem = λ p i. 0; pages = 1 }

pub empty-Shape : Shape empty.mem (page 0) places
empty-Shape = record {
  top = refl;
  firsts = λ i h. absurd (ground (arith, sym h ∙ valid-zero));
  seconds = λ p j l h. absurd (ground (arith, sym h ∙ valid-zero));
}

pub empty-Free : (n : ℕ) → n ≤ 2048 → Free n 1 (λ q. (places q).level)
empty-Free n h = (omega (arith, h), λ q b. ground (arith, b))

free_all-bump : (ps : List ℕ) (s : ℕ) → free_all bump ps s ≡ done s
unfolding free_all
free_all-bump [] s = refl
free_all-bump (p ∷ ps) s = free_all-bump ps s

pub delete_mapping-bump :
    (root : ℕ) (t : Tables ℕ)
    → delete_mapping bump root t ≡ done (record { mem = clear t.mem root; pages = t.pages })
delete_mapping-bump root t =
    delete_mapping-free_all bump root t
    ∙ ap (λ r. r >>= (λ s. done (record { mem = clear t.mem root; pages = s })))
        (free_all-bump (leaves_first t.mem (owned t.mem (2 ^ 9) root 0)) t.pages)

-- A tree of three tables, with one page that is shared.
abbrev pub shared_mem : Memory
shared_mem p i =
    if p == page 0
    then (if i == 0 then 0x20000401 else 0)
    else (if p == page 1
        then (if i == 0 then 0x20000801 else 0)
        else (if p == page 2 then (if i == 2 then 0x200025d3 else 0) else 0))

abbrev pub shared_places : ℕ → Place
shared_places q = record {
  level = if q == page 0 then 1 else (if q == page 1 then 2 else (if q == page 2 then 3 else 0));
  row = 0;
  col = 0;
}

pub first_child : child 0x20000401 ≡ page 1
unfolding child pa2va
first_child = refl

pub second_child : child 0x20000801 ≡ page 2
unfolding child pa2va
second_child = refl

pub root_entry : (i : ℕ) → valid (shared_mem (page 0) i) ≡ true → i ≡ 0
root_entry i h = elim (ℕ_discrete i 0) [
  | yes e ↦ e
  | no n ↦ absurd (ground (arith, n, h, valid-zero))
]

middle_page : (p : ℕ) → (shared_places p).level ≡ 2 → p ≡ page 1
middle_page p h = ground (arith, h)

pub middle_entry : (j : ℕ) → valid (shared_mem (page 1) j) ≡ true → j ≡ 0
middle_entry j h = elim (ℕ_discrete j 0) [
  | yes e ↦ e
  | no n ↦ absurd (ground (arith, n, h, valid-zero))
]

pub shared-Shape : Shape shared_mem (page 0) shared_places
shared-Shape = record {
  top = refl;
  firsts = λ i h.
      let e : i ≡ 0 = root_entry i h in
      let to : child (shared_mem (page 0) i) ≡ page 1 =
        ap (λ x. child (shared_mem (page 0) x)) e ∙ first_child in
      (ap (λ q. (shared_places q).level) to, sym e);
  seconds = λ p j l h.
      let m : p ≡ page 1 = middle_page p l in
      let e : j ≡ 0 = middle_entry j (ap (λ q. valid (shared_mem q j)) (sym m) ∙ h) in
      let to : child (shared_mem p j) ≡ page 2 =
        ap (λ q. child (shared_mem q j)) m
        ∙ ap (λ x. child (shared_mem (page 1) x)) e
        ∙ second_child in
      (ap (λ q. (shared_places q).level) to, refl, sym e);
}

pub shared_walk : walk_page_table_pte shared_mem (page 0) (0x2345 / 2 ^ 12) ≡ some (page 2, 2)
unfolding walk_page_table_pte valid child pa2va
shared_walk = refl

pub shared_valid : valid (shared_mem (page 2) 2) ≡ true
unfolding valid
shared_valid = refl
