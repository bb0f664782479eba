-- ===== src/Vm/Delete.antt =====
-- The end of a table's life in arch/riscv/kernel/vm.c: `delete_mapping` frees the tables of the second and the third
-- level that lie in the kernel's range.
use zju_sys3_sp25_kernel.Base.{
  ℕ, zero, suc, ◌+◌, ◌^◌, ◌≡◌, ◌∙◌, ap, sym, refl, Bool, true, false, not, ◌||◌, ltb, leb,
  if◌then◌else◌, List, [], ◌∷◌, ◌++◌, Run, done, halt, no_fuel, fault, ◌>>=◌, Bool-cases, inl, inr,
}
use zju_sys3_sp25_kernel.Vm.{Memory, Pages, Tables, clear}
use zju_sys3_sp25_kernel.Vm.Entry.{valid, child}

abbrev pub vm_start : ℕ
vm_start = 0xffffffe000000000

abbrev pub vm_end : ℕ
vm_end = 0xffffffff00000000

-- `p < VM_START || p >= VM_END`
pub foreign : ℕ → Bool
foreign p = ltb p vm_start || leb vm_end p

-- The loops over the entries of a table of the second level and of the root, from `j` and from `i` on.
pub delete_second : {S : Type 0} → Pages S → Memory → ℕ → ℕ → ℕ → S → Run S
delete_second ops m zero p j s = done s
delete_second ops m (suc n) p j s =
    let pte = m p j in
    let on = delete_second ops m n p (j + 1) in
    if not (valid pte) || foreign (child pte) then on s else ops.free_pages (child pte) s >>= on

pub delete_first : {S : Type 0} → Pages S → Memory → ℕ → ℕ → ℕ → S → Run S
delete_first ops m zero p i s = done s
delete_first ops m (suc n) p i s =
    let pte = m p i in
    let on = delete_first ops m n p (i + 1) in
    if not (valid pte) || foreign (child pte)
    then on s
    else delete_second ops m (2 ^ 9) (child pte) 0 s
      >>= (λ s'. ops.free_pages (child pte) s' >>= on)

pub delete_mapping : {S : Type 0} → Pages S → ℕ → Tables S → Run (Tables S)
delete_mapping ops pgtbl t =
    delete_first ops t.mem (2 ^ 9) pgtbl 0 t.pages
    >>= (λ s. done (record { mem = clear t.mem pgtbl; pages = s }))

-- The tables of the kernel's range that the entries of a table point to, from `j` on.
pub owned : Memory → ℕ → ℕ → ℕ → List ℕ
owned m zero p j = []
owned m (suc n) p j =
    let rest = owned m n p (j + 1) in
    if not (valid (m p j)) || foreign (child (m p j)) then rest else child (m p j) ∷ rest

-- Each table of the list behind the tables that it points to.
pub leaves_first : Memory → List ℕ → List ℕ
leaves_first m [] = []
leaves_first m (p ∷ ps) = owned m (2 ^ 9) p 0 ++ (p ∷ leaves_first m ps)

-- Freeing a list of pages, one behind the other.
unfoldable pub free_all : {S : Type 0} → Pages S → List ℕ → S → Run S
free_all ops [] s = done s
free_all ops (p ∷ ps) s = ops.free_pages p s >>= free_all ops ps

module _ {S : Type 0} (ops : Pages S) (m : Memory) where
  run_assoc :
      {A B C : Type 0} (r : Run A) (f : A → Run B) (g : B → Run C)
      → (r >>= f) >>= g ≡ r >>= (λ x. f x >>= g)
  run_assoc (done x) f g = refl
  run_assoc halt f g = refl
  run_assoc no_fuel f g = refl
  run_assoc fault f g = refl

  run_ext : {A B : Type 0} (r : Run A) (f g : A → Run B) → ((x : A) → f x ≡ g x) → r >>= f ≡ r >>= g
  run_ext (done x) f g h = h x
  run_ext halt f g h = refl
  run_ext no_fuel f g h = refl
  run_ext fault f g h = refl

  free_all-++ :
      (ps qs : List ℕ) (s : S) → free_all ops (ps ++ qs) s ≡ free_all ops ps s >>= free_all ops qs
  unfolding free_all
  free_all-++ [] qs s = refl
  free_all-++ (p ∷ ps) qs s =
      run_ext (ops.free_pages p s) _ _ (λ x. free_all-++ ps qs x)
      ∙ sym (run_assoc (ops.free_pages p s) (free_all ops ps) (free_all ops qs))

  delete_second-owned :
      (n p j : ℕ) (s : S) → delete_second ops m n p j s ≡ free_all ops (owned m n p j) s
  unfolding delete_second owned free_all
  delete_second-owned zero p j s = refl
  delete_second-owned (suc n) p j s =
      elim (Bool-cases (not (valid (m p j)) || foreign (child (m p j)))) [
        | inl e ↦ rw e (delete_second-owned n p (j + 1) s)
        | inr e ↦ rw e (
            run_ext (ops.free_pages (child (m p j)) s) _ _ (λ x. delete_second-owned n p (j + 1) x))
      ]

  owned-step :
      (n p j : ℕ)
      → owned m (suc n) p j ≡ (
          if not (valid (m p j)) || foreign (child (m p j))
          then owned m n p (j + 1)
          else child (m p j) ∷ owned m n p (j + 1))
  unfolding owned
  owned-step n p j = refl

  abbrev doomed : ℕ → ℕ → ℕ → List ℕ
  doomed n p i = leaves_first m (owned m n p i)

  on_skip :
      (n p i : ℕ) (s : S)
      → (not (valid (m p i)) || foreign (child (m p i))) ≡ true
      → delete_first ops m n p (i + 1) s ≡ free_all ops (doomed n p (i + 1)) s
      → delete_first ops m (suc n) p i s ≡ free_all ops (doomed (suc n) p i) s
  unfolding delete_first
  on_skip n p i s e h = rw (owned-step n p i, e) h

  free_all-cons :
      (p : ℕ) (ps : List ℕ) (s : S)
      → free_all ops (p ∷ ps) s ≡ ops.free_pages p s >>= free_all ops ps
  unfolding free_all
  free_all-cons p ps s = refl

  leaves_first-step :
      (c : ℕ) (ps : List ℕ) (s : S)
      → free_all ops (leaves_first m (c ∷ ps)) s
        ≡ delete_second ops m (2 ^ 9) c 0 s
          >>= (λ s'. ops.free_pages c s' >>= free_all ops (leaves_first m ps))
  leaves_first-step c ps s =
      unfold leaves_first in
      free_all-++ (owned m (2 ^ 9) c 0) (c ∷ leaves_first m ps) s
      ∙ ap (λ r. r >>= free_all ops (c ∷ leaves_first m ps))
          (sym (delete_second-owned (2 ^ 9) c 0 s))
      ∙ run_ext (delete_second ops m (2 ^ 9) c 0 s) _ _
          (λ s'. free_all-cons c (leaves_first m ps) s')

  on_free :
      (n p i : ℕ) (s : S)
      → (not (valid (m p i)) || foreign (child (m p i))) ≡ false
      → ((x : S) → delete_first ops m n p (i + 1) x ≡ free_all ops (doomed n p (i + 1)) x)
      → delete_first ops m (suc n) p i s ≡ free_all ops (doomed (suc n) p i) s
  unfolding delete_first
  on_free n p i s e h =
      rw (owned-step n p i, e)
        (run_ext (delete_second ops m (2 ^ 9) (child (m p i)) 0 s) _ _
            (λ s'. run_ext (ops.free_pages (child (m p i)) s') _ _ h)
          ∙ sym (leaves_first-step (child (m p i)) (owned m n p (i + 1)) s))

  delete_first-owned :
      (n p i : ℕ) (s : S)
      → delete_first ops m n p i s ≡ free_all ops (leaves_first m (owned m n p i)) s
  delete_first-owned zero p i s = unfold delete_first owned leaves_first free_all in refl
  delete_first-owned (suc n) p i s =
      elim (Bool-cases (not (valid (m p i)) || foreign (child (m p i)))) [
        | inl e ↦ on_skip n p i s e (delete_first-owned n p (i + 1) s)
        | inr e ↦ on_free n p i s e (λ x. delete_first-owned n p (i + 1) x)
      ]

-- `delete_mapping` frees the tables of the second level in the kernel's range, each behind its own tables of the third
-- level in that range, in the order of the entries; it frees nothing else, and clears the root.
pub delete_mapping-free_all :
    {S : Type 0} (ops : Pages S) (pgtbl : ℕ) (t : Tables S)
    → delete_mapping ops pgtbl t
      ≡ free_all ops (leaves_first t.mem (owned t.mem (2 ^ 9) pgtbl 0)) t.pages
        >>= (λ s. done (record { mem = clear t.mem pgtbl; pages = s }))
unfolding delete_mapping
delete_mapping-free_all ops pgtbl t = rw (delete_first-owned ops t.mem (2 ^ 9) pgtbl 0 t.pages) refl
