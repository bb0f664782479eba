-- ===== src/Proc/Vma/Chain.antt =====
-- The lists of slots of arch/riscv/kernel/proc.c, as lists of pointers.
use zju_sys3_sp25_kernel.Base.{
  ℕ, suc, ◌+◌, ◌≡◌, ◌≢◌, ◌∙◌, ap, sym, subst, arith, Bool, true, false, List, [], ◌∷◌, ◌==◌, ◌||◌,
}
use zju_sys3_sp25_kernel.Proc.Vma.{Vma, Slots, MmStruct, nr_vma_slots}

abbrev pub has : ℕ → List ℕ → Bool
has a [] = false
has a (x ∷ xs) = (a == x) || has a xs

abbrev pub length : List ℕ → ℕ
length [] = 0
length (x ∷ xs) = suc (length xs)

-- From `p` on, behind `prev`, the slots `ps` are linked both ways, each once.
abbrev pub Chain : Slots → ℕ → ℕ → List ℕ → Type 0
Chain s prev p [] = p ≡ 0
Chain s prev p (q ∷ qs) =
    (p ≡ q) × (q ≢ 0) × ((s q).vm_prev ≡ prev) × (has q qs ≡ false) × Chain s q (s q).vm_next qs

-- From `p` on the slots `ps` are linked by `vm_next`, each once.
abbrev pub FreeChain : Slots → ℕ → List ℕ → Type 0
FreeChain s p [] = p ≡ 0
FreeChain s p (q ∷ qs) = (p ≡ q) × (q ≢ 0) × (has q qs ≡ false) × FreeChain s (s q).vm_next qs

pub Chain-same :
    (s s' : Slots) (prev p : ℕ) (ps : List ℕ)
    → ((x : ℕ) → has x ps ≡ true → s' x ≡ s x)
    → Chain s prev p ps
    → Chain s' prev p ps
Chain-same s s' prev p [] same c = c
Chain-same s s' prev p (q ∷ qs) same c =
    let at_q : s' q ≡ s q = same q (ground arith) in
    (
      c.0,
      c.1,
      ap (λ (v : Vma). v.vm_prev) at_q ∙ c.2,
      c.3,
      Chain-same s s' q (s' q).vm_next qs (λ x h. same x (ground arith))
          (subst (λ n. Chain s q n qs) (sym (ap (λ (v : Vma). v.vm_next) at_q)) c.4),
    )

pub FreeChain-same :
    (s s' : Slots) (p : ℕ) (ps : List ℕ)
    → ((x : ℕ) → has x ps ≡ true → (s' x).vm_next ≡ (s x).vm_next)
    → FreeChain s p ps
    → FreeChain s' p ps
FreeChain-same s s' p [] same c = c
FreeChain-same s s' p (q ∷ qs) same c =
    let at_q : (s' q).vm_next ≡ (s q).vm_next = same q (ground arith) in
    (
      c.0,
      c.1,
      c.2,
      FreeChain-same s s' (s' q).vm_next qs (λ x h. same x (ground arith))
          (subst (λ n. FreeChain s n qs) (sym at_q) c.3),
    )

-- The areas `ps` are linked, the slots `fs` are free, and no slot is both.
pub record IsMm (mm : MmStruct) (ps fs : List ℕ) : Type 0 where
  pub areas : Chain mm.slot 0 mm.mmap ps
  pub frees : FreeChain mm.slot mm.free_vma_list fs
  pub apart : (x : ℕ) → has x ps ≡ true → has x fs ≡ false
  pub count : mm.num_vmas ≡ length ps
  pub room : length ps + length fs ≡ nr_vma_slots
