-- ===== src/Proc/Vma/First.antt =====
-- `do_mmap` of arch/riscv/kernel/proc.c, on a list that has no area: it sets up the slots of the page.
use zju_sys3_sp25_kernel.Base.{
  ℕ, zero, suc, ◌+◌, ◌-◌, ◌≤◌, ◌<◌, ◌≡◌, ◌≢◌, ◌∙◌, ap, sym, subst, refl, arith, false, List, [],
  ◌∷◌, ◌&&◌, ltb, leb, if◌then◌else◌, w64, done,
}
use zju_sys3_sp25_kernel.Proc.Vma.{
  Vma, Slots, MmStruct, Area, nr_vma_slots, update, set_next, set_prev, fill, finish, do_mmap,
  link_slots, first_slot,
}
use zju_sys3_sp25_kernel.Proc.Vma.Chain.{has, length, FreeChain, IsMm}

-- The slots from `p` on, `n` of them.
abbrev pub run_from : ℕ → ℕ → List ℕ
run_from zero p = []
run_from (suc n) p = p ∷ run_from n (p + 1)

link_slots-next :
    (n p x : ℕ) (s : Slots)
    → (link_slots n p s x).vm_next ≡ (if leb p x && ltb x (p + n) then x + 1 else (s x).vm_next)
unfolding link_slots
link_slots-next zero p x s = ground arith
link_slots-next (suc n) p x s =
    link_slots-next n (p + 1) x (set_next s p (p + 1)) ∙ (unfold set_next update in ground arith)

run_from-below : (n p x : ℕ) → x < p → has x (run_from n p) ≡ false
run_from-below zero p x h = refl
run_from-below (suc n) p x h = ground (arith, run_from-below n (p + 1) x (omega arith))

length-run_from : (n p : ℕ) → length (run_from n p) ≡ n
length-run_from zero p = refl
length-run_from (suc n) p = ap (λ m. suc m) (length-run_from n (p + 1))

-- Slots that follow each other are a list of free ones.
FreeChain-run_from :
    (n p : ℕ) (s : Slots)
    → p ≢ 0
    → ((x : ℕ) → p ≤ x → x < p + n → (s x).vm_next ≡ x + 1)
    → (s (p + n)).vm_next ≡ 0
    → FreeChain s p (run_from (suc n) p)
FreeChain-run_from zero p s nz h e =
    (refl, nz, refl, subst (λ x. (s x).vm_next ≡ 0) (omega arith) e)
FreeChain-run_from (suc n) p s nz h e = (
  refl,
  nz,
  run_from-below (suc n) (p + 1) p (omega arith),
  subst (λ x. FreeChain s x (run_from (suc n) (p + 1))) (sym (h p (omega arith) (omega arith)))
      (FreeChain-run_from n (p + 1) s (omega arith) (λ x a b. h x (omega arith) (omega arith))
        (subst (λ x. (s x).vm_next ≡ 0) (omega arith) e)),
)

-- The writes behind the loop.
module _ (s : Slots) (v : Vma) where
  abbrev after : Slots
  after = update (set_next (set_prev (set_next s nr_vma_slots 0) 1 0) 1 0) 1 v

  after-next : (x : ℕ) → 2 ≤ x → x < 56 → (after x).vm_next ≡ (s x).vm_next
  unfolding update set_next set_prev
  after-next x l h = ground arith

  after-first : v.vm_next ≡ 0 → v.vm_prev ≡ 0 → ((after 1).vm_next ≡ 0) × ((after 1).vm_prev ≡ 0)
  unfolding update
  after-first n p = (n, p)

  after-last : (after 56).vm_next ≡ 0
  unfolding update set_next set_prev
  after-last = ground arith

first_links :
    (s : Slots)
    → ((set_next (set_prev s 1 0) 1 0 1).vm_next ≡ 0)
      × ((set_next (set_prev s 1 0) 1 0 1).vm_prev ≡ 0)
unfolding set_next set_prev update
first_links s = (ground arith, ground arith)

inside :
    (x y : ℕ)
    → 2 ≤ x
    → x < 56
    → (if leb 1 x && ltb x (1 + (nr_vma_slots - 1)) then x + 1 else y) ≡ x + 1
inside x y l h = ground arith

module _ (mm : MmStruct) (a : Area) where
  abbrev started : MmStruct
  started = (finish (record mm { mmap = 1; free_vma_list = 2; slot = first_slot mm }) 1 a).1

  started-next : (x : ℕ) → 2 ≤ x → x < 56 → (started.slot x).vm_next ≡ x + 1
  unfolding finish first_slot
  started-next x l h =
      after-next (link_slots (nr_vma_slots - 1) 1 mm.slot) (fill mm.self a (first_slot mm 1)) x l h
      ∙ link_slots-next (nr_vma_slots - 1) 1 x mm.slot
      ∙ inside x (mm.slot x).vm_next l h

  started-last : (started.slot 56).vm_next ≡ 0
  unfolding finish first_slot
  started-last =
      after-last (link_slots (nr_vma_slots - 1) 1 mm.slot) (fill mm.self a (first_slot mm 1))

  started-first : ((started.slot 1).vm_next ≡ 0) × ((started.slot 1).vm_prev ≡ 0)
  unfolding finish first_slot
  started-first =
      let cleared : ((first_slot mm 1).vm_next ≡ 0) × ((first_slot mm 1).vm_prev ≡ 0) =
        first_links (set_next (link_slots (nr_vma_slots - 1) 1 mm.slot) nr_vma_slots 0) in
      after-first (link_slots (nr_vma_slots - 1) 1 mm.slot) (fill mm.self a (first_slot mm 1))
        cleared.0 cleared.1

  -- On an empty list `do_mmap` succeeds: the area takes the first slot of the page, and the other slots are
  -- the free ones.
  pub do_mmap-IsMm :
      mm.mmap ≡ 0
      → mm.num_vmas ≡ 0
      → (mm' : MmStruct) × (do_mmap mm a ≡ done (a.start, mm'))
        × IsMm mm' (1 ∷ []) (run_from 55 2)
        × ((mm'.slot 1).vm_start ≡ a.start)
        × ((mm'.slot 1).vm_end ≡ w64 (a.start + a.len))
  do_mmap-IsMm e z = (
    started,
    (unfold do_mmap finish in rw e refl),
    record {
      areas = (unfold finish in refl, ground arith, started-first.1, refl, started-first.0);
      frees =
          unfold finish in
          FreeChain-run_from 54 2 started.slot (ground arith) started-next started-last;
      apart = λ x h. run_from-below 55 2 x (ground (arith, h));
      count = unfold finish in ap (λ n. w64 (n + 1)) z;
      room = ap suc (length-run_from 55 2);
    },
    (unfold finish update fill in refl),
    (unfold finish update fill in refl),
  )
