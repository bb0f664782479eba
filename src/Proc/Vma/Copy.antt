-- ===== src/Proc/Vma/Copy.antt =====
-- `copy_mm` of arch/riscv/kernel/proc.c copies the areas for a child.
use zju_sys3_sp25_kernel.Base.{
  ℕ, zero, suc, ◌+◌, ◌-◌, ◌*◌, ◌^◌, ◌≤◌, w64, ◌<◌, ◌≡◌, ◌≢◌, ◌∙◌, ap, sym, subst, refl, arith, Bool,
  true, false, List, [], ◌∷◌, eq→==, ne→==, if◌then◌else◌, Run, done, fault, ◌>>=◌,
}
use native.Mathlib.Decide.{ℕ_discrete}
use zju_sys3_sp25_kernel.Proc.Vma.{
  Vma, Slots, MmStruct, Area, nr_vma_slots, update, slot_address, slot_number, moved, moved_link,
  copy_loop, copy_mm, do_mmap,
}
use zju_sys3_sp25_kernel.Proc.Vma.Chain.{has, length, Chain, IsMm}

if-same : (b : Bool) (v : Vma) → (if b then v else v) ≡ v
if-same true v = refl
if-same false v = refl

copied :
    (self : ℕ) (src dst : Slots) (q x : ℕ) (qs : List ℕ)
    → (if has x qs
        then record (src x) { vm_mm = self }
        else update dst q (record (src q) { vm_mm = self }) x)
      ≡ (if has x (q ∷ qs) then record (src x) { vm_mm = self } else dst x)
unfolding update
copied self src dst q x qs = elim (ℕ_discrete x q) [
  | yes e ↦ rw (e, eq→== q q refl) (if-same (has q qs) (record (src q) { vm_mm = self }))
  | no n ↦ rw (ne→== x q n) refl
]

-- A pointer to a slot has the same number in the page that it is moved to.
moved-slot :
    (dst src p : ℕ) → dst < 2 ^ 64 → src < 2 ^ 64 → p ≢ 0 → p ≤ nr_vma_slots → moved dst src p ≡ p
unfolding moved slot_number slot_address
moved-slot dst src p d s n l =
    let back : w64
          (w64 (w64 (src + 24 + 72 * (p - 1)) + w64 (dst + 2 ^ 64 - src)) + 2 ^ 64 - w64 (dst + 24))
        ≡ 72 * (p - 1) =
      omega (arith, d, s, l) in
    rw back (omega (arith, n))

moved_link-slot :
    (dst src p : ℕ) → dst < 2 ^ 64 → src < 2 ^ 64 → p ≤ nr_vma_slots → moved_link dst src p ≡ p
unfolding moved_link
moved_link-slot dst src p d s l = elim (ℕ_discrete p 0) [
  | yes e ↦ rw e refl
  | no n ↦ rw (ne→== p 0 n) (moved-slot dst src p d s n l)
]

moved-nonzero : (dst src p : ℕ) → moved dst src p ≢ 0
unfolding moved slot_number
moved-nonzero dst src p = λ e. omega (arith, e)

-- The loop returns, wherever the copies go.
copy_loop-runs :
    (f self from : ℕ) (src dst : Slots) (prev p q : ℕ) (ps : List ℕ)
    → length ps < f
    → Chain src prev p ps
    → (s : Slots) × (copy_loop f self from src dst p q ≡ done s)
unfolding copy_loop
copy_loop-runs zero self from src dst prev p q ps h c = absurd (omega arith)
copy_loop-runs (suc f) self from src dst prev p q [] h c = (dst, rw c refl)
copy_loop-runs (suc f) self from src dst prev p q (r ∷ rs) h c =
    let v : Vma = src p in
    let next : ℕ = moved_link self from v.vm_next in
    let rest : (s : Slots) × (copy_loop f self from src
            (update dst q
              (record v { vm_mm = self; vm_prev = moved_link self from v.vm_prev; vm_next = next }))
            v.vm_next next
          ≡ done s) =
      copy_loop-runs f self from src _ r v.vm_next next rs (omega arith)
        (subst (λ x. Chain src r (src x).vm_next rs) (sym c.0) c.4) in
    (rest.0, rw (ne→== p 0 (λ e. c.1 (sym c.0 ∙ e))) rest.1)

first_small :
    (s : Slots) (prev p : ℕ) (ps : List ℕ)
    → Chain s prev p ps
    → ((x : ℕ) → has x ps ≡ true → x ≤ nr_vma_slots)
    → p ≤ nr_vma_slots
first_small s prev p [] c b = omega (arith, c)
first_small s prev p (q ∷ qs) c b = omega (arith, c.0, b q (ground arith))

module _ (self from : ℕ) (d : self < 2 ^ 64) (s : from < 2 ^ 64) (src : Slots) where
  copy_loop-step :
      (f : ℕ) (dst : Slots) (p : ℕ)
      → p ≢ 0
      → (src p).vm_prev ≤ nr_vma_slots
      → (src p).vm_next ≤ nr_vma_slots
      → copy_loop (suc f) self from src dst p p
        ≡ copy_loop f self from src
            (update dst p (record (src p) { vm_mm = self }))
            (src p).vm_next
            (src p).vm_next
  unfolding copy_loop
  copy_loop-step f dst p n a b =
      rw
        (
          ne→== p 0 n,
          moved_link-slot self from (src p).vm_prev d s a,
          moved_link-slot self from (src p).vm_next d s b,
        )
        refl

  copy_loop-over :
      (f : ℕ) (dst : Slots) (p : ℕ) → p ≡ 0 → copy_loop (suc f) self from src dst p p ≡ done dst
  unfolding copy_loop
  copy_loop-over f dst p e = rw e refl

  copy_loop-lem :
      (f : ℕ) (dst : Slots) (prev p : ℕ) (ps : List ℕ)
      → length ps < f
      → Chain src prev p ps
      → prev ≤ nr_vma_slots
      → ((x : ℕ) → has x ps ≡ true → x ≤ nr_vma_slots)
      → (s : Slots) × (copy_loop f self from src dst p p ≡ done s)
        × ((x : ℕ) → s x ≡ (if has x ps then record (src x) { vm_mm = self } else dst x))
  copy_loop-lem zero dst prev p ps h c a b = absurd (omega arith)
  copy_loop-lem (suc f) dst prev p [] h c a b = (dst, copy_loop-over f dst p c, λ x. refl)
  copy_loop-lem (suc f) dst prev p (q ∷ qs) h c a b =
      let on : (x : ℕ) → has x qs ≡ true → x ≤ nr_vma_slots = λ x o. b x (ground (arith, o)) in
      let here : q ≤ nr_vma_slots = b q (ground arith) in
      let next : (src q).vm_next ≤ nr_vma_slots = first_small src q (src q).vm_next qs c.4 on in
      let rest : (s : Slots) × (copy_loop f self from src
              (update dst q (record (src q) { vm_mm = self })) (src q).vm_next (src q).vm_next
            ≡ done s)
          × ((x : ℕ)
              → s x ≡ (
                  if has x qs
                  then record (src x) { vm_mm = self }
                  else update dst q (record (src q) { vm_mm = self }) x)) =
        copy_loop-lem f (update dst q (record (src q) { vm_mm = self })) q (src q).vm_next qs
          (omega arith) c.4 here on in
      (
        rest.0,
        ap (λ x. copy_loop (suc f) self from src dst x x) c.0
            ∙ copy_loop-step f dst q c.1 (omega (arith, c.2, a)) next
            ∙ rest.1,
        λ x. rest.2 x ∙ copied self src dst q x qs,
      )

-- The child has the parent's areas, each with its links and bounds, and its own `mm_struct` in them; its
-- free list stays what its page held.
pub record Copied (src dst mm' : MmStruct) (ps : List ℕ) : Type 0 where
  pub chain : Chain mm'.slot 0 mm'.mmap ps
  pub content : (x : ℕ) → has x ps ≡ true → mm'.slot x ≡ record (src.slot x) { vm_mm = dst.self }
  pub count : mm'.num_vmas ≡ length ps
  pub free : mm'.free_vma_list ≡ dst.free_vma_list

Chain-links :
    (s s' : Slots) (prev p : ℕ) (ps : List ℕ)
    → ((x : ℕ)
        → has x ps ≡ true
        → ((s' x).vm_next ≡ (s x).vm_next) × ((s' x).vm_prev ≡ (s x).vm_prev))
    → Chain s prev p ps
    → Chain s' prev p ps
Chain-links s s' prev p [] same c = c
Chain-links s s' prev p (q ∷ qs) same c =
    let at_q : ((s' q).vm_next ≡ (s q).vm_next) × ((s' q).vm_prev ≡ (s q).vm_prev) =
      same q (ground arith) in
    (
      c.0,
      c.1,
      at_q.1 ∙ c.2,
      c.3,
      Chain-links s s' q (s' q).vm_next qs (λ x h. same x (ground (arith, h)))
          (subst (λ n. Chain s q n qs) (sym at_q.0) c.4),
    )

abbrev first_copy : MmStruct → MmStruct → ℕ
first_copy dst src = moved dst.self src.self src.mmap

copy_mm-listed :
    (dst src : MmStruct) (s : Slots)
    → src.mmap ≢ 0
    → copy_loop (nr_vma_slots + 1) dst.self src.self src.slot dst.slot src.mmap (first_copy dst src)
      ≡ done s
    → copy_mm dst src
      ≡ done (record dst { mmap = first_copy dst src; num_vmas = src.num_vmas; slot = s })
unfolding copy_mm
copy_mm-listed dst src s n e = rw (ne→== src.mmap 0 n, e) refl

copy_mm-empty :
    (dst src : MmStruct)
    → src.mmap ≡ 0
    → copy_mm dst src ≡ done (record dst { mmap = 0; num_vmas = 0 })
unfolding copy_mm
copy_mm-empty dst src e = rw e refl

-- On a well-formed list in the slots of its page, with addresses of 64 bits, `copy_mm` returns, with a copy of the list
-- of areas whose links lead to the slots of the same numbers in the new page.
pub copy_mm-Copied :
    (dst src : MmStruct) (ps fs : List ℕ)
    → IsMm src ps fs
    → dst.self < 2 ^ 64
    → src.self < 2 ^ 64
    → ((x : ℕ) → has x ps ≡ true → x ≤ nr_vma_slots)
    → (mm' : MmStruct) × (copy_mm dst src ≡ done mm') × Copied src dst mm' ps
copy_mm-Copied dst src [] fs w d s b = (
  record dst { mmap = 0; num_vmas = 0 },
  copy_mm-empty dst src w.areas,
  record { chain = refl; content = λ x h. absurd (ground (arith, h)); count = refl; free = refl },
)
copy_mm-Copied dst src (p ∷ ps) fs w d s b =
    let listed : src.mmap ≢ 0 = λ z. w.areas.1 (sym w.areas.0 ∙ z) in
    let same : first_copy dst src ≡ src.mmap =
      moved-slot dst.self src.self src.mmap d s listed
        (first_small src.slot 0 src.mmap (p ∷ ps) w.areas b) in
    let run : (s : Slots) × (copy_loop (nr_vma_slots + 1) dst.self src.self src.slot dst.slot
            src.mmap src.mmap
          ≡ done s)
        × ((x : ℕ)
            → s x
              ≡ (if has x (p ∷ ps) then record (src.slot x) { vm_mm = dst.self } else dst.slot x)) =
      copy_loop-lem dst.self src.self d s src.slot (nr_vma_slots + 1) dst.slot 0 src.mmap (p ∷ ps)
        (omega (arith, w.room)) w.areas (omega arith) b in
    (
      record dst { mmap = first_copy dst src; num_vmas = src.num_vmas; slot = run.0 },
      copy_mm-listed dst src run.0 listed (
          ap (copy_loop (nr_vma_slots + 1) dst.self src.self src.slot dst.slot src.mmap) same
          ∙ run.1),
      record {
        chain =
            subst (λ x. Chain run.0 0 x (p ∷ ps)) (sym same)
              (Chain-links src.slot run.0 0 src.mmap (p ∷ ps)
                (λ x h.
                  let at_x : run.0 x ≡ record (src.slot x) { vm_mm = dst.self } =
                    run.2 x ∙ rw h refl in
                  (ap (λ (v : Vma). v.vm_next) at_x, ap (λ (v : Vma). v.vm_prev) at_x))
                w.areas);
        content = λ x h. run.2 x ∙ rw h refl;
        count = w.count;
        free = refl;
      },
    )

do_mmap-exhausted :
    (mm : MmStruct) (a : Area) → mm.mmap ≢ 0 → mm.free_vma_list ≡ 0 → do_mmap mm a ≡ fault
unfolding do_mmap
do_mmap-exhausted mm a n e = rw (ne→== mm.mmap 0 n, e) refl

-- A child whose page held no free list cannot map a further area: `do_mmap` follows a null pointer.
pub do_mmap-copy_mm-fault :
    (dst src : MmStruct) (a : Area) (p : ℕ) (ps fs : List ℕ)
    → IsMm src (p ∷ ps) fs
    → dst.free_vma_list ≡ 0
    → (copy_mm dst src >>= (λ mm'. do_mmap mm' a)) ≡ fault
do_mmap-copy_mm-fault dst src a p ps fs w e =
    let run : (s : Slots) × (copy_loop (nr_vma_slots + 1) dst.self src.self src.slot dst.slot
            src.mmap (first_copy dst src)
          ≡ done s) =
      copy_loop-runs (nr_vma_slots + 1) dst.self src.self src.slot dst.slot 0 src.mmap
        (first_copy dst src) (p ∷ ps) (omega (arith, w.room)) w.areas in
    let copy : MmStruct = record dst {
      mmap = first_copy dst src;
      num_vmas = src.num_vmas;
      slot = run.0;
    } in
    ap (λ (r : Run MmStruct). r >>= (λ mm'. do_mmap mm' a))
      (copy_mm-listed dst src run.0 (λ z. w.areas.1 (sym w.areas.0 ∙ z)) run.1)
    ∙ do_mmap-exhausted copy a (moved-nonzero dst.self src.self src.mmap) e
