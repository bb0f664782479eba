-- ===== src/Proc/Vma/Find.antt =====
-- `find_vma` of arch/riscv/kernel/proc.c finds the area that contains an address, in a list that is in order.
use zju_sys3_sp25_kernel.Base.{
  ℕ, zero, suc, ◌+◌, ◌^◌, ◌≤◌, ◌<◌, ◌≡◌, ◌≢◌, ◌⊎◌, inl, inr, sym, subst, refl, arith, true, false,
  List, [], ◌∷◌, ◌==◌, ltb, ltb→lt, ltb→ge, Bool-cases, ne→==, done,
}
use native.Mathlib.Decide.{ℕ_discrete}
use zju_sys3_sp25_kernel.Proc.Vma.{
  Slots, MmStruct, Area, nr_vma_slots, find_loop, find_vma, do_mmap,
}
use zju_sys3_sp25_kernel.Proc.Vma.Chain.{has, length, Chain, IsMm}
use zju_sys3_sp25_kernel.Proc.Vma.Insert.{insert}
use zju_sys3_sp25_kernel.Proc.Vma.Mmap.{Inserted, do_mmap-Inserted}

-- From `lo` on the areas `ps` are in order and do not overlap.
abbrev pub Ordered : Slots → ℕ → List ℕ → Type 0
Ordered s lo [] = lo ≤ 2 ^ 64
Ordered s lo (q ∷ qs) =
    (lo ≤ (s q).vm_start) × ((s q).vm_start ≤ (s q).vm_end) × Ordered s (s q).vm_end qs

pub Contains : Slots → ℕ → ℕ → Type 0
Contains s va q = ((s q).vm_start ≤ va) × (va < (s q).vm_end)

-- `r` is the area of `ps` that contains `va`, or 0 if none does.
pub record Finds (s : Slots) (va : ℕ) (ps : List ℕ) (r : ℕ) : Type 0 where
  pub found : r ≢ 0 → (has r ps ≡ true) × Contains s va r
  pub missed : r ≡ 0 → (q : ℕ) → has q ps ≡ true → ¬ Contains s va q

-- Nothing below the list's bound is in an area of it.
below :
    (s : Slots) (va lo q : ℕ) (ps : List ℕ)
    → Ordered s lo ps
    → va < lo
    → has q ps ≡ true
    → ¬ Contains s va q
unfolding Contains
below s va lo q [] o h m c = absurd (ground (arith, m))
below s va lo q (r ∷ rs) o h m c = elim (ℕ_discrete q r) [
  | yes e ↦ absurd (omega (arith, o.0, h, subst (λ x. (s x).vm_start ≤ va) e c.0))
  | no ne ↦ below s va (s r).vm_end q rs o.2 (omega (arith, o.0, o.1, h)) (ground (arith, m, ne)) c
]

-- The three ways out of a round.
module _ (s : Slots) (va q : ℕ) (qs : List ℕ) where
  Finds-none : (lo : ℕ) → va < (s q).vm_start → Ordered s lo (q ∷ qs) → Finds s va (q ∷ qs) 0
  Finds-none lo h o = record {
    found = λ n. absurd (n refl);
    missed = λ z x m. below s va (s q).vm_start x (q ∷ qs) (omega arith, o.1, o.2) h m;
  }

  Finds-here : q ≢ 0 → (s q).vm_start ≤ va → va < (s q).vm_end → Finds s va (q ∷ qs) q
  unfolding Contains
  Finds-here n h i = record { found = λ _. (ground arith, (h, i)); missed = λ z. absurd (n z) }

  Finds-there : (r : ℕ) → (s q).vm_end ≤ va → Finds s va qs r → Finds s va (q ∷ qs) r
  unfolding Contains
  Finds-there r h w = record {
    found = λ n. (ground (arith, (w.found n).0), (w.found n).1);
    missed = λ z x m c. elim (ℕ_discrete x q) [
      | yes e ↦ absurd (omega (arith, h, subst (λ y. va < (s y).vm_end) e c.1))
      | no ne ↦ w.missed z x (ground (arith, m, ne)) c
    ];
  }

find_loop-Finds :
    (f : ℕ) (s : Slots) (va lo prev p : ℕ) (ps : List ℕ)
    → length ps < f
    → Chain s prev p ps
    → Ordered s lo ps
    → (r : ℕ) × (find_loop f s va p ≡ done r) × Finds s va ps r
unfolding find_loop
find_loop-Finds zero s va lo prev p ps h c o = absurd (omega arith)
find_loop-Finds (suc f) s va lo prev p [] h c o = (
  0,
  rw c refl,
  record { found = λ n. absurd (n refl); missed = λ z q m k. absurd (ground (arith, m)) },
)
find_loop-Finds (suc f) s va lo prev p (q ∷ qs) h c o =
    let ne : (q == 0) ≡ false = ne→== q 0 c.1 in
    elim (Bool-cases (ltb va (s q).vm_start)) [
      | inl e ↦ (0, rw (c.0, ne, e) refl, Finds-none s va q qs lo (ltb→lt va (s q).vm_start e) o)
      | inr e ↦ elim (Bool-cases (ltb va (s q).vm_end)) [
        | inl i ↦ (
          q,
          rw (c.0, ne, e, i) refl,
          Finds-here s va q qs c.1 (ltb→ge va (s q).vm_start e) (ltb→lt va (s q).vm_end i),
        )
        | inr n ↦
            let rest : (r : ℕ) × (find_loop f s va (s q).vm_next ≡ done r) × Finds s va qs r =
              find_loop-Finds f s va (s q).vm_end q (s q).vm_next qs (omega arith) c.4 o.2 in
            (
              rest.0,
              rw (c.0, ne, e, n) rest.1,
              Finds-there s va q qs rest.0 (ltb→ge va (s q).vm_end n) rest.2,
            )
      ]
    ]

-- On a list in order `find_vma` returns, and the pointer that it returns is the area that contains the
-- address, or NULL exactly when no area does.
pub find_vma-Finds :
    (mm : MmStruct) (va : ℕ) (ps fs : List ℕ)
    → IsMm mm ps fs
    → Ordered mm.slot 0 ps
    → (r : ℕ) × (find_vma mm va ≡ done r) × Finds mm.slot va ps r
unfolding find_vma
find_vma-Finds mm va ps fs w o =
    find_loop-Finds (nr_vma_slots + 1) mm.slot va 0 0 mm.mmap ps (omega (arith, w.room)) w.areas o

-- An area that overlaps none of the list.
abbrev pub Fits : Slots → Area → List ℕ → Type 0
Fits s a ps =
    (q : ℕ) → has q ps ≡ true → ((s q).vm_end ≤ a.start) ⊎ (a.start + a.len ≤ (s q).vm_start)

Ordered-same :
    (s s' : Slots) (lo : ℕ) (ps : List ℕ)
    → ((x : ℕ) → has x ps ≡ true → (s' x).vm_start ≡ (s x).vm_start)
    → ((x : ℕ) → has x ps ≡ true → (s' x).vm_end ≡ (s x).vm_end)
    → Ordered s lo ps
    → Ordered s' lo ps
Ordered-same s s' lo [] ss es o = o
Ordered-same s s' lo (q ∷ qs) ss es o =
    let at_start : (s' q).vm_start ≡ (s q).vm_start = ss q (ground arith) in
    let at_end : (s' q).vm_end ≡ (s q).vm_end = es q (ground arith) in
    (
      omega (arith, at_start, o.0),
      omega (arith, at_start, at_end, o.1),
      subst (λ n. Ordered s' n qs) (sym at_end)
          (Ordered-same s s' (s q).vm_end qs (λ x h. ss x (ground (arith, h)))
            (λ x h. es x (ground (arith, h))) o.2),
    )

Ordered-insert :
    (s s' : Slots) (a : Area) (v lo : ℕ) (ps : List ℕ)
    → (s' v).vm_start ≡ a.start
    → (s' v).vm_end ≡ a.start + a.len
    → ((x : ℕ) → has x ps ≡ true → (s' x).vm_start ≡ (s x).vm_start)
    → ((x : ℕ) → has x ps ≡ true → (s' x).vm_end ≡ (s x).vm_end)
    → 0 < a.len
    → a.start + a.len ≤ 2 ^ 64
    → Fits s a ps
    → lo ≤ a.start
    → Ordered s lo ps
    → Ordered s' lo (insert s a.start v ps)
unfolding insert
Ordered-insert s s' a v lo [] st en ss es pos top fits h o =
    (omega (arith, st, h), omega (arith, st, en), omega (arith, en, top))
Ordered-insert s s' a v lo (q ∷ qs) st en ss es pos top fits h o =
    let at_start : (s' q).vm_start ≡ (s q).vm_start = ss q (ground arith) in
    let at_end : (s' q).vm_end ≡ (s q).vm_end = es q (ground arith) in
    let far : ((s q).vm_end ≤ a.start) ⊎ (a.start + a.len ≤ (s q).vm_start) =
      fits q (ground arith) in
    let tail : Ordered s' (s q).vm_end qs =
      Ordered-same s s' (s q).vm_end qs (λ x m. ss x (ground (arith, m)))
        (λ x m. es x (ground (arith, m))) o.2 in
    elim (Bool-cases (ltb a.start (s q).vm_start)) [
      | inl e ↦ rw e (
        omega (arith, st, h),
        omega (arith, st, en),
        (
          ground (arith, far, en, at_start, o.1, ltb→lt a.start (s q).vm_start e),
          omega (arith, at_start, at_end, o.1),
          subst (λ n. Ordered s' n qs) (sym at_end) tail,
        ),
      )
      | inr e ↦ rw e (
        omega (arith, at_start, o.0),
        omega (arith, at_start, at_end, o.1),
        subst (λ n. Ordered s' n (insert s a.start v qs)) (sym at_end)
            (Ordered-insert s s' a v (s q).vm_end qs st en (λ x m. ss x (ground (arith, m)))
              (λ x m. es x (ground (arith, m))) pos top (λ x m. fits x (ground (arith, m)))
              (ground (arith, far, pos, ltb→ge a.start (s q).vm_start e)) o.2),
      )
    ]

-- An area that fits in keeps the list in order, so that `find_vma` goes on finding every address.
pub do_mmap-Ordered :
    (mm : MmStruct) (a : Area) (p v : ℕ) (ps fs : List ℕ)
    → IsMm mm (p ∷ ps) (v ∷ fs)
    → Ordered mm.slot 0 (p ∷ ps)
    → 0 < a.len
    → a.start + a.len < 2 ^ 64
    → Fits mm.slot a (p ∷ ps)
    → (mm' : MmStruct) × (do_mmap mm a ≡ done (a.start, mm'))
      × IsMm mm' (insert mm.slot a.start v (p ∷ ps)) fs
      × Ordered mm'.slot 0 (insert mm.slot a.start v (p ∷ ps))
do_mmap-Ordered mm a p v ps fs w o pos top fits =
    let run : (mm' : MmStruct) × (do_mmap mm a ≡ done (a.start, mm'))
        × Inserted mm mm' a v (p ∷ ps) fs =
      do_mmap-Inserted mm a p v ps fs w in
    (
      run.0,
      run.1,
      run.2.linked,
      Ordered-insert mm.slot run.0.slot a v 0 (p ∷ ps) run.2.at_start
          (omega (arith, run.2.at_end, top)) run.2.starts run.2.ends pos (omega arith) fits
          (omega arith) o,
    )
