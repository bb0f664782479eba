-- ===== src/Proc/Vma/Remove.antt =====
-- `remove_vma` of arch/riscv/kernel/proc.c takes an area out of the list and frees its slot.
use zju_sys3_sp25_kernel.Base.{
  ℕ, suc, ◌+◌, ◌-◌, ◌^◌, ◌≡◌, ◌≢◌, ◌∙◌, ◌⊎◌, inl, inr, ap, sym, subst, refl, arith, Bool, true,
  false, List, [], ◌∷◌, ◌==◌, Bool-cases, eq→==, ne→==, if◌then◌else◌, w64,
}
use native.Mathlib.Decide.{ℕ_discrete}
use zju_sys3_sp25_kernel.Proc.Vma.{Slots, MmStruct, update, set_next, set_prev, remove_vma}
use zju_sys3_sp25_kernel.Proc.Vma.Chain.{has, length, Chain, FreeChain, FreeChain-same, IsMm}
use zju_sys3_sp25_kernel.Proc.Vma.Insert.{nonzero}
use zju_sys3_sp25_kernel.Proc.Vma.Mmap.{has-ne, not_both, FreeChain-nonzero}

unfoldable pub without : ℕ → List ℕ → List ℕ
without v [] = []
without v (q ∷ qs) = if v == q then qs else q ∷ without v qs

-- The links after the slot `v`, between `a` and `c`, is taken out.
record Unlinked (s s' : Slots) (v a c : ℕ) : Type 0 where
  nexts : (x : ℕ) → x ≢ 0 → x ≢ v → (s' x).vm_next ≡ (if x == a then c else (s x).vm_next)
  prevs : (x : ℕ) → x ≢ 0 → x ≢ v → (s' x).vm_prev ≡ (if x == c then a else (s x).vm_prev)

Chain-apart :
    (s s' : Slots) (v a c prev p : ℕ) (ps : List ℕ)
    → Unlinked s s' v a c
    → has v ps ≡ false
    → has a ps ≡ false
    → has c ps ≡ false
    → Chain s prev p ps
    → Chain s' prev p ps
Chain-apart s s' v a c prev p [] l hv ha hc ch = ch
Chain-apart s s' v a c prev p (q ∷ qs) l hv ha hc ch =
    let ne : q ≢ v = λ e. absurd (ground (arith, hv, e)) in
    let next : (s' q).vm_next ≡ (s q).vm_next = ground (arith, l.nexts q ch.1 ne, ha) in
    (
      ch.0,
      ch.1,
      ground (arith, l.prevs q ch.1 ne, hc, ch.2),
      ch.3,
      subst (λ n. Chain s' q n qs) (sym next)
          (Chain-apart s s' v a c q (s q).vm_next qs l (ground (arith, hv)) (ground (arith, ha))
            (ground (arith, hc)) ch.4),
    )

-- The neighbours of a slot on the list are on it, or at its ends.
next-listed :
    (s : Slots) (v prev p : ℕ) (ps : List ℕ)
    → Chain s prev p ps
    → has v ps ≡ true
    → ((s v).vm_next ≡ 0) ⊎ (has (s v).vm_next ps ≡ true)
next-listed s v prev p [] ch h = absurd (ground (arith, h))
next-listed s v prev p (q ∷ qs) ch h = elim (ℕ_discrete v q) [
  | yes e ↦
      subst (λ u. ((s u).vm_next ≡ 0) ⊎ (has (s u).vm_next (q ∷ qs) ≡ true)) (sym e)
        (next-head s q (s q).vm_next q qs ch.4)
  | no ne ↦ elim (next-listed s v q (s q).vm_next qs ch.4 (ground (arith, h, ne))) [
    | inl z ↦ inl z
    | inr m ↦ inr (ground (arith, m))
  ]
]
  where
    next-head :
        (s : Slots) (prev p q : ℕ) (qs : List ℕ)
        → Chain s prev p qs
        → (p ≡ 0) ⊎ (has p (q ∷ qs) ≡ true)
    next-head s prev p q [] c = inl c
    next-head s prev p q (r ∷ rs) c = inr (ground (arith, c.0))

head-prev :
    (s : Slots) (v prev p : ℕ) (qs : List ℕ)
    → Chain s prev p qs
    → has v qs ≡ true
    → v ≡ p
    → (s v).vm_prev ≡ prev
head-prev s v prev p [] c h e = absurd (ground (arith, h))
head-prev s v prev p (r ∷ rs) c h e = ap (λ x. (s x).vm_prev) (e ∙ c.0) ∙ c.2

prev-listed :
    (s : Slots) (v prev p : ℕ) (ps : List ℕ)
    → Chain s prev p ps
    → has v ps ≡ true
    → v ≢ p
    → has (s v).vm_prev ps ≡ true
prev-listed s v prev p [] ch h ne = absurd (ground (arith, h))
prev-listed s v prev p (q ∷ qs) ch h ne =
    let far : has v qs ≡ true = ground (arith, h, ne, ch.0) in
    elim (ℕ_discrete v (s q).vm_next) [
      | yes e ↦ ground (arith, head-prev s v q (s q).vm_next qs ch.4 far e)
      | no n ↦ ground (arith, prev-listed s v q (s q).vm_next qs ch.4 far n)
    ]

has-without : (v x : ℕ) (ps : List ℕ) → has x ps ≡ false → has x (without v ps) ≡ false
unfolding without
has-without v x [] h = refl
has-without v x (q ∷ qs) h = ground (arith, has-without v x qs (ground (arith, h)), h)

without-next : (v q : ℕ) (qs : List ℕ) → v ≢ q → without v (q ∷ qs) ≡ q ∷ without v qs
unfolding without
without-next v q qs n = rw (ne→== v q n) refl

pub without-here : (v q : ℕ) (qs : List ℕ) → v ≡ q → without v (q ∷ qs) ≡ qs
unfolding without
without-here v q qs e = rw (eq→== v q e) refl

-- The list behind the slot that is taken out.
Chain-behind :
    (s s' : Slots) (v prev c : ℕ) (qs : List ℕ)
    → Unlinked s s' v prev c
    → has v qs ≡ false
    → has prev qs ≡ false
    → Chain s v c qs
    → Chain s' prev c qs
Chain-behind s s' v prev c [] l hv hp ch = ch
Chain-behind s s' v prev c (r ∷ rs) l hv hp ch =
    let ne : r ≢ v = λ e. absurd (ground (arith, hv, e)) in
    let next : (s' r).vm_next ≡ (s r).vm_next = ground (arith, l.nexts r ch.1 ne, hp) in
    let away : has c rs ≡ false = subst (λ x. has x rs ≡ false) (sym ch.0) ch.3 in
    (
      ch.0,
      ch.1,
      ground (arith, l.prevs r ch.1 ne, ch.0),
      ch.3,
      subst (λ n. Chain s' r n rs) (sym next)
          (Chain-apart s s' v prev c r (s r).vm_next rs l (ground (arith, hv)) (ground (arith, hp))
            away ch.4),
    )

if-true : (b : Bool) (x y : ℕ) → b ≡ true → (if b then x else y) ≡ x
if-true b x y e = rw e refl

module _ (s s' : Slots) (v q : ℕ) (qs : List ℕ) (l : Unlinked s s' v (s v).vm_prev (s v).vm_next)
    (ne : v ≢ q) (far : has v qs ≡ true) (nz : q ≢ 0) where
  back_kept :
      (prev : ℕ)
      → has prev (q ∷ qs) ≡ false
      → (s q).vm_prev ≡ prev
      → has q qs ≡ false
      → Chain s q (s q).vm_next qs
      → (s' q).vm_prev ≡ prev
  back_kept prev hp back hq ch =
      let away : q ≢ (s v).vm_next = elim (next-listed s v q (s q).vm_next qs ch far) [
        | inl z ↦ λ e. nz (e ∙ z)
        | inr m ↦ λ e. absurd (ground (arith, hq, subst (λ x. has x qs ≡ true) (sym e) m))
      ] in
      l.prevs q nz (λ e. ne (sym e)) ∙ ground (arith, away, back)

  next_kept :
      has q qs ≡ false
      → Chain s q (s q).vm_next qs
      → (if v == (s q).vm_next then (s v).vm_next else (s q).vm_next) ≡ (s' q).vm_next
  next_kept hq ch = elim (ℕ_discrete v (s q).vm_next) [
    | yes e ↦
        let back : (s v).vm_prev ≡ q = head-prev s v q (s q).vm_next qs ch far e in
        ground (arith, e, back, l.nexts q nz (λ z. ne (sym z)))
    | no n ↦
        let away : q ≢ (s v).vm_prev = λ e. absurd (
          ground (
            arith,
            hq,
            subst (λ x. has x qs ≡ true) (sym e) (prev-listed s v q (s q).vm_next qs ch far n),
          )) in
        ground (arith, n, away, l.nexts q nz (λ z. ne (sym z)))
  ]

Chain-without :
    (s s' : Slots) (v prev p : ℕ) (ps : List ℕ)
    → Unlinked s s' v (s v).vm_prev (s v).vm_next
    → has v ps ≡ true
    → has prev ps ≡ false
    → Chain s prev p ps
    → Chain s' prev (if v == p then (s v).vm_next else p) (without v ps)
Chain-without s s' v prev p [] l h hp ch = absurd (ground (arith, h))
Chain-without s s' v prev p (q ∷ qs) l h hp ch = elim (ℕ_discrete v q) [
  | yes e ↦
      subst (λ ys. Chain s' prev (if v == p then (s v).vm_next else p) ys)
        (sym (without-here v q qs e))
        (subst (λ n. Chain s' prev n qs)
          (sym (if-true (v == p) (s v).vm_next p (eq→== v p (e ∙ sym ch.0))))
          (Chain-behind s s' v prev (s v).vm_next qs
            (subst (λ a. Unlinked s s' v a (s v).vm_next) (ap (λ x. (s x).vm_prev) e ∙ ch.2) l)
            (subst (λ x. has x qs ≡ false) (sym e) ch.3) (ground (arith, hp))
            (subst (λ x. Chain s x (s x).vm_next qs) (sym e) ch.4)))
  | no ne ↦
      let far : has v qs ≡ true = ground (arith, h, ne) in
      let at_p : v ≢ p = λ e. ne (e ∙ ch.0) in
      subst (λ ys. Chain s' prev (if v == p then (s v).vm_next else p) ys)
        (sym (without-next v q qs ne))
        (
          rw (ne→== v p at_p) ch.0,
          ch.1,
          back_kept s s' v q qs l ne far ch.1 prev hp ch.2 ch.3 ch.4,
          has-without v q qs ch.3,
          subst (λ n. Chain s' q n (without v qs)) (next_kept s s' v q qs l ne far ch.1 ch.3 ch.4)
              (Chain-without s s' v q (s q).vm_next qs l far ch.3 ch.4),
        )
]

length-without : (v : ℕ) (ps : List ℕ) → has v ps ≡ true → suc (length (without v ps)) ≡ length ps
unfolding without
length-without v [] h = absurd (ground (arith, h))
length-without v (q ∷ qs) h = elim (ℕ_discrete v q) [
  | yes e ↦ rw (eq→== v q e) refl
  | no ne ↦ rw (ne→== v q ne) (omega (arith, length-without v qs (ground (arith, h, ne))))
]

without_self :
    (s : Slots) (v prev p : ℕ) (ps : List ℕ) → Chain s prev p ps → has v (without v ps) ≡ false
unfolding without
without_self s v prev p [] c = refl
without_self s v prev p (q ∷ qs) c = elim (ℕ_discrete v q) [
  | yes e ↦ rw (eq→== v q e) (subst (λ x. has x qs ≡ false) (sym e) c.3)
  | no ne ↦ rw (ne→== v q ne) (ground (arith, ne, without_self s v q (s q).vm_next qs c.4))
]

without-has : (v x : ℕ) (ps : List ℕ) → has x (without v ps) ≡ true → has x ps ≡ true
without-has v x ps h = elim (Bool-cases (has x ps)) [
  | inl e ↦ e
  | inr e ↦ absurd (ground (arith, h, has-without v x ps e))
]

module _ (mm : MmStruct) (v : ℕ) (ps fs : List ℕ) (w : IsMm mm ps fs) (on : has v ps ≡ true) where
  Unlinked-remove :
      Unlinked mm.slot (remove_vma mm v).slot v (mm.slot v).vm_prev (mm.slot v).vm_next
  unfolding remove_vma update set_next set_prev
  Unlinked-remove = record {
    nexts = λ x nz n. ground (arith, n, nz);
    prevs = λ x nz n. ground (arith, n, nz);
  }

  pub listed_nonzero : v ≢ 0
  listed_nonzero = nonzero mm.slot 0 mm.mmap v ps w.areas on

  listed_once : has v fs ≡ false
  listed_once = w.apart v on

  zero_unlisted : has 0 ps ≡ false
  zero_unlisted = elim (Bool-cases (has 0 ps)) [
    | inl e ↦ absurd (nonzero mm.slot 0 mm.mmap 0 ps w.areas e refl)
    | inr e ↦ e
  ]

  -- A free slot is neither the slot taken out nor one of its neighbours.
  free_link : (x : ℕ) → has x fs ≡ true → ((remove_vma mm v).slot x).vm_next ≡ (mm.slot x).vm_next
  free_link x h =
      let nz : x ≢ 0 = FreeChain-nonzero mm.slot mm.free_vma_list x fs w.frees h in
      let ne : x ≢ v = has-ne x v fs h listed_once in
      let away : x ≢ (mm.slot v).vm_prev = elim (ℕ_discrete v mm.mmap) [
        | yes e ↦ λ z. nz (z ∙ head-prev mm.slot v 0 mm.mmap ps w.areas on e)
        | no n ↦ λ z.
            has-ne (mm.slot v).vm_prev x ps (prev-listed mm.slot v 0 mm.mmap ps w.areas on n)
              (not_both ps fs x w.apart h) (sym z)
      ] in
      Unlinked-remove.nexts x nz ne ∙ ground (arith, away)

  freed_link : ((remove_vma mm v).slot v).vm_next ≡ mm.free_vma_list
  unfolding remove_vma update
  freed_link = ground arith

  freed_head : (remove_vma mm v).free_vma_list ≡ v
  unfolding remove_vma
  freed_head = refl

  -- The slots but the one taken out keep their addresses.
  pub kept_start : (x : ℕ) → x ≢ v → ((remove_vma mm v).slot x).vm_start ≡ (mm.slot x).vm_start
  unfolding remove_vma update set_next set_prev
  kept_start x n = ground (arith, n)

  pub kept_end : (x : ℕ) → x ≢ v → ((remove_vma mm v).slot x).vm_end ≡ (mm.slot x).vm_end
  unfolding remove_vma update set_next set_prev
  kept_end x n = ground (arith, n)

  pub kept_head : (if v == mm.mmap then (mm.slot v).vm_next else mm.mmap) ≡ (remove_vma mm v).mmap
  unfolding remove_vma
  kept_head = refl

  FreeChain-remove : FreeChain (remove_vma mm v).slot v (v ∷ fs)
  FreeChain-remove = (
    refl,
    listed_nonzero,
    listed_once,
    subst (λ n. FreeChain (remove_vma mm v).slot n fs) (sym freed_link)
        (FreeChain-same mm.slot (remove_vma mm v).slot mm.free_vma_list fs free_link w.frees),
  )

  Chain-remove : Chain (remove_vma mm v).slot 0 (remove_vma mm v).mmap (without v ps)
  Chain-remove =
      subst (λ m. Chain (remove_vma mm v).slot 0 m (without v ps)) kept_head
        (Chain-without mm.slot (remove_vma mm v).slot v 0 mm.mmap ps Unlinked-remove on
          zero_unlisted w.areas)

  freed_apart : (x : ℕ) → has x (without v ps) ≡ true → has x (v ∷ fs) ≡ false
  freed_apart x h =
      let ne : x ≢ v = has-ne x v (without v ps) h (without_self mm.slot v 0 mm.mmap ps w.areas) in
      ground (arith, ne, w.apart x (without-has v x ps h))

  -- `remove_vma` takes the slot out of the list, keeps the others in their order with their links both ways,
  -- and puts the slot in front of the free ones.
  pub IsMm-remove_vma : IsMm (remove_vma mm v) (without v ps) (v ∷ fs)
  IsMm-remove_vma = record {
    areas = Chain-remove;
    frees =
        subst (λ n. FreeChain (remove_vma mm v).slot n (v ∷ fs)) (sym freed_head) FreeChain-remove;
    apart = freed_apart;
    count =
        unfold remove_vma in
        ap (λ n. w64 (n + 2 ^ 64 - 1)) w.count ∙ omega (arith, length-without v ps on, w.room);
    room = omega (arith, length-without v ps on, w.room);
  }
