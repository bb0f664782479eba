-- ===== src/Proc/Vma/Insert.antt =====
-- `do_mmap` of arch/riscv/kernel/proc.c links a new area in, before the first one that starts behind it.
use zju_sys3_sp25_kernel.Base.{
  ℕ, zero, suc, ◌<◌, ◌≡◌, ◌≢◌, ◌∙◌, ◌⊎◌, inl, inr, ap, sym, subst, refl, arith, true, false, List,
  [], ◌∷◌, ◌==◌, ◌||◌, ltb, Bool-cases, ne→==, if◌then◌else◌, done,
}
use native.Mathlib.Decide.{ℕ_discrete}
use zju_sys3_sp25_kernel.Proc.Vma.{Slots, update, place_loop, link_in}
use zju_sys3_sp25_kernel.Proc.Vma.Chain.{has, length, Chain}

-- The new slot goes before the first area that starts behind `va`.
unfoldable pub insert : Slots → ℕ → ℕ → List ℕ → List ℕ
insert s va vma [] = vma ∷ []
insert s va vma (q ∷ qs) = if ltb va (s q).vm_start then vma ∷ q ∷ qs else q ∷ insert s va vma qs

-- Its neighbours.
unfoldable pub place : Slots → ℕ → ℕ → List ℕ → ℕ × ℕ
place s va prev [] = (prev, 0)
place s va prev (q ∷ qs) = if ltb va (s q).vm_start then (prev, q) else place s va q qs

-- The choice at an area.
module _ (s : Slots) (va vma prev q : ℕ) (qs : List ℕ) where
  pub place-here : ltb va (s q).vm_start ≡ true → place s va prev (q ∷ qs) ≡ (prev, q)
  unfolding place
  place-here e = rw e

  pub place-next : ltb va (s q).vm_start ≡ false → place s va prev (q ∷ qs) ≡ place s va q qs
  unfolding place
  place-next e = rw e

  pub insert-here : ltb va (s q).vm_start ≡ true → insert s va vma (q ∷ qs) ≡ vma ∷ q ∷ qs
  unfolding insert
  insert-here e = rw e

  pub insert-next :
      ltb va (s q).vm_start ≡ false → insert s va vma (q ∷ qs) ≡ q ∷ insert s va vma qs
  unfolding insert
  insert-next e = rw e

pub place_loop-place :
    (f : ℕ) (s : Slots) (va prev p : ℕ) (ps : List ℕ)
    → length ps < f
    → Chain s prev p ps
    → place_loop f s va prev p ≡ done (place s va prev ps)
unfolding place_loop place
place_loop-place zero s va prev p ps h c = absurd (omega arith)
place_loop-place (suc f) s va prev p [] h c = rw c
place_loop-place (suc f) s va prev p (q ∷ qs) h c =
    rw (c.0, ne→== q 0 c.1)
      (elim (Bool-cases (ltb va (s q).vm_start)) [
        | inl e ↦ rw e
        | inr e ↦ rw e (place_loop-place f s va q (s q).vm_next qs (omega arith) c.4)
      ])

has-here : (a : ℕ) (xs : List ℕ) → has a (a ∷ xs) ≡ true
has-here a xs = ground arith

has-there : (a x : ℕ) (xs : List ℕ) → has a xs ≡ true → has a (x ∷ xs) ≡ true
has-there a x xs h = ground arith

-- Each neighbour is at the list's ends or on it.
pub place-prev :
    (s : Slots) (va prev : ℕ) (ps : List ℕ)
    → ((place s va prev ps).0 ≡ prev) ⊎ (has (place s va prev ps).0 ps ≡ true)
place-prev s va prev [] = unfold place in inl refl
place-prev s va prev (q ∷ qs) = elim (Bool-cases (ltb va (s q).vm_start)) [
  | inl e ↦ inl (ap (λ (n : ℕ × ℕ). n.0) (place-here s va 0 prev q qs e))
  | inr e ↦ inr (
      subst (λ (n : ℕ × ℕ). has n.0 (q ∷ qs) ≡ true) (sym (place-next s va 0 prev q qs e))
        (elim (place-prev s va q qs) [
          | inl h ↦ subst (λ n. has n (q ∷ qs) ≡ true) (sym h) (has-here q qs)
          | inr h ↦ has-there (place s va q qs).0 q qs h
        ]))
]

pub place-curr :
    (s : Slots) (va prev : ℕ) (ps : List ℕ)
    → ((place s va prev ps).1 ≡ 0) ⊎ (has (place s va prev ps).1 ps ≡ true)
place-curr s va prev [] = unfold place in inl refl
place-curr s va prev (q ∷ qs) = elim (Bool-cases (ltb va (s q).vm_start)) [
  | inl e ↦ inr (
      subst (λ (n : ℕ × ℕ). has n.1 (q ∷ qs) ≡ true) (sym (place-here s va 0 prev q qs e))
        (has-here q qs))
  | inr e ↦
      subst (λ (n : ℕ × ℕ). (n.1 ≡ 0) ⊎ (has n.1 (q ∷ qs) ≡ true))
        (sym (place-next s va 0 prev q qs e))
        (elim (place-curr s va q qs) [
          | inl h ↦ inl h
          | inr h ↦ inr (has-there (place s va q qs).1 q qs h)
        ])
]

-- What the links are after `link_in`.
module _ (s : Slots) (mmap vma prev curr x : ℕ) (nx : x ≢ 0) (nv : vma ≢ 0) (np : prev ≢ vma)
    (nc : curr ≢ vma) (apart : prev ≢ 0 → prev ≢ curr)
    (head : prev ≡ 0 → (mmap ≡ curr) × (curr ≢ 0)) where
  pub link_in-next :
      (link_in s mmap vma prev curr x).vm_next
      ≡ (if x == vma then curr else (if x == prev then vma else (s x).vm_next))
  unfolding link_in update
  link_in-next = elim (ℕ_discrete prev 0) [
    | yes z ↦ ground (arith, z, head z)
    | no n ↦ ground (arith, n, apart n)
  ]

  pub link_in-prev :
      (link_in s mmap vma prev curr x).vm_prev
      ≡ (if x == vma then prev else (if x == curr then vma else (s x).vm_prev))
  unfolding link_in update
  link_in-prev = elim (ℕ_discrete prev 0) [
    | yes z ↦ ground (arith, z, head z)
    | no n ↦ ground (arith, n, apart n)
  ]

  pub link_in-start : (link_in s mmap vma prev curr x).vm_start ≡ (s x).vm_start
  unfolding link_in update
  link_in-start = ground arith

-- The links that the list needs, from any slots that have them.
pub record Linked (s s' : Slots) (vma a c : ℕ) : Type 0 where
  pub nexts :
      (x : ℕ)
      → x ≢ 0
      → (s' x).vm_next ≡ (if x == vma then c else (if x == a then vma else (s x).vm_next))
  pub prevs :
      (x : ℕ)
      → x ≢ 0
      → (s' x).vm_prev ≡ (if x == vma then a else (if x == c then vma else (s x).vm_prev))

pub nonzero : (s : Slots) (prev p a : ℕ) (ps : List ℕ) → Chain s prev p ps → has a ps ≡ true → a ≢ 0
nonzero s prev p a [] c h = absurd (ground (arith, h))
nonzero s prev p a (q ∷ qs) c h = elim (ℕ_discrete a q) [
  | yes e ↦ λ z. c.1 (sym e ∙ z)
  | no ne ↦ nonzero s q (s q).vm_next a qs c.4 (ground (arith, h, ne))
]

-- Slots other than the three that change keep their links.
Chain-kept :
    (s s' : Slots) (vma a c prev p : ℕ) (ps : List ℕ)
    → Linked s s' vma a c
    → has vma ps ≡ false
    → has a ps ≡ false
    → has c ps ≡ false
    → Chain s prev p ps
    → Chain s' prev p ps
Chain-kept s s' vma a c prev p [] l hv ha hc ch = ch
Chain-kept s s' vma a c prev p (q ∷ qs) l hv ha hc ch =
    let next : (s' q).vm_next ≡ (s q).vm_next = ground (arith, l.nexts q ch.1, hv, ha) in
    (
      ch.0,
      ch.1,
      ground (arith, l.prevs q ch.1, hv, hc, ch.2),
      ch.3,
      rw next (
          Chain-kept s s' vma a c q (s q).vm_next qs l (ground (arith, hv)) (ground (arith, ha))
            (ground (arith, hc)) ch.4),
    )

pub has-insert :
    (s : Slots) (va vma x : ℕ) (ps : List ℕ) → has x (insert s va vma ps) ≡ (x == vma || has x ps)
unfolding insert
has-insert s va vma x [] = refl
has-insert s va vma x (q ∷ qs) = ground (arith, has-insert s va vma x qs)

-- The new slot goes right behind `prev`.
module _ (s s' : Slots) (vma prev q : ℕ) (qs : List ℕ) (nv : vma ≢ 0)
    (hv : has vma (q ∷ qs) ≡ false) (hp : has prev (q ∷ qs) ≡ false) (nq : q ≢ 0)
    (hq : has q qs ≡ false) (l : Linked s s' vma prev q) where
  Chain-behind : Chain s q (s q).vm_next qs → Chain s' prev vma (vma ∷ q ∷ qs)
  Chain-behind ch =
      let next : (s' q).vm_next ≡ (s q).vm_next = ground (arith, l.nexts q nq, hv, hp) in
      (
        refl,
        nv,
        ground (arith, l.prevs vma nv),
        hv,
        (
          ground (arith, l.nexts vma nv),
          nq,
          ground (arith, l.prevs q nq, hv),
          hq,
          subst (λ n. Chain s' q n qs) (sym next)
              (Chain-kept s s' vma prev q q (s q).vm_next qs l (ground (arith, hv))
                (ground (arith, hp)) hq ch),
        ),
      )

-- The new slot goes further behind.
module _ (s s' : Slots) (vma prev q a c : ℕ) (qs rest : List ℕ) (hv : has vma (q ∷ qs) ≡ false)
    (hp : has prev (q ∷ qs) ≡ false) (nq : q ≢ 0) (hq : has q qs ≡ false) (l : Linked s s' vma a c)
    (at_a : (a ≡ q) ⊎ (has a qs ≡ true)) (at_c : (c ≡ 0) ⊎ (has c qs ≡ true)) where
  not_curr : q ≢ c
  not_curr e = elim at_c [ inl z ↦ nq (e ∙ z) | inr h ↦ absurd (ground (arith, h, hq, e)) ]

  not_prev : prev ≢ a
  not_prev e = elim at_a [
    | inl z ↦ absurd (ground (arith, z, hp, e))
    | inr h ↦ absurd (ground (arith, h, hp, e))
  ]

  Chain-further :
      (p : ℕ)
      → p ≡ q
      → (s q).vm_prev ≡ prev
      → has q rest ≡ false
      → Chain s' q (if q == a then vma else (s q).vm_next) rest
      → Chain s' prev (if prev == a then vma else p) (q ∷ rest)
  Chain-further p e back hr ch =
      let next : (s' q).vm_next ≡ (if q == a then vma else (s q).vm_next) =
        ground (arith, l.nexts q nq, hv) in
      (
        ground (arith, not_prev, e),
        nq,
        ground (arith, l.prevs q nq, hv, not_curr, back),
        hr,
        subst (λ n. Chain s' q n rest) (sym next) ch,
      )

-- `ys` is the list with the new slot in it, if `n` are the neighbours of the slot.
abbrev pub Inserts : Slots → Slots → ℕ → ℕ → ℕ → ℕ × ℕ → List ℕ → Type 0
Inserts s s' vma prev p n ys =
    Linked s s' vma n.0 n.1 → Chain s' prev (if prev == n.0 then vma else p) ys

-- The list with the new slot in it, behind `prev`.
pub Chain-insert :
    (s s' : Slots) (va vma prev p : ℕ) (ps : List ℕ)
    → vma ≢ 0
    → has vma ps ≡ false
    → vma ≢ prev
    → has prev ps ≡ false
    → Chain s prev p ps
    → Inserts s s' vma prev p (place s va prev ps) (insert s va vma ps)
Chain-insert s s' va vma prev p [] nv hv vp hp ch =
    unfold insert place in
    λ l. (ground arith, nv, ground (arith, l.prevs vma nv), refl, ground (arith, l.nexts vma nv))
Chain-insert s s' va vma prev p (q ∷ qs) nv hv vp hp ch =
    elim (Bool-cases (ltb va (s q).vm_start)) [
      | inl e ↦
          subst (λ n. Inserts s s' vma prev p n (insert s va vma (q ∷ qs)))
            (sym (place-here s va vma prev q qs e))
            (subst (λ ys. Inserts s s' vma prev p (prev, q) ys)
              (sym (insert-here s va vma prev q qs e))
              (λ l.
                subst (λ n. Chain s' prev n (vma ∷ q ∷ qs)) (ground arith)
                  (Chain-behind s s' vma prev q qs nv hv hp ch.1 ch.3 l ch.4)))
      | inr e ↦
          subst (λ n. Inserts s s' vma prev p n (insert s va vma (q ∷ qs)))
            (sym (place-next s va vma prev q qs e))
            (subst (λ ys. Inserts s s' vma prev p (place s va q qs) ys)
              (sym (insert-next s va vma prev q qs e))
              (λ l.
                Chain-further s s' vma prev q (place s va q qs).0 (place s va q qs).1 qs
                  (insert s va vma qs) hv hp ch.1 ch.3 l (place-prev s va q qs)
                  (place-curr s va q qs) p ch.0 ch.2
                  (has-insert s va vma q qs ∙ ground (arith, hv, ch.3))
                  (Chain-insert s s' va vma q (s q).vm_next qs nv (ground (arith, hv))
                    (ground (arith, hv)) ch.3 ch.4 l)))
    ]

pub length-insert :
    (s : Slots) (va vma : ℕ) (ps : List ℕ) → length (insert s va vma ps) ≡ suc (length ps)
unfolding insert
length-insert s va vma [] = refl
length-insert s va vma (q ∷ qs) = elim (Bool-cases (ltb va (s q).vm_start)) [
  | inl e ↦ rw e refl
  | inr e ↦ rw e (omega (arith, length-insert s va vma qs))
]
