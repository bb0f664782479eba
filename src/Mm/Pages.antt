-- ===== src/Mm/Pages.antt =====
-- Which pages the tree of blocks of arch/riscv/kernel/mm.c hands out and takes back.
use zju_sys3_sp25_kernel.Base.{
  ℕ, zero, suc, ◌+◌, ◌-◌, ◌≤◌, ◌<◌, ◌≡◌, ◌≢◌, ◌∙◌, ap, sym, refl, subst, arith, true, false, not,
  ◌&&◌, ◌||◌, ltb, ◌==◌, if◌then◌else◌, Bool-cases, inl, inr, lt→ltb, ge→ltb, le→leb, gt→leb, pow2,
  pow2_pos,
}
use native.Mathlib.Decide.{dec_le}
use zju_sys3_sp25_kernel.Mm.Block.{
  Block, free, used, split, longest, left_half, right_half, join, alloc, position, covered, starts,
  release, inside, IsMerged, free_of_longest,
}
use zju_sys3_sp25_kernel.Mm.Alloc.{
  alloc-whole, position-whole, alloc-halves, position-halves, right_room,
}

-- Induction along the search for a free block of 2^e pages.
module _ {ℓ} (P : ℕ → Block → Type ℓ) (e : ℕ) (whole : P e free)
    (at_left : (d : ℕ) (t : Block)
      → e ≤ d
      → t ≢ used
      → pow2 e ≤ longest d (left_half t)
      → P d (left_half t)
      → P (suc d) t)
    (at_right : (d : ℕ) (t : Block)
      → e ≤ d
      → t ≢ used
      → longest d (left_half t) < pow2 e
      → P d (right_half t)
      → P (suc d) t) where
  search_whole : (d : ℕ) (t : Block) → d ≡ e → pow2 e ≤ longest d t → P d t
  search_whole d t q h =
      let large : pow2 d ≤ longest d t = subst (λ x. pow2 x ≤ longest d t) (sym q) h in
      let start : P d free = subst (λ x. P x free) (sym q) whole in
      subst (P d) (sym (free_of_longest d t large)) start

  search_depth : (k d : ℕ) (t : Block) → d ≡ k + e → pow2 e ≤ longest d t → P d t
  search_depth zero d t q h = search_whole d t (omega arith) h
  search_depth (suc k) zero t q h = absurd (omega arith)
  search_depth (suc k) (suc d) t q h =
      let le : e ≤ d = omega arith in
      let ne : t ≢ used = λ u. omega (arith, pow2_pos e, ap (longest (suc d)) u) in
      elim (dec_le (pow2 e) (longest d (left_half t))) [
        | yes room ↦ at_left d t le ne room (search_depth k d (left_half t) (omega arith) room)
        | no full ↦
            at_right d t le ne (omega arith)
              (search_depth k d (right_half t) (omega arith) (right_room d e t le h (omega arith)))
      ]

  pub search_induction : (d : ℕ) (t : Block) → e ≤ d → pow2 e ≤ longest d t → P d t
  search_induction d t le h = search_depth (d - e) d t (omega arith) h

-- What a page's test says of a tree, said of its halves.
pub covered-halves :
    (d : ℕ) (t : Block) (o : ℕ)
    → t ≢ used
    → covered (suc d) t o ≡ (
        if ltb o (pow2 d) then covered d (left_half t) o else covered d (right_half t) (o - pow2 d))
unfolding covered
covered-halves d free o ne = ground arith
covered-halves d used o ne = absurd (ne refl)
covered-halves d (split l r) o ne = refl

starts-halves :
    (d : ℕ) (t : Block) (o : ℕ)
    → t ≢ used
    → starts (suc d) t o
      ≡ (if ltb o (pow2 d) then starts d (left_half t) o else starts d (right_half t) (o - pow2 d))
unfolding starts
starts-halves d free o ne = ground arith
starts-halves d used o ne = absurd (ne refl)
starts-halves d (split l r) o ne = refl

-- The search at a node that is larger than the block, by the half that it takes.
module _ (d e : ℕ) (t : Block) (le : e ≤ d) where
  pub alloc-left :
      pow2 e ≤ longest d (left_half t)
      → alloc (suc d) e t ≡ split (alloc d e (left_half t)) (right_half t)
  alloc-left h = alloc-halves d e t le ∙ rw (le→leb (pow2 e) (longest d (left_half t)) h)

  pub alloc-right :
      longest d (left_half t) < pow2 e
      → alloc (suc d) e t ≡ split (left_half t) (alloc d e (right_half t))
  alloc-right h = alloc-halves d e t le ∙ rw (gt→leb (pow2 e) (longest d (left_half t)) h)

  pub position-left :
      pow2 e ≤ longest d (left_half t) → position (suc d) e t ≡ position d e (left_half t)
  position-left h = position-halves d e t le ∙ rw (le→leb (pow2 e) (longest d (left_half t)) h)

  pub position-right :
      longest d (left_half t) < pow2 e → position (suc d) e t ≡ pow2 d + position d e (right_half t)
  position-right h = position-halves d e t le ∙ rw (gt→leb (pow2 e) (longest d (left_half t)) h)

-- The block lies among the pages.
pub position_bound :
    (d e : ℕ) (t : Block) → e ≤ d → pow2 e ≤ longest d t → position d e t + pow2 e ≤ pow2 d
position_bound d e t le h =
    search_induction (λ d t. position d e t + pow2 e ≤ pow2 d) e
      (omega (arith, position-whole e free))
      (λ d t le ne room ih. omega (arith, position-left d e t le room, ih))
      (λ d t le ne full ih. omega (arith, position-right d e t le full, ih)) d t le h

abbrev Covers : ℕ → ℕ → Block → Type 0
Covers e d t =
    (o : ℕ)
    → o < pow2 d
    → covered d (alloc d e t) o ≡ (covered d t o || inside (position d e t) (pow2 e) o)

-- Exactly the pages of the new block are handed out in addition.
pub covered-alloc :
    (d e o : ℕ) (t : Block)
    → e ≤ d
    → pow2 e ≤ longest d t
    → o < pow2 d
    → covered d (alloc d e t) o ≡ (covered d t o || inside (position d e t) (pow2 e) o)
unfolding covered
covered-alloc d e o t le h lt =
    search_induction (Covers e) e
      (λ o lt. rw (alloc-whole e free, position-whole e free) (ground arith))
      (λ d t le ne room ih o lt.
        rw (alloc-left d e t le room, position-left d e t le room, covered-halves d t o ne)
          (ground (arith, ih o, position_bound d e (left_half t) le room)))
      (λ d t le ne full ih o lt.
        rw (alloc-right d e t le full, position-right d e t le full, covered-halves d t o ne)
          (ground (arith, ih (o - pow2 d))))
      d t le h o lt

abbrev Fresh : ℕ → ℕ → Block → Type 0
Fresh e d t = (o : ℕ) → inside (position d e t) (pow2 e) o ≡ true → covered d t o ≡ false

-- The pages of the new block were free.
pub covered-position :
    (d e o : ℕ) (t : Block)
    → e ≤ d
    → pow2 e ≤ longest d t
    → inside (position d e t) (pow2 e) o ≡ true
    → covered d t o ≡ false
unfolding covered
covered-position d e o t le h i =
    search_induction (Fresh e) e (λ o i. refl)
      (λ d t le ne room ih o i.
        let i' = rw (position-left d e t le room) at i in
        rw (covered-halves d t o ne)
          (ground (arith, ih o, position_bound d e (left_half t) le room)))
      (λ d t le ne full ih o i.
        let i' = rw (position-right d e t le full) at i in
        rw (covered-halves d t o ne) (ground (arith, ih (o - pow2 d))))
      d t le h o i

abbrev Starts : ℕ → ℕ → Block → Type 0
Starts e d t =
    (o : ℕ) → o < pow2 d → starts d (alloc d e t) o ≡ (starts d t o || o == position d e t)

-- One more block is handed out, and starts at the new position.
pub starts-alloc :
    (d e o : ℕ) (t : Block)
    → e ≤ d
    → pow2 e ≤ longest d t
    → o < pow2 d
    → starts d (alloc d e t) o ≡ (starts d t o || o == position d e t)
unfolding starts
starts-alloc d e o t le h lt =
    search_induction (Starts e) e
      (λ o lt. rw (alloc-whole e free, position-whole e free) (ground arith))
      (λ d t le ne room ih o lt.
        rw (alloc-left d e t le room, position-left d e t le room, starts-halves d t o ne)
          (ground (arith, ih o, position_bound d e (left_half t) le room, pow2_pos e)))
      (λ d t le ne full ih o lt.
        rw (alloc-right d e t le full, position-right d e t le full, starts-halves d t o ne)
          (ground (arith, ih (o - pow2 d))))
      d t le h o lt

pub covered-starts :
    (d : ℕ) (t : Block) (o : ℕ) → starts d t o ≡ true → o < pow2 d → covered d t o ≡ true
unfolding starts covered
covered-starts d free o h lt = cc
covered-starts d used o h lt = ground arith
covered-starts zero (split l r) o h lt = cc
covered-starts (suc d) (split l r) o h lt =
    ground (arith, covered-starts d l o, covered-starts d r (o - pow2 d))

join-covered :
    (d : ℕ) (l r : Block) (o : ℕ) → covered (suc d) (join l r) o ≡ covered (suc d) (split l r) o
unfolding covered
join-covered d free free o = ground arith
join-covered d free used o = refl
join-covered d free (split a c) o = refl
join-covered d used r o = refl
join-covered d (split a c) r o = refl

join-starts :
    (d : ℕ) (l r : Block) (o : ℕ) → starts (suc d) (join l r) o ≡ starts (suc d) (split l r) o
unfolding starts
join-starts d free free o = ground arith
join-starts d free used o = refl
join-starts d free (split a c) o = refl
join-starts d used r o = refl
join-starts d (split a c) r o = refl

-- Taking back a block drops its start, and no other.
pub starts-release :
    (d : ℕ) (t : Block) (p o : ℕ)
    → starts d t p ≡ true
    → p < pow2 d
    → o < pow2 d
    → starts d (release d t p) o ≡ (starts d t o && not (o == p))
unfolding starts release
starts-release d free p o h hp ho = cc
starts-release d used p o h hp ho = ground arith
starts-release zero (split l r) p o h hp ho = cc
starts-release (suc d) (split l r) p o h hp ho = elim (Bool-cases (ltb p (pow2 d))) [
  | inl low ↦ rw (low, join-starts d (release d l p) r o) (ground (arith, starts-release d l p o))
  | inr high ↦
      rw (high, join-starts d l (release d r (p - pow2 d)) o)
        (ground (arith, starts-release d r (p - pow2 d) (o - pow2 d)))
]

IsMerged-left : (t : Block) → IsMerged t → IsMerged (left_half t)
IsMerged-left free m = tt
IsMerged-left used m = tt
IsMerged-left (split l r) m = m.1

IsMerged-right : (t : Block) → IsMerged t → IsMerged (right_half t)
IsMerged-right free m = tt
IsMerged-right used m = tt
IsMerged-right (split l r) m = m.2

join-halves : (t : Block) → t ≢ used → IsMerged t → join (left_half t) (right_half t) ≡ t
join-halves free ne m = refl
join-halves used ne m = absurd (ne refl)
join-halves (split l r) ne m = m.0

-- Taking back the new block at once gives the old tree.
abbrev Restores : ℕ → ℕ → Block → Type 0
Restores e d t = IsMerged t → release d (alloc d e t) (position d e t) ≡ t

module _ (e d : ℕ) (t : Block) (le : e ≤ d) (ne : t ≢ used) (m : IsMerged t) where
  restore-left :
      pow2 e ≤ longest d (left_half t)
      → release d (alloc d e (left_half t)) (position d e (left_half t)) ≡ left_half t
      → release (suc d) (alloc (suc d) e t) (position (suc d) e t) ≡ t
  unfolding release
  restore-left room ih =
      let low : position d e (left_half t) < pow2 d =
        omega (arith, position_bound d e (left_half t) le room, pow2_pos e) in
      rw (alloc-left d e t le room, position-left d e t le room)
        (rw (lt→ltb (position d e (left_half t)) (pow2 d) low, ih) (join-halves t ne m))

  restore-right :
      longest d (left_half t) < pow2 e
      → release d (alloc d e (right_half t)) (position d e (right_half t)) ≡ right_half t
      → release (suc d) (alloc (suc d) e t) (position (suc d) e t) ≡ t
  unfolding release
  restore-right full ih =
      let p = position d e (right_half t) in
      let back : pow2 d + p - pow2 d ≡ p = omega arith in
      rw (alloc-right d e t le full, position-right d e t le full)
        (rw (ge→ltb (pow2 d + p) (pow2 d) (omega arith), back, ih) (join-halves t ne m))

pub release-alloc :
    (d e : ℕ) (t : Block)
    → IsMerged t
    → e ≤ d
    → pow2 e ≤ longest d t
    → release d (alloc d e t) (position d e t) ≡ t
unfolding release
release-alloc d e t m le h =
    search_induction (Restores e) e (λ m. rw (alloc-whole e free))
      (λ d t le ne room ih m. restore-left e d t le ne m room (ih (IsMerged-left t m)))
      (λ d t le ne full ih m. restore-right e d t le ne m full (ih (IsMerged-right t m))) d t le h m
