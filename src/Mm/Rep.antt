-- ===== src/Mm/Rep.antt =====
-- When the array `buddy.bitmap` of arch/riscv/kernel/mm.c holds a given tree of blocks.
use zju_sys3_sp25_kernel.Base.{
  ℕ, zero, suc, ◌+◌, ◌*◌, ◌^◌, ◌<◌, ◌≡◌, ◌≢◌, ◌∙◌, refl, max, arith, pow2, Words,
}
use zju_sys3_sp25_kernel.Mm.Index.{InRange, anc, apart, SameBelow, SameOutside}
use zju_sys3_sp25_kernel.Mm.Block.{
  Block, free, used, split, longest, left_half, right_half, join, IsMerged,
}

-- The nodes strictly below a block of 2^d pages carry their own sizes.
abbrev pub FullBelow : Words → ℕ → ℕ → Type 0
FullBelow b zero i = Unit {0}
FullBelow b (suc d) i =
    InRange i
    × (pow2 (suc d) < 2 ^ 63)
    × (b (i * 2 + 1) ≡ pow2 d)
    × FullBelow b d (i * 2 + 1)
    × (b (i * 2 + 2) ≡ pow2 d)
    × FullBelow b d (i * 2 + 2)

-- Below a block that was handed out the array still has the values of a free one.
abbrev pub Rep : Words → ℕ → ℕ → Block → Type 0
Rep b d i free = (b i ≡ pow2 d) × FullBelow b d i
Rep b d i used = (b i ≡ 0) × FullBelow b d i
Rep b zero i (split l r) = ⊥
Rep b (suc d) i (split l r) =
    (b i ≡ max (longest d l) (longest d r))
    × InRange i
    × (pow2 (suc d) < 2 ^ 63)
    × (longest d l + longest d r < pow2 (suc d))
    × Rep b d (i * 2 + 1) l
    × Rep b d (i * 2 + 2) r

pub Rep-longest : (b : Words) (d i : ℕ) (t : Block) → Rep b d i t → b i ≡ longest d t
Rep-longest b d i free h = h.0
Rep-longest b d i used h = h.0
Rep-longest b zero i (split l r) h = absurd h
Rep-longest b (suc d) i (split l r) h = h.0

-- The node above a node's child.
pub anc-left : (i m k : ℕ) → anc m k ≡ i * 2 + 1 → anc (suc m) k ≡ i
anc-left i m k h = omega arith

pub anc-right : (i m k : ℕ) → anc m k ≡ i * 2 + 2 → anc (suc m) k ≡ i
anc-right i m k h = omega arith

pub below-left : (i : ℕ) (b b' : Words) → SameBelow i b b' → SameBelow (i * 2 + 1) b b'
below-left i b b' s k m h = s k (suc m) (anc-left i m k h)

pub below-right : (i : ℕ) (b b' : Words) → SameBelow i b b' → SameBelow (i * 2 + 2) b b'
below-right i b b' s k m h = s k (suc m) (anc-right i m k h)

pub FullBelow-same :
    (b b' : Words) (d i : ℕ) → SameBelow i b b' → FullBelow b d i → FullBelow b' d i
FullBelow-same b b' zero i s h = tt
FullBelow-same b b' (suc d) i s h = (
  h.0,
  h.1,
  s (i * 2 + 1) 1 (omega arith) ∙ h.2,
  FullBelow-same b b' d (i * 2 + 1) (below-left i b b' s) h.3,
  s (i * 2 + 2) 1 (omega arith) ∙ h.4,
  FullBelow-same b b' d (i * 2 + 2) (below-right i b b' s) h.5,
)

pub Rep-same : (b b' : Words) (d i : ℕ) (t : Block) → SameBelow i b b' → Rep b d i t → Rep b' d i t
Rep-same b b' d i free s h = (s i 0 refl ∙ h.0, FullBelow-same b b' d i s h.1)
Rep-same b b' d i used s h = (s i 0 refl ∙ h.0, FullBelow-same b b' d i s h.1)
Rep-same b b' zero i (split l r) s h = absurd h
Rep-same b b' (suc d) i (split l r) s h = (
  s i 0 refl ∙ h.0,
  h.1,
  h.2,
  h.3,
  Rep-same b b' d (i * 2 + 1) l (below-left i b b' s) h.4,
  Rep-same b b' d (i * 2 + 2) r (below-right i b b' s) h.5,
)

-- A tree that has room is represented by its two halves.
pub record Halves (b : Words) (d i : ℕ) (t : Block) : Type 0 where
  pub range : InRange i
  pub small : pow2 (suc d) < 2 ^ 63
  pub left : Rep b d (i * 2 + 1) (left_half t)
  pub right : Rep b d (i * 2 + 2) (right_half t)

pub Rep-Halves : (b : Words) (d i : ℕ) (t : Block) → Rep b (suc d) i t → t ≢ used → Halves b d i t
Rep-Halves b d i free h ne = record {
  range = h.1.0;
  small = h.1.1;
  left = (h.1.2, h.1.3);
  right = (h.1.4, h.1.5);
}
Rep-Halves b d i used h ne = absurd (ne refl)
Rep-Halves b d i (split l r) h ne = record { range = h.1; small = h.2; left = h.4; right = h.5 }

-- A change below one child spares the other child, and one at or outside a node spares both.
module _ (i : ℕ) (b b' : Words) where
  pub left_spares : SameOutside (i * 2 + 1) b b' → SameBelow (i * 2 + 2) b b'
  left_spares s k n q = s k (λ m p. apart i m n k p q)

  pub right_spares : SameOutside (i * 2 + 2) b b' → SameBelow (i * 2 + 1) b b'
  right_spares s k m p = s k (λ n q. apart i m n k p q)

  pub outside-left : SameOutside (i * 2 + 1) b b' → SameOutside i b b'
  outside-left s k out = s k (λ m p. out (suc m) (anc-left i m k p))

  pub outside-right : SameOutside (i * 2 + 2) b b' → SameOutside i b b'
  outside-right s k out = s k (λ m p. out (suc m) (anc-right i m k p))

-- A represented tree has merged all its free halves, and no block is smaller than a page.
abbrev pub Fits : ℕ → Block → Type 0
Fits d free = Unit {0}
Fits d used = Unit {0}
Fits zero (split l r) = ⊥
Fits (suc d) (split l r) = Fits d l × Fits d r

pub Rep-Fits : (b : Words) (d i : ℕ) (t : Block) → Rep b d i t → Fits d t
Rep-Fits b d i free h = tt
Rep-Fits b d i used h = tt
Rep-Fits b zero i (split l r) h = absurd h
Rep-Fits b (suc d) i (split l r) h =
    (Rep-Fits b d (i * 2 + 1) l h.4, Rep-Fits b d (i * 2 + 2) r h.5)

join_small : (d : ℕ) (l r : Block) → longest d l + longest d r < pow2 (suc d) → join l r ≡ split l r
join_small d free free h = absurd (omega arith)
join_small d free used h = refl
join_small d free (split a c) h = refl
join_small d used r h = refl
join_small d (split a c) r h = refl

pub Rep-IsMerged : (b : Words) (d i : ℕ) (t : Block) → Rep b d i t → IsMerged t
Rep-IsMerged b d i free h = tt
Rep-IsMerged b d i used h = tt
Rep-IsMerged b zero i (split l r) h = absurd h
Rep-IsMerged b (suc d) i (split l r) h =
    (join_small d l r h.3, Rep-IsMerged b d (i * 2 + 1) l h.4, Rep-IsMerged b d (i * 2 + 2) r h.5)
