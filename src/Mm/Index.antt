-- ===== src/Mm/Index.antt =====
-- The indices of the buddy tree: a node's children and its parent, and its descendants.
use zju_sys3_sp25_kernel.Base.{
  ℕ, zero, suc, ◌+◌, ◌-◌, ◌*◌, ◌/◌, ◌^◌, ◌≤◌, ◌<◌, ◌≡◌, ◌≢◌, ◌∙◌, ap, arith, Words,
}
use native.Mathlib.Decide.{dec_le}
use zju_sys3_sp25_kernel.Mm.{left_leaf, right_leaf, parent}

-- No index or node size below this one wraps.
abbrev pub InRange : ℕ → Type 0
InRange i = i * 2 + 2 < 2 ^ 63

pub left_leaf_lem : (i : ℕ) → InRange i → left_leaf i ≡ i * 2 + 1
unfolding left_leaf
left_leaf_lem i h = omega arith

pub right_leaf_lem : (i : ℕ) → InRange i → right_leaf i ≡ i * 2 + 2
unfolding right_leaf
right_leaf_lem i h = omega arith

pub parent-left : (i : ℕ) → InRange i → parent (i * 2 + 1) ≡ i
unfolding parent
parent-left i h = omega arith

pub parent-right : (i : ℕ) → InRange i → parent (i * 2 + 2) ≡ i
unfolding parent
parent-right i h = omega arith

-- The node `m` levels above `k`; the root is above itself.
abbrev pub anc : ℕ → ℕ → ℕ
anc zero k = k
anc (suc m) k = (anc m k + 1) / 2 - 1

pub anc-le : (m k : ℕ) → anc m k ≤ k
anc-le zero k = omega arith
anc-le (suc m) k = omega (arith, anc-le m k)

pub anc-anc : (p m k : ℕ) → anc (p + m) k ≡ anc p (anc m k)
anc-anc zero m k = ap (λ x. anc x k) (omega arith)
anc-anc (suc p) m k =
    let shift : suc p + m ≡ suc (p + m) = omega arith in
    ap (λ x. anc x k) shift ∙ ap (λ x. (x + 1) / 2 - 1) (anc-anc p m k)

-- No node stands below both children of a node.
pub apart : (i m n k : ℕ) → anc m k ≡ i * 2 + 1 → anc n k ≢ i * 2 + 2
apart i m n k p q = elim (dec_le m n) [
  | yes h ↦
      let e : n ≡ (n - m) + m = omega arith in
      omega (
        arith,
        ap (λ x. anc x k) e ∙ anc-anc (n - m) m k ∙ ap (anc (n - m)) p,
        anc-le (n - m) (i * 2 + 1),
      )
  | no h ↦
      let e : m ≡ suc (m - n - 1) + n = omega arith in
      omega (
        arith,
        ap (λ x. anc x k) e ∙ anc-anc (suc (m - n - 1)) n k ∙ ap (anc (suc (m - n - 1))) q,
        anc-le (m - n - 1) (i * 2 + 2),
      )
]

-- `b'` differs from `b` at most at the nodes below `i`, and `i` itself.
abbrev pub SameOutside : ℕ → Words → Words → Type 0
SameOutside i b b' = (k : ℕ) → ((m : ℕ) → anc m k ≢ i) → b' k ≡ b k

-- `b'` agrees with `b` at `i` and the nodes below it.
abbrev pub SameBelow : ℕ → Words → Words → Type 0
SameBelow i b b' = (k m : ℕ) → anc m k ≡ i → b' k ≡ b k
