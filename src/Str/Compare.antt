-- ===== src/Str/Compare.antt =====
-- `memcmp` of lib/string.c: the first byte that differs decides.
use zju_sys3_sp25_kernel.Base.{
  ℕ, zero, suc, ◌+◌, ◌-◌, ◌≤◌, ◌<◌, ◌≡◌, ◌∙◌, ◌⊎◌, inl, inr, ap, sym, subst, refl, arith, Words,
  ltb, ltb→lt, ltb→ge, Bool-cases, eq→==, ne→==, if◌then◌else◌,
}
use native.Mathlib.Decide.{ℕ_discrete}
use zju_sys3_sp25_kernel.Str.{memcmp_loop, memcmp, memcpy, minus_one}
use zju_sys3_sp25_kernel.Str.Fill.{within, memcpy-at}

-- The bytes are the same, or `k` is the first place where they differ and `r` tells which is less.
pub data Compares (m : Words) (p q n : ℕ) : ℕ → Type 0 where
  same : ((i : ℕ) → i < n → m (p + i) ≡ m (q + i)) → Compares m p q n 0
  less :
      (k : ℕ)
      → k < n
      → ((i : ℕ) → i < k → m (p + i) ≡ m (q + i))
      → m (p + k) < m (q + k)
      → Compares m p q n minus_one
  greater :
      (k : ℕ)
      → k < n
      → ((i : ℕ) → i < k → m (p + i) ≡ m (q + i))
      → m (q + k) < m (p + k)
      → Compares m p q n 1

-- One more byte before those that agree.
more :
    (m : Words) (p q k : ℕ)
    → m p ≡ m q
    → ((i : ℕ) → i < k → m (p + 1 + i) ≡ m (q + 1 + i))
    → (i : ℕ) → i < suc k
    → m (p + i) ≡ m (q + i)
more m p q k e h zero l =
    subst (λ x. m x ≡ m (q + 0)) (omega arith) (subst (λ y. m p ≡ m y) (omega arith) e)
more m p q k e h (suc i) l =
    subst (λ x. m x ≡ m (q + suc i)) (omega arith)
      (subst (λ y. m (p + 1 + i) ≡ m y) (omega arith) (h i (omega arith)))

Compares-more :
    (m : Words) (p q n r : ℕ)
    → m p ≡ m q
    → Compares m (p + 1) (q + 1) n r
    → Compares m p q (suc n) r
Compares-more m p q n r e (same h) = same (more m p q n e h)
Compares-more m p q n r e (less k l h d) = less (suc k) (omega arith) (more m p q k e h) (
    subst (λ x. m x < m (q + suc k)) (omega arith)
      (subst (λ y. m (p + 1 + k) < m y) (omega arith) d))
Compares-more m p q n r e (greater k l h d) = greater (suc k) (omega arith) (more m p q k e h) (
    subst (λ x. m x < m (p + suc k)) (omega arith)
      (subst (λ y. m (q + 1 + k) < m y) (omega arith) d))

plus_zero : (m : Words) (p q : ℕ) → m p < m q → m (p + 0) < m (q + 0)
plus_zero m p q h =
    subst (λ x. m x < m (q + 0)) (omega arith) (subst (λ y. m p < m y) (omega arith) h)

memcmp_loop-Compares : (n : ℕ) (m : Words) (p q : ℕ) → Compares m p q n (memcmp_loop n m p q)
unfolding memcmp_loop
memcmp_loop-Compares zero m p q = same (λ i l. absurd (omega arith))
memcmp_loop-Compares (suc n) m p q = elim (ℕ_discrete (m p) (m q)) [
  | yes e ↦ rw (eq→== (m p) (m q) e) (
      Compares-more m p q n (memcmp_loop n m (p + 1) (q + 1)) e
        (memcmp_loop-Compares n m (p + 1) (q + 1)))
  | no ne ↦ rw (ne→== (m p) (m q) ne) (elim (Bool-cases (ltb (m p) (m q))) [
    | inl e ↦ rw e (
        less 0 (omega arith) (λ i l. absurd (omega arith)) (plus_zero m p q (ltb→lt (m p) (m q) e)))
    | inr e ↦ rw e (
        greater 0 (omega arith) (λ i l. absurd (omega arith))
          (plus_zero m q p (ground (arith, ltb→ge (m p) (m q) e, ne))))
  ])
]

-- `memcmp` returns 0 if the `n` bytes agree, and otherwise what the first two that differ tell.
pub memcmp-Compares : (m : Words) (s1 s2 n : ℕ) → Compares m s1 s2 n (memcmp m s1 s2 n)
unfolding memcmp
memcmp-Compares m s1 s2 n = memcmp_loop-Compares n m s1 s2

byte_at : (m : Words) (a b : ℕ) → a ≡ b → m a ≡ m b
byte_at m a b e = ap m e

memcmp_loop-same :
    (n : ℕ) (m : Words) (p q : ℕ)
    → ((i : ℕ) → i < n → m (p + i) ≡ m (q + i))
    → memcmp_loop n m p q ≡ 0
unfolding memcmp_loop
memcmp_loop-same zero m p q h = refl
memcmp_loop-same (suc n) m p q h =
    rw
      (eq→== (m p) (m q)
        (byte_at m p (p + 0) (omega arith) ∙ h 0 (omega arith) ∙ byte_at m (q + 0) q (omega arith)))
      (memcmp_loop-same n m (p + 1) (q + 1) (λ i l.
        byte_at m (p + 1 + i) (p + suc i) (omega arith)
        ∙ h (suc i) (omega arith)
        ∙ byte_at m (q + suc i) (q + 1 + i) (omega arith)))

-- What `memcpy` has copied between areas that do not overlap compares as equal.
pub memcmp-memcpy :
    (m : Words) (dst src n : ℕ)
    → (dst + n ≤ src) ⊎ (src + n ≤ dst)
    → memcmp (memcpy m dst src n) dst src n ≡ 0
unfolding memcmp
memcmp-memcpy m dst src n h = memcmp_loop-same n (memcpy m dst src n) dst src (λ i l.
    memcpy-at m dst src n (dst + i) (ground (arith, h))
    ∙ copied i l
    ∙ sym (memcpy-at m dst src n (src + i) (ground (arith, h))))
  where
    copied :
        (i : ℕ)
        → i < n
        → (if within dst n (dst + i) then m (src + (dst + i - dst)) else m (dst + i))
          ≡ (if within dst n (src + i) then m (src + (src + i - dst)) else m (src + i))
    copied i l =
        let index : src + (dst + i - dst) ≡ src + i = omega arith in
        let byte : m (src + (dst + i - dst)) ≡ m (src + i) = ap m index in
        ground (arith, h, l, byte)
