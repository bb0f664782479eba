-- ===== src/Str/Fill.antt =====
-- `memset` and `memcpy` of lib/string.c: which bytes they write.
use zju_sys3_sp25_kernel.Base.{
  ℕ, zero, suc, ◌+◌, ◌-◌, ◌%◌, ◌^◌, ◌≤◌, ◌<◌, ◌≡◌, ◌≢◌, ◌∙◌, ◌⊎◌, inl, inr, ap, arith, Bool, true,
  ◌&&◌, Words, write, ltb, leb, Bool-cases, if◌then◌else◌,
}
use native.Mathlib.Decide.{ℕ_discrete}
use zju_sys3_sp25_kernel.Str.{memset_loop, memset, memcpy_loop, memcpy}

-- The `n` bytes from `p` on.
abbrev pub within : ℕ → ℕ → ℕ → Bool
within p n x = leb p x && ltb x (p + n)

memset_loop-at :
    (n : ℕ) (m : Words) (p v x : ℕ) → memset_loop n m p v x ≡ (if within p n x then v else m x)
unfolding memset_loop
memset_loop-at zero m p v x = ground arith
memset_loop-at (suc n) m p v x =
    memset_loop-at n (write m p v) (p + 1) v x ∙ (unfold write in ground arith)

-- `memset` writes the low byte of `c` to the `n` bytes from `dst` on, and nothing else.
pub memset-at :
    (m : Words) (dst c n x : ℕ) → memset m dst c n x ≡ (if within dst n x then c % 2 ^ 8 else m x)
unfolding memset
memset-at m dst c n x = memset_loop-at n m dst (c % 2 ^ 8) x

-- A forward copy of `n` bytes does not write what it has yet to read.
abbrev pub Forward : ℕ → ℕ → ℕ → Type 0
Forward dst src n = (dst ≤ src) ⊎ (src + n ≤ dst)

-- The first byte is the one that is copied before the rest, and the others are copied with the rest.
module _ (n : ℕ) (m : Words) (d s x : ℕ) where
  abbrev later : ℕ
  later = if within (d + 1) n x then write m d (m s) (s + 1 + (x - (d + 1))) else write m d (m s) x

  at_first : x ≡ d → later ≡ (if within d (suc n) x then m (s + (x - d)) else m x)
  unfolding write
  at_first z =
      let index : s + (x - d) ≡ s = omega (arith, z) in
      let byte : m (s + (x - d)) ≡ m s = ap m index in ground (arith, z, byte)

  at_later :
      Forward d s (suc n)
      → x ≢ d
      → within d (suc n) x ≡ true
      → later ≡ (if within d (suc n) x then m (s + (x - d)) else m x)
  unfolding write
  at_later h ne e =
      let above : d < x = ground (arith, e, ne) in
      let room : x < d + suc n = ground (arith, e) in
      let index : s + 1 + (x - (d + 1)) ≡ s + (x - d) = omega (arith, above) in
      let byte : m (s + 1 + (x - (d + 1))) ≡ m (s + (x - d)) = ap m index in
      let apart : s + 1 + (x - (d + 1)) ≢ d = λ z. absurd (ground (arith, h, above, room, z)) in
      ground (arith, byte, apart, above, room)

memcpy_loop-at :
    (n : ℕ) (m : Words) (d s x : ℕ)
    → Forward d s n
    → memcpy_loop n m d s x ≡ (if within d n x then m (s + (x - d)) else m x)
unfolding memcpy_loop
memcpy_loop-at zero m d s x h = ground arith
memcpy_loop-at (suc n) m d s x h = elim (Bool-cases (within d (suc n) x)) [
  | inl e ↦
      let rest : memcpy_loop n (write m d (m s)) (d + 1) (s + 1) x ≡ (
          if within (d + 1) n x
          then write m d (m s) (s + 1 + (x - (d + 1)))
          else write m d (m s) x) =
        memcpy_loop-at n (write m d (m s)) (d + 1) (s + 1) x (ground (arith, h)) in
      elim (ℕ_discrete x d) [
        | yes z ↦ rest ∙ at_first n m d s x z
        | no ne ↦ rest ∙ at_later n m d s x h ne e
      ]
  | inr e ↦
      memcpy_loop-at n (write m d (m s)) (d + 1) (s + 1) x (ground (arith, h))
      ∙ (unfold write in ground (arith, e))
]

-- `memcpy` copies the `n` bytes from `src` on to `dst`, as they were before, and writes nothing else,
-- if the bytes to write are before the ones to read or behind all of them.
pub memcpy-at :
    (m : Words) (dst src n x : ℕ)
    → Forward dst src n
    → memcpy m dst src n x ≡ (if within dst n x then m (src + (x - dst)) else m x)
unfolding memcpy
memcpy-at m dst src n x h = memcpy_loop-at n m dst src x h
