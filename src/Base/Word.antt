-- ===== src/Base/Word.antt =====
-- 64-bit words as native numbers, powers of two, and memory that is written word by word.
use Prim.Native.Nat.{ℕ, zero, suc, ◌*◌, ◌%◌, ◌^◌, ◌≤◌, ◌<◌}
use mathlib.Core.Path.{◌≡◌}
use mathlib.Core.Logic.{◌≢◌}
use native.Mathlib.Omega.{arith}
use zju_sys3_sp25_kernel.Base.Tests.{◌==◌, if◌then◌else◌}

-- A value kept in a `uint64_t`.
abbrev pub w64 : ℕ → ℕ
w64 x = x % 2 ^ 64

abbrev pub pow2 : ℕ → ℕ
pow2 zero = 1
pow2 (suc d) = 2 * pow2 d

pub pow2_pos : (d : ℕ) → 0 < pow2 d
pow2_pos zero = omega arith
pow2_pos (suc d) = omega (arith, pow2_pos d)

pub pow2_mono : (d k : ℕ) → d ≤ k → pow2 d ≤ pow2 k
pow2_mono zero k h = pow2_pos k
pow2_mono (suc d) zero h = absurd (omega arith)
pow2_mono (suc d) (suc k) h = omega (arith, pow2_mono d k (omega arith))

-- An array of words.
abbrev pub Words : Type 0
Words = ℕ → ℕ

-- `a[k] = v`
unfoldable pub write : Words → ℕ → ℕ → Words
write a k v j = if j == k then v else a j

pub write_self : (a : Words) (k v : ℕ) → write a k v k ≡ v
unfolding write
write_self a k v = ground arith

pub write_ne : (a : Words) (k v j : ℕ) → j ≢ k → write a k v j ≡ a j
unfolding write
write_ne a k v j h = ground arith
