-- ===== src/Str/Length.antt =====
-- `strlen`, `strnlen`, `strcpy` and `strncpy` of lib/string.c: how far they read and write.
use zju_sys3_sp25_kernel.Base.{
  ℕ, zero, suc, ◌+◌, ◌≤◌, ◌<◌, ◌≡◌, ◌≢◌, ◌∙◌, ◌⊎◌, ap, sym, subst, refl, arith, ◌==◌, Words, write,
  write_ne, eq→==, ne→==, if◌then◌else◌, done, min,
}
use native.Mathlib.Decide.{ℕ_discrete}
use zju_sys3_sp25_kernel.Str.{
  memcpy_loop, memcpy, strcpy, strncpy_loop, strncpy, strlen_loop, strlen, strnlen_loop, strnlen,
}

-- The string at `s` has `k` bytes before its NUL.
unfoldable pub IsString : Words → ℕ → ℕ → Type 0
IsString m s zero = m s ≡ 0
IsString m s (suc k) = (m s ≢ 0) × IsString m (s + 1) k

done_at : (a b : ℕ) → a ≡ b → done a ≡ done b
done_at a b e = ap (λ n. done n) e

strlen_loop-lem :
    (f : ℕ) (m : Words) (s len k : ℕ)
    → k < f
    → IsString m s k
    → strlen_loop f m s len ≡ done (len + k)
unfolding strlen_loop IsString
strlen_loop-lem zero m s len k h t = absurd (omega arith)
strlen_loop-lem (suc f) m s len zero h t = rw t (done_at len (len + 0) (omega arith))
strlen_loop-lem (suc f) m s len (suc k) h t = rw (ne→== (m s) 0 t.0) (
    strlen_loop-lem f m (s + 1) (len + 1) k (omega arith) t.1
    ∙ done_at (len + 1 + k) (len + suc k) (omega arith))

-- `strlen` returns the length of a string, if it may go round once for each byte and once for the NUL.
pub strlen_lem : (f : ℕ) (m : Words) (s k : ℕ) → k < f → IsString m s k → strlen f m s ≡ done k
unfolding strlen
strlen_lem f m s k h t = strlen_loop-lem f m s 0 k h t ∙ done_at (0 + k) k (omega arith)

-- A write outside the string leaves it.
IsString-write :
    (m : Words) (d v s k : ℕ) → (d < s) ⊎ (s + k < d) → IsString m s k → IsString (write m d v) s k
unfolding IsString
IsString-write m d v s zero a t = write_ne m d v s (ground (arith, a)) ∙ t
IsString-write m d v s (suc k) a t = (
  subst (λ x. x ≢ 0) (sym (write_ne m d v s (ground (arith, a)))) t.0,
  IsString-write m d v (s + 1) k (ground (arith, a)) t.1,
)

-- `strcpy` on a string is `memcpy` of its bytes and its NUL.
pub strcpy-memcpy :
    (f : ℕ) (m : Words) (dst src k : ℕ)
    → k < f
    → IsString m src k
    → (dst ≤ src) ⊎ (src + k < dst)
    → strcpy f m dst src ≡ done (memcpy m dst src (suc k))
unfolding strcpy memcpy memcpy_loop IsString
strcpy-memcpy zero m dst src k h t a = absurd (omega arith)
strcpy-memcpy (suc f) m dst src zero h t a = rw t refl
strcpy-memcpy (suc f) m dst src (suc k) h t a = rw (ne→== (m src) 0 t.0) (
    strcpy-memcpy f (write m dst (m src)) (dst + 1) (src + 1) k (omega arith)
      (IsString-write m dst (m src) (src + 1) k (ground (arith, a)) t.1) (ground (arith, a)))

-- The bytes before the first NUL at or behind `p`, at most `r`.
scan : ℕ → Words → ℕ → ℕ
scan zero m p = 0
scan (suc r) m p = if m p == 0 then 0 else suc (scan r m (p + 1))

scan_move : (r : ℕ) (m : Words) (p q : ℕ) → p ≡ q → scan r m p ≡ scan r m q
scan_move r m p q e = ap (λ x. scan r m x) e

scan_on :
    (r : ℕ) (m : Words) (s len : ℕ)
    → len + 1 + scan r m (s + (len + 1)) ≡ len + suc (scan r m (s + len + 1))
scan_on r m s len = omega (arith, scan_move r m (s + (len + 1)) (s + len + 1) (omega arith))

scan_at : (r : ℕ) (m : Words) (s : ℕ) → 0 + scan r m (s + 0) ≡ scan r m s
scan_at r m s = omega (arith, scan_move r m (s + 0) s (omega arith))

scan-min : (r : ℕ) (m : Words) (p k : ℕ) → IsString m p k → scan r m p ≡ min k r
unfolding scan IsString
scan-min zero m p k t = omega arith
scan-min (suc r) m p zero t = rw t (omega arith)
scan-min (suc r) m p (suc k) t = rw (ne→== (m p) 0 t.0) (omega (arith, scan-min r m (p + 1) k t.1))

strnlen_loop-scan :
    (r : ℕ) (m : Words) (s len : ℕ) → strnlen_loop r m s len ≡ len + scan r m (s + len)
unfolding strnlen_loop scan
strnlen_loop-scan zero m s len = omega arith
strnlen_loop-scan (suc r) m s len = elim (ℕ_discrete (m (s + len)) 0) [
  | yes e ↦ rw e (omega arith)
  | no ne ↦ rw (ne→== (m (s + len)) 0 ne) (strnlen_loop-scan r m s (len + 1) ∙ scan_on r m s len)
]

scan-write :
    (r : ℕ) (m : Words) (d v p : ℕ) → (d < p) ⊎ (p + r ≤ d) → scan r (write m d v) p ≡ scan r m p
unfolding scan
scan-write zero m d v p a = refl
scan-write (suc r) m d v p a =
    rw (write_ne m d v p (ground (arith, a)), scan-write r m d v (p + 1) (ground (arith, a))) refl

strncpy_loop-scan :
    (r : ℕ) (m : Words) (d p : ℕ)
    → (d ≤ p) ⊎ (p + r < d)
    → strncpy_loop r m d p ≡ memcpy_loop (suc (scan r m p)) m d p
unfolding strncpy_loop scan memcpy_loop
strncpy_loop-scan zero m d p a = refl
strncpy_loop-scan (suc r) m d p a = elim (ℕ_discrete (m p) 0) [
  | yes e ↦ rw (eq→== (m p) 0 e) refl
  | no ne ↦ rw (ne→== (m p) 0 ne) (
      strncpy_loop-scan r (write m d (m p)) (d + 1) (p + 1) (ground (arith, a))
      ∙ ap (λ n. memcpy_loop (suc n) (write m d (m p)) (d + 1) (p + 1))
          (scan-write r m d (m p) (p + 1) (ground (arith, a))))
]

-- `strncpy` is `memcpy` of one byte more than `strnlen` counts: of the string with its NUL if it is shorter
-- than `n`, and of `n + 1` bytes otherwise.
pub strncpy-memcpy :
    (m : Words) (dst src n : ℕ)
    → (dst ≤ src) ⊎ (src + n < dst)
    → strncpy m dst src n ≡ memcpy m dst src (suc (strnlen m src n))
unfolding strncpy memcpy strnlen
strncpy-memcpy m dst src n a =
    strncpy_loop-scan n m dst src a
    ∙ ap (λ k. memcpy_loop (suc k) m dst src) (sym (strnlen_loop-scan n m src 0 ∙ scan_at n m src))

-- `strnlen` of a string is its length, or `maxlen` if that is less.
pub strnlen_lem : (m : Words) (s k maxlen : ℕ) → IsString m s k → strnlen m s maxlen ≡ min k maxlen
unfolding strnlen
strnlen_lem m s k maxlen t =
    strnlen_loop-scan maxlen m s 0 ∙ scan_at maxlen m s ∙ scan-min maxlen m s k t
