-- ===== src/Fat32/Lookup/First.antt =====
-- The search of fs/fat32.c finds the first entry of a directory that fits.
use zju_sys3_sp25_kernel.Base.{
  ℕ, zero, suc, ◌+◌, ◌*◌, ◌≤◌, ◌<◌, ◌≡◌, ◌≢◌, ◌⊎◌, inl, inr, sym, subst, refl, arith, Bool, true,
  false, ◌&&◌, ◌==◌, Bool-cases, eq→==, ne→==, ==→eq, and-eq-true, if◌then◌else◌, Words,
}
use native.Mathlib.Decide.{ℕ_discrete}
use zju_sys3_sp25_kernel.Fat32.Bytes.{Sector}
use zju_sys3_sp25_kernel.Fat32.Lookup.{
  Scan, ended, missing, found, scan, same_name, entry_name, entry_attr,
}

same_name-names :
    (n : ℕ) (s : Sector) (i : ℕ) (a : Words) (j : ℕ)
    → same_name n s i a j ≡ true
    → (k : ℕ) → j ≤ k
    → k < j + n
    → entry_name s i k ≡ a k
unfolding same_name
same_name-names zero s i a j h k l u = absurd (omega (arith, l, u))
same_name-names (suc n) s i a j h k l u =
    let both : ((entry_name s i j == a j) ≡ true) × (same_name n s i a (j + 1) ≡ true) =
      and-eq-true (entry_name s i j == a j) (same_name n s i a (j + 1)) h in
    elim (ℕ_discrete k j) [
      | yes e ↦ subst (λ x. entry_name s i x ≡ a x) (sym e) (==→eq (entry_name s i j) (a j) both.0)
      | no ne ↦ same_name-names n s i a (j + 1) both.1 k (omega (arith, l, ne)) (omega (arith, u))
    ]

names-same_name :
    (n : ℕ) (s : Sector) (i : ℕ) (a : Words) (j : ℕ)
    → ((k : ℕ) → j ≤ k → k < j + n → entry_name s i k ≡ a k)
    → same_name n s i a j ≡ true
unfolding same_name
names-same_name zero s i a j h = refl
names-same_name (suc n) s i a j h =
    let here : (entry_name s i j == a j) ≡ true =
      eq→== (entry_name s i j) (a j) (h j (omega arith) (omega arith)) in
    let rest : same_name n s i a (j + 1) ≡ true =
      names-same_name n s i a (j + 1) (λ k l u. h k (omega (arith, l)) (omega (arith, u))) in
    rw (here, rest) refl

module _ (wanted : ℕ → Bool) (a : Words) (s : Sector) where
  -- Entry `k` is in use, wanted, and has the name.
  pub record Fits (k : ℕ) : Type 0 where
    pub in_use : (s (32 * k) ≢ 0) × (s (32 * k) ≢ 0xe5)
    pub attributes : wanted (entry_attr s k) ≡ true
    pub same : (j : ℕ) → j < 8 → entry_name s k j ≡ a j

  abbrev test : ℕ → Bool
  test k = wanted (entry_attr s k) && same_name 8 s k a 0

  test-Fits : (k : ℕ) → s (32 * k) ≢ 0 → s (32 * k) ≢ 0xe5 → test k ≡ true → Fits k
  test-Fits k n d h =
      let both : (wanted (entry_attr s k) ≡ true) × (same_name 8 s k a 0 ≡ true) =
        and-eq-true (wanted (entry_attr s k)) (same_name 8 s k a 0) h in
      record {
        in_use = (n, d);
        attributes = both.0;
        same = λ j l. same_name-names 8 s k a 0 both.1 j (omega arith) (omega (arith, l));
      }

  -- The scan goes on behind entry `k`.
  pub Passed : ℕ → Type 0
  Passed k = (s (32 * k) ≢ 0) × ((s (32 * k) ≡ 0xe5) ⊎ (Fits k → ⊥))

  -- What the scan of the entries from `i` on tells, in terms of the entries alone.
  unfoldable pub Scanned : ℕ → ℕ → Scan → Type 0
  Scanned i n ended =
      (k : ℕ) × (i ≤ k) × (k < i + n) × (s (32 * k) ≡ 0) × ((j : ℕ) → i ≤ j → j < k → Passed j)
  Scanned i n missing = (j : ℕ) → i ≤ j → j < i + n → Passed j
  Scanned i n (found k) = (i ≤ k) × (k < i + n) × Fits k × ((j : ℕ) → i ≤ j → j < k → Passed j)

  before :
      (i k : ℕ)
      → Passed i
      → ((j : ℕ) → i + 1 ≤ j → j < k → Passed j)
      → (j : ℕ) → i ≤ j
      → j < k
      → Passed j
  before i k p rest j l u = elim (ℕ_discrete j i) [
    | yes e ↦ subst Passed (sym e) p
    | no ne ↦ rest j (omega (arith, l, ne)) u
  ]

  Scanned-next : (i n : ℕ) (r : Scan) → Passed i → Scanned (i + 1) n r → Scanned i (suc n) r
  unfolding Scanned
  Scanned-next i n ended p (k, l, u, z, rest) =
      (k, omega (arith, l), omega (arith, u), z, before i k p rest)
  Scanned-next i n missing p rest = λ j l u. before i (i + 1 + n) p rest j l (omega (arith, u))
  Scanned-next i n (found k) p (l, u, fits, rest) =
      (omega (arith, l), omega (arith, u), fits, before i k p rest)

  scan-here : (n i : ℕ) → s (32 * i) ≡ 0 → scan wanted a s (suc n) i ≡ ended
  unfolding scan
  scan-here n i z = ground (arith, z)

  scan-on :
      (n i : ℕ)
      → s (32 * i) ≢ 0
      → s (32 * i) ≡ 0xe5
      → scan wanted a s (suc n) i ≡ scan wanted a s n (i + 1)
  unfolding scan
  scan-on n i z e = rw (ne→== (s (32 * i)) 0 z, eq→== (s (32 * i)) 0xe5 e) refl

  scan-test :
      (n i : ℕ)
      → s (32 * i) ≢ 0
      → s (32 * i) ≢ 0xe5
      → scan wanted a s (suc n) i ≡ (if test i then found i else scan wanted a s n (i + 1))
  unfolding scan
  scan-test n i z e = rw (ne→== (s (32 * i)) 0 z, ne→== (s (32 * i)) 0xe5 e) refl

  Fits-test : (k : ℕ) → Fits k → test k ≡ true
  Fits-test k fits =
      let same : same_name 8 s k a 0 ≡ true = names-same_name 8 s k a 0 (λ j l u. fits.same j u) in
      rw (fits.attributes, same) refl

  pick : (b : Bool) (x y : Scan) → b ≡ true → (if b then x else y) ≡ x
  pick b x y e = rw e refl

  pass : (b : Bool) (x y : Scan) → b ≡ false → (if b then x else y) ≡ y
  pass b x y e = rw e refl

  true-false : (b : Bool) → b ≡ true → b ≡ false → ⊥
  true-false b t f = cc

  pub scan-Scanned : (n i : ℕ) → Scanned i n (scan wanted a s n i)
  scan-Scanned zero i = unfold Scanned scan in λ j l u. absurd (omega (arith, l, u))
  scan-Scanned (suc n) i = elim (ℕ_discrete (s (32 * i)) 0) [
    | yes z ↦
        subst (Scanned i (suc n)) (sym (scan-here n i z)) (
          unfold Scanned in (i, omega arith, omega arith, z, λ j l u. absurd (omega (arith, l, u))))
    | no nz ↦ elim (ℕ_discrete (s (32 * i)) 0xe5) [
      | yes e ↦
          subst (Scanned i (suc n)) (sym (scan-on n i nz e))
            (Scanned-next i n _ (unfold Passed in (nz, inl e)) (scan-Scanned n (i + 1)))
      | no ne ↦ subst (Scanned i (suc n)) (sym (scan-test n i nz ne)) (elim (Bool-cases (test i)) [
        | inl t ↦ subst (Scanned i (suc n)) (sym (pick (test i) (found i) _ t)) (
            unfold Scanned in
            (omega arith, omega arith, test-Fits i nz ne t, λ j l u. absurd (omega (arith, l, u))))
        | inr t ↦ subst (Scanned i (suc n)) (sym (pass (test i) _ _ t)) (
            Scanned-next i n _
              (unfold Passed in (nz, inr (λ fits. true-false (test i) (Fits-test i fits) t)))
              (scan-Scanned n (i + 1)))
      ])
    ]
  ]
