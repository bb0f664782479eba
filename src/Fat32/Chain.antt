-- ===== src/Fat32/Chain.antt =====
-- The chain of clusters of a file in fs/fat32.c, and the bytes along it.
use zju_sys3_sp25_kernel.Base.{
  ℕ, zero, suc, ◌+◌, ◌-◌, ◌/◌, ◌%◌, ◌<◌, ◌≡◌, ◌∙◌, inl, inr, ap, refl, arith, Bool, true, false,
  Bool-cases, ltb, ltb→lt, ltb→ge, if◌then◌else◌, Words, write,
}
use native.Mathlib.Decide.{ℕ_discrete}
use zju_sys3_sp25_kernel.Str.Fill.{within}
use zju_sys3_sp25_kernel.Fat32.Bytes.{Sector}
use zju_sys3_sp25_kernel.Fat32.{Disk, Volume, sector_size, cluster_to_sector, next_cluster}

-- The cluster that is `k` links behind `cluster`.
unfoldable pub nth_cluster : Volume → Disk → ℕ → ℕ → ℕ
nth_cluster v d cluster zero = cluster
nth_cluster v d cluster (suc k) = nth_cluster v d (next_cluster v d cluster) k

omega_zero : (l : ℕ) → l ≡ zero + l
omega_zero l = omega arith

omega_suc : (k l : ℕ) → suc (k + l) ≡ suc k + l
omega_suc k l = omega arith

pub nth_cluster-plus :
    (v : Volume) (d : Disk) (c k l : ℕ)
    → nth_cluster v d (nth_cluster v d c k) l ≡ nth_cluster v d c (k + l)
unfolding nth_cluster
nth_cluster-plus v d c zero l = ap (nth_cluster v d c) (omega_zero l)
nth_cluster-plus v d c (suc k) l =
    nth_cluster-plus v d (next_cluster v d c) k l ∙ ap (nth_cluster v d c) (omega_suc k l)

-- Byte `n` of the clusters from `cluster` on.
unfoldable pub byte_at : Volume → Disk → ℕ → ℕ → ℕ
byte_at v d cluster n =
    d (cluster_to_sector v (nth_cluster v d cluster (n / sector_size))) (n % sector_size)

pub nth_cluster-same :
    (v : Volume) (d : Disk) (c k l : ℕ) → k ≡ l → nth_cluster v d c k ≡ nth_cluster v d c l
nth_cluster-same v d c k l e = ap (nth_cluster v d c) e

pub first_of : (b : Bool) → b ≡ true → (x y : ℕ) → (if b then x else y) ≡ x
first_of b e x y = rw e refl

pub second_of : (b : Bool) → b ≡ false → (x y : ℕ) → (if b then x else y) ≡ y
second_of b e x y = rw e refl

pub byte_same : (s : Sector) (a b : ℕ) → a ≡ b → s a ≡ s b
byte_same s a b e = ap s e

pub byte_at-here :
    (v : Volume) (d : Disk) (c n : ℕ)
    → n < sector_size
    → byte_at v d c n ≡ d (cluster_to_sector v c) n
unfolding byte_at nth_cluster
byte_at-here v d c n h =
    let first : n / sector_size ≡ 0 = omega (arith, h) in
    let same : n % sector_size ≡ n = omega (arith, h) in rw (first, same) refl

pub byte_at-next :
    (v : Volume) (d : Disk) (c n m : ℕ)
    → n ≡ sector_size + m
    → byte_at v d c n ≡ byte_at v d (next_cluster v d c) m
unfolding byte_at nth_cluster
byte_at-next v d c n m h =
    let first : n / sector_size ≡ suc (m / sector_size) = omega (arith, h) in
    let same : n % sector_size ≡ m % sector_size = omega (arith, h) in rw (first, same) refl

pub copied :
    (n : ℕ) (m : Words) (dst : ℕ) (s : Sector) (from x : ℕ)
    → (if within (dst + 1) n x then s (from + 1 + (x - (dst + 1))) else write m dst (s from) x)
      ≡ (if within dst (suc n) x then s (from + (x - dst)) else m x)
unfolding write
copied n m dst s from x = elim (ℕ_discrete x dst) [
  | yes e ↦
      let byte : s (from + (x - dst)) ≡ s from =
        byte_same s (from + (x - dst)) from (omega (arith, e)) in
      ground (arith, e, byte)
  | no ne ↦ elim (Bool-cases (ltb dst x)) [
    | inl l ↦
        let byte : s (from + 1 + (x - (dst + 1))) ≡ s (from + (x - dst)) =
          byte_same s (from + 1 + (x - (dst + 1))) (from + (x - dst))
            (omega (arith, ltb→lt dst x l)) in
        ground (arith, ne, byte)
    | inr l ↦ ground (arith, ne, ltb→ge dst x l)
  ]
]
