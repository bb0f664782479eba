-- ===== src/Fat32/Geometry.antt =====
-- Clusters, sectors and the table of fs/fat32.c.
use zju_sys3_sp25_kernel.Base.{ℕ, ◌+◌, ◌-◌, ◌*◌, ◌/◌, ◌%◌, ◌^◌, ◌≤◌, ◌<◌, ◌≡◌, refl, arith, w64}
use native.Mathlib.Nat.{mul-div_left, mul-le-mul}
use zju_sys3_sp25_kernel.Fat32.Bytes.{le32}
use zju_sys3_sp25_kernel.Fat32.{Disk, Volume, next_cluster, cluster_to_sector, sector_to_cluster}

-- The entry of a cluster in the file allocation table: 128 entries of four bytes in a sector.
pub fat_entry : Volume → Disk → ℕ → ℕ
fat_entry v d c = le32 (d (v.first_fat_sec + c / 128)) (c % 128 * 4)

place_of : ℕ → ℕ
place_of c = c * 4 % 512

le32-same : (d : Disk) (s s' i i' : ℕ) → s ≡ s' → i ≡ i' → le32 (d s) i ≡ le32 (d s') i'
le32-same d s s' i i' e q = rw (e, q) refl

-- `next_cluster` reads the table's entry of the cluster only if the cluster is among the first 32 of its sector of the
-- table; otherwise it reads the entry of one of those.
pub next_cluster-fat_entry :
    (v : Volume) (d : Disk) (c : ℕ)
    → c < 2 ^ 32
    → v.first_fat_sec < 2 ^ 63
    → next_cluster v d c ≡ fat_entry v d (c / 128 * 128 + c % 32)
unfolding next_cluster fat_entry
next_cluster-fat_entry v d c l m = le32-same d _ _ _ _ (omega (arith, l, m)) (omega (arith, l))

round-trip :
    (c s first : ℕ)
    → 2 ≤ c
    → c < 2 ^ 32
    → 1 ≤ s
    → first < 2 ^ 63
    → (c - 2) * s < 2 ^ 40
    → w64 (w64 (w64 (w64 (w64 (c + 2 ^ 64 - 2) * s) + first) + 2 ^ 64 - first) / s + 2) ≡ c
round-trip c s first l u p f b =
    let less : w64 (c + 2 ^ 64 - 2) ≡ c - 2 = omega (arith, l, u) in
    let back : w64 (w64 (w64 ((c - 2) * s) + first) + 2 ^ 64 - first) ≡ (c - 2) * s =
      omega (arith, b, f) in
    rw (less, back, mul-div_left (c - 2) {n = s} (omega (arith, p))) (omega (arith, l, u))

-- A cluster number of 32 bits from 2 on goes to the first of its sectors and back.
pub sector_to_cluster-cluster_to_sector :
    (v : Volume) (c : ℕ)
    → 2 ≤ c
    → c < 2 ^ 32
    → 1 ≤ v.sec_per_cluster
    → v.sec_per_cluster < 256
    → v.first_data_sec < 2 ^ 63
    → sector_to_cluster v (cluster_to_sector v c) ≡ c
unfolding sector_to_cluster cluster_to_sector
sector_to_cluster-cluster_to_sector v c l u p q f =
    let b : (c - 2) * v.sec_per_cluster ≤ 4294967295 * 255 =
      mul-le-mul {n₁ = c - 2} {m₁ = v.sec_per_cluster} {n₂ = 4294967295} {m₂ = 255}
        (omega (arith, u)) (omega (arith, q)) in
    round-trip c v.sec_per_cluster v.first_data_sec l u p f (omega (arith, b))
