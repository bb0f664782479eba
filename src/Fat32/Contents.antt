-- ===== src/Fat32/Contents.antt =====
-- The contents of a file in fs/fat32.c by the entries of the file allocation table, and what `fat32_read` copies of them.
use zju_sys3_sp25_kernel.Base.{
  ℕ, zero, suc, ◌+◌, ◌-◌, ◌*◌, ◌/◌, ◌%◌, ◌^◌, ◌≤◌, ◌<◌, ◌≡◌, ◌∙◌, inl, inr, ap, refl, arith, min,
  Bool-cases, if◌then◌else◌, done, Words,
}
use zju_sys3_sp25_kernel.Str.Fill.{within}
use zju_sys3_sp25_kernel.Fat32.{
  Disk, Volume, Handle, sector_size, cluster_to_sector, next_cluster, entry_size, fat32_read,
}
use zju_sys3_sp25_kernel.Fat32.Chain.{nth_cluster, byte_at}
use zju_sys3_sp25_kernel.Fat32.Geometry.{fat_entry, next_cluster-fat_entry}
use zju_sys3_sp25_kernel.Fat32.Rounds.{Reads}
use zju_sys3_sp25_kernel.Fat32.Read.{fat32_read-Reads}

-- The cluster that is `k` entries of the table behind `cluster`.
unfoldable pub file_cluster : Volume → Disk → ℕ → ℕ → ℕ
file_cluster v d cluster zero = cluster
file_cluster v d cluster (suc k) = file_cluster v d (fat_entry v d cluster) k

-- Byte `n` of the file that starts at `cluster`.
unfoldable pub file_byte : Volume → Disk → ℕ → ℕ → ℕ
file_byte v d cluster n =
    d (cluster_to_sector v (file_cluster v d cluster (n / sector_size))) (n % sector_size)

-- The first `n` clusters are numbers of 32 bits that are among the first 32 of their sector of the table.
abbrev pub InReach : Volume → Disk → ℕ → ℕ → Type 0
InReach v d cluster n =
    (j : ℕ)
    → j < n
    → (file_cluster v d cluster j < 2 ^ 32) × (file_cluster v d cluster j % 128 < 32)

next_cluster-here :
    (v : Volume) (d : Disk) (c : ℕ)
    → v.first_fat_sec < 2 ^ 63
    → c < 2 ^ 32
    → c % 128 < 32
    → next_cluster v d c ≡ fat_entry v d c
next_cluster-here v d c f l u =
    let same : c / 128 * 128 + c % 32 ≡ c = omega (arith, u) in
    next_cluster-fat_entry v d c l f ∙ ap (fat_entry v d) same

nth_cluster-file_cluster :
    (v : Volume) (d : Disk) (c k : ℕ)
    → v.first_fat_sec < 2 ^ 63
    → InReach v d c k
    → nth_cluster v d c k ≡ file_cluster v d c k
unfolding nth_cluster file_cluster
nth_cluster-file_cluster v d c zero f h = refl
nth_cluster-file_cluster v d c (suc k) f h =
    let here : (c < 2 ^ 32) × (c % 128 < 32) = h 0 (omega arith) in
    ap (λ x. nth_cluster v d x k) (next_cluster-here v d c f here.0 here.1)
    ∙ nth_cluster-file_cluster v d (fat_entry v d c) k f (λ j l. h (suc j) (omega (arith, l)))

byte_at-file_byte :
    (v : Volume) (d : Disk) (c n : ℕ)
    → v.first_fat_sec < 2 ^ 63
    → InReach v d c (n / sector_size)
    → byte_at v d c n ≡ file_byte v d c n
unfolding byte_at file_byte
byte_at-file_byte v d c n f h =
    ap (λ x. d (cluster_to_sector v x) (n % sector_size))
      (nth_cluster-file_cluster v d c (n / sector_size) f h)

-- `fat32_read` at an offset within the file, on a volume with one sector in a cluster, with more rounds than the offset
-- and the length have bytes, when each cluster that the read goes on from is a number of 32 bits among the first 32 of
-- its sector of the table: it returns the number of bytes asked for, or of those that the file has left, moves the offset
-- on by it, and has copied the bytes of the file, whose clusters the table gives, from the old offset on, and nothing else.
pub fat32_read-file_byte :
    (f : ℕ) (v : Volume) (d : Disk) (file : Handle) (m : Words) (buf len size : ℕ)
    → v.sec_per_cluster ≡ 1
    → v.first_fat_sec < 2 ^ 63
    → entry_size (d (cluster_to_sector v file.dir_cluster)) file.dir_index ≡ size
    → size < 2 ^ 32
    → file.cfo ≤ size
    → len < 2 ^ 63
    → file.cfo < f
    → len < f
    → ((j : ℕ)
        → suc j * sector_size < file.cfo + min len (size - file.cfo)
        → (file_cluster v d file.cluster j < 2 ^ 32) × (file_cluster v d file.cluster j % 128 < 32))
    → (m' : Words) × (fat32_read f v d file m buf len
        ≡ done (
          min len (size - file.cfo),
          record file { cfo = file.cfo + min len (size - file.cfo) },
          m',
        ))
      × ((x : ℕ)
          → m' x ≡ (
              if within buf (min len (size - file.cfo)) x
              then file_byte v d file.cluster (file.cfo + (x - buf))
              else m x))
fat32_read-file_byte f v d file m buf len size one fat s bound inside small rounds rounds' h =
    let k : ℕ = min len (size - file.cfo) in
    let r : (m' : Words) × (fat32_read f v d file m buf len
          ≡ done (k, record file { cfo = file.cfo + k }, m'))
        × Reads v one d file.cluster file.cfo buf k m m' =
      fat32_read-Reads f v d file m buf len one size s bound inside small rounds rounds' in
    (
      r.0,
      r.1,
      λ x. elim (Bool-cases (within buf k x)) [
        | inl e ↦
            let there : x - buf < k = ground (arith, e) in
            let own : InReach v d file.cluster ((file.cfo + (x - buf)) / sector_size) =
              λ j l. h j (omega (arith, l, there)) in
            let now : r.0 x ≡ (
                if within buf k x then byte_at v d file.cluster (file.cfo + (x - buf)) else m x) =
              unfold Reads in r.2 x in
            now
            ∙ ap (λ y. if within buf k x then y else m x)
                (byte_at-file_byte v d file.cluster (file.cfo + (x - buf)) fat own)
        | inr e ↦
            let now : r.0 x ≡ (
                if within buf k x then byte_at v d file.cluster (file.cfo + (x - buf)) else m x) =
              unfold Reads in r.2 x in
            ground (arith, now, e)
      ],
    )
