-- ===== src/Fat32/Read.antt =====
-- What `fat32_read` in fs/fat32.c returns and copies.
use zju_sys3_sp25_kernel.Base.{
  ℕ, ◌+◌, ◌-◌, ◌/◌, ◌%◌, ◌^◌, ◌≤◌, ◌<◌, ◌≡◌, ◌≢◌, ◌∙◌, inl, inr, ap, sym, subst, refl, arith, min,
  Bool-cases, ne→==, ltb, ltb→lt, ltb→ge, if◌then◌else◌, w64, Run, done, Words,
}
use native.Mathlib.Decide.{ℕ_discrete}
use zju_sys3_sp25_kernel.Str.Fill.{within}
use zju_sys3_sp25_kernel.Fat32.{
  Disk, Volume, Handle, sector_size, cluster_to_sector, entry_size, seek_loop, read_loop,
  read_length, fat32_read,
}
use zju_sys3_sp25_kernel.Fat32.Chain.{byte_at, nth_cluster, nth_cluster-plus, nth_cluster-same}
use zju_sys3_sp25_kernel.Fat32.Rounds.{Reads, read_loop-Reads, seek_loop-lem}

omega_word : (x : ℕ) → x < 2 ^ 64 → w64 x ≡ x
omega_word x h = omega (arith, h)

-- What a read returns.
abbrev returns : Handle → Words → ℕ → ℕ → Run (ℕ × Handle × Words)
returns file m k cfo = done (k, record file { cfo = cfo }, m)

unmoved :
    (file : Handle) (m : Words) (k : ℕ)
    → k ≡ 0
    → returns file m 0 file.cfo ≡ returns file m k (file.cfo + k)
unmoved file m k z =
    let there : file.cfo ≡ file.cfo + k = omega (arith, z) in
    ap (returns file m 0) there ∙ ap (λ n. returns file m n (file.cfo + k)) (sym z)

read_length-min :
    (cfo len size : ℕ)
    → size < 2 ^ 32
    → cfo ≤ size
    → len < 2 ^ 63
    → read_length cfo len size ≡ min len (size - cfo)
unfolding read_length
read_length-min cfo len size bound within_file small =
    elim (Bool-cases (ltb size (w64 (cfo + len)))) [
      | inl e ↦
          let over : size < cfo + len =
            omega (arith, ltb→lt size (w64 (cfo + len)) e, bound, within_file, small) in
          rw e (omega (arith, over, bound, within_file))
      | inr e ↦
          let word : w64 (cfo + len) ≡ cfo + len = omega (arith, bound, within_file, small) in
          rw e (omega (arith, ltb→ge size (w64 (cfo + len)) e, word))
    ]

module _ (f : ℕ) (v : Volume) (d : Disk) (file : Handle) (m : Words) (buf len wanted : ℕ)
    (length : read_length file.cfo len
        (entry_size (d (cluster_to_sector v file.dir_cluster)) file.dir_index)
      ≡ wanted) where
  fat32_read-none : wanted ≡ 0 → fat32_read f v d file m buf len ≡ done (0, file, m)
  unfolding fat32_read
  fat32_read-none z = rw (length, z) refl

  fat32_read-some :
      (c cfo : ℕ) (m' : Words)
      → wanted ≢ 0
      → seek_loop f v d file.cluster file.cfo ≡ done (c, cfo)
      → read_loop f v d m buf c cfo 0 wanted ≡ done (wanted, m')
      → fat32_read f v d file m buf len
        ≡ done (wanted, record file { cfo = w64 (file.cfo + wanted) }, m')
  unfolding fat32_read
  fat32_read-some c cfo m' n seek loop = rw (length, ne→== wanted 0 n, seek, loop) refl

byte_at-seek :
    (v : Volume) (d : Disk) (c cfo k : ℕ)
    → byte_at v d (nth_cluster v d c (cfo / sector_size)) (cfo % sector_size + k)
      ≡ byte_at v d c (cfo + k)
unfolding byte_at
byte_at-seek v d c cfo k =
    let place : (cfo % sector_size + k) % sector_size ≡ (cfo + k) % sector_size = omega arith in
    let sum : cfo / sector_size + (cfo % sector_size + k) / sector_size ≡ (cfo + k) / sector_size =
      omega arith in
    rw place (
      ap (λ x. d (cluster_to_sector v x) ((cfo + k) % sector_size))
        (nth_cluster-plus v d c (cfo / sector_size) ((cfo % sector_size + k) / sector_size)
          ∙ nth_cluster-same v d c _ _ sum))

Reads-seek :
    (v : Volume) (one : v.sec_per_cluster ≡ 1) (d : Disk) (c cfo buf n : ℕ) (m m' : Words)
    → Reads v one d
        (nth_cluster v d c (cfo / sector_size))
        (cfo % sector_size)
        (buf + 0)
        (n - 0)
        m
        m'
    → Reads v one d c cfo buf n m m'
unfolding Reads
Reads-seek v one d c cfo buf n m m' r x =
    let dst : buf + 0 ≡ buf = omega arith in
    let len : n - 0 ≡ n = omega arith in
    let r' : m' x ≡ (
        if within buf n x
        then byte_at v d (nth_cluster v d c (cfo / sector_size)) (cfo % sector_size + (x - buf))
        else m x) =
      subst
        (λ l. m' x ≡ (
          if within buf l x
          then byte_at v d (nth_cluster v d c (cfo / sector_size)) (cfo % sector_size + (x - buf))
          else m x))
        len
        (subst
          (λ b. m' x ≡ (
            if within b (n - 0) x
            then byte_at v d (nth_cluster v d c (cfo / sector_size)) (cfo % sector_size + (x - b))
            else m x))
          dst (r x)) in
    r' ∙ ap (λ y. if within buf n x then y else m x) (byte_at-seek v d c cfo (x - buf))

-- `fat32_read` at an offset within the file, on a volume with one sector in a cluster and with more rounds than
-- the offset and the length have bytes: it returns the number of bytes asked for, or of those that the file has
-- left, moves the offset on by it, and has copied the bytes of the file from the old offset on, and nothing else.
pub fat32_read-Reads :
    (f : ℕ) (v : Volume) (d : Disk) (file : Handle) (m : Words) (buf len : ℕ)
    (one : v.sec_per_cluster ≡ 1)
    → (size : ℕ) → entry_size (d (cluster_to_sector v file.dir_cluster)) file.dir_index ≡ size
    → size < 2 ^ 32
    → file.cfo ≤ size
    → len < 2 ^ 63
    → file.cfo < f
    → len < f
    → (m' : Words) × (fat32_read f v d file m buf len
        ≡ done (
          min len (size - file.cfo),
          record file { cfo = file.cfo + min len (size - file.cfo) },
          m',
        ))
      × Reads v one d file.cluster file.cfo buf (min len (size - file.cfo)) m m'
fat32_read-Reads f v d file m buf len one size s bound within_file small rounds rounds' =
    let k : ℕ = min len (size - file.cfo) in
    let wanted : read_length file.cfo len
          (entry_size (d (cluster_to_sector v file.dir_cluster)) file.dir_index)
        ≡ k =
      ap (read_length file.cfo len) s ∙ read_length-min file.cfo len size bound within_file small in
    elim (ℕ_discrete k 0) [
      | yes z ↦ (
        m,
        fat32_read-none f v d file m buf len k wanted z ∙ unmoved file m k z,
        unfold Reads in λ x. ground (arith, z),
      )
      | no n ↦
          let loop : (m' : Words) × (read_loop f v d m buf
                  (nth_cluster v d file.cluster (file.cfo / sector_size)) (file.cfo % sector_size) 0
                  k
                ≡ done (k, m'))
              × Reads v one d (nth_cluster v d file.cluster (file.cfo / sector_size))
                  (file.cfo % sector_size) (buf + 0) (k - 0) m m' =
            read_loop-Reads v one f d m buf (nth_cluster v d file.cluster (file.cfo / sector_size))
              (file.cfo % sector_size) 0 k (omega arith) (omega arith) (omega (arith, rounds')) in
          (
            loop.0,
            fat32_read-some f v d file m buf len k wanted
                  (nth_cluster v d file.cluster (file.cfo / sector_size)) (file.cfo % sector_size)
                  loop.0 n (seek_loop-lem v one f d file.cluster file.cfo rounds) loop.1
                ∙ ap (returns file loop.0 k)
                    (omega_word (file.cfo + k) (omega (arith, bound, within_file))),
            Reads-seek v one d file.cluster file.cfo buf k m loop.0 loop.2,
          )
    ]
