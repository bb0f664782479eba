-- ===== src/Fat32.antt =====
-- fs/fat32.c. The block device is an array of sectors of 512 bytes; `fat32_buf` is the sector that was read last.
mod Bytes
mod Chain
mod Contents
mod Geometry
mod Lookup
mod Read
mod Rounds
mod Tests
use zju_sys3_sp25_kernel.Base.{
  ℕ, zero, suc, ◌+◌, ◌-◌, ◌*◌, ◌/◌, ◌%◌, ◌^◌, bit_or, Bool, true, false, not, ◌&&◌, ◌||◌, ltb, leb,
  ◌==◌, if◌then◌else◌, min, Run, done, halt, no_fuel, fault, ◌>>=◌, w64, Words, write,
}
use zju_sys3_sp25_kernel.Base.Bits.{bit}
use zju_sys3_sp25_kernel.Fat32.Bytes.{Sector, le16, le32, w32}

-- What the device holds.
abbrev pub Disk : Type 0
Disk = ℕ → Sector

-- `struct fat32_volume`, with the header's `root_clus`.
pub record Volume : Type 0 where
  pub first_data_sec : ℕ
  pub first_fat_sec : ℕ
  pub sec_per_cluster : ℕ
  pub fat_sz : ℕ
  pub root_clus : ℕ

abbrev pub sector_size : ℕ
sector_size = 512

abbrev pub invalid_cluster : ℕ
invalid_cluster = 0x0ffffff8

pub cluster_to_sector : Volume → ℕ → ℕ
cluster_to_sector v cluster =
    w64 (w64 (w64 (cluster + 2 ^ 64 - 2) * v.sec_per_cluster) + v.first_data_sec)

pub sector_to_cluster : Volume → ℕ → ℕ
sector_to_cluster v sector = w64 (w64 (sector + 2 ^ 64 - v.first_data_sec) / v.sec_per_cluster + 2)

pub next_cluster : Volume → Disk → ℕ → ℕ
next_cluster v d cluster =
    let fat_offset = w64 (cluster * 4) in
    let fat_sector = w64 (v.first_fat_sec + fat_offset / sector_size) in
    le32 (d fat_sector) (fat_offset % (sector_size / 4))

pub fat32_init : Disk → ℕ → Volume
fat32_init d lba =
    let header = d lba in
    let first_fat_sec = w64 (lba + le16 header 14) in
    record {
      first_data_sec = w64 (first_fat_sec + w32 (header 16 * le32 header 36));
      first_fat_sec = first_fat_sec;
      sec_per_cluster = header 13;
      fat_sz = le32 header 36;
      root_clus = le32 header 44;
    }

pub is_fat32 : Disk → ℕ → Bool
is_fat32 d lba = le16 (d lba) 510 == 0xaa55

-- `struct file`, as far as these functions use it.
pub record Handle : Type 0 where
  pub cluster : ℕ
  pub dir_cluster : ℕ
  pub dir_index : ℕ
  pub cfo : ℕ

-- `entry[i].size` in a sector of entries.
pub entry_size : Sector → ℕ → ℕ
entry_size s i = le32 s (32 * i + 28)

-- `while (cfo >= cluster size)`: the cluster of the offset, and the offset in it.
pub seek_loop : ℕ → Volume → Disk → ℕ → ℕ → Run (ℕ × ℕ)
seek_loop zero v d cluster cfo = no_fuel
seek_loop (suc f) v d cluster cfo =
    let size = v.sec_per_cluster * sector_size in
    let rest = seek_loop f v d (next_cluster v d cluster) (cfo - size) in
    if leb size cfo then rest else done (cluster, cfo)

-- `memcpy(dst, src, n)` from a sector into the caller's memory.
pub copy_out : ℕ → Words → ℕ → Sector → ℕ → Words
unfolding write
copy_out zero m dst s from = m
copy_out (suc n) m dst s from = copy_out n (write m dst (s from)) (dst + 1) s (from + 1)

-- The part of a cluster that one round reads or writes.
pub round_len : Volume → ℕ → ℕ → ℕ → ℕ
round_len v done_len len cfo =
    let n = v.sec_per_cluster * sector_size - cfo in
    if ltb len (done_len + n) then len - done_len else n

-- The loop of `fat32_read`; a copy that would leave the 512 bytes of `fat32_buf` is a fault.
pub read_loop : ℕ → Volume → Disk → Words → ℕ → ℕ → ℕ → ℕ → ℕ → Run (ℕ × Words)
unfolding round_len copy_out next_cluster
read_loop zero v d m buf cluster cfo read_len len = no_fuel
read_loop (suc f) v d m buf cluster cfo read_len len =
    let size = v.sec_per_cluster * sector_size in
    let n = round_len v read_len len cfo in
    let m' = copy_out n m (buf + read_len) (d (cluster_to_sector v cluster)) cfo in
    let turn = leb size (cfo + n) in
    let cluster' = if turn then next_cluster v d cluster else cluster in
    let cfo' = if turn then cfo + n - size else cfo + n in
    let rest = read_loop f v d m' buf cluster' cfo' (read_len + n) len in
    if ltb read_len len
    then (if leb (cfo + n) sector_size then rest else fault)
    else done (read_len, m)

-- The number of bytes that `fat32_read` sets out to read: 64 bits, so that an offset behind the end wraps.
pub read_length : ℕ → ℕ → ℕ → ℕ
read_length cfo len file_sz =
    if ltb file_sz (w64 (cfo + len)) then w64 (file_sz + 2 ^ 64 - cfo) else len

-- `fat32_read`, with `f` rounds for each of its loops.
pub fat32_read : ℕ → Volume → Disk → Handle → Words → ℕ → ℕ → Run (ℕ × Handle × Words)
unfolding seek_loop read_loop read_length entry_size cluster_to_sector
fat32_read f v d file m buf len =
    let file_sz = entry_size (d (cluster_to_sector v file.dir_cluster)) file.dir_index in
    let wanted = read_length file.cfo len file_sz in
    if wanted == 0
    then done (0, file, m)
    else seek_loop f v d file.cluster file.cfo >>= (λ c.
      read_loop f v d m buf c.0 c.1 0 wanted
      >>= (λ r. done (r.0, record file { cfo = w64 (file.cfo + r.0) }, r.1)))

-- `fat32_lseek`; `halt` is the endless loop on an unknown `whence`.
pub fat32_lseek : Volume → Disk → Handle → ℕ → ℕ → Run (ℕ × Handle)
unfolding entry_size cluster_to_sector
fat32_lseek v d file offset whence =
    let entry = d (cluster_to_sector v file.cluster) in
    let file_sz = entry_size entry file.dir_index in
    let at : ℕ → Run (ℕ × Handle) = λ cfo. done (cfo, record file { cfo = cfo }) in
    if whence == 0
    then at offset
    else (if whence == 1
        then at (w64 (file.cfo + offset))
        else (if whence == 2 then at (w64 (entry_size entry file_sz + offset)) else halt))

-- `memcpy(dst, src, n)` from the caller's memory into a sector.
pub copy_in : ℕ → Sector → ℕ → Words → ℕ → Sector
unfolding write
copy_in zero s to m src = s
copy_in (suc n) s to m src = copy_in n (write s to (m src)) (to + 1) m (src + 1)

-- `virtio_blk_write_sector`
pub write_sector : Disk → ℕ → Sector → Disk
write_sector d sector s k = if k == sector then s else d k

pub write_loop : ℕ → Volume → Disk → Words → ℕ → ℕ → ℕ → ℕ → ℕ → Run (ℕ × Disk)
unfolding round_len copy_in write_sector next_cluster
write_loop zero v d m buf cluster cfo write_len len = no_fuel
write_loop (suc f) v d m buf cluster cfo write_len len =
    let size = v.sec_per_cluster * sector_size in
    let sector = cluster_to_sector v cluster in
    let n = round_len v write_len len cfo in
    let d' = write_sector d sector (copy_in n (d sector) cfo m (buf + write_len)) in
    let turn = leb size (cfo + n) in
    let cluster' = if turn then next_cluster v d' cluster else cluster in
    let cfo' = if turn then cfo + n - size else cfo + n in
    let rest = write_loop f v d' m buf cluster' cfo' (write_len + n) len in
    if ltb write_len len
    then (if leb (cfo + n) sector_size then rest else fault)
    else done (write_len, d)

-- `fat32_write` returns 0; the new size reaches `fat32_buf` only.
pub fat32_write : ℕ → Volume → Disk → Handle → Words → ℕ → ℕ → Run (ℕ × Handle × Disk)
unfolding seek_loop write_loop
fat32_write f v d file m buf len =
    if len == 0
    then done (0, file, d)
    else seek_loop f v d file.cluster file.cfo >>= (λ c.
      write_loop f v d m buf c.0 c.1 0 len
      >>= (λ r. done (0, record file { cfo = w64 (file.cfo + r.0) }, r.1)))
