-- ===== src/Fat32/Tests.antt =====
-- A small disk: a root directory with one file of 600 bytes in two clusters.
use zju_sys3_sp25_kernel.Base.{
  ℕ, zero, suc, ◌+◌, ◌-◌, ◌*◌, ◌^◌, ◌<◌, ◌%◌, ◌≡◌, ◌≢◌, refl, arith, true, ◌==◌, ltb, ap,
  if◌then◌else◌, done, fault, List, [], ◌∷◌, ◌++◌, Words,
}
use zju_sys3_sp25_kernel.Fs.{length}
use zju_sys3_sp25_kernel.Fat32.Bytes.{Sector}
use zju_sys3_sp25_kernel.Fat32.{
  Disk, Volume, Handle, sector_size, cluster_to_sector, next_cluster, fat32_read, entry_size,
  invalid_cluster,
}
use zju_sys3_sp25_kernel.Fat32.Chain.{nth_cluster}
use zju_sys3_sp25_kernel.Str.Fill.{within}
use zju_sys3_sp25_kernel.Fat32.Contents.{file_cluster, file_byte, fat32_read-file_byte}
use zju_sys3_sp25_kernel.Fat32.Geometry.{fat_entry, next_cluster-fat_entry}
use zju_sys3_sp25_kernel.Fat32.Lookup.{Search, fat32_open_file, to_upper_case, stored, is_file}
use zju_sys3_sp25_kernel.Fat32.Lookup.Directory.{Located, as_file}
use zju_sys3_sp25_kernel.Fat32.Lookup.Paths.{
  Plain, mounted, fat32_open_file-Located, fat32_open_file-directory,
}

abbrev small : Volume
small = record {
  first_data_sec = 10;
  first_fat_sec = 2;
  sec_per_cluster = 1;
  fat_sz = 4;
  root_clus = 2;
}

-- The table: the root ends after cluster 2, the file goes from cluster 3 to cluster 4.
abbrev table : Sector
table i =
    if i == 8
    then 0xf8
    else (if i == 9
        then 0xff
        else (if i == 10 then 0xff else (if i == 11 then 0x0f else (if i == 12 then 4 else 0))))

-- The root directory: the file "A" of 600 bytes.
abbrev root_sector : Sector
root_sector i =
    if i == 0
    then 65
    else (if i == 26 then 3 else (if i == 28 then 0x58 else (if i == 29 then 2 else 0)))

abbrev disk : Disk
disk s = if s == 2 then table else (if s == 10 then root_sector else (λ i. i % 256))

abbrev opened : Handle
opened = record { cluster = 3; dir_cluster = 2; dir_index = 0; cfo = 500 }

abbrev fresh : Words
fresh i = 0

size-opened : entry_size (disk (cluster_to_sector small 2)) 0 ≡ 600
unfolding entry_size cluster_to_sector
size-opened = refl

first_link :
    (j : ℕ)
    → suc j * sector_size < 600
    → (file_cluster small disk 3 j < 2 ^ 32) × (file_cluster small disk 3 j % 128 < 32)
unfolding file_cluster
first_link zero l = (omega arith, omega arith)
first_link (suc j) l = absurd (omega (arith, l))

fat32_read-file_byte_example :
    (m' : Words) × (fat32_read 1000 small disk opened fresh 64 200
      ≡ done (100, record opened { cfo = 600 }, m'))
    × ((x : ℕ)
        → m' x ≡ (if within 64 100 x then file_byte small disk 3 (500 + (x - 64)) else fresh x))
fat32_read-file_byte_example =
    fat32_read-file_byte 1000 small disk opened fresh 64 200 600 refl (omega arith) size-opened
      (omega arith) (omega arith) (omega arith) (omega arith) (omega arith) first_link

next_cluster-fat_entry_example : next_cluster small disk 40 ≡ fat_entry small disk 8
next_cluster-fat_entry_example = next_cluster-fat_entry small disk 40 (omega arith) (omega arith)

-- "fat32" and "a"
abbrev mount : List ℕ
mount = 102 ∷ 97 ∷ 116 ∷ 51 ∷ 50 ∷ []

abbrev name : List ℕ
name = 97 ∷ []

letter : (x : ℕ) (xs : List ℕ) → ltb 47 x ≡ true → Plain xs → Plain (x ∷ xs)
unfolding Plain
letter x xs h p = (ground (arith, h), ground (arith, h), p)

no_letter : Plain []
unfolding Plain
no_letter = tt

mount-Plain : Plain mount
mount-Plain =
    letter 102 _ refl
      (letter 97 _ refl (letter 116 _ refl (letter 51 _ refl (letter 50 _ refl no_letter))))

name-Plain : Plain name
name-Plain = letter 97 _ refl no_letter

name-some : name ≢ []
name-some e = absurd (omega (arith, ap length e))

root-ends : nth_cluster small disk 2 1 ≡ invalid_cluster
unfolding nth_cluster next_cluster
root-ends = refl

fat32_open_file-Located_example :
    (r : Search) × (fat32_open_file 3 small disk fresh (mounted mount ++ name)
      ≡ done (as_file small disk is_file (stored fresh (to_upper_case name)) r))
    × Located small disk is_file (stored fresh (to_upper_case name)) 2 r
fat32_open_file-Located_example =
    fat32_open_file-Located mount mount-Plain small disk 1 2 fresh name name-Plain name-some
      (omega arith) (omega arith) (omega arith) root-ends (omega arith)

fat32_open_file-directory_example :
    fat32_open_file 3 small disk fresh (mounted mount ++ (name ++ (47 ∷ name))) ≡ fault
fat32_open_file-directory_example =
    fat32_open_file-directory mount mount-Plain small disk 3 fresh name name name-Plain name-some
      (omega arith)
