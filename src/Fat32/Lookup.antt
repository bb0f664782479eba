-- ===== src/Fat32/Lookup.antt =====
-- The paths and the directories of fs/fat32.c. A path is the list of its bytes before the NUL.
pub mod Directory
pub mod First
pub mod Paths
use zju_sys3_sp25_kernel.Base.{
  ℕ, zero, suc, ◌+◌, ◌-◌, ◌*◌, ◌/◌, ◌%◌, ◌^◌, bit_or, Bool, true, false, not, ◌&&◌, ◌||◌, ltb, leb,
  ◌==◌, if◌then◌else◌, List, [], ◌∷◌, Option, none, some, Run, done, no_fuel, fault, ◌>>=◌, Words,
}
use zju_sys3_sp25_kernel.Base.Bits.{bit}
use zju_sys3_sp25_kernel.Fat32.{Disk, Volume, invalid_cluster, cluster_to_sector, next_cluster}
use zju_sys3_sp25_kernel.Fs.{Fat32File, length}
use zju_sys3_sp25_kernel.Fat32.Bytes.{Sector, le16}

abbrev pub drop : ℕ → List ℕ → List ℕ
drop zero xs = xs
drop (suc n) [] = []
drop (suc n) (x ∷ xs) = drop n xs

abbrev pub take : ℕ → List ℕ → List ℕ
take zero xs = []
take (suc n) [] = []
take (suc n) (x ∷ xs) = x ∷ take n xs

-- Byte `j` of a string in an array of zeros.
abbrev pub chars : List ℕ → Words
chars [] j = 0
chars (x ∷ xs) zero = x
chars (x ∷ xs) (suc j) = chars xs j

-- The index of the next '/', or `none` for -1.
pub next_slash : List ℕ → Option ℕ
next_slash [] = none
next_slash (c ∷ cs) =
    let rest = next_slash cs in
    if c == 47 then some 0 else elim rest [ none ↦ none | some i ↦ some (suc i) ]

pub upper : ℕ → ℕ
upper c = if leb 97 c && leb c 122 then c - 32 else c

pub to_upper_case : List ℕ → List ℕ
unfolding upper
to_upper_case [] = []
to_upper_case (c ∷ cs) = upper c ∷ to_upper_case cs

-- The result of `parse_dirname`: the name, the new index, and whether the end is reached.
pub record Parsed : Type 0 where
  pub name : List ℕ
  pub index : ℕ
  pub reach_end : Bool

-- `next_slash` counts from `ind` on, but the code takes its result for an index into the path. A write
-- outside the 12 bytes of `dirname` is a fault.
pub parse_at : List ℕ → ℕ → ℕ → Option ℕ → Run Parsed
unfolding to_upper_case
parse_at path index ind none =
    let rest = drop ind path in
    if leb 12 (length rest)
    then fault
    else done (record { name = to_upper_case rest; index = index + length rest; reach_end = true })
parse_at path index ind (some s) =
    let len = s - ind in
    if ltb s ind || leb 12 len
    then fault
    else done (record {
      name = to_upper_case (take len (drop ind path));
      index = index + len + 1;
      reach_end = chars path (s + 1) == 0;
    })

pub parse_dirname : List ℕ → ℕ → Run Parsed
unfolding parse_at next_slash
parse_dirname path index =
    let ind = if chars path index == 47 then index + 1 else index in
    parse_at path index ind (next_slash (drop ind path))

-- Byte `j` of the name of entry `i`, without the padding.
pub entry_name : Sector → ℕ → ℕ → ℕ
entry_name s i j = if s (32 * i + j) == 32 then 0 else s (32 * i + j)

pub entry_attr : Sector → ℕ → ℕ
entry_attr s i = s (32 * i + 11)

pub entry_cluster : Sector → ℕ → ℕ
entry_cluster s i = bit_or (le16 s (32 * i + 26)) (le16 s (32 * i + 20) * 2 ^ 16)

-- `memcmp(name, a, 8) == 0`, from byte `j` on.
pub same_name : ℕ → Sector → ℕ → Words → ℕ → Bool
unfolding entry_name
same_name zero s i a j = true
same_name (suc n) s i a j =
    let rest = same_name n s i a (j + 1) in (entry_name s i j == a j) && rest

pub data Scan : Type 0 where
  ended : Scan
  missing : Scan
  found : ℕ → Scan

-- The loop over the 16 entries of a sector, from `i` on: `wanted` tells from the attributes what to look at.
pub scan : (ℕ → Bool) → Words → Sector → ℕ → ℕ → Scan
unfolding same_name entry_attr
scan wanted a s zero i = missing
scan wanted a s (suc n) i =
    let rest = scan wanted a s n (i + 1) in
    if s (32 * i) == 0
    then ended
    else (if s (32 * i) == 0xe5
        then rest
        else (if wanted (entry_attr s i) && same_name 8 s i a 0 then found i else rest))

-- `attr & 0x10`, a directory, and `attr & 0x08`, a long name.
pub is_subdirectory : ℕ → Bool
is_subdirectory attr = not (bit 4 attr == 0)

pub is_long_name : ℕ → Bool
is_long_name attr = not (bit 3 attr == 0)

pub is_file : ℕ → Bool
unfolding is_subdirectory is_long_name
is_file attr = not (is_long_name attr) && not (is_subdirectory attr)

pub is_listed_directory : ℕ → Bool
unfolding is_subdirectory is_long_name
is_listed_directory attr = not (is_long_name attr) && is_subdirectory attr

-- What a search along the clusters of a directory gives.
pub data Search : Type 0 where
  at_end : Search
  exhausted : Search
  entry : ℕ → ℕ → Search

-- `while (cluster != INVALID_CLUSTER)`
pub search_loop : ℕ → Volume → Disk → (ℕ → Bool) → Words → ℕ → Run Search
unfolding scan cluster_to_sector next_cluster
search_loop zero v d wanted a cluster = no_fuel
search_loop (suc f) v d wanted a cluster =
    let rest = search_loop f v d wanted a (next_cluster v d cluster) in
    if cluster == invalid_cluster
    then done exhausted
    else elim (scan wanted a (d (cluster_to_sector v cluster)) 16 0) [
      | ended ↦ done at_end
      | missing ↦ rest
      | found i ↦ done (entry cluster i)
    ]

-- `struct fat32_dir`, as `open_dir` returns it, with the name of the last part of the path.
pub record Opened : Type 0 where
  pub cluster : ℕ
  pub filename : List ℕ

-- The loop of `open_dir` over the parts of the path.
pub descend_loop : ℕ → ℕ → Volume → Disk → List ℕ → Parsed → ℕ → Run Opened
unfolding search_loop parse_dirname is_subdirectory entry_cluster
descend_loop zero f v d path p cluster = no_fuel
descend_loop (suc r) f v d path p cluster =
    let on : ℕ → Run Opened =
      λ c. parse_dirname path p.index >>= (λ q. descend_loop r f v d path q c) in
    if p.reach_end
    then done (record { cluster = cluster; filename = p.name })
    else search_loop f v d is_subdirectory (chars p.name) cluster >>= (λ s. elim s [
      | at_end ↦ done (record { cluster = invalid_cluster; filename = [] })
      | exhausted ↦ on invalid_cluster
      | entry c i ↦ on (entry_cluster (d (cluster_to_sector v c)) i)
    ])

-- `open_dir`; `f` bounds the rounds of each loop.
pub open_dir : ℕ → Volume → Disk → List ℕ → Run Opened
unfolding descend_loop next_slash
open_dir f v d path =
    let index : ℕ = elim (next_slash (drop 1 path)) [ none ↦ 1 | some s ↦ s + 2 ] in
    parse_dirname path index >>= (λ p.
      if chars p.name 0 == 0
      then done (record { cluster = 0; filename = [] })
      else descend_loop f f v d path p v.root_clus)

abbrev pub no_file : Fat32File
no_file = record { cluster = 0; dir_cluster = 0; dir_index = 0 }

-- The array `char filename[12]` after `strcpy`: behind the NUL stands what the stack held.
pub stored : Words → List ℕ → Words
stored stack name j = if leb j (length name) then chars name j else stack j

-- The search of the last part of a path.
pub find_entry : ℕ → Volume → Disk → (ℕ → Bool) → Words → ℕ → Run Fat32File
unfolding search_loop entry_cluster
find_entry f v d wanted a cluster = search_loop f v d wanted a cluster >>= (λ s. elim s [
  | at_end ↦ done no_file
  | exhausted ↦ done no_file
  | entry c i ↦ done (record {
    cluster = entry_cluster (d (cluster_to_sector v c)) i;
    dir_cluster = c;
    dir_index = i;
  })
])

pub fat32_open_file : ℕ → Volume → Disk → Words → List ℕ → Run Fat32File
unfolding open_dir find_entry stored is_file
fat32_open_file f v d stack path = open_dir f v d path >>= (λ dir.
    if dir.cluster == invalid_cluster || dir.cluster == 0
    then done no_file
    else find_entry f v d is_file (stored stack dir.filename) dir.cluster)

pub fat32_open_dir : ℕ → Volume → Disk → Words → List ℕ → Run Fat32File
unfolding open_dir find_entry stored is_listed_directory
fat32_open_dir f v d stack path = open_dir f v d path >>= (λ dir.
    if dir.cluster == invalid_cluster
    then done no_file
    else (if dir.cluster == 0
        then done (record { cluster = v.root_clus; dir_cluster = 0; dir_index = 2 ^ 32 - 1 })
        else find_entry f v d is_listed_directory (stored stack dir.filename) dir.cluster))
