-- ===== src/Fs.antt =====
-- The table of open files of a task: fs/fs.c and the file system calls of arch/riscv/kernel/ksyscalls.c.
-- Words of 32 bits stand for `int` and `unsigned`, words of 64 bits for `long`; -1 is the word of ones.
mod Calls
mod Descriptors
mod Tests
use zju_sys3_sp25_kernel.Base.{
  ℕ, zero, suc, ◌+◌, ◌-◌, ◌^◌, bit_and, Bool, true, false, not, ◌&&◌, ◌||◌, List, [], ◌∷◌, ltb, leb,
  ◌==◌, if◌then◌else◌, Run, done, fault, ◌>>=◌,
}
use zju_sys3_sp25_kernel.Base.Bits

abbrev pub minus_one : ℕ
minus_one = 2 ^ 64 - 1

abbrev pub max_file_number : ℕ
max_file_number = 16

abbrev pub max_path_length : ℕ
max_path_length = 80

abbrev pub length : List ℕ → ℕ
length [] = 0
length (x ∷ xs) = suc (length xs)

-- The functions that the pointers `lseek`, `write` and `read` of a file hold.
pub data Handler : Type 0 where
  null : Handler
  stdin_read : Handler
  stdout_write : Handler
  stderr_write : Handler
  fat32_lseek : Handler
  fat32_read : Handler
  fat32_read_dir : Handler
  fat32_write : Handler

pub record Fat32File : Type 0 where
  pub cluster : ℕ
  pub dir_cluster : ℕ
  pub dir_index : ℕ

pub record File : Type 0 where
  pub opened : ℕ
  pub perms : ℕ
  pub cfo : ℕ
  pub fs_type : ℕ
  pub flags : ℕ
  pub fat32_file : Fat32File
  pub lseek : Handler
  pub write_to : Handler
  pub read_from : Handler
  pub path : List ℕ

abbrev pub Files : Type 0
Files = ℕ → File

pub put : Files → ℕ → File → Files
put fds i f j = if j == i then f else fds j

-- The descriptors that `file_init` sets up in the page `fds`.
unfoldable pub file_init : Files → Files
file_init fds zero = record (fds 0) {
  opened = 1;
  perms = 1;
  cfo = 0;
  lseek = null;
  write_to = null;
  read_from = stdin_read;
}
file_init fds (suc zero) = record (fds 1) {
  opened = 1;
  perms = 2;
  cfo = 0;
  lseek = null;
  write_to = stdout_write;
  read_from = null;
}
file_init fds (suc (suc zero)) = record (fds 2) {
  opened = 1;
  perms = 2;
  cfo = 0;
  lseek = null;
  write_to = stderr_write;
  read_from = null;
}
file_init fds (suc (suc (suc i))) =
    if ltb (i + 3) max_file_number
    then record (fds (i + 3)) {
      opened = 0;
      perms = 0;
      cfo = 0;
      lseek = null;
      write_to = null;
      read_from = null;
    }
    else fds (i + 3)

-- `memcmp(filename, prefix, n) == 0`, on a name that ends with NUL.
unfoldable pub starts_with : List ℕ → List ℕ → Bool
starts_with [] name = true
starts_with (c ∷ cs) [] = false
starts_with (c ∷ cs) (d ∷ ds) = let rest = starts_with cs ds in (c == d) && rest

-- 1 for "/fat32/", 2 for "/ext2/", and -1 in 32 bits for all else.
unfoldable pub get_fs_type : List ℕ → ℕ
unfolding starts_with
get_fs_type name =
    if starts_with (47 ∷ 102 ∷ 97 ∷ 116 ∷ 51 ∷ 50 ∷ 47 ∷ []) name
    then 1
    else (if starts_with (47 ∷ 101 ∷ 120 ∷ 116 ∷ 50 ∷ 47 ∷ []) name then 2 else 2 ^ 32 - 1)

-- `flags & 1` and `flags & 2`
pub get_perm : ℕ → ℕ
get_perm flags = (if Bits.bit 0 flags == 0 then 0 else 1) + (if Bits.bit 1 flags == 0 then 0 else 2)

-- `flags & O_DIRECTORY`
pub is_directory : ℕ → Bool
is_directory flags = not (Bits.bit 21 flags == 0)

-- The services of fat32.c, on the state `D` of the volume.
pub record Volume (D : Type 0) : Type 0 where
  pub open_dir : List ℕ → D → Run (Fat32File × D)
  pub open_file : List ℕ → D → Run (Fat32File × D)

-- The fields that `file_open` sets for every path, and those that it sets for one on a FAT32 volume.
pub named : File → List ℕ → ℕ → File
named file path flags = record file {
  opened = 1;
  perms = get_perm flags;
  cfo = 0;
  fs_type = get_fs_type path;
  flags = flags;
  path = path;
}

pub ready : File → List ℕ → ℕ → Fat32File → File
ready file path flags found = record (named file path flags) {
  lseek = fat32_lseek;
  write_to = fat32_write;
  read_from = if is_directory flags then fat32_read_dir else fat32_read;
  fat32_file = found;
}

-- The service that `file_open` calls for the flags.
pub looked_up : {D : Type 0} → Volume D → List ℕ → ℕ → D → Run (Fat32File × D)
looked_up vol path flags d =
    if is_directory flags then vol.open_dir path d else vol.open_file path d

-- `file_open`, with what it leaves in the entry. The path with its NUL must fit in the 80 bytes of the entry,
-- or the copy runs over the next one.
pub file_open : {D : Type 0} → Volume D → File → List ℕ → ℕ → D → Run (ℕ × File × D)
unfolding named ready looked_up
file_open vol file path flags d =
    if ltb (length path) max_path_length
    then (if get_fs_type path == 1
        then looked_up vol path flags d >>= (λ found.
          done (
            (if found.0.cluster == 0 then minus_one else 0),
            ready file path flags found.0,
            found.1,
          ))
        else done (minus_one, named file path flags, d))
    else fault

-- The loop of `sys_openat` from descriptor `i` on.
pub openat_loop : {D : Type 0} → Volume D → ℕ → ℕ → List ℕ → ℕ → Files → D → Run (ℕ × Files × D)
unfolding file_open put
openat_loop vol zero i path flags fds d = done (minus_one, fds, d)
openat_loop vol (suc n) i path flags fds d =
    let rest = openat_loop vol n (i + 1) path flags fds d in
    if not ((fds i).opened == 0)
    then rest
    else file_open vol (fds i) path flags d >>= (λ r.
      if r.0 == 0
      then done (i, put fds i (record r.1 { opened = 1 }), r.2)
      else done (minus_one, put fds i r.1, r.2))

pub sys_openat : {D : Type 0} → Volume D → List ℕ → ℕ → Files → D → Run (ℕ × Files × D)
unfolding openat_loop
sys_openat vol path flags fds d = openat_loop vol max_file_number 0 path flags fds d

-- `fd < 0 || fd >= MAX_FILE_NUMBER`, for a word of 32 bits.
pub bad_descriptor : ℕ → Bool
bad_descriptor fd = leb (2 ^ 31) fd || leb max_file_number fd

pub sys_close : ℕ → Files → ℕ × Files
unfolding bad_descriptor put
sys_close fd fds =
    if bad_descriptor fd
    then (minus_one, fds)
    else (if (fds fd).opened == 0
        then (minus_one, fds)
        else (0, put fds fd (record (fds fd) { opened = 0; cfo = 0 })))
