-- ===== src/Fs/Tests.antt =====
-- A fresh table of descriptors, on a volume with no file, and the theorems at it.
use zju_sys3_sp25_kernel.Base.{
  true, ℕ, zero, suc, ◌+◌, ◌<◌, ◌≡◌, ◌≢◌, refl, arith, List, [], ◌∷◌, done,
}
use zju_sys3_sp25_kernel.Fs.{
  Files, Fat32File, Volume, looked_up, is_directory, null, file_init, sys_openat, sys_close,
  minus_one, get_fs_type, starts_with,
}
use zju_sys3_sp25_kernel.Fs.Calls.{Operations}
use zju_sys3_sp25_kernel.Fs.Descriptors.{
  IsFirst, Opened, sys_openat-Opened, sys_close-sys_openat, sys_openat-leak,
}

abbrev none_found : Fat32File
none_found = record { cluster = 0; dir_cluster = 0; dir_index = 0 }

abbrev empty_volume : Volume ℕ
empty_volume = record {
  open_dir = λ p d. done (none_found, d);
  open_file = λ p d. done (none_found, d + 1);
}

abbrev blank : Files
blank i = record {
  opened = 0;
  perms = 0;
  cfo = 0;
  fs_type = 0;
  flags = 0;
  fat32_file = none_found;
  lseek = null;
  write_to = null;
  read_from = null;
  path = [];
}

-- "/fat32/a" and "/a"
abbrev on_volume : List ℕ
on_volume = 47 ∷ 102 ∷ 97 ∷ 116 ∷ 51 ∷ 50 ∷ 47 ∷ 97 ∷ []

abbrev elsewhere : List ℕ
elsewhere = 47 ∷ 97 ∷ []

fresh-IsFirst : IsFirst (file_init blank) 3
unfolding file_init
fresh-IsFirst = record { bound = ground arith; closed = refl; before = in_use }
  where
    in_use : (j : ℕ) → j < 3 → (file_init blank j).opened ≢ 0
    in_use zero l = ground arith
    in_use (suc zero) l = ground arith
    in_use (suc (suc zero)) l = ground arith
    in_use (suc (suc (suc j))) l = absurd (omega (arith, l))

looked : looked_up empty_volume on_volume 1 0 ≡ done (none_found, 1)
unfolding looked_up is_directory
looked = refl

sys_openat-Opened_example : Opened empty_volume on_volume 1 (file_init blank) 0 3
sys_openat-Opened_example =
    sys_openat-Opened empty_volume on_volume 1 (file_init blank) 0 3 (none_found, 1) (ground arith)
      fresh-IsFirst (λ e. looked)

sys_close-sys_openat_example :
    (o : Opened empty_volume on_volume 1 (file_init blank) 0 3) × ((sys_close 3 o.files).0 ≡ 0)
    × IsFirst (sys_close 3 o.files).1 3
    × ((sys_close 3 (sys_close 3 o.files).1).0 ≡ minus_one)
sys_close-sys_openat_example =
    sys_close-sys_openat empty_volume on_volume 1 (file_init blank) 0 3 (none_found, 1)
      (ground arith) fresh-IsFirst (λ e. looked)

elsewhere_type : get_fs_type elsewhere ≢ 1
unfolding get_fs_type starts_with
elsewhere_type = ground arith

sys_openat-leak_example :
    (files : Files) × (sys_openat empty_volume elsewhere 1 (file_init blank) 0
      ≡ done (minus_one, files, 0))
    × ((files 3).opened ≡ 1)
sys_openat-leak_example =
    sys_openat-leak empty_volume elsewhere 1 (file_init blank) 0 3 (ground arith) fresh-IsFirst
      elsewhere_type

abbrev operations : Operations ℕ
operations = record {
  seek = λ h f o w m. done (o, f, m);
  transfer = λ h f b n m. done (n, f, m + 1);
  stream_reads = λ i. true;
  stream_writes = λ i. true;
  stream_read = λ i b n m. done (n, m);
  stream_write = λ i b n m. done (n, m);
}
