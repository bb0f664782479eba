-- ===== src/Fs/Calls.antt =====
-- The calls of arch/riscv/kernel/ksyscalls.c that read, write and seek. What the function pointers of a file do, and the
-- three streams of the console, are an interface.
use zju_sys3_sp25_kernel.Base.{
  ℕ, ◌≤◌, ◌<◌, ◌≡◌, refl, arith, Bool, true, false, leb, ◌==◌, ne→==, if◌then◌else◌, Run, done,
  fault, ◌>>=◌,
}
use native.Mathlib.Decide.{ℕ_discrete}
use zju_sys3_sp25_kernel.Base.Bits.{bit}
use zju_sys3_sp25_kernel.Fs.{
  Handler, null, stdin_read, stdout_write, stderr_write, fat32_lseek, fat32_read, fat32_read_dir,
  fat32_write, File, Files, minus_one, max_file_number, put, bad_descriptor, sys_close,
}

-- `ERROR_FILE_NOT_OPEN`
abbrev pub error_file_not_open : ℕ
error_file_not_open = 255

-- The functions behind the pointers, and the members `read` and `write` of `__iob`, which may be NULL; `M` is the memory
-- and the devices.
pub record Operations (M : Type 0) : Type 0 where
  pub seek : Handler → File → ℕ → ℕ → M → Run (ℕ × File × M)
  pub transfer : Handler → File → ℕ → ℕ → M → Run (ℕ × File × M)
  pub stream_reads : ℕ → Bool
  pub stream_writes : ℕ → Bool
  pub stream_read : ℕ → ℕ → ℕ → M → Run (ℕ × M)
  pub stream_write : ℕ → ℕ → ℕ → M → Run (ℕ × M)

abbrev is_null : Handler → Bool
is_null h = elim h [
  | null ↦ true
  | stdin_read ↦ false
  | stdout_write ↦ false
  | stderr_write ↦ false
  | fat32_lseek ↦ false
  | fat32_read ↦ false
  | fat32_read_dir ↦ false
  | fat32_write ↦ false
]

module _ {M : Type 0} (ops : Operations M) where
  abbrev pub Result : Type 0
  Result = ℕ × Files × M

  -- The call of `read` or `write` of a file, whose entry it may change.
  pub call : Handler → ℕ → ℕ → ℕ → Files → M → Run Result
  unfolding put
  call h fd buf len fds m =
      if is_null h
      then fault
      else ops.transfer h (fds fd) buf len m >>= (λ r. done (r.0, put fds fd r.1, r.2))

  pub sys_lseek : ℕ → ℕ → ℕ → Files → M → Run Result
  unfolding bad_descriptor put
  sys_lseek fd offset whence fds m =
      if bad_descriptor fd
      then done (minus_one, fds, m)
      else (if (fds fd).opened == 0
          then done (minus_one, fds, m)
          else (if is_null (fds fd).lseek
              then done (minus_one, fds, m)
              else ops.seek (fds fd).lseek (fds fd) offset whence m
                >>= (λ r. done (r.0, put fds fd r.1, r.2))))

  -- `fd` is unsigned.
  pub sys_read : ℕ → ℕ → ℕ → Files → M → Run Result
  unfolding call
  sys_read fd buff count fds m =
      if leb max_file_number fd
      then done (minus_one, fds, m)
      else (if leb fd 2
          then (if ops.stream_reads fd
              then ops.stream_read fd buff count m >>= (λ r. done (r.0, fds, r.1))
              else done (minus_one, fds, m))
          else (if (fds fd).opened == 0
              then done (error_file_not_open, fds, m)
              else (if bit 0 (fds fd).perms == 0
                  then done (minus_one, fds, m)
                  else call (fds fd).read_from fd buff count fds m)))

  pub sys_write : ℕ → ℕ → ℕ → Files → M → Run Result
  unfolding call
  sys_write fd buf count fds m =
      if leb max_file_number fd
      then done (minus_one, fds, m)
      else (if leb fd 2
          then (if ops.stream_writes fd
              then ops.stream_write fd buf count m >>= (λ r. done (r.0, fds, r.1))
              else done (minus_one, fds, m))
          else (if (fds fd).opened == 0
              then done (error_file_not_open, fds, m)
              else (if bit 1 (fds fd).perms == 0
                  then done (minus_one, fds, m)
                  else call (fds fd).write_to fd buf count fds m)))

  module _ (fd : ℕ) (fds : Files) (from : 3 ≤ fd) (upto : fd < 16) where
    inside : bad_descriptor fd ≡ false
    unfolding bad_descriptor
    inside = ground (arith, from, upto)

    opened-sys_close : ((sys_close fd fds).1 fd).opened ≡ 0
    unfolding sys_close put
    opened-sys_close = elim (ℕ_discrete (fds fd).opened 0) [
      | yes e ↦ rw (inside, e) e
      | no n ↦ rw (inside, ne→== (fds fd).opened 0 n) (ground arith)
    ]

    not_bad : leb max_file_number fd ≡ false
    not_bad = ground (arith, upto)

    no_stream : leb fd 2 ≡ false
    no_stream = ground (arith, from)

    sys_read-closed :
        (gone : Files) (buf len : ℕ) (m : M)
        → (gone fd).opened ≡ 0
        → sys_read fd buf len gone m ≡ done (error_file_not_open, gone, m)
    unfolding sys_read
    sys_read-closed gone buf len m e = rw (not_bad, no_stream, e) refl

    sys_write-closed :
        (gone : Files) (buf len : ℕ) (m : M)
        → (gone fd).opened ≡ 0
        → sys_write fd buf len gone m ≡ done (error_file_not_open, gone, m)
    unfolding sys_write
    sys_write-closed gone buf len m e = rw (not_bad, no_stream, e) refl

    sys_lseek-closed :
        (gone : Files) (offset whence : ℕ) (m : M)
        → (gone fd).opened ≡ 0
        → sys_lseek fd offset whence gone m ≡ done (minus_one, gone, m)
    unfolding sys_lseek
    sys_lseek-closed gone offset whence m e = rw (inside, e) refl

    -- After `sys_close` on a descriptor from 3 on, a read and a write return ERROR_FILE_NOT_OPEN, a seek returns -1, and
    -- none of them changes the files or the memory, whatever the file's functions do.
    pub calls-sys_close :
        (a b : ℕ) (m : M)
        → (sys_read fd a b (sys_close fd fds).1 m
            ≡ done (error_file_not_open, (sys_close fd fds).1, m))
          × (sys_write fd a b (sys_close fd fds).1 m
              ≡ done (error_file_not_open, (sys_close fd fds).1, m))
          × (sys_lseek fd a b (sys_close fd fds).1 m ≡ done (minus_one, (sys_close fd fds).1, m))
    calls-sys_close a b m =
        let gone : Files = (sys_close fd fds).1 in
        (
          sys_read-closed gone a b m opened-sys_close,
          sys_write-closed gone a b m opened-sys_close,
          sys_lseek-closed gone a b m opened-sys_close,
        )
