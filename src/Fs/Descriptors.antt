-- ===== src/Fs/Descriptors.antt =====
-- `sys_openat` and `sys_close` of arch/riscv/kernel/ksyscalls.c: which descriptors are in use.
use zju_sys3_sp25_kernel.Base.{
  ℕ, zero, suc, ◌+◌, ◌^◌, ◌≤◌, ◌<◌, ◌≡◌, ◌≢◌, ◌∙◌, ◌⊎◌, inl, inr, ap, sym, subst, refl, arith, Bool,
  true, false, List, leb, ◌==◌, eq→==, ne→==, lt→ltb, le→leb, gt→leb, ◌||◌, if◌then◌else◌, Run,
  done, ◌>>=◌,
}
use native.Mathlib.Decide.{ℕ_discrete}
use zju_sys3_sp25_kernel.Fs.{
  File, Files, Fat32File, Volume, looked_up, put, file_open, openat_loop, sys_openat, sys_close,
  bad_descriptor, minus_one, max_file_number, max_path_length, length, get_fs_type, named, ready,
}

-- `file_open` returns for a path that fits if the service of fat32.c does, with 0 or -1, and marks the entry as opened in either case.
pub record Tried {D : Type 0} (vol : Volume D) (file : File) (path : List ℕ) (flags : ℕ) (d : D)
    : Type 0 where
  pub code : ℕ
  pub entry : File
  pub volume : D
  pub result : file_open vol file path flags d ≡ done (code, entry, volume)
  pub in_use : entry.opened ≡ 1
  pub codes : (code ≡ 0) ⊎ (code ≡ minus_one)

file_open-Tried :
    {D : Type 0}
    → (vol : Volume D) (file : File) (path : List ℕ) (flags : ℕ) (d : D) (found : Fat32File × D)
    → length path < max_path_length
    → (get_fs_type path ≡ 1 → looked_up vol path flags d ≡ done found)
    → Tried vol file path flags d
unfolding file_open named ready
file_open-Tried {D} vol file path flags d found h back =
    let code : ℕ = if found.0.cluster == 0 then minus_one else 0 in
    elim (ℕ_discrete (get_fs_type path) 1) [
      | yes e ↦ record {
        code = code;
        entry = ready file path flags found.0;
        volume = found.1;
        result = rw (lt→ltb (length path) max_path_length h, e, back e) refl;
        in_use = refl;
        codes = ground arith;
      }
      | no n ↦ record {
        code = minus_one;
        entry = named file path flags;
        volume = d;
        result = rw (lt→ltb (length path) max_path_length h, ne→== (get_fs_type path) 1 n) refl;
        in_use = refl;
        codes = inr refl;
      }
    ]

-- The descriptor `i` is the first that is not opened.
pub record IsFirst (fds : Files) (i : ℕ) : Type 0 where
  pub bound : i < max_file_number
  pub closed : (fds i).opened ≡ 0
  pub before : (j : ℕ) → j < i → (fds j).opened ≢ 0

-- What a call of `sys_openat` has done to the first descriptor that is not opened.
pub record Opened {D : Type 0} (vol : Volume D) (path : List ℕ) (flags : ℕ) (fds : Files) (d : D)
    (i : ℕ) : Type 0 where
  pub code : ℕ
  pub files : Files
  pub volume : D
  pub result : sys_openat vol path flags fds d ≡ done (code, files, volume)
  pub codes : (code ≡ i) ⊎ (code ≡ minus_one)
  pub taken : (files i).opened ≡ 1
  pub others : (j : ℕ) → j ≢ i → files j ≡ fds j

-- A round of the loop at a descriptor that is not opened.
abbrev attempt : {D : Type 0} → Volume D → ℕ → List ℕ → ℕ → Files → D → Run (ℕ × Files × D)
attempt vol i path flags fds d = file_open vol (fds i) path flags d >>= (λ r.
    if r.0 == 0
    then done (i, put fds i (record r.1 { opened = 1 }), r.2)
    else done (minus_one, put fds i r.1, r.2))

attempt-done :
    {D : Type 0}
    → (vol : Volume D) (path : List ℕ) (flags : ℕ) (fds : Files) (d : D) (i code : ℕ) (entry : File)
      (volume : D)
    → file_open vol (fds i) path flags d ≡ done (code, entry, volume)
    → attempt vol i path flags fds d ≡ (
        if code == 0
        then done (i, put fds i (record entry { opened = 1 }), volume)
        else done (minus_one, put fds i entry, volume))
attempt-done vol path flags fds d i code entry volume e = rw e refl

put-other : (fds : Files) (i j : ℕ) (f : File) → j ≢ i → put fds i f j ≡ fds j
unfolding put
put-other fds i j f n = ground (arith, n)

or-true : (b : Bool) → (b || true) ≡ true
or-true true = refl
or-true false = refl

if-same : {A : Type 0} → (b : Bool) (x : A) → (if b then x else x) ≡ x
if-same true x = refl
if-same false x = refl

-- The loop passes over the descriptors that are opened.
openat_loop-attempt :
    {D : Type 0}
    → (vol : Volume D) (path : List ℕ) (flags : ℕ) (fds : Files) (d : D) (n i first : ℕ) → i ≤ first
    → first < i + n
    → ((j : ℕ) → i ≤ j → j < first → (fds j).opened ≢ 0)
    → (fds first).opened ≡ 0
    → openat_loop vol n i path flags fds d ≡ attempt vol first path flags fds d
unfolding openat_loop
openat_loop-attempt vol path flags fds d zero i first l u h e = absurd (omega (arith, l, u))
openat_loop-attempt vol path flags fds d (suc n) i first l u h e = elim (ℕ_discrete i first) [
  | yes z ↦
      let open_here : ((fds i).opened == 0) ≡ true =
        eq→== (fds i).opened 0 (subst (λ x. (fds x).opened ≡ 0) (sym z) e) in
      rw open_here (ap (λ x. attempt vol x path flags fds d) z)
  | no ne ↦ rw (ne→== (fds i).opened 0 (h i (omega arith) (omega (arith, l, ne)))) (
      openat_loop-attempt vol path flags fds d n (i + 1) first (omega (arith, l, ne))
        (omega (arith, u)) (λ j a b. h j (omega (arith, a)) b) e)
]

-- When `fat32_open_file` or `open_dir` of fat32.c returns for a path of a FAT32 volume: `sys_openat` on a path that fits, with
-- some descriptor that is not opened, returns, with the first descriptor that is not opened or with -1; that
-- descriptor is marked as opened in either case, and no other descriptor changes.
pub sys_openat-Opened :
    {D : Type 0}
    → (vol : Volume D) (path : List ℕ) (flags : ℕ) (fds : Files) (d : D) (i : ℕ)
      (found : Fat32File × D)
    → length path < max_path_length
    → IsFirst fds i
    → (get_fs_type path ≡ 1 → looked_up vol path flags d ≡ done found)
    → Opened vol path flags fds d i
sys_openat-Opened vol path flags fds d i found fits w back =
    let t : Tried vol (fds i) path flags d =
      file_open-Tried vol (fds i) path flags d found fits back in
    let run : sys_openat vol path flags fds d ≡ attempt vol i path flags fds d =
      unfold sys_openat in
      openat_loop-attempt vol path flags fds d max_file_number 0 i (omega arith)
        (omega (arith, w.bound)) (λ j a b. w.before j b) w.closed in
    elim t.codes [
      | inl z ↦ record {
        code = i;
        files = put fds i (record t.entry { opened = 1 });
        volume = t.volume;
        result =
            run ∙ attempt-done vol path flags fds d i t.code t.entry t.volume t.result ∙ rw z refl;
        codes = inl refl;
        taken = unfold put in ground arith;
        others = λ j n. unfold put in ground (arith, n);
      }
      | inr z ↦ record {
        code = minus_one;
        files = put fds i t.entry;
        volume = t.volume;
        result =
            run ∙ attempt-done vol path flags fds d i t.code t.entry t.volume t.result ∙ rw z refl;
        codes = inr refl;
        taken = unfold put in ground (arith, t.in_use);
        others = λ j n. unfold put in ground (arith, n);
      }
    ]

-- `sys_close` refuses a descriptor that is out of range or not opened, and changes nothing.
sys_close-refused :
    (fd : ℕ) (fds : Files)
    → (max_file_number ≤ fd) ⊎ ((fds fd).opened ≡ 0)
    → sys_close fd fds ≡ (minus_one, fds)
unfolding sys_close bad_descriptor
sys_close-refused fd fds (inl h) = rw (le→leb max_file_number fd h, or-true (leb (2 ^ 31) fd)) refl
sys_close-refused fd fds (inr h) =
    rw h (if-same (leb (2 ^ 31) fd || leb max_file_number fd) (minus_one, fds))

-- What `sys_close` does to a descriptor of the table that is opened.
sys_close-closed :
    (fd : ℕ) (fds : Files)
    → fd < max_file_number
    → (fds fd).opened ≢ 0
    → sys_close fd fds ≡ (0, put fds fd (record (fds fd) { opened = 0; cfo = 0 }))
unfolding sys_close bad_descriptor
sys_close-closed fd fds h n =
    rw
      (
        gt→leb (2 ^ 31) fd (omega (arith, h)),
        gt→leb max_file_number fd h,
        ne→== (fds fd).opened 0 n,
      )
      refl

-- When `fat32_open_file` or `open_dir` of fat32.c returns for a path of a FAT32 volume, and whether the call succeeds or
-- not: after `sys_openat` on a path that fits, `sys_close` on the descriptor that
-- was the first one not opened returns 0, and the descriptor is the first one again. A second `sys_close` on
-- it returns -1.
pub sys_close-sys_openat :
    {D : Type 0}
    → (vol : Volume D) (path : List ℕ) (flags : ℕ) (fds : Files) (d : D) (i : ℕ)
      (found : Fat32File × D)
    → length path < max_path_length
    → IsFirst fds i
    → (get_fs_type path ≡ 1 → looked_up vol path flags d ≡ done found)
    → (o : Opened vol path flags fds d i) × ((sys_close i o.files).0 ≡ 0)
      × IsFirst (sys_close i o.files).1 i
      × ((sys_close i (sys_close i o.files).1).0 ≡ minus_one)
sys_close-sys_openat vol path flags fds d i found fits w back =
    let o : Opened vol path flags fds d i =
      sys_openat-Opened vol path flags fds d i found fits w back in
    let gone : Files = put o.files i (record (o.files i) { opened = 0; cfo = 0 }) in
    let eq : sys_close i o.files ≡ (0, gone) =
      sys_close-closed i o.files w.bound (λ z. absurd (omega (arith, o.taken, z))) in
    let free : (gone i).opened ≡ 0 = unfold put in ground arith in
    (
      o,
      ap (λ (r : ℕ × Files). r.0) eq,
      subst (λ (r : ℕ × Files). IsFirst r.1 i) (sym eq)
          (record {
            bound = w.bound;
            closed = free;
            before = λ j l.
                subst (λ (v : File). v.opened ≢ 0)
                  (sym (put-other o.files i j _ (omega (arith, l)) ∙ o.others j (omega (arith, l))))
                  (w.before j l);
          }),
      ap (λ (r : ℕ × Files). (sys_close i r.1).0) eq
          ∙ ap (λ (r : ℕ × Files). r.0) (sys_close-refused i gone (inr free)),
    )

-- On a path of no FAT32 volume `sys_openat` returns -1, and the descriptor that it tried stays marked as opened.
pub sys_openat-leak :
    {D : Type 0}
    → (vol : Volume D) (path : List ℕ) (flags : ℕ) (fds : Files) (d : D) (i : ℕ)
    → length path < max_path_length
    → IsFirst fds i
    → get_fs_type path ≢ 1
    → (files : Files) × (sys_openat vol path flags fds d ≡ done (minus_one, files, d))
      × ((files i).opened ≡ 1)
sys_openat-leak vol path flags fds d i fits w n =
    let entry : File = named (fds i) path flags in
    let failed : file_open vol (fds i) path flags d ≡ done (minus_one, entry, d) =
      unfold file_open in
      rw (lt→ltb (length path) max_path_length fits, ne→== (get_fs_type path) 1 n) refl in
    let run : sys_openat vol path flags fds d ≡ attempt vol i path flags fds d =
      unfold sys_openat in
      openat_loop-attempt vol path flags fds d max_file_number 0 i (omega arith)
        (omega (arith, w.bound)) (λ j a b. w.before j b) w.closed in
    (
      put fds i entry,
      run ∙ attempt-done vol path flags fds d i minus_one entry d failed,
      (unfold put named in ground arith),
    )
