-- ===== src/Fat32/Lookup/Paths.antt =====
-- The paths of fs/fat32.c: a file of the root directory is found under its name, and the name of a directory is cut
-- by the length of what stands before it.
use zju_sys3_sp25_kernel.Base.{
  ℕ, suc, ◌+◌, ◌<◌, ◌≡◌, ◌≢◌, ◌∙◌, ap, sym, subst, refl, arith, true, false, ◌==◌, ltb, leb, ne→==,
  if◌then◌else◌, Run, done, fault, ◌>>=◌, Words, List, [], ◌∷◌, ◌++◌, Option, none, some,
}
use zju_sys3_sp25_kernel.Fs.{length}
use zju_sys3_sp25_kernel.Fat32.{Disk, Volume, invalid_cluster}
use zju_sys3_sp25_kernel.Fat32.Chain.{nth_cluster}
use zju_sys3_sp25_kernel.Fat32.Lookup.Directory.{Located, as_file, find_entry-Located}
use zju_sys3_sp25_kernel.Fat32.Lookup.{
  Search, drop, chars, next_slash, upper, to_upper_case, Parsed, parse_at, parse_dirname, open_dir,
  descend_loop, stored, find_entry, fat32_open_file, is_file,
}

-- A name has neither a slash nor a NUL.
unfoldable pub Plain : List ℕ → Type 0
Plain [] = Unit {0}
Plain (x ∷ xs) = (x ≢ 47) × (x ≢ 0) × Plain xs

-- Everything up to the mount point's second slash.
abbrev pub mounted : List ℕ → List ℕ
mounted mount = 47 ∷ (mount ++ (47 ∷ []))

length-slash : (xs : List ℕ) → length (xs ++ (47 ∷ [])) ≡ length xs + 1
length-slash [] = refl
length-slash (x ∷ xs) =
    let h : length (xs ++ (47 ∷ [])) ≡ length xs + 1 = length-slash xs in omega (arith, h)

length-mounted : (mount : List ℕ) → length mount + 2 ≡ length (mounted mount)
length-mounted mount = omega (arith, length-slash mount)

drop-++ : (xs ys : List ℕ) → drop (length xs) (xs ++ ys) ≡ ys
drop-++ [] ys = refl
drop-++ (x ∷ xs) ys = drop-++ xs ys

chars-++ : (xs ys : List ℕ) → chars (xs ++ ys) (length xs) ≡ chars ys 0
chars-++ [] ys = refl
chars-++ (x ∷ xs) ys = chars-++ xs ys

next_slash-Plain : (xs : List ℕ) → Plain xs → next_slash xs ≡ none
unfolding next_slash Plain
next_slash-Plain [] p = refl
next_slash-Plain (x ∷ xs) (n, z, p) = rw (ne→== x 47 n, next_slash-Plain xs p) refl

next_slash-part : (xs ys : List ℕ) → Plain xs → next_slash (xs ++ (47 ∷ ys)) ≡ some (length xs)
unfolding next_slash Plain
next_slash-part [] ys p = refl
next_slash-part (x ∷ xs) ys (n, z, p) = rw (ne→== x 47 n, next_slash-part xs ys p) refl

next_slash-mount :
    (xs ys : List ℕ) → Plain xs → next_slash ((xs ++ (47 ∷ [])) ++ ys) ≡ some (length xs)
unfolding next_slash Plain
next_slash-mount [] ys p = refl
next_slash-mount (x ∷ xs) ys (n, z, p) = rw (ne→== x 47 n, next_slash-mount xs ys p) refl

-- A part of a path starts with another byte than a slash.
head-Plain : (xs ys : List ℕ) → Plain xs → xs ≢ [] → chars (xs ++ ys) 0 ≢ 47
unfolding Plain
head-Plain [] ys p n = absurd (n refl)
head-Plain (x ∷ xs) ys (p, z, q) n = p

head-last : (xs : List ℕ) → Plain xs → xs ≢ [] → chars xs 0 ≢ 47
unfolding Plain
head-last [] p n = absurd (n refl)
head-last (x ∷ xs) (p, z, q) n = p

parse_dirname-at :
    (path xs : List ℕ) (rest : List ℕ) (r : Option ℕ)
    → path ≡ xs ++ rest
    → chars rest 0 ≢ 47
    → next_slash rest ≡ r
    → parse_dirname path (length xs) ≡ parse_at path (length xs) (length xs) r
unfolding parse_dirname
parse_dirname-at path xs rest r e n q =
    let head : (chars path (length xs) == 47) ≡ false =
      ne→== (chars path (length xs)) 47
        (subst (λ c. c ≢ 47) (sym (ap (λ p. chars p (length xs)) e ∙ chars-++ xs rest)) n) in
    let tail : next_slash (drop (length xs) path) ≡ r =
      ap (λ p. next_slash (drop (length xs) p)) e ∙ ap next_slash (drop-++ xs rest) ∙ q in
    rw (head, tail) refl

abbrev last_part : List ℕ → ℕ → Parsed
last_part name index = record { name = to_upper_case name; index = index; reach_end = true }

parse_at-last :
    (path name : List ℕ) (index ind : ℕ)
    → drop ind path ≡ name
    → length name < 12
    → parse_at path index ind none ≡ done (last_part name (index + length name))
unfolding parse_at
parse_at-last path name index ind e l =
    let short : leb 12 (length name) ≡ false = ground (arith, l) in rw (e, short) refl

-- The last part of a path, of at most 11 bytes and not empty, is read whole, in capitals.
parse_dirname-last :
    (xs name : List ℕ)
    → Plain name
    → name ≢ []
    → length name < 12
    → parse_dirname (xs ++ name) (length xs) ≡ done (last_part name (length xs + length name))
parse_dirname-last xs name p n l =
    parse_dirname-at (xs ++ name) xs name none refl (head-last name p n) (next_slash-Plain name p)
    ∙ parse_at-last (xs ++ name) name (length xs) (length xs) (drop-++ xs name) l

parse_at-fault :
    (path : List ℕ) (index ind s : ℕ) → s < ind → parse_at path index ind (some s) ≡ fault
unfolding parse_at
parse_at-fault path index ind s l = let less : ltb s ind ≡ true = ground (arith, l) in rw less refl

-- A part that a slash follows and that is shorter than what stands before it makes `parse_dirname` write in front of
-- its buffer: the index of the slash counts from the part's first byte, and the code takes it for one into the path.
pub parse_dirname-part :
    (xs dir rest : List ℕ)
    → Plain dir
    → dir ≢ []
    → length dir < length xs
    → parse_dirname (xs ++ (dir ++ (47 ∷ rest))) (length xs) ≡ fault
parse_dirname-part xs dir rest p n l =
    parse_dirname-at (xs ++ (dir ++ (47 ∷ rest))) xs (dir ++ (47 ∷ rest)) (some (length dir)) refl
      (head-Plain dir (47 ∷ rest) p n) (next_slash-part dir rest p)
    ∙ parse_at-fault (xs ++ (dir ++ (47 ∷ rest))) (length xs) (length xs) (length dir) l

upper-zero : (c : ℕ) → c ≢ 0 → upper c ≢ 0
unfolding upper
upper-zero c n = ground (arith, n)

first-upper : (name : List ℕ) → Plain name → name ≢ [] → chars (to_upper_case name) 0 ≢ 0
unfolding Plain to_upper_case
first-upper [] p n = absurd (n refl)
first-upper (x ∷ xs) (s, z, p) n = upper-zero x z

start-mounted :
    (mount rest : List ℕ)
    → Plain mount
    → next_slash (drop 1 (mounted mount ++ rest)) ≡ some (length mount)
start-mounted mount rest p = next_slash-mount mount rest p

open_dir-start :
    (f : ℕ) (v : Volume) (d : Disk) (path : List ℕ) (k i : ℕ) (r : Run Parsed)
    → next_slash (drop 1 path) ≡ some k
    → k + 2 ≡ i
    → parse_dirname path i ≡ r
    → open_dir f v d path
      ≡ r >>= (λ p.
        if chars p.name 0 == 0
        then done (record { cluster = 0; filename = [] })
        else descend_loop f f v d path p v.root_clus)
unfolding open_dir
open_dir-start f v d path k i r e j q = rw (e, j, q) refl

descend-last :
    (r f : ℕ) (v : Volume) (d : Disk) (path : List ℕ) (name : List ℕ) (i c : ℕ)
    → descend_loop (suc r) f v d path (last_part name i) c
      ≡ done (record { cluster = c; filename = to_upper_case name })
unfolding descend_loop
descend-last r f v d path name i c = refl

module _ (mount : List ℕ) (plain : Plain mount) (v : Volume) (d : Disk) where
  open_dir-root :
      (f : ℕ) (name : List ℕ)
      → Plain name
      → name ≢ []
      → length name < 12
      → open_dir (suc f) v d (mounted mount ++ name)
        ≡ done (record { cluster = v.root_clus; filename = to_upper_case name })
  open_dir-root f name p n l =
      let start : open_dir (suc f) v d (mounted mount ++ name) ≡ (
          if chars (to_upper_case name) 0 == 0
          then done (record { cluster = 0; filename = [] })
          else descend_loop (suc f) (suc f) v d (mounted mount ++ name)
              (last_part name (length (mounted mount) + length name)) v.root_clus) =
        open_dir-start (suc f) v d (mounted mount ++ name) (length mount) (length (mounted mount)) _
          (start-mounted mount name plain) (length-mounted mount)
          (parse_dirname-last (mounted mount) name p n l) in
      start
      ∙ rw (ne→== (chars (to_upper_case name) 0) 0 (first-upper name p n))
          (descend-last f (suc f) v d (mounted mount ++ name) name _ v.root_clus)

  open_file-in :
      (f : ℕ) (stack : Words) (path name : List ℕ) (c : ℕ)
      → open_dir f v d path ≡ done (record { cluster = c; filename = name })
      → c ≢ invalid_cluster
      → c ≢ 0
      → fat32_open_file f v d stack path ≡ find_entry f v d is_file (stored stack name) c
  unfolding fat32_open_file
  open_file-in f stack path name c e n z = rw (e, ne→== c invalid_cluster n, ne→== c 0 z) refl

  -- A file of the root directory, with a name of 1 to 11 bytes: `fat32_open_file` searches the root directory
  -- for the name in capitals, with what the stack holds behind its NUL.
  pub fat32_open_file-root :
      (f : ℕ) (stack : Words) (name : List ℕ)
      → Plain name
      → name ≢ []
      → length name < 12
      → v.root_clus ≢ invalid_cluster
      → v.root_clus ≢ 0
      → fat32_open_file (suc f) v d stack (mounted mount ++ name)
        ≡ find_entry (suc f) v d is_file (stored stack (to_upper_case name)) v.root_clus
  fat32_open_file-root f stack name p n l i z =
      open_file-in (suc f) stack (mounted mount ++ name) (to_upper_case name) v.root_clus
        (open_dir-root f name p n l) i z

  open_file-fault :
      (f : ℕ) (stack : Words) (path : List ℕ)
      → open_dir f v d path ≡ fault
      → fat32_open_file f v d stack path ≡ fault
  unfolding fat32_open_file
  open_file-fault f stack path e = rw e refl

  -- `fat32_open_file` on a path behind the mount point, in a directory of the root whose name is not empty and shorter than
  -- the mount point with its slashes, is a fault of the model: the code writes the NUL in front of its buffer for the name,
  -- at a negative index.
  pub fat32_open_file-directory :
      (f : ℕ) (stack : Words) (dir rest : List ℕ)
      → Plain dir
      → dir ≢ []
      → length dir < length mount + 2
      → fat32_open_file f v d stack (mounted mount ++ (dir ++ (47 ∷ rest))) ≡ fault
  fat32_open_file-directory f stack dir rest p n l =
      open_file-fault f stack (mounted mount ++ (dir ++ (47 ∷ rest))) (
        open_dir-start f v d (mounted mount ++ (dir ++ (47 ∷ rest))) (length mount)
          (length (mounted mount)) fault (start-mounted mount (dir ++ (47 ∷ rest)) plain)
          (length-mounted mount)
          (parse_dirname-part (mounted mount) dir rest p n
            (omega (arith, l, length-mounted mount))))

  -- Opening a file of the root directory, with a name of 1 to 11 bytes, when the root directory's chain comes to the
  -- invalid cluster after fewer clusters than the rounds: the search ends, and what is returned is the file of the
  -- first entry in use, neither a directory nor a long name, with the name in capitals in its first eight bytes (what
  -- the stack holds behind the NUL counts), or no file, when an end marker or the end of the chain comes first.
  pub fat32_open_file-Located :
      (n f : ℕ) (stack : Words) (name : List ℕ)
      → Plain name
      → name ≢ []
      → length name < 12
      → v.root_clus ≢ invalid_cluster
      → v.root_clus ≢ 0
      → nth_cluster v d v.root_clus n ≡ invalid_cluster
      → n < suc f
      → (r : Search) × (fat32_open_file (suc f) v d stack (mounted mount ++ name)
          ≡ done (as_file v d is_file (stored stack (to_upper_case name)) r))
        × Located v d is_file (stored stack (to_upper_case name)) v.root_clus r
  fat32_open_file-Located n f stack name p ne l i z e u =
      let s : (r : Search) × (find_entry (suc f) v d is_file (stored stack (to_upper_case name))
              v.root_clus
            ≡ done (as_file v d is_file (stored stack (to_upper_case name)) r))
          × Located v d is_file (stored stack (to_upper_case name)) v.root_clus r =
        find_entry-Located v d is_file (stored stack (to_upper_case name)) n (suc f) v.root_clus e
          u in
      (s.0, fat32_open_file-root f stack name p ne l i z ∙ s.1, s.2)
