-- ===== src/Fat32/Lookup/Directory.antt =====
-- The searches of fs/fat32.c along the clusters of a directory.
use zju_sys3_sp25_kernel.Base.{
  ℕ, zero, suc, ◌*◌, ◌≤◌, ◌<◌, ◌≡◌, ◌≢◌, ◌∙◌, refl, arith, Bool, eq→==, ne→==, done, Words,
}
use native.Mathlib.Decide.{ℕ_discrete}
use zju_sys3_sp25_kernel.Fat32.Bytes.{Sector}
use zju_sys3_sp25_kernel.Fs.{Fat32File}
use zju_sys3_sp25_kernel.Fat32.{Disk, Volume, invalid_cluster, cluster_to_sector, next_cluster}
use zju_sys3_sp25_kernel.Fat32.Chain.{nth_cluster}
use zju_sys3_sp25_kernel.Fat32.Lookup.First.{Fits, Passed, Scanned, scan-Scanned}
use zju_sys3_sp25_kernel.Fat32.Lookup.{
  Scan, ended, missing, found, scan, Search, at_end, exhausted, entry, search_loop, find_entry,
  no_file, entry_cluster,
}

module _ (v : Volume) (d : Disk) (wanted : ℕ → Bool) (a : Words) where
  abbrev pub sector : ℕ → Sector
  sector c = d (cluster_to_sector v c)

  -- The search has gone on behind all entries before entry `i` of cluster `t` of the chain from `c` on.
  pub record Behind (c t i : ℕ) : Type 0 where
    pub clusters :
        (u : ℕ)
        → u < t
        → (nth_cluster v d c u ≢ invalid_cluster)
          × ((j : ℕ) → j < 16 → Passed wanted a (sector (nth_cluster v d c u)) j)
    pub entries : (j : ℕ) → j < i → Passed wanted a (sector (nth_cluster v d c t)) j

  pub Located : ℕ → Search → Type 0
  Located c exhausted = (t : ℕ) × (nth_cluster v d c t ≡ invalid_cluster) × Behind c t 0
  Located c at_end =
      (t i : ℕ) × (nth_cluster v d c t ≢ invalid_cluster)
      × (i < 16)
      × (sector (nth_cluster v d c t) (32 * i) ≡ 0)
      × Behind c t i
  Located c (entry e i) =
      (t : ℕ) × (e ≡ nth_cluster v d c t)
      × (e ≢ invalid_cluster)
      × (i < 16)
      × Fits wanted a (sector e) i
      × Behind c t i

  Behind-first : (c i : ℕ) → ((j : ℕ) → 0 ≤ j → j < i → Passed wanted a (sector c) j) → Behind c 0 i
  unfolding nth_cluster
  Behind-first c i p = record {
    clusters = λ u l. absurd (omega (arith, l));
    entries = λ j l. p j (omega arith) l;
  }

  Behind-next :
      (c t i : ℕ)
      → c ≢ invalid_cluster
      → ((j : ℕ) → 0 ≤ j → j < 16 → Passed wanted a (sector c) j)
      → Behind (next_cluster v d c) t i
      → Behind c (suc t) i
  unfolding nth_cluster
  Behind-next c t i n p b = record {
    clusters = λ u.
        elim u
          as (λ k.
            k < suc t
            → (nth_cluster v d c k ≢ invalid_cluster)
              × ((j : ℕ) → j < 16 → Passed wanted a (sector (nth_cluster v d c k)) j)) [
                | zero ↦ λ l. (n, λ j l'. p j (omega arith) l')
                | suc w ↦ λ l. b.clusters w (omega (arith, l))
              ];
    entries = b.entries;
  }

  Located-next :
      (c : ℕ) (r : Search)
      → c ≢ invalid_cluster
      → ((j : ℕ) → 0 ≤ j → j < 16 → Passed wanted a (sector c) j)
      → Located (next_cluster v d c) r
      → Located c r
  unfolding Located nth_cluster
  Located-next c exhausted n p (t, e, b) = (suc t, e, Behind-next c t 0 n p b)
  Located-next c at_end n p (t, i, m, l, z, b) = (suc t, i, m, l, z, Behind-next c t i n p b)
  Located-next c (entry e i) n p (t, q, m, l, fits, b) =
      (suc t, q, m, l, fits, Behind-next c t i n p b)

  search-over :
      (f c : ℕ) → c ≡ invalid_cluster → search_loop (suc f) v d wanted a c ≡ done exhausted
  unfolding search_loop
  search-over f c e = rw (eq→== c invalid_cluster e) refl

  search-at :
      (f c : ℕ) (r : Scan)
      → c ≢ invalid_cluster
      → scan wanted a (sector c) 16 0 ≡ r
      → search_loop (suc f) v d wanted a c ≡ elim r [
        | ended ↦ done at_end
        | missing ↦ search_loop f v d wanted a (next_cluster v d c)
        | found i ↦ done (entry c i)
      ]
  unfolding search_loop
  search-at f c r n e = rw (ne→== c invalid_cluster n, e) refl

  chain-more :
      (n c : ℕ)
      → nth_cluster v d c n ≡ invalid_cluster
      → c ≢ invalid_cluster
      → (n' : ℕ) × (n ≡ suc n') × (nth_cluster v d (next_cluster v d c) n' ≡ invalid_cluster)
  unfolding nth_cluster
  chain-more zero c e n = absurd (n e)
  chain-more (suc n') c e n = (n', refl, e)

  abbrev Ends : ℕ → ℕ → Type 0
  Ends f c = (r : Search) × (search_loop f v d wanted a c ≡ done r) × Located c r

  search-Scanned :
      (f c : ℕ) (r : Scan)
      → c ≢ invalid_cluster
      → scan wanted a (sector c) 16 0 ≡ r
      → Scanned wanted a (sector c) 0 16 r
      → Ends f (next_cluster v d c)
      → Ends (suc f) c
  unfolding Scanned Located nth_cluster
  search-Scanned f c ended n e (k, l, u, z, p) rest =
      (at_end, search-at f c ended n e, (0, k, n, omega (arith, u), z, Behind-first c k p))
  search-Scanned f c missing n e p (r, q, found_there) =
      (r, search-at f c missing n e ∙ q, Located-next c r n p found_there)
  search-Scanned f c (found k) n e (l, u, fits, p) rest = (
    entry c k,
    search-at f c (found k) n e,
    (0, refl, n, omega (arith, u), fits, Behind-first c k p),
  )

  -- The search along a chain that comes to the invalid cluster after `n` clusters, with more rounds than that, ends: at
  -- the first entry in use that is wanted and has the name, or at the first end marker, or behind the last cluster;
  -- whatever stands before it has been passed, as deleted or not fitting.
  pub search_loop-Located :
      (n f c : ℕ)
      → nth_cluster v d c n ≡ invalid_cluster
      → n < f
      → (r : Search) × (search_loop f v d wanted a c ≡ done r) × Located c r
  search_loop-Located n zero c e l = absurd (omega (arith, l))
  search_loop-Located n (suc f) c e l = elim (ℕ_discrete c invalid_cluster) [
    | yes q ↦ (
      exhausted,
      search-over f c q,
      unfold Located nth_cluster in (0, q, Behind-first c 0 (λ j l' u. absurd (omega (arith, u)))),
    )
    | no nq ↦
        let more : (n' : ℕ) × (n ≡ suc n')
            × (nth_cluster v d (next_cluster v d c) n' ≡ invalid_cluster) =
          chain-more n c e nq in
        search-Scanned f c (scan wanted a (sector c) 16 0) nq refl
          (scan-Scanned wanted a (sector c) 16 0)
          (search_loop-Located more.0 f (next_cluster v d c) more.2 (omega (arith, more.1, l)))
  ]

  -- What `find_entry` returns for a search.
  pub as_file : Search → Fat32File
  as_file at_end = no_file
  as_file exhausted = no_file
  as_file (entry e i) = record {
    cluster = entry_cluster (sector e) i;
    dir_cluster = e;
    dir_index = i;
  }

  find_entry-as_file :
      (f c : ℕ) (r : Search)
      → search_loop f v d wanted a c ≡ done r
      → find_entry f v d wanted a c ≡ done (as_file r)
  unfolding find_entry as_file
  find_entry-as_file f c at_end e = rw e refl
  find_entry-as_file f c exhausted e = rw e refl
  find_entry-as_file f c (entry k i) e = rw e refl

  -- The search of the last part of a path, along a chain that comes to the invalid cluster after `n` clusters and with
  -- more rounds than that: it ends, and its file is that of the first entry of the directory that fits.
  pub find_entry-Located :
      (n f c : ℕ)
      → nth_cluster v d c n ≡ invalid_cluster
      → n < f
      → (r : Search) × (find_entry f v d wanted a c ≡ done (as_file r)) × Located c r
  find_entry-Located n f c e l =
      let s : (r : Search) × (search_loop f v d wanted a c ≡ done r) × Located c r =
        search_loop-Located n f c e l in
      (s.0, find_entry-as_file f c s.0 s.1, s.2)
