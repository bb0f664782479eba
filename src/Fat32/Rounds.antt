-- ===== src/Fat32/Rounds.antt =====
-- The loops of `fat32_read` in fs/fat32.c: their rounds and what they copy.
use zju_sys3_sp25_kernel.Base.{
  ℕ, zero, suc, ◌+◌, ◌-◌, ◌*◌, ◌/◌, ◌%◌, ◌≤◌, ◌<◌, ◌≡◌, ◌∙◌, inl, inr, ap, sym, refl, arith, true,
  false, Bool-cases, ltb, leb, ltb→lt, ltb→ge, le→leb, gt→leb, leb→le, leb→gt, if◌then◌else◌, done,
  Words, write,
}
use zju_sys3_sp25_kernel.Str.Fill.{within}
use zju_sys3_sp25_kernel.Fat32.Bytes.{Sector}
use zju_sys3_sp25_kernel.Fat32.{
  Disk, Volume, sector_size, cluster_to_sector, next_cluster, seek_loop, copy_out, round_len,
  read_loop,
}
use zju_sys3_sp25_kernel.Fat32.Chain.{
  byte_at, byte_at-here, byte_at-next, byte_same, copied, first_of, nth_cluster, second_of,
}

module _ (v : Volume) (one : v.sec_per_cluster ≡ 1) where
  size_one : v.sec_per_cluster * sector_size ≡ sector_size
  size_one = omega (arith, one)

  -- The seek stops in the cluster of the offset.
  pub seek_loop-lem :
      (f : ℕ) (d : Disk) (c cfo : ℕ)
      → cfo < f
      → seek_loop f v d c cfo ≡ done (nth_cluster v d c (cfo / sector_size), cfo % sector_size)
  unfolding seek_loop nth_cluster
  seek_loop-lem zero d c cfo h = absurd (omega arith)
  seek_loop-lem (suc f) d c cfo h = elim (Bool-cases (leb sector_size cfo)) [
    | inl e ↦
        let l : sector_size ≤ cfo = leb→le sector_size cfo e in
        let more : cfo / sector_size ≡ suc ((cfo - sector_size) / sector_size) = omega (arith, l) in
        let same : (cfo - sector_size) % sector_size ≡ cfo % sector_size = omega (arith, l) in
        rw (size_one, e, more)
          (seek_loop-lem f d (next_cluster v d c) (cfo - sector_size) (omega (arith, l, h))
            ∙ ap
                (λ o.
                  done
                    (nth_cluster v d (next_cluster v d c) ((cfo - sector_size) / sector_size), o))
                same)
    | inr e ↦
        let l : cfo < sector_size = leb→gt sector_size cfo e in
        let first : cfo / sector_size ≡ 0 = omega (arith, l) in
        let same : cfo % sector_size ≡ cfo = omega (arith, l) in rw (size_one, e, first, same) refl
  ]

  copy_out-at :
      (n : ℕ) (m : Words) (dst : ℕ) (s : Sector) (from x : ℕ)
      → copy_out n m dst s from x ≡ (if within dst n x then s (from + (x - dst)) else m x)
  unfolding copy_out
  copy_out-at zero m dst s from x = ground arith
  copy_out-at (suc n) m dst s from x =
      copy_out-at n (write m dst (s from)) (dst + 1) s (from + 1) x
      ∙ (unfold write in copied n m dst s from x)

  -- What the loop has to leave: the bytes from offset `cfo` of the clusters on, in `n` places from `dst` on.
  unfoldable pub Reads : Disk → ℕ → ℕ → ℕ → ℕ → Words → Words → Type 0
  Reads d c cfo dst n m m' =
      (x : ℕ) → m' x ≡ (if within dst n x then byte_at v d c (cfo + (x - dst)) else m x)

  -- What one round reads.
  module _ (read_len len cfo : ℕ) (lc : cfo < sector_size) (left : read_len < len) where
    round_bounds :
        (0 < round_len v read_len len cfo)
        × (cfo + round_len v read_len len cfo ≤ sector_size)
        × (read_len + round_len v read_len len cfo ≤ len)
        × (cfo + round_len v read_len len cfo < sector_size
            → read_len + round_len v read_len len cfo ≡ len)
    unfolding round_len
    round_bounds = rw size_one (
      ground (arith, lc, left),
      ground (arith, lc, left),
      ground (arith, lc, left),
      λ h. ground (arith, lc, left, h),
    )

  module _ (d : Disk) (m : Words) (buf c cfo read_len len n : ℕ) (lc : cfo < sector_size)
      (room : cfo + n ≤ sector_size) (fits : read_len + n ≤ len) where
    abbrev round : Words
    round = copy_out n m (buf + read_len) (d (cluster_to_sector v c)) cfo

    -- A byte of the round.
    at_round :
        (x : ℕ)
        → within (buf + read_len) n x ≡ true
        → round x ≡ byte_at v d c (cfo + (x - (buf + read_len)))
    at_round x e =
        let inside : cfo + (x - (buf + read_len)) < sector_size = ground (arith, e, room) in
        copy_out-at n m (buf + read_len) (d (cluster_to_sector v c)) cfo x
        ∙ rw e (sym (byte_at-here v d c (cfo + (x - (buf + read_len))) inside))

    outside_round : (x : ℕ) → within (buf + read_len) n x ≡ false → round x ≡ m x
    outside_round x e =
        copy_out-at n m (buf + read_len) (d (cluster_to_sector v c)) cfo x ∙ rw e refl

    early :
        (x : ℕ)
        → within (buf + read_len) n x ≡ true
        → (a b : ℕ) → (if within (buf + (read_len + n)) (len - (read_len + n)) x then a else b) ≡ b
    early x e a b = ground (arith, e)

    in_all :
        (x : ℕ)
        → within (buf + read_len) n x ≡ true
        → (a b : ℕ) → a ≡ (if within (buf + read_len) (len - read_len) x then a else b)
    in_all x e a b = ground (arith, e, fits)

    -- The rounds behind it read on.
    Reads-round :
        (c' cfo' : ℕ) (m' : Words)
        → ((k : ℕ)
            → k < len - (read_len + n)
            → byte_at v d c' (cfo' + k) ≡ byte_at v d c (cfo + n + k))
        → Reads d c' cfo' (buf + (read_len + n)) (len - (read_len + n)) round m'
        → Reads d c cfo (buf + read_len) (len - read_len) m m'
    unfolding Reads
    Reads-round c' cfo' m' on w x = elim (Bool-cases (within (buf + read_len) n x)) [
      | inl e ↦
          w x
          ∙ early x e (byte_at v d c' (cfo' + (x - (buf + (read_len + n))))) (round x)
          ∙ at_round x e
          ∙ in_all x e (byte_at v d c (cfo + (x - (buf + read_len)))) (m x)
      | inr e ↦ elim (Bool-cases (within (buf + (read_len + n)) (len - (read_len + n)) x)) [
        | inl i ↦
            let k : ℕ = x - (buf + (read_len + n)) in
            let place : cfo + n + k ≡ cfo + (x - (buf + read_len)) = ground (arith, i) in
            w x
            ∙ first_of (within (buf + (read_len + n)) (len - (read_len + n)) x) i _ _
            ∙ on k (ground (arith, i))
            ∙ byte_same (byte_at v d c) (cfo + n + k) (cfo + (x - (buf + read_len))) place
            ∙ sym (
                first_of (within (buf + read_len) (len - read_len) x) (ground (arith, i, fits)) _ _)
        | inr o ↦
            w x
            ∙ second_of (within (buf + (read_len + n)) (len - (read_len + n)) x) o _ _
            ∙ outside_round x e
            ∙ sym (
                second_of (within (buf + read_len) (len - read_len) x) (ground (arith, e, o, fits))
                  _ _)
      ]
    ]

  -- The steps of the loop, by where the round ends.
  module _ (f : ℕ) (d : Disk) (m : Words) (buf c cfo read_len len : ℕ)
      (left : ltb read_len len ≡ true)
      (room : leb (cfo + round_len v read_len len cfo) sector_size ≡ true) where
    abbrev after : Words
    after =
        copy_out (round_len v read_len len cfo) m (buf + read_len) (d (cluster_to_sector v c)) cfo

    read_turn :
        leb (v.sec_per_cluster * sector_size) (cfo + round_len v read_len len cfo) ≡ true
        → cfo + round_len v read_len len cfo - v.sec_per_cluster * sector_size ≡ 0
        → read_loop (suc f) v d m buf c cfo read_len len
          ≡ read_loop f v d after buf
              (next_cluster v d c)
              0
              (read_len + round_len v read_len len cfo)
              len
    unfolding read_loop
    read_turn full z = rw (left, room, full, z) refl

    read_stay :
        leb (v.sec_per_cluster * sector_size) (cfo + round_len v read_len len cfo) ≡ false
        → read_loop (suc f) v d m buf c cfo read_len len
          ≡ read_loop f v d after buf c
              (cfo + round_len v read_len len cfo)
              (read_len + round_len v read_len len cfo)
              len
    unfolding read_loop
    read_stay part = rw (left, room, part) refl

  read_stop :
      (f : ℕ) (d : Disk) (m : Words) (buf c cfo read_len len : ℕ)
      → ltb read_len len ≡ false
      → read_loop (suc f) v d m buf c cfo read_len len ≡ done (read_len, m)
  unfolding read_loop
  read_stop f d m buf c cfo read_len len e = rw e refl

  pub read_loop-Reads :
      (f : ℕ) (d : Disk) (m : Words) (buf c cfo read_len len : ℕ)
      → cfo < sector_size
      → read_len ≤ len
      → len - read_len < f
      → (m' : Words) × (read_loop f v d m buf c cfo read_len len ≡ done (len, m'))
        × Reads d c cfo (buf + read_len) (len - read_len) m m'
  read_loop-Reads zero d m buf c cfo read_len len lc lr lf = absurd (omega arith)
  read_loop-Reads (suc f) d m buf c cfo read_len len lc lr lf =
      elim (Bool-cases (ltb read_len len)) [
        | inr e ↦
            let last : read_len ≡ len = omega (arith, lr, ltb→ge read_len len e) in
            (
              m,
              read_stop f d m buf c cfo read_len len e ∙ ap (λ k. done (k, m)) last,
              unfold Reads in λ x. ground (arith, last),
            )
        | inl e ↦
            let left : read_len < len = ltb→lt read_len len e in
            let n : ℕ = round_len v read_len len cfo in
            let b : (0 < n)
                × (cfo + n ≤ sector_size)
                × (read_len + n ≤ len)
                × (cfo + n < sector_size → read_len + n ≡ len) =
              round_bounds read_len len cfo lc left in
            elim (Bool-cases (leb sector_size (cfo + n))) [
              | inl full ↦
                  let at_end : cfo + n ≡ sector_size =
                    omega (arith, leb→le sector_size (cfo + n) full, b.1) in
                  let zero_left : cfo + n - sector_size ≡ 0 = omega (arith, at_end) in
                  let rest =
                    read_loop-Reads f d (round d m buf c cfo read_len len n lc b.1 b.2) buf
                      (next_cluster v d c) 0 (read_len + n) len (omega arith) b.2
                      (omega (arith, b.0, lf)) in
                  (
                    rest.0,
                    read_turn f d m buf c cfo read_len len e (le→leb (cfo + n) sector_size b.1)
                          (le→leb (v.sec_per_cluster * sector_size) (cfo + n)
                            (omega (arith, at_end, size_one)))
                          (omega (arith, zero_left, size_one))
                        ∙ rest.1,
                    Reads-round d m buf c cfo read_len len n lc b.1 b.2 (next_cluster v d c) 0
                        rest.0
                        (λ k l.
                          sym (byte_at-next v d c (cfo + n + k) (0 + k) (omega (arith, at_end))))
                        rest.2,
                  )
              | inr part ↦
                  let rest =
                    read_loop-Reads f d (round d m buf c cfo read_len len n lc b.1 b.2) buf c
                      (cfo + n) (read_len + n) len (leb→gt sector_size (cfo + n) part) b.2
                      (omega (arith, b.0, lf)) in
                  (
                    rest.0,
                    read_stay f d m buf c cfo read_len len e (le→leb (cfo + n) sector_size b.1) (
                          gt→leb (v.sec_per_cluster * sector_size) (cfo + n)
                            (omega (arith, leb→gt sector_size (cfo + n) part, size_one)))
                        ∙ rest.1,
                    Reads-round d m buf c cfo read_len len n lc b.1 b.2 c (cfo + n) rest.0
                        (λ k l. refl) rest.2,
                  )
            ]
      ]
