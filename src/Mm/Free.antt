-- ===== src/Mm/Free.antt =====
-- The two loops of `buddy_free` in arch/riscv/kernel/mm.c, on a tree of blocks.
use zju_sys3_sp25_kernel.Base.{
  ℕ, zero, suc, ◌+◌, ◌-◌, ◌*◌, ◌^◌, ◌<◌, ◌≡◌, ◌≢◌, ◌∙◌, ◌⊎◌, inl, inr, ap, refl, sym, subst, max,
  arith, true, false, ltb, ltb→lt, ltb→ge, ◌==◌, if◌then◌else◌, Bool-cases, eq→==, ne→==, pow2,
  pow2_pos, w64, Words, write, write_self, done,
}
use native.Mathlib.Decide.{dec_le}
use zju_sys3_sp25_kernel.Mm.{parent, climb, merge_at, ascend_merge}
use zju_sys3_sp25_kernel.Mm.Index.{
  InRange, left_leaf_lem, right_leaf_lem, parent-left, parent-right, SameOutside,
}
use zju_sys3_sp25_kernel.Mm.Block.{
  Block, free, used, split, longest, longest-le, join, covered, release, free_of_longest,
}
use zju_sys3_sp25_kernel.Mm.Rep.{
  FullBelow, Rep, Rep-longest, Rep-same, left_spares, right_spares, outside-left, outside-right,
}
use zju_sys3_sp25_kernel.Mm.Alloc.{write_spares-below, write_outside, write-FullBelow}

-- The leaf of page `o` below node `i`.
abbrev pub leaf : ℕ → ℕ → ℕ → ℕ
leaf zero i o = i
leaf (suc d) i o =
    let low = leaf d (i * 2 + 1) o in
    let high = leaf d (i * 2 + 2) (o - pow2 d) in if ltb o (pow2 d) then low else high

pub leaf_lem : (d i o : ℕ) → o < pow2 d → suc (leaf d i o) ≡ suc i * pow2 d + o
leaf_lem zero i o h = omega arith
leaf_lem (suc d) i o h = elim (Bool-cases (ltb o (pow2 d))) [
  | inl low ↦ rw low (omega (arith, leaf_lem d (i * 2 + 1) o (ltb→lt o (pow2 d) low)))
  | inr high ↦
      let ge = ltb→ge o (pow2 d) high in
      rw high (omega (arith, leaf_lem d (i * 2 + 2) (o - pow2 d) (omega arith)))
]

climb-step :
    (f : ℕ) (b : Words) (n i : ℕ)
    → b i ≢ 0
    → i ≢ 0
    → climb (suc f) b n i ≡ climb f b (w64 (n * 2)) (parent i)
unfolding climb
climb-step f b n i h g = rw (ne→== (b i) 0 h, ne→== i 0 g)

climb-stop : (f : ℕ) (b : Words) (n i : ℕ) → b i ≡ 0 → climb (suc f) b n i ≡ done (n, i)
unfolding climb
climb-stop f b n i h = rw (eq→== (b i) 0 h)

ascend_merge-step :
    (f : ℕ) (b : Words) (n i : ℕ)
    → i ≢ 0
    → ascend_merge (suc f) b n i
      ≡ ascend_merge f (merge_at b (w64 (n * 2)) (parent i)) (w64 (n * 2)) (parent i)
unfolding ascend_merge
ascend_merge-step f b n i h = rw (ne→== i 0 h)

-- From one child with its own size in it, up to its parent.
climb-child :
    (f : ℕ) (b : Words) (d i c : ℕ)
    → b c ≡ pow2 d
    → c ≢ 0
    → parent c ≡ i
    → pow2 (suc d) < 2 ^ 63
    → climb (suc f) b (pow2 d) c ≡ climb f b (pow2 (suc d)) i
climb-child f b d i c v ne p small =
    let double : w64 (pow2 d * 2) ≡ pow2 (suc d) = omega arith in
    climb-step f b (pow2 d) c (λ z. omega (arith, v, z, pow2_pos d)) ne ∙ rw (double, p)

-- Inside a block the climb goes up to the block's node.
climb-FullBelow :
    (d i o f : ℕ) (b : Words)
    → FullBelow b d i
    → o < pow2 d
    → climb (d + f) b 1 (leaf d i o) ≡ climb f b (pow2 d) i
climb-FullBelow zero i o f b h lt = ap (λ x. climb x b 1 i) (omega arith)
climb-FullBelow (suc d) i o f b h lt =
    let fuel : suc d + f ≡ d + suc f = omega arith in
    rw fuel (elim (Bool-cases (ltb o (pow2 d))) [
      | inl low ↦ rw low (
          climb-FullBelow d (i * 2 + 1) o (suc f) b h.3 (ltb→lt o (pow2 d) low)
          ∙ climb-child f b d i (i * 2 + 1) h.2 (omega arith) (parent-left i h.0) h.1)
      | inr high ↦
          let ge = ltb→ge o (pow2 d) high in
          rw high (
            climb-FullBelow d (i * 2 + 2) (o - pow2 d) (suc f) b h.5 (omega arith)
            ∙ climb-child f b d i (i * 2 + 2) h.4 (omega arith) (parent-right i h.0) h.1)
    ])

-- What the climb from page `o` below node `i`, and the way back to it, have done: the block with
-- the page, of size 2^e and `k` levels below `i`, is free again.
pub record Freed (b : Words) (d i : ℕ) (t : Block) (o : ℕ) : Type 0 where
  pub e : ℕ
  pub k : ℕ
  pub j : ℕ
  pub after : Words
  pub depth : d ≡ k + e
  pub search : (f : ℕ) → climb (e + suc f) b 1 (leaf d i o) ≡ done (pow2 e, j)
  pub back :
      (f : ℕ)
      → ascend_merge (k + f) (write b j (pow2 e)) (pow2 e) j ≡ ascend_merge f after (pow2 d) i
  pub rep : Rep after d i (release d t o)
  pub same : SameOutside i b after

Freed-used : (b : Words) (d i o : ℕ) → Rep b d i used → o < pow2 d → Freed b d i used o
unfolding release
Freed-used b d i o h lt = record {
  e = d;
  k = 0;
  j = i;
  after = write b i (pow2 d);
  depth = omega arith;
  search = λ f. climb-FullBelow d i o (suc f) b h.1 lt ∙ climb-stop f b (pow2 d) i h.0;
  back = λ f. ap (λ x. ascend_merge x (write b i (pow2 d)) (pow2 d) i) (omega arith);
  rep = (write_self b i (pow2 d), write-FullBelow b d i (pow2 d) h.1);
  same = write_outside b i (pow2 d);
}

-- The value that `buddy_free` writes at the parent of two blocks.
abbrev merged : ℕ → Block → Block → ℕ
merged d l r =
    if longest d l + longest d r == pow2 (suc d)
    then pow2 (suc d)
    else max (longest d l) (longest d r)

join-cases :
    (l r : Block) → ((l ≡ free) × (r ≡ free)) ⊎ ((join l r ≡ split l r) × ((l ≢ free) ⊎ (r ≢ free)))
join-cases free free = inl (refl, refl)
join-cases free used = inr (refl, inr (λ q. cc))
join-cases free (split a c) = inr (refl, inr (λ q. cc))
join-cases used r = inr (refl, inl (λ q. cc))
join-cases (split a c) r = inr (refl, inl (λ q. cc))

not_full :
    (d : ℕ) (l r : Block) → (l ≢ free) ⊎ (r ≢ free) → longest d l + longest d r < pow2 (suc d)
not_full d l r (inl ne) = elim (dec_le (pow2 d) (longest d l)) [
  | yes h ↦ absurd (ne (free_of_longest d l h))
  | no h ↦ omega (arith, longest-le d l, longest-le d r)
]
not_full d l r (inr ne) = elim (dec_le (pow2 d) (longest d r)) [
  | yes h ↦ absurd (ne (free_of_longest d r h))
  | no h ↦ omega (arith, longest-le d l, longest-le d r)
]

-- A node above two represented blocks.
module _ (b : Words) (d i : ℕ) (l r : Block) (range : InRange i) (small : pow2 (suc d) < 2 ^ 63)
    (hl : Rep b d (i * 2 + 1) l) (hr : Rep b d (i * 2 + 2) r) where
  spared-left : (v : ℕ) → Rep (write b i v) d (i * 2 + 1) l
  spared-left v =
      Rep-same b (write b i v) d (i * 2 + 1) l (write_spares-below b i v (i * 2 + 1) (omega arith))
        hl

  spared-right : (v : ℕ) → Rep (write b i v) d (i * 2 + 2) r
  spared-right v =
      Rep-same b (write b i v) d (i * 2 + 2) r (write_spares-below b i v (i * 2 + 2) (omega arith))
        hr

  Rep-split :
      longest d l + longest d r < pow2 (suc d)
      → Rep (write b i (merged d l r)) (suc d) i (split l r)
  Rep-split lt = (
    write_self b i (merged d l r)
        ∙ rw (ne→== (longest d l + longest d r) (pow2 (suc d)) (omega arith)),
    range,
    small,
    lt,
    spared-left (merged d l r),
    spared-right (merged d l r),
  )

  Rep-both_free : l ≡ free → r ≡ free → Rep (write b i (merged d l r)) (suc d) i free
  Rep-both_free p q =
      let v = merged d l r in
      let hl' : Rep (write b i v) d (i * 2 + 1) free =
        subst (Rep (write b i v) d (i * 2 + 1)) p (spared-left v) in
      let hr' : Rep (write b i v) d (i * 2 + 2) free =
        subst (Rep (write b i v) d (i * 2 + 2)) q (spared-right v) in
      (
        write_self b i v ∙ rw (p, q, eq→== (pow2 d + pow2 d) (pow2 (suc d)) (omega arith)),
        (range, small, hl'.0, hl'.1, hr'.0, hr'.1),
      )

  Rep-join : Rep (write b i (merged d l r)) (suc d) i (join l r)
  Rep-join = elim (join-cases l r) [
    | inl (p, q) ↦
        let whole : join l r ≡ free = rw (p, q) in
        subst (Rep (write b i (merged d l r)) (suc d) i) (sym whole) (Rep-both_free p q)
    | inr (p, ne) ↦
        subst (Rep (write b i (merged d l r)) (suc d) i) (sym p) (Rep-split (not_full d l r ne))
  ]

  merge_at_lem : merge_at b (pow2 (suc d)) i ≡ write b i (merged d l r)
  unfolding merge_at
  merge_at_lem =
      rw
        (
          left_leaf_lem i range,
          right_leaf_lem i range,
          Rep-longest b d (i * 2 + 1) l hl,
          Rep-longest b d (i * 2 + 2) r hr,
          no_wrap,
        )
        (elim (Bool-cases (longest d l + longest d r == pow2 (suc d))) [
          | inl e ↦ rw e
          | inr e ↦ rw e
        ])
    where
      no_wrap : w64 (longest d l + longest d r) ≡ longest d l + longest d r
      no_wrap = omega (arith, longest-le d l, longest-le d r)

  -- The way back from a child, merging at its parent.
  ascend_merge-child :
      (f c : ℕ)
      → c ≢ 0
      → parent c ≡ i
      → ascend_merge (suc f) b (pow2 d) c
        ≡ ascend_merge f (write b i (merged d l r)) (pow2 (suc d)) i
  ascend_merge-child f c ne p =
      let double : w64 (pow2 d * 2) ≡ pow2 (suc d) = omega arith in
      ascend_merge-step f b (pow2 d) c ne ∙ rw (double, p, merge_at_lem)

-- The page lies in one half, seen from the node above.
module _ (b : Words) (d i o : ℕ) (l r : Block) (h : Rep b (suc d) i (split l r)) where
  Freed-left : ltb o (pow2 d) ≡ true → Freed b d (i * 2 + 1) l o → Freed b (suc d) i (split l r) o
  unfolding release
  Freed-left low w = record {
    e = w.e;
    k = suc w.k;
    j = w.j;
    after = write w.after i (merged d (release d l o) r);
    depth = omega (arith, w.depth);
    search = λ f. rw low (w.search f);
    back = λ f.
        let fuel : suc w.k + f ≡ w.k + suc f = omega arith in
        rw fuel (
          w.back (suc f)
          ∙ ascend_merge-child w.after d i (release d l o) r h.1 h.2 w.rep other f (i * 2 + 1)
              (omega arith) (parent-left i h.1));
    rep = rw low (Rep-join w.after d i (release d l o) r h.1 h.2 w.rep other);
    same = λ m out.
        write_outside w.after i (merged d (release d l o) r) m out
        ∙ outside-left i b w.after w.same m out;
  }
    where
      other : Rep w.after d (i * 2 + 2) r
      other = Rep-same b w.after d (i * 2 + 2) r (left_spares i b w.after w.same) h.5

  Freed-right :
      ltb o (pow2 d) ≡ false
      → Freed b d (i * 2 + 2) r (o - pow2 d)
      → Freed b (suc d) i (split l r) o
  unfolding release
  Freed-right high w = record {
    e = w.e;
    k = suc w.k;
    j = w.j;
    after = write w.after i (merged d l (release d r (o - pow2 d)));
    depth = omega (arith, w.depth);
    search = λ f. rw high (w.search f);
    back = λ f.
        let fuel : suc w.k + f ≡ w.k + suc f = omega arith in
        rw fuel (
          w.back (suc f)
          ∙ ascend_merge-child w.after d i l (release d r (o - pow2 d)) h.1 h.2 other w.rep f
              (i * 2 + 2) (omega arith) (parent-right i h.1));
    rep = rw high (Rep-join w.after d i l (release d r (o - pow2 d)) h.1 h.2 other w.rep);
    same = λ m out.
        write_outside w.after i (merged d l (release d r (o - pow2 d))) m out
        ∙ outside-right i b w.after w.same m out;
  }
    where
      other : Rep w.after d (i * 2 + 1) l
      other = Rep-same b w.after d (i * 2 + 1) l (right_spares i b w.after w.same) h.4

-- `buddy_free` finds the block of every page that is handed out.
pub Rep-Freed :
    (d : ℕ) (b : Words) (i : ℕ) (t : Block) (o : ℕ)
    → Rep b d i t
    → o < pow2 d
    → covered d t o ≡ true
    → Freed b d i t o
unfolding covered
Rep-Freed d b i free o h lt c = absurd (ground arith)
Rep-Freed d b i used o h lt c = Freed-used b d i o h lt
Rep-Freed zero b i (split l r) o h lt c = absurd h
Rep-Freed (suc d) b i (split l r) o h lt c = elim (Bool-cases (ltb o (pow2 d))) [
  | inl low ↦
      Freed-left b d i o l r h low
        (Rep-Freed d b (i * 2 + 1) l o h.4 (ltb→lt o (pow2 d) low) (rw low at c))
  | inr high ↦
      let ge = ltb→ge o (pow2 d) high in
      Freed-right b d i o l r h high
        (Rep-Freed d b (i * 2 + 2) r (o - pow2 d) h.5 (omega arith) (rw high at c))
]
