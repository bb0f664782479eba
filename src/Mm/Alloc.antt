-- ===== src/Mm/Alloc.antt =====
-- The two loops of `buddy_alloc` in arch/riscv/kernel/mm.c, on a tree of blocks.
use zju_sys3_sp25_kernel.Base.{
  ℕ, zero, suc, ◌+◌, ◌*◌, ◌/◌, ◌≤◌, ◌<◌, ◌≡◌, ◌≢◌, ◌∙◌, ap, sym, refl, subst, max, arith, leb,
  if◌then◌else◌, eq→==, ne→==, le→leb, gt→leb, pow2, pow2_pos, pow2_mono, Words, write, write_self,
  write_ne, done, true, false,
}
use native.Mathlib.Decide.{dec_le}
use zju_sys3_sp25_kernel.Mm.{left_leaf, right_leaf, parent, descend, ascend, refresh_at}
use zju_sys3_sp25_kernel.Mm.Index.{
  InRange, left_leaf_lem, right_leaf_lem, parent-left, parent-right, SameBelow, SameOutside, anc-le,
}
use zju_sys3_sp25_kernel.Mm.Block.{
  Block, free, used, split, longest, longest-le, longest-alloc-lt, left_half, right_half, alloc,
  position, free_of_longest,
}
use zju_sys3_sp25_kernel.Mm.Rep.{
  FullBelow, FullBelow-same, Rep, Rep-longest, Rep-same, Halves, Rep-Halves, left_spares,
  right_spares, outside-left, outside-right,
}

descend-step :
    (f : ℕ) (b : Words) (n s i : ℕ)
    → s ≢ n
    → descend (suc f) b n s i
      ≡ descend f b n (s / 2) (if leb n (b (left_leaf i)) then left_leaf i else right_leaf i)
unfolding descend
descend-step f b n s i h = rw (ne→== s n h)

ascend-step :
    (f : ℕ) (b : Words) (i : ℕ)
    → i ≢ 0
    → ascend (suc f) b i ≡ ascend f (refresh_at b (parent i)) (parent i)
unfolding ascend
ascend-step f b i h = rw (ne→== i 0 h)

-- A write at a node spares what is below its children.
pub write_spares-below : (b : Words) (i v c : ℕ) → i < c → SameBelow c b (write b i v)
write_spares-below b i v c h k m p = write_ne b i v k (omega (arith, anc-le m k))

pub write_outside : (b : Words) (i v : ℕ) → SameOutside i b (write b i v)
write_outside b i v k out = write_ne b i v k (λ e. out 0 e)

pub write-FullBelow : (b : Words) (d i v : ℕ) → FullBelow b d i → FullBelow (write b i v) d i
write-FullBelow b zero i v h = tt
write-FullBelow b (suc d) i v h =
    let s1 = write_spares-below b i v (i * 2 + 1) (omega arith) in
    let s2 = write_spares-below b i v (i * 2 + 2) (omega arith) in
    (
      h.0,
      h.1,
      s1 (i * 2 + 1) 0 refl ∙ h.2,
      FullBelow-same b (write b i v) d (i * 2 + 1) s1 h.3,
      s2 (i * 2 + 2) 0 refl ∙ h.4,
      FullBelow-same b (write b i v) d (i * 2 + 2) s2 h.5,
    )

-- What the search from node `i`, and the way back to it, have done: `k` levels below it, node `j`
-- of size 2^e is taken.
pub record Taken (b : Words) (d e k i : ℕ) (t : Block) : Type 0 where
  pub j : ℕ
  pub after : Words
  pub search : (f : ℕ) → descend (k + suc f) b (pow2 e) (pow2 d) i ≡ done (pow2 e, j)
  pub back : (f : ℕ) → ascend (k + f) (write b j 0) j ≡ ascend f after i
  pub rep : Rep after d i (alloc d e t)
  pub same : SameOutside i b after
  pub place : suc j * pow2 e ≡ suc i * pow2 d + position d e t

pub alloc-whole : (d : ℕ) (t : Block) → alloc d d t ≡ used
unfolding alloc
alloc-whole zero t = refl
alloc-whole (suc d) t = rw (eq→== (suc d) (suc d) refl)

pub position-whole : (d : ℕ) (t : Block) → position d d t ≡ 0
unfolding position
position-whole zero t = refl
position-whole (suc d) t = rw (eq→== (suc d) (suc d) refl)

Taken-whole :
    (b : Words) (d i : ℕ) (t : Block) → Rep b d i t → pow2 d ≤ longest d t → Taken b d d 0 i t
unfolding descend
Taken-whole b d i t r h = record {
  j = i;
  after = write b i 0;
  search = λ f. let e : 0 + suc f ≡ suc f = omega arith in rw (e, eq→== (pow2 d) (pow2 d) refl);
  back = λ f. ap (λ x. ascend x (write b i 0) i) (omega arith);
  rep = rw (alloc-whole d t) (write_self b i 0, write-FullBelow b d i 0 full.1);
  same = write_outside b i 0;
  place = omega (arith, position-whole d t);
}
  where
    full : (b i ≡ pow2 d) × FullBelow b d i
    full = subst (Rep b d i) (free_of_longest d t h) r

refresh_at_lem :
    (b : Words) (i : ℕ)
    → InRange i
    → refresh_at b i ≡ write b i (max (b (i * 2 + 1)) (b (i * 2 + 2)))
unfolding refresh_at
refresh_at_lem b i h = rw (left_leaf_lem i h, right_leaf_lem i h)

-- The way back from a child to its parent.
ascend-child :
    (f : ℕ) (b : Words) (i c : ℕ)
    → c ≢ 0
    → parent c ≡ i
    → InRange i
    → ascend (suc f) b c ≡ ascend f (write b i (max (b (i * 2 + 1)) (b (i * 2 + 2)))) i
ascend-child f b i c ne p h =
    ascend-step f b c ne
    ∙ ap (λ x. ascend f (refresh_at b x) x) p
    ∙ ap (λ x. ascend f x i) (refresh_at_lem b i h)

pub alloc-halves :
    (d e : ℕ) (t : Block)
    → e ≤ d
    → alloc (suc d) e t ≡ (
        if leb (pow2 e) (longest d (left_half t))
        then split (alloc d e (left_half t)) (right_half t)
        else split (left_half t) (alloc d e (right_half t)))
unfolding alloc
alloc-halves d e t h = rw (ne→== (suc d) e (omega arith))

pub position-halves :
    (d e : ℕ) (t : Block)
    → e ≤ d
    → position (suc d) e t ≡ (
        if leb (pow2 e) (longest d (left_half t))
        then position d e (left_half t)
        else pow2 d + position d e (right_half t))
unfolding position
position-halves d e t h = rw (ne→== (suc d) e (omega arith))

-- A block of one half, seen from the node above.
module _ (b : Words) (d e k i : ℕ) (t : Block) (hs : Halves b d i t) (le : e ≤ d) where
  not_whole : pow2 (suc d) ≢ pow2 e
  not_whole q = omega (arith, pow2_mono e d le, pow2_pos d)

  descend-halves :
      (f : ℕ)
      → descend (suc k + suc f) b (pow2 e) (pow2 (suc d)) i
        ≡ descend
            (k + suc f)
            b
            (pow2 e)
            (pow2 d)
            (if leb (pow2 e) (longest d (left_half t)) then i * 2 + 1 else i * 2 + 2)
  descend-halves f =
      let fuel : suc k + suc f ≡ suc (k + suc f) = omega arith in
      let half : pow2 (suc d) / 2 ≡ pow2 d = omega arith in
      rw fuel (
        descend-step (k + suc f) b (pow2 e) (pow2 (suc d)) i not_whole
        ∙ rw (
          half,
          left_leaf_lem i hs.range,
          right_leaf_lem i hs.range,
          Rep-longest b d (i * 2 + 1) (left_half t) hs.left,
        ))

  Taken-left :
      pow2 e ≤ longest d (left_half t)
      → Taken b d e k (i * 2 + 1) (left_half t)
      → Taken b (suc d) e (suc k) i t
  Taken-left room w = record {
    j = w.j;
    after = write w.after i top;
    search = λ f. descend-halves f ∙ rw left_first (w.search f);
    back = λ f.
        let fuel : suc k + f ≡ k + suc f = omega arith in
        rw fuel (
          w.back (suc f)
          ∙ ascend-child f w.after i (i * 2 + 1) (omega arith) (parent-left i hs.range) hs.range);
    rep =
        rw (alloc-halves d e t le, left_first)
          (
            write_self w.after i top ∙ tops,
            hs.range,
            hs.small,
            omega (arith, longest-alloc-lt d e (left_half t), longest-le d (right_half t)),
            Rep-same w.after (write w.after i top) d (i * 2 + 1) (alloc d e (left_half t))
                (write_spares-below w.after i top (i * 2 + 1) (omega arith)) w.rep,
            Rep-same w.after (write w.after i top) d (i * 2 + 2) (right_half t)
                (write_spares-below w.after i top (i * 2 + 2) (omega arith)) other,
          );
    same = λ m out. write_outside w.after i top m out ∙ outside-left i b w.after w.same m out;
    place = rw (position-halves d e t le, left_first) (omega (arith, w.place));
  }
    where
      top : ℕ
      top = max (w.after (i * 2 + 1)) (w.after (i * 2 + 2))

      left_first : leb (pow2 e) (longest d (left_half t)) ≡ true
      left_first = le→leb (pow2 e) (longest d (left_half t)) room

      other : Rep w.after d (i * 2 + 2) (right_half t)
      other =
          Rep-same b w.after d (i * 2 + 2) (right_half t) (left_spares i b w.after w.same) hs.right

      tops : top ≡ max (longest d (alloc d e (left_half t))) (longest d (right_half t))
      tops = rw (
        Rep-longest w.after d (i * 2 + 1) (alloc d e (left_half t)) w.rep,
        Rep-longest w.after d (i * 2 + 2) (right_half t) other,
      )

  Taken-right :
      longest d (left_half t) < pow2 e
      → Taken b d e k (i * 2 + 2) (right_half t)
      → Taken b (suc d) e (suc k) i t
  Taken-right room w = record {
    j = w.j;
    after = write w.after i top;
    search = λ f. descend-halves f ∙ rw left_full (w.search f);
    back = λ f.
        let fuel : suc k + f ≡ k + suc f = omega arith in
        rw fuel (
          w.back (suc f)
          ∙ ascend-child f w.after i (i * 2 + 2) (omega arith) (parent-right i hs.range) hs.range);
    rep =
        rw (alloc-halves d e t le, left_full)
          (
            write_self w.after i top ∙ tops,
            hs.range,
            hs.small,
            omega (arith, longest-alloc-lt d e (right_half t), longest-le d (left_half t)),
            Rep-same w.after (write w.after i top) d (i * 2 + 1) (left_half t)
                (write_spares-below w.after i top (i * 2 + 1) (omega arith)) other,
            Rep-same w.after (write w.after i top) d (i * 2 + 2) (alloc d e (right_half t))
                (write_spares-below w.after i top (i * 2 + 2) (omega arith)) w.rep,
          );
    same = λ m out. write_outside w.after i top m out ∙ outside-right i b w.after w.same m out;
    place = rw (position-halves d e t le, left_full) (omega (arith, w.place));
  }
    where
      top : ℕ
      top = max (w.after (i * 2 + 1)) (w.after (i * 2 + 2))

      left_full : leb (pow2 e) (longest d (left_half t)) ≡ false
      left_full = gt→leb (pow2 e) (longest d (left_half t)) room

      other : Rep w.after d (i * 2 + 1) (left_half t)
      other =
          Rep-same b w.after d (i * 2 + 1) (left_half t) (right_spares i b w.after w.same) hs.left

      tops : top ≡ max (longest d (left_half t)) (longest d (alloc d e (right_half t)))
      tops = rw (
        Rep-longest w.after d (i * 2 + 1) (left_half t) other,
        Rep-longest w.after d (i * 2 + 2) (alloc d e (right_half t)) w.rep,
      )

-- A block with room in it has room in one of its halves.
pub right_room :
    (d e : ℕ) (t : Block)
    → e ≤ d
    → pow2 e ≤ longest (suc d) t
    → longest d (left_half t) < pow2 e
    → pow2 e ≤ longest d (right_half t)
right_room d e free le h lt = absurd (omega (arith, pow2_mono e d le))
right_room d e used le h lt = omega arith
right_room d e (split l r) le h lt = omega arith

-- `buddy_alloc` finds a block wherever the largest free one is large enough.
pub Rep-Taken :
    (d e k : ℕ) (b : Words) (i : ℕ) (t : Block)
    → d ≡ k + e
    → Rep b d i t
    → pow2 e ≤ longest d t
    → Taken b d e k i t
Rep-Taken d e zero b i t q r h =
    let same : d ≡ e = omega arith in
    subst (λ x. Taken b d x 0 i t) same
      (Taken-whole b d i t r (subst (λ x. pow2 x ≤ longest d t) (sym same) h))
Rep-Taken zero e (suc k) b i t q r h = absurd (omega arith)
Rep-Taken (suc d) e (suc k) b i t q r h = elim (dec_le (pow2 e) (longest d (left_half t))) [
  | yes room ↦
      Taken-left b d e k i t hs le room
        (Rep-Taken d e k b (i * 2 + 1) (left_half t) below hs.left room)
  | no full ↦ Taken-right b d e k i t hs le (omega arith) (
      Rep-Taken d e k b (i * 2 + 2) (right_half t) below hs.right
        (right_room d e t le h (omega arith)))
]
  where
    le : e ≤ d
    le = omega arith

    below : d ≡ k + e
    below = omega arith

    hs : Halves b d i t
    hs = Rep-Halves b d i t r (λ u. omega (arith, pow2_pos e, ap (longest (suc d)) u))
