-- ===== src/Mm/Block.antt =====
-- What the buddy tree of arch/riscv/kernel/mm.c stands for: a block of 2^d pages is free, handed
-- out as a whole, or split into two halves.
use zju_sys3_sp25_kernel.Base.{
  ℕ, zero, suc, ◌+◌, ◌-◌, ◌≤◌, ◌<◌, ◌≡◌, refl, max, Bool, false, ltb, leb, ◌==◌, ◌&&◌,
  if◌then◌else◌, arith, pow2, pow2_pos,
}

pub data Block : Type 0 where
  free used : Block
  split : Block → Block → Block

-- The size of the largest free block.
abbrev pub longest : ℕ → Block → ℕ
longest d free = pow2 d
longest d used = 0
longest zero (split l r) = 0
longest (suc d) (split l r) = max (longest d l) (longest d r)

abbrev pub left_half : Block → Block
left_half free = free
left_half used = used
left_half (split l r) = l

abbrev pub right_half : Block → Block
right_half free = free
right_half used = used
right_half (split l r) = r

-- Two free halves are one free block.
abbrev pub join : Block → Block → Block
join free free = free
join l r = split l r

-- Hand out 2^e of 2^d pages, on the left where that half has room.
unfoldable pub alloc : ℕ → ℕ → Block → Block
alloc zero e t = used
alloc (suc d) e t =
    let l = split (alloc d e (left_half t)) (right_half t) in
    let r = split (left_half t) (alloc d e (right_half t)) in
    if suc d == e then used else (if leb (pow2 e) (longest d (left_half t)) then l else r)

-- The first page of the block that `alloc` hands out.
unfoldable pub position : ℕ → ℕ → Block → ℕ
position zero e t = 0
position (suc d) e t =
    let l = position d e (left_half t) in
    let r = pow2 d + position d e (right_half t) in
    if suc d == e then 0 else (if leb (pow2 e) (longest d (left_half t)) then l else r)

-- Is page `o` handed out?
unfoldable pub covered : ℕ → Block → ℕ → Bool
covered d free o = false
covered d used o = ltb o (pow2 d)
covered zero (split l r) o = false
covered (suc d) (split l r) o =
    let low = covered d l o in
    let high = covered d r (o - pow2 d) in if ltb o (pow2 d) then low else high

-- Take back the block that holds page `o`.
unfoldable pub release : ℕ → Block → ℕ → Block
release d free o = free
release d used o = free
release zero (split l r) o = split l r
release (suc d) (split l r) o =
    let low = join (release d l o) r in
    let high = join l (release d r (o - pow2 d)) in if ltb o (pow2 d) then low else high

-- No two free halves are left apart.
abbrev pub IsMerged : Block → Type 0
IsMerged free = Unit {0}
IsMerged used = Unit {0}
IsMerged (split l r) = (join l r ≡ split l r) × IsMerged l × IsMerged r

pub longest-le : (d : ℕ) (t : Block) → longest d t ≤ pow2 d
longest-le d free = omega arith
longest-le d used = omega arith
longest-le zero (split l r) = omega arith
longest-le (suc d) (split l r) = omega (arith, longest-le d l, longest-le d r)

pub longest-alloc-lt : (d e : ℕ) (t : Block) → longest d (alloc d e t) < pow2 d
unfolding alloc
longest-alloc-lt zero e t = omega arith
longest-alloc-lt (suc d) e t = ground (
  arith,
  pow2_pos d,
  longest-le d (left_half t),
  longest-le d (right_half t),
  longest-le d (alloc d e (left_half t)),
  longest-le d (alloc d e (right_half t)),
)

-- Only a free block has room for its own size.
pub free_of_longest : (d : ℕ) (t : Block) → pow2 d ≤ longest d t → t ≡ free
free_of_longest d free h = refl
free_of_longest d used h = absurd (omega (arith, pow2_pos d))
free_of_longest zero (split l r) h = absurd (omega arith)
free_of_longest (suc d) (split l r) h =
    absurd (omega (arith, pow2_pos d, longest-le d l, longest-le d r))

-- The test of a page against the block of `n` pages from `s` on.
abbrev pub inside : ℕ → ℕ → ℕ → Bool
inside s n o = leb s o && ltb o (s + n)

-- Is page `o` the first one of a block that is handed out?
unfoldable pub starts : ℕ → Block → ℕ → Bool
starts d free o = false
starts d used o = o == 0
starts zero (split l r) o = false
starts (suc d) (split l r) o =
    let low = starts d l o in
    let high = starts d r (o - pow2 d) in if ltb o (pow2 d) then low else high
