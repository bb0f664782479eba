-- ===== src/Mm/Tests.antt =====
-- Runs of the allocator on four pages, and the theorems at its states.
use zju_sys3_sp25_kernel.Base.{
  ℕ, zero, suc, List, [], ◌∷◌, ◌==◌, ◌>>=◌, not, ◌<◌, ◌≡◌, ◌||◌, true, false, refl, arith, pow2,
  write, Words, done, halt, success,
}
use zju_sys3_sp25_kernel.Mm.{
  Buddy, buddy_alloc, buddy_init, buddy_setup, alloc_pages, free_pages, deref_page, round_pages,
  fixsize, descend, ascend, refresh_at, left_leaf, right_leaf, parent, is_power_of_2, va2pa,
  phys2pfn,
}
use zju_sys3_sp25_kernel.Mm.Block.{
  Block, free, used, split, alloc, position, covered, starts, inside,
}
use zju_sys3_sp25_kernel.Mm.Refine.{Represents}
use zju_sys3_sp25_kernel.Mm.Release.{Dropped, buddy_pfn_decref-Dropped}
use zju_sys3_sp25_kernel.Mm.Service.{
  address, buddy_alloc-exclusive, deref_page-alloc_pages, free_pages-alloc_pages,
}
use zju_sys3_sp25_kernel.Mm.Sizes.{round_pages_lem}
use zju_sys3_sp25_kernel.Mm.Init.{buddy_setup-Represents}
use zju_sys3_sp25_kernel.Mm.Reserve.{first_free, FirstPages, buddy_init_lem}

-- Four pages, all free.
abbrev fresh : Buddy
fresh = buddy_setup (pow2 2)

fresh-Represents : Represents fresh 2 free
fresh-Represents = buddy_setup-Represents 2 (omega arith)

abbrev words : List ℕ → Words
words [] i = 0
words (x ∷ xs) zero = x
words (x ∷ xs) (suc i) = words xs i

-- Four pages, of which the first is handed out, with one reference.
abbrev one_taken : Buddy
one_taken = record {
  bitmap = words (2 ∷ 1 ∷ 2 ∷ 0 ∷ 1 ∷ 1 ∷ 1 ∷ []);
  ref_cnt = words (1 ∷ []);
  size = 4;
}

abbrev one_taken_tree : Block
one_taken_tree = split (split used free) free

one_taken-counted :
    (o : ℕ) → o < pow2 2 → (one_taken.ref_cnt o == 0) ≡ not (starts 2 one_taken_tree o)
unfolding starts
one_taken-counted zero h = refl
one_taken-counted (suc zero) h = refl
one_taken-counted (suc (suc zero)) h = refl
one_taken-counted (suc (suc (suc zero))) h = refl
one_taken-counted (suc (suc (suc (suc o)))) h = absurd (omega arith)

one_taken-Represents : Represents one_taken 2 one_taken_tree
one_taken-Represents = record {
  whole = refl;
  deep = omega arith;
  rep = omega arith;
  counted = one_taken-counted;
}

-- The first page goes out, two pages then come from the other half, and four are too many.
alloc_run : (buddy_alloc 1 fresh >>= (λ r. buddy_alloc 2 r.1 >>= (λ q. done q.0))) ≡ done 2
unfolding buddy_alloc buddy_setup round_pages is_power_of_2 descend ascend refresh_at left_leaf
    right_leaf parent write
alloc_run = refl

alloc_too_many : (buddy_alloc 1 fresh >>= (λ r. buddy_alloc 4 r.1)) ≡ halt
unfolding buddy_alloc buddy_setup round_pages is_power_of_2 descend ascend refresh_at left_leaf
    right_leaf parent write
alloc_too_many = refl

fixsize_five : fixsize 5 ≡ 8
unfolding fixsize
fixsize_five = refl

buddy_alloc-exclusive_example :
    (next : Buddy) × (buddy_alloc 2 one_taken ≡ done (position 2 1 one_taken_tree, next))
    × Represents next 2 (alloc 2 1 one_taken_tree)
    × ((o : ℕ)
        → o < pow2 2
        → (inside (position 2 1 one_taken_tree) (pow2 1) o ≡ true
            → covered 2 one_taken_tree o ≡ false)
          × (covered 2 (alloc 2 1 one_taken_tree) o
              ≡ (covered 2 one_taken_tree o || inside (position 2 1 one_taken_tree) (pow2 1) o)))
buddy_alloc-exclusive_example =
    buddy_alloc-exclusive 2 1 2 one_taken one_taken_tree one_taken-Represents
      (round_pages_lem 0 2 (omega arith) (omega arith) (omega arith)) (omega arith)

buddy_pfn_decref-Dropped_example : Dropped one_taken 2 0 one_taken_tree
unfolding starts
buddy_pfn_decref-Dropped_example =
    buddy_pfn_decref-Dropped one_taken 2 0 one_taken_tree one_taken-Represents (omega arith) refl

deref_page-alloc_pages_example :
    (s1 s2 : Buddy) × (alloc_pages 2 one_taken ≡ done (address (position 2 1 one_taken_tree), s1))
    × (deref_page (address (position 2 1 one_taken_tree)) s1 ≡ done (success, s2))
    × Represents s2 2 one_taken_tree
deref_page-alloc_pages_example =
    deref_page-alloc_pages 2 1 2 one_taken one_taken_tree one_taken-Represents
      (round_pages_lem 0 2 (omega arith) (omega arith) (omega arith)) (omega arith) (omega arith)

buddy_init_lem_example :
    (next : Buddy) × (tree : Block) × (buddy_init 0xffffffe000200000 ≡ done next)
    × Represents next 15 tree
    × FirstPages 15 tree (first_free 0xffffffe000200000)
unfolding va2pa phys2pfn
buddy_init_lem_example = buddy_init_lem 0xffffffe000200000 (omega arith)

free_pages-alloc_pages_example :
    (s1 : Buddy) × (alloc_pages 2 one_taken ≡ done (address (position 2 1 one_taken_tree), s1))
    × (free_pages (address (position 2 1 one_taken_tree)) s1 ≡ done s1)
free_pages-alloc_pages_example =
    free_pages-alloc_pages 2 1 2 one_taken one_taken_tree one_taken-Represents
      (round_pages_lem 0 2 (omega arith) (omega arith) (omega arith)) (omega arith) (omega arith)

buddy_setup-Represents_example : Represents (buddy_setup (pow2 15)) 15 free
buddy_setup-Represents_example = buddy_setup-Represents 15 (omega arith)
