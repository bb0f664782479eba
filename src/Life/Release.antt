-- ===== src/Life/Release.antt =====
-- The loop of `do_exit` in arch/riscv/kernel/proc.c that unmaps and removes the areas of the process.
use zju_sys3_sp25_kernel.Base.{
  ℕ, zero, suc, ◌+◌, ◌-◌, ◌*◌, ◌^◌, ◌≤◌, ◌<◌, ◌≡◌, ◌≢◌, ◌∙◌, sym, subst, refl, ap, arith, Bool,
  true, false, ◌||◌, ◌==◌, eq→==, ne→==, if◌then◌else◌, w64, List, [], ◌∷◌, none, Run, done,
}
use zju_sys3_sp25_kernel.Proc.Vma.{Vma, Slots, MmStruct, remove_vma}
use zju_sys3_sp25_kernel.Proc.Vma.Chain.{has, length, IsMm}
use zju_sys3_sp25_kernel.Proc.Vma.Mmap.{has-ne}
use zju_sys3_sp25_kernel.Proc.Vma.Remove.{
  without-here, IsMm-remove_vma, kept_start, kept_end, kept_head,
}
use zju_sys3_sp25_kernel.Vm.{Pages, Tables, remove_mapping, walk_page_table}
use zju_sys3_sp25_kernel.Vm.Shape.{Place, Shape}
use zju_sys3_sp25_kernel.Vm.Rounds.{Written}
use zju_sys3_sp25_kernel.Vm.Map.{number, page_of, last_of}
use zju_sys3_sp25_kernel.Vm.Unmap.{
  Tracks, numbered, cleared, in_range, remove_mapping-Written, walk_page_table-Written,
}
use zju_sys3_sp25_kernel.Life.{release_loop}

abbrev pub extent : Vma → ℕ
extent v = w64 (v.vm_end + 2 ^ 64 - v.vm_start)

-- Each area of the list is a range of addresses in the user half.
abbrev pub Ordered : Slots → List ℕ → Type 0
Ordered s [] = Unit
Ordered s (q ∷ qs) =
    (number (page_of (s q).vm_start) ≤ number (last_of (s q).vm_start (extent (s q))))
    × (number (last_of (s q).vm_start (extent (s q))) < 2 ^ 26)
    × Ordered s qs

-- Pages enough for the unmapping of the areas.
abbrev pub cost : Slots → List ℕ → ℕ
cost s [] = 0
cost s (q ∷ qs) =
    513 * ((last_of (s q).vm_start (extent (s q))).v2 + 1 - (page_of (s q).vm_start).v2) + cost s qs

-- Is the address on a page of one of the areas?
abbrev pub covered : Slots → List ℕ → ℕ → Bool
covered s [] a = false
covered s (q ∷ qs) a = in_range (s q).vm_start (extent (s q)) a || covered s qs a

abbrev SameAreas : Slots → Slots → List ℕ → Type 0
SameAreas s s' ps =
    (x : ℕ) → has x ps ≡ true → ((s' x).vm_start ≡ (s x).vm_start) × ((s' x).vm_end ≡ (s x).vm_end)

SameAreas-tail : (s s' : Slots) (q : ℕ) (qs : List ℕ) → SameAreas s s' (q ∷ qs) → SameAreas s s' qs
SameAreas-tail s s' q qs same x h = same x (ground (arith, h))

Ordered-same : (s s' : Slots) (ps : List ℕ) → SameAreas s s' ps → Ordered s ps → Ordered s' ps
Ordered-same s s' [] same o = o
Ordered-same s s' (q ∷ qs) same o =
    let h : ((s' q).vm_start ≡ (s q).vm_start) × ((s' q).vm_end ≡ (s q).vm_end) =
      same q (ground arith) in
    (rw (h.0, h.1) o.0, rw (h.0, h.1) o.1, Ordered-same s s' qs (SameAreas-tail s s' q qs same) o.2)

cost-same : (s s' : Slots) (ps : List ℕ) → SameAreas s s' ps → cost s' ps ≡ cost s ps
cost-same s s' [] same = refl
cost-same s s' (q ∷ qs) same =
    let h : ((s' q).vm_start ≡ (s q).vm_start) × ((s' q).vm_end ≡ (s q).vm_end) =
      same q (ground arith) in
    rw (h.0, h.1, cost-same s s' qs (SameAreas-tail s s' q qs same)) refl

covered-same :
    (s s' : Slots) (ps : List ℕ) (a : ℕ) → SameAreas s s' ps → covered s' ps a ≡ covered s ps a
covered-same s s' [] a same = refl
covered-same s s' (q ∷ qs) a same =
    let h : ((s' q).vm_start ≡ (s q).vm_start) × ((s' q).vm_end ≡ (s q).vm_end) =
      same q (ground arith) in
    rw (h.0, h.1, covered-same s s' qs a (SameAreas-tail s s' q qs same)) refl

either :
    {A : Type 0} (b c : Bool) (x : A) (y : A)
    → (if c then x else (if b then x else y)) ≡ (if b || c then x else y)
either true true x y = refl
either true false x y = refl
either false true x y = refl
either false false x y = refl

module _ {S : Type 0} (ops : Pages S) where
  release_loop-step :
      (f pgd : ℕ) (mm : MmStruct) (vma : ℕ) (t t' : Tables S)
      → vma ≢ 0
      → remove_mapping ops pgd (mm.slot vma).vm_start (extent (mm.slot vma)) t ≡ done t'
      → release_loop (suc f) ops pgd mm vma t
        ≡ release_loop f ops pgd (remove_vma mm vma) (mm.slot vma).vm_next t'
  unfolding release_loop
  release_loop-step f pgd mm vma t t' n e = rw (ne→== vma 0 n, e) refl

  release_loop-over :
      (f pgd : ℕ) (mm : MmStruct) (vma : ℕ) (t : Tables S)
      → vma ≡ 0
      → release_loop (suc f) ops pgd mm vma t ≡ done (mm, t)
  unfolding release_loop
  release_loop-over f pgd mm vma t e = rw (eq→== vma 0 e) refl

module _ {S : Type 0} (ops : Pages S) (H : (ℕ → ℕ) → ℕ → S → (ℕ → ℕ) → Type 0) where
  -- The loop has ended with an empty list; no address of the areas `ps` is translated, and every other one as before;
  -- the tables are a tree, and the allocator knows its entries and has `n` pages.
  pub record Released (pgd n : ℕ) (s : Slots) (ps : List ℕ) (t : Tables S)
      (r : Run (MmStruct × Tables S)) : Type 0 where
    pub mm : MmStruct
    pub tables : Tables S
    pub ran : r ≡ done (mm, tables)
    pub gone : mm.mmap ≡ 0
    pub at : ℕ → Place
    pub shape : Shape tables.mem pgd at
    pub supply : H (numbered tables.mem pgd) n tables.pages (λ q. (at q).level)
    pub walks :
        (a : ℕ)
        → walk_page_table tables.mem pgd a
          ≡ (if covered s ps a then none else walk_page_table t.mem pgd a)

  module _ (tr : Tracks ops H) where
    kept-SameAreas :
        (mm : MmStruct) (q : ℕ) (qs fs : List ℕ)
        → IsMm mm (q ∷ qs) fs
        → SameAreas mm.slot (remove_vma mm q).slot qs
    kept-SameAreas mm q qs fs w x h =
        let on : has q (q ∷ qs) ≡ true = ground arith in
        let ne : x ≢ q = has-ne x q qs h w.areas.3 in
        (kept_start mm q (q ∷ qs) fs w on x ne, kept_end mm q (q ∷ qs) fs w on x ne)

    IsMm-rest :
        (mm : MmStruct) (q : ℕ) (qs fs : List ℕ)
        → IsMm mm (q ∷ qs) fs
        → IsMm (remove_vma mm q) qs (q ∷ fs)
    IsMm-rest mm q qs fs w =
        subst (λ ys. IsMm (remove_vma mm q) ys (q ∷ fs)) (without-here q q qs refl)
          (IsMm-remove_vma mm q (q ∷ qs) fs w (ground arith))

    next_first :
        (mm : MmStruct) (q : ℕ) (qs fs : List ℕ)
        → IsMm mm (q ∷ qs) fs
        → (mm.slot q).vm_next ≡ (remove_vma mm q).mmap
    next_first mm q qs fs w =
        let first : q ≡ mm.mmap = sym w.areas.0 in
        let head : (if q == mm.mmap then (mm.slot q).vm_next else mm.mmap)
            ≡ (remove_vma mm q).mmap =
          kept_head mm q (q ∷ qs) fs w (ground arith) in
        ground (arith, first, head)

    pub release_loop-Released :
        (f pgd n : ℕ) (mm : MmStruct) (ps fs : List ℕ) (t : Tables S) (at : ℕ → Place)
        → length ps < f
        → IsMm mm ps fs
        → Ordered mm.slot ps
        → Shape t.mem pgd at
        → H (numbered t.mem pgd) (cost mm.slot ps + n) t.pages (λ q. (at q).level)
        → Released pgd n mm.slot ps t (release_loop f ops pgd mm mm.mmap t)
    release_loop-Released zero pgd n mm ps fs t at l w o sh give = absurd (omega (arith, l))
    release_loop-Released (suc f) pgd n mm [] fs t at l w o sh give = record {
      mm = mm;
      tables = t;
      ran = release_loop-over ops f pgd mm mm.mmap t w.areas;
      gone = w.areas;
      at = at;
      shape = sh;
      supply =
          (tr.supply (numbered t.mem pgd)).weaken (0 + n) n t.pages (λ q. (at q).level)
            (omega arith) give;
      walks = λ a. refl;
    }
    release_loop-Released (suc f) pgd n mm (q ∷ qs) fs t at l w o sh give =
        let v : Vma = mm.slot q in
        let rows : ℕ = 513 * ((last_of v.vm_start (extent v)).v2 + 1 - (page_of v.vm_start).v2) in
        let left : ℕ = cost mm.slot qs + n in
        let same : SameAreas mm.slot (remove_vma mm q).slot qs = kept-SameAreas mm q qs fs w in
        let r : (t' : Tables S) × (remove_mapping ops pgd v.vm_start (extent v) t ≡ done t')
            × Written (H (numbered t'.mem pgd)) pgd cleared (page_of v.vm_start)
                (last_of v.vm_start (extent v)) left t t' =
          remove_mapping-Written ops H tr pgd v.vm_start (extent v) left t at sh
            ((tr.supply (numbered t.mem pgd)).weaken (rows + cost mm.slot qs + n) (rows + left)
              t.pages (λ x. (at x).level) (omega arith) give)
            o.0 o.1 in
        let rest : Released pgd n (remove_vma mm q).slot qs r.0
            (release_loop f ops pgd (remove_vma mm q) (remove_vma mm q).mmap r.0) =
          release_loop-Released f pgd n (remove_vma mm q) qs (q ∷ fs) r.0 r.2.at (omega (arith, l))
            (IsMm-rest mm q qs fs w) (Ordered-same mm.slot (remove_vma mm q).slot qs same o.2)
            r.2.shape
            (subst (λ c. H (numbered r.0.mem pgd) (c + n) r.0.pages (λ x. (r.2.at x).level))
              (sym (cost-same mm.slot (remove_vma mm q).slot qs same)) r.2.supply) in
        record {
          mm = rest.mm;
          tables = rest.tables;
          ran =
              ap (λ p. release_loop (suc f) ops pgd mm p t) w.areas.0
              ∙ release_loop-step ops f pgd mm q t r.0 w.areas.1 r.1
              ∙ ap (λ p. release_loop f ops pgd (remove_vma mm q) p r.0) (next_first mm q qs fs w)
              ∙ rest.ran;
          gone = rest.gone;
          at = rest.at;
          shape = rest.shape;
          supply = rest.supply;
          walks = λ a.
              rest.walks a
              ∙ rw
                  (
                    covered-same mm.slot (remove_vma mm q).slot qs a same,
                    walk_page_table-Written ops H (H (numbered r.0.mem pgd)) pgd v.vm_start
                        (extent v) left a t r.0 r.2,
                  )
                  (either (in_range v.vm_start (extent v) a) (covered mm.slot qs a) none
                    (walk_page_table t.mem pgd a));
        }
