-- ===== src/Signal/Kill.antt =====
-- What a signal does to the set of pending ones, and the zombie that SIGCHLD takes away.
use zju_sys3_sp25_kernel.Base.{
  ℕ, zero, suc, ◌+◌, ◌*◌, ◌/◌, ◌%◌, pow2, ◌^◌, ◌≤◌, ◌<◌, ◌≡◌, ◌≢◌, ◌∙◌, ◌⊎◌, inl, inr, ap, sym,
  subst, refl, arith, bit_or, false, ◌==◌, ltb, leb, eq→==, ne→==, if◌then◌else◌, Option, none,
  some, done, Words, success,
}
use native.Mathlib.Decide.{ℕ_discrete}
use native.Mathlib.Nat.{pow-suc}
use zju_sys3_sp25_kernel.Base.Bits.{bit, bit-zero, bit-bit_or}
use zju_sys3_sp25_kernel.Proc.Sched.{TaskState, running, zombie, interruptible, stopped}
use zju_sys3_sp25_kernel.Signal.{SignalStruct, Process, Kernel, set_task, do_kill, child_loop}

bit_power : (j n : ℕ) → bit j (2 ^ n) ≡ (if j == n then 1 else 0)
bit_power zero zero = refl
bit_power zero (suc n) = let double : 2 ^ suc n ≡ 2 ^ n * 2 = pow-suc 2 n in grind (arith, double)
bit_power (suc j) zero = bit-zero j ∙ ground arith
bit_power (suc j) (suc n) =
    let double : 2 ^ suc n ≡ 2 ^ n * 2 = pow-suc 2 n in
    let half : 2 ^ suc n / 2 ≡ 2 ^ n = omega (arith, double) in
    ap (bit j) half ∙ bit_power j n ∙ ground arith

small_bit : (j x : ℕ) → bit j x ≤ 1
small_bit zero x = omega arith
small_bit (suc j) x = small_bit j (x / 2)

pub bit_same : (sig x : ℕ) → bit sig (bit_or x (2 ^ sig)) ≡ 1
bit_same sig x =
    let one : bit sig (2 ^ sig) ≡ 1 = bit_power sig sig ∙ ground arith in
    omega (arith, bit-bit_or sig x (2 ^ sig), one, small_bit sig x)

bit_other : (sig x j : ℕ) → j ≢ sig → bit j (bit_or x (2 ^ sig)) ≡ bit j x
bit_other sig x j n =
    let none_there : bit j (2 ^ sig) ≡ 0 = bit_power j sig ∙ ground (arith, n) in
    omega (arith, bit-bit_or j x (2 ^ sig), none_there)

-- Only the digits of a word of 32 bits are kept.
bit_low : (n j q r : ℕ) → j < n → bit j (q * pow2 n + r) ≡ bit j r
bit_low zero j q r l = absurd (omega (arith, l))
bit_low (suc n) zero q r l =
    let even : q * pow2 (suc n) ≡ 2 * (q * pow2 n) = grind arith in omega (arith, even)
bit_low (suc n) (suc j) q r l =
    let even : q * pow2 (suc n) ≡ 2 * (q * pow2 n) = grind arith in
    let half : (q * pow2 (suc n) + r) / 2 ≡ q * pow2 n + r / 2 = omega (arith, even) in
    ap (bit j) half ∙ bit_low n j q (r / 2) (omega (arith, l))

pub bit_word : (j x : ℕ) → j < 32 → bit j (x % 2 ^ 32) ≡ bit j x
bit_word j x l =
    let parts : x / 2 ^ 32 * pow2 32 + x % 2 ^ 32 ≡ x = omega arith in
    sym (bit_low 32 j (x / 2 ^ 32) (x % 2 ^ 32) l) ∙ ap (bit j) parts

new_signal : ℕ → SignalStruct → SignalStruct
new_signal sig g = record g { pending = bit_or g.pending (2 ^ sig) % 2 ^ 32 }

plus_front : (n : ℕ) → n ≡ zero + n
plus_front n = omega arith

plus_zero : (i : ℕ) → i + zero ≡ i
plus_zero i = omega arith

plus_next : (i n : ℕ) → i + suc n ≡ i + 1 + n
plus_next i n = omega arith

module _ {S : Type 0} where
  -- The state after a signal: only the pending signals of the process are others, and of the 32 of them only `sig`.
  pub record Killed (pid sig : ℕ) (p : Process) (g : SignalStruct) (k k' : Kernel S) : Type 0 where
    pub signal : SignalStruct
    pub target : k'.task pid ≡ some (record p { signal = some signal })
    pub others : (j : ℕ) → j ≢ pid → k'.task j ≡ k.task j
    pub actions : signal.action ≡ g.action
    pub pends : bit sig signal.pending ≡ 1
    pub keeps : (j : ℕ) → j < 32 → j ≢ sig → bit j signal.pending ≡ bit j g.pending
    pub queue : k'.wait_queue ≡ k.wait_queue
    pub current : k'.current ≡ k.current
    pub num_tasks : k'.num_tasks ≡ k.num_tasks
    pub tables : k'.tables ≡ k.tables

  killed : ℕ → ℕ → Kernel S → Process → SignalStruct → Kernel S
  killed pid sig k p g = set_task pid (some (record p { signal = some (new_signal sig g) })) k

  do_kill-killed :
      (pid sig : ℕ) (k : Kernel S) (p : Process) (g : SignalStruct)
      → pid < 2 ^ 31
      → pid ≤ k.num_tasks
      → k.task pid ≡ some p
      → p.signal ≡ some g
      → do_kill pid sig k ≡ done (success, killed pid sig k p g)
  unfolding do_kill killed new_signal
  do_kill-killed pid sig k p g small within e q =
      let low : leb (2 ^ 31) pid ≡ false = ground (arith, small) in
      let here : ltb k.num_tasks pid ≡ false = ground (arith, within) in rw (low, here, e, q) refl

  task-set_task :
      (i : ℕ) (o : Option Process) (k : Kernel S) (j : ℕ)
      → (set_task i o k).task j ≡ (if j == i then o else k.task j)
  unfolding set_task
  task-set_task i o k j = refl

  killed-Killed :
      (pid sig : ℕ) (k : Kernel S) (p : Process) (g : SignalStruct)
      → sig < 32
      → Killed pid sig p g k (killed pid sig k p g)
  unfolding killed new_signal
  killed-Killed pid sig k p g l = record {
    signal = new_signal sig g;
    target = task-set_task pid _ k pid ∙ ground arith;
    others = λ j n. task-set_task pid _ k j ∙ ground (arith, n);
    actions = refl;
    pends = bit_word sig (bit_or g.pending (2 ^ sig)) l ∙ bit_same sig g.pending;
    keeps = λ j b n. bit_word j (bit_or g.pending (2 ^ sig)) b ∙ bit_other sig g.pending j n;
    queue = unfold set_task in refl;
    current = unfold set_task in refl;
    num_tasks = unfold set_task in refl;
    tables = unfold set_task in refl;
  }

  -- A signal with a number below 32, for a process below the number of tasks, or at it, that has a signal structure: `do_kill` succeeds, the
  -- signal is pending then, and nothing else has changed.
  pub do_kill-Killed :
      (pid sig : ℕ) (k : Kernel S) (p : Process) (g : SignalStruct)
      → pid < 2 ^ 31
      → sig < 32
      → pid ≤ k.num_tasks
      → k.task pid ≡ some p
      → p.signal ≡ some g
      → (k' : Kernel S) × (do_kill pid sig k ≡ done (success, k')) × Killed pid sig p g k k'
  do_kill-Killed pid sig k p g small l within e q = (
    killed pid sig k p g,
    do_kill-killed pid sig k p g small within e q,
    killed-Killed pid sig k p g l,
  )

  pub IsZombie : Kernel S → ℕ → Type 0
  IsZombie k c = (p : Process) × (k.task c ≡ some p) × (p.state ≡ zombie)

  alive :
      (k : Kernel S) (c : ℕ) (p : Process) (st : TaskState)
      → k.task c ≡ some p
      → p.state ≡ st
      → st ≢ zombie
      → IsZombie k c
      → ⊥
  unfolding IsZombie
  alive k c p st e q n (p', e', z) =
      let same : p ≡ p' = cc in n (sym q ∙ ap (λ x. x.state) same ∙ z)

  -- Entry `i` of the children is a zombie, and the search ends, or it is none, and the search goes on.
  At : ℕ → Kernel S → Words → ℕ → Type 0
  At f k cpid i =
      ((child_loop (suc f) k cpid i ≡ done (some (cpid i))) × IsZombie k (cpid i))
      ⊎ ((child_loop (suc f) k cpid i ≡ child_loop f k cpid (i + 1)) × (IsZombie k (cpid i) → ⊥))

  At-none :
      (f : ℕ) (k : Kernel S) (cpid : Words) (i : ℕ)
      → cpid i ≢ 0
      → k.task (cpid i) ≡ none
      → At f k cpid i
  unfolding At child_loop IsZombie
  At-none f k cpid i n e =
      inr (rw (ne→== (cpid i) 0 n, e) refl, λ z. let h : none ≡ some z.0 = sym e ∙ z.1 in cc)

  At-some :
      (f : ℕ) (k : Kernel S) (cpid : Words) (i : ℕ) (p : Process) (st : TaskState)
      → cpid i ≢ 0
      → k.task (cpid i) ≡ some p
      → p.state ≡ st
      → At f k cpid i
  unfolding At child_loop
  At-some f k cpid i p running n e q =
      inr (rw (ne→== (cpid i) 0 n, e, q) refl, alive k (cpid i) p running e q (λ h. cc))
  At-some f k cpid i p zombie n e q =
      inl (rw (ne→== (cpid i) 0 n, e, q) refl, unfold IsZombie in (p, e, q))
  At-some f k cpid i p interruptible n e q =
      inr (rw (ne→== (cpid i) 0 n, e, q) refl, alive k (cpid i) p interruptible e q (λ h. cc))
  At-some f k cpid i p stopped n e q =
      inr (rw (ne→== (cpid i) 0 n, e, q) refl, alive k (cpid i) p stopped e q (λ h. cc))

  At-any :
      (f : ℕ) (k : Kernel S) (cpid : Words) (i : ℕ) (o : Option Process)
      → cpid i ≢ 0
      → k.task (cpid i) ≡ o
      → At f k cpid i
  At-any f k cpid i none n e = At-none f k cpid i n e
  At-any f k cpid i (some p) n e = At-some f k cpid i p p.state n e refl

  -- What the search of the children from `i` on gives.
  pub FirstZombie : Kernel S → Words → ℕ → Option ℕ → Type 0
  FirstZombie k cpid i none =
      (t : ℕ) × (i ≤ t)
      × (cpid t ≡ 0)
      × ((j : ℕ) → i ≤ j → j < t → (cpid j ≢ 0) × (IsZombie k (cpid j) → ⊥))
  FirstZombie k cpid i (some c) =
      (t : ℕ) × (i ≤ t)
      × ((cpid t ≡ c) × IsZombie k c)
      × ((j : ℕ) → i ≤ j → j < t → (cpid j ≢ 0) × (IsZombie k (cpid j) → ⊥))

  before :
      (k : Kernel S) (cpid : Words) (i t : ℕ)
      → cpid i ≢ 0
      → (IsZombie k (cpid i) → ⊥)
      → ((j : ℕ) → i + 1 ≤ j → j < t → (cpid j ≢ 0) × (IsZombie k (cpid j) → ⊥))
      → (j : ℕ) → i ≤ j
      → j < t
      → (cpid j ≢ 0) × (IsZombie k (cpid j) → ⊥)
  before k cpid i t n z rest j l u = elim (ℕ_discrete j i) [
    | yes e ↦ subst (λ x. (cpid x ≢ 0) × (IsZombie k (cpid x) → ⊥)) (sym e) (n, z)
    | no ne ↦ rest j (omega (arith, l, ne)) u
  ]

  FirstZombie-next :
      (k : Kernel S) (cpid : Words) (i : ℕ) (r : Option ℕ)
      → cpid i ≢ 0
      → (IsZombie k (cpid i) → ⊥)
      → FirstZombie k cpid (i + 1) r
      → FirstZombie k cpid i r
  unfolding FirstZombie
  FirstZombie-next k cpid i none n z (t, l, e, h) =
      (t, omega (arith, l), e, before k cpid i t n z h)
  FirstZombie-next k cpid i (some c) n z (t, l, e, h) =
      (t, omega (arith, l), e, before k cpid i t n z h)

  child_loop-over :
      (f : ℕ) (k : Kernel S) (cpid : Words) (i : ℕ)
      → cpid i ≡ 0
      → child_loop (suc f) k cpid i ≡ done none
  unfolding child_loop
  child_loop-over f k cpid i e = rw (eq→== (cpid i) 0 e) refl

  First : ℕ → Kernel S → Words → ℕ → Type 0
  First f k cpid i = (r : Option ℕ) × (child_loop f k cpid i ≡ done r) × FirstZombie k cpid i r

  First-over : (f : ℕ) (k : Kernel S) (cpid : Words) (i : ℕ) → cpid i ≡ 0 → First (suc f) k cpid i
  unfolding First FirstZombie
  First-over f k cpid i e = (
    none,
    child_loop-over f k cpid i e,
    (i, omega arith, e, λ j l u. absurd (omega (arith, l, u))),
  )

  First-At :
      (f : ℕ) (k : Kernel S) (cpid : Words) (i : ℕ)
      → cpid i ≢ 0
      → At f k cpid i
      → First f k cpid (i + 1)
      → First (suc f) k cpid i
  unfolding First FirstZombie At
  First-At f k cpid i n (inl (e, z)) rest =
      (some (cpid i), e, (i, omega arith, (refl, z), λ j l u. absurd (omega (arith, l, u))))
  First-At f k cpid i n (inr (e, z)) (r, q, h) = (r, e ∙ q, FirstZombie-next k cpid i r n z h)

  -- With more rounds than there are children before the 0, the search ends: at the first child that is a zombie, or at
  -- the 0 if none is.
  child_loop-First :
      (n f : ℕ) (k : Kernel S) (cpid : Words) (i : ℕ) → cpid (i + n) ≡ 0 → n < f → First f k cpid i
  child_loop-First n zero k cpid i e l = absurd (omega (arith, l))
  child_loop-First zero (suc f) k cpid i e l =
      First-over f k cpid i (subst (λ x. cpid x ≡ 0) (plus_zero i) e)
  child_loop-First (suc n) (suc f) k cpid i e l = elim (ℕ_discrete (cpid i) 0) [
    | yes z ↦ First-over f k cpid i z
    | no nz ↦ First-At f k cpid i nz (At-any f k cpid i (k.task (cpid i)) nz refl) (
        child_loop-First n f k cpid (i + 1) (subst (λ x. cpid x ≡ 0) (plus_next i n) e)
          (omega (arith, l)))
  ]

  -- With more rounds than there are children before the 0, the search of SIGCHLD ends: at the first child that is a
  -- zombie, or at the 0 if none is.
  pub child_loop-FirstZombie :
      (n f : ℕ) (k : Kernel S) (cpid : Words)
      → cpid n ≡ 0
      → n < f
      → (r : Option ℕ) × (child_loop f k cpid 0 ≡ done r) × FirstZombie k cpid 0 r
  child_loop-FirstZombie n f k cpid e l =
      unfold First in child_loop-First n f k cpid 0 (subst (λ x. cpid x ≡ 0) (plus_front n) e) l
