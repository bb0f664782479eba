-- ===== src/Proc/Sched/Slots.antt =====
-- `get_avail_task_id` of arch/riscv/kernel/proc.c: the slot for a new task.
use zju_sys3_sp25_kernel.Base.{
  ℕ, zero, suc, ◌+◌, ◌-◌, ◌^◌, ◌≤◌, ◌<◌, ◌≡◌, ◌⊎◌, inl, inr, ap, sym, subst, Bool-cases,
  if◌then◌else◌, refl, arith, true, false, Option, none, some, w64,
}
use native.Mathlib.Decide.{ℕ_discrete}
use zju_sys3_sp25_kernel.Proc.Sched.{Task, Table, find_slot, get_avail_task_id}
use zju_sys3_sp25_kernel.Proc.Sched.Choice.{present}

-- The outcome of the search among the slots from `i` on, `n` of them.
abbrev Found : (ℕ → Option Task) → ℕ → ℕ → Option ℕ → Type 0
Found task n i (some r) =
    (i ≤ r)
    × (r < i + n)
    × (present task r ≡ false)
    × ((j : ℕ) → i ≤ j → j < r → present task j ≡ true)
Found task n i none = (j : ℕ) → i ≤ j → j < i + n → present task j ≡ true

find_slot-step :
    (task : ℕ → Option Task) (n i : ℕ)
    → find_slot task (suc n) i ≡ (if present task i then find_slot task n (i + 1) else some i)
unfolding find_slot
find_slot-step task n i = ground arith

Found-next :
    (task : ℕ → Option Task) (n i : ℕ) (o : Option ℕ)
    → present task i ≡ true
    → Found task n (i + 1) o
    → Found task (suc n) i o
Found-next task n i none h f = λ j a b. elim (ℕ_discrete j i) [
  | yes e ↦ subst (λ x. present task x ≡ true) (sym e) h
  | no ne ↦ f j (omega (arith, ne)) (omega arith)
]
Found-next task n i (some r) h f = (
  omega (arith, f.0),
  omega (arith, f.1),
  f.2,
  λ j a b. elim (ℕ_discrete j i) [
    | yes e ↦ subst (λ x. present task x ≡ true) (sym e) h
    | no ne ↦ f.3 j (omega (arith, ne)) b
  ],
)

find_slot-Found : (task : ℕ → Option Task) (n i : ℕ) → Found task n i (find_slot task n i)
find_slot-Found task zero i = unfold find_slot in λ j a b. absurd (omega arith)
find_slot-Found task (suc n) i = elim (Bool-cases (present task i)) [
  | inl h ↦
      rw (find_slot-step task n i, h)
        (Found-next task n i (find_slot task n (i + 1)) h (find_slot-Found task n (i + 1)))
  | inr h ↦
      rw (find_slot-step task n i, h) (omega arith, omega arith, h, λ j a b. absurd (omega arith))
]

-- `get_avail_task_id` returns the first free slot below the number of tasks and changes nothing, or,
-- if all of them hold a task, the number of tasks, which it increments.
pub get_avail_task_id_lem :
    (s : Table)
    → 0 < s.num_tasks
    → s.num_tasks + 1 < 2 ^ 64
    → let (r, next) = get_avail_task_id s in
      ((0 < r)
        × (r < s.num_tasks)
        × (present s.task r ≡ false)
        × ((j : ℕ) → 0 < j → j < r → present s.task j ≡ true)
        × (next ≡ s))
      ⊎ ((r ≡ s.num_tasks)
          × ((j : ℕ) → 0 < j → j < s.num_tasks → present s.task j ≡ true)
          × (next ≡ record s { num_tasks = s.num_tasks + 1 }))
unfolding get_avail_task_id
get_avail_task_id_lem s pos fit =
    go (find_slot s.task (s.num_tasks - 1) 1) refl (find_slot-Found s.task (s.num_tasks - 1) 1)
  where
    go :
        (o : Option ℕ)
        → find_slot s.task (s.num_tasks - 1) 1 ≡ o
        → Found s.task (s.num_tasks - 1) 1 o
        → let (r, next) = get_avail_task_id s in
          ((0 < r)
            × (r < s.num_tasks)
            × (present s.task r ≡ false)
            × ((j : ℕ) → 0 < j → j < r → present s.task j ≡ true)
            × (next ≡ s))
          ⊎ ((r ≡ s.num_tasks)
              × ((j : ℕ) → 0 < j → j < s.num_tasks → present s.task j ≡ true)
              × (next ≡ record s { num_tasks = s.num_tasks + 1 }))
    go (some r) e f =
        rw (e, get_avail_task_id)
          (inl (omega (arith, f.0), omega (arith, f.1), f.2, λ j a b. f.3 j a b, refl))
    go none e f =
        let plain : w64 (s.num_tasks + 1) ≡ s.num_tasks + 1 = omega arith in
        rw (e, get_avail_task_id)
          (inr (refl, λ j a b. f j a (omega arith), ap (λ x. record s { num_tasks = x }) plain))
