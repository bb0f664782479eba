-- ===== src/Proc/Sched/Switch.antt =====
-- `schedule` and `do_timer` of arch/riscv/kernel/proc.c: which task runs next.
use zju_sys3_sp25_kernel.Base.{
  ℕ, zero, suc, ◌+◌, ◌-◌, ◌≤◌, ◌<◌, ◌≡◌, ◌≢◌, ◌∙◌, ◌⊎◌, inl, inr, ap, sym, subst, refl, arith, true,
  Option, none, some, ltb, ◌==◌, eq→==, ne→==, if◌then◌else◌, done,
}
use native.Mathlib.Decide.{ℕ_discrete}
use zju_sys3_sp25_kernel.Proc.Sched.{
  Task, Table, put, refill, refill_at, switch_to, get_max_cnt_pid, schedule,
}
use zju_sys3_sp25_kernel.Proc.Sched.Choice.{
  runnable, counter_at, present, IsBest, get_max_cnt_pid-IsBest,
}

abbrev pub priority_at : (ℕ → Option Task) → ℕ → ℕ
priority_at task i = elim (task i) [ none ↦ 0 | some t ↦ t.priority ]

-- The number that the task in slot `i` has, if there is one.
abbrev pub pid_at : (ℕ → Option Task) → ℕ → ℕ
pid_at task i = elim (task i) [ none ↦ i | some t ↦ t.pid ]

-- What `refill` leaves in a slot.
abbrev pub refilled : Option Task → Option Task
refilled none = none
refilled (some t) = some (record t { counter = t.priority })

refill_at_lem :
    (i j : ℕ) (task : ℕ → Option Task)
    → refill_at task i j ≡ (if j == i then refilled (task j) else task j)
unfolding refill_at put
refill_at_lem i j task = elim (ℕ_discrete j i) [
  | yes e ↦ rw (e, eq→== i i refl) (ground arith)
  | no ne ↦ rw (ne→== j i ne) (ground arith)
]

refill_slot :
    (n i j : ℕ) (task : ℕ → Option Task)
    → refill task n i j
      ≡ (if ltb j i then task j else (if ltb j (i + n) then refilled (task j) else task j))
unfolding refill
refill_slot zero i j task = ground arith
refill_slot (suc n) i j task =
    refill_slot n (i + 1) j (refill_at task i) ∙ rw (refill_at_lem i j task) (ground arith)

-- Slot 0 holds the idle task, with no time slice; every task is numbered by its slot, and the
-- current slot holds one.
pub record IsTable (s : Table) : Type 0 where
  pub idle : present s.task 0 ≡ true
  pub idle_counter : counter_at s.task 0 ≡ 0
  pub numbered : (i : ℕ) → pid_at s.task i ≡ i
  pub current_present : present s.task s.current ≡ true
  pub some_tasks : 0 < s.num_tasks

-- `switch_to` makes a slot the current one.
pub record SwitchedTo (m : ℕ) (s : Table) : Type 0 where
  pub next : Table
  pub result : switch_to m s ≡ done next
  pub current : next.current ≡ m
  pub same_tasks : next.task ≡ s.task
  pub same_count : next.num_tasks ≡ s.num_tasks

switch_to_lem : (m : ℕ) (s : Table) → IsTable s → present s.task m ≡ true → SwitchedTo m s
unfolding switch_to
switch_to_lem m s v h = go (s.task s.current) (s.task m) refl refl
  where
    go : (a b : Option Task) → s.task s.current ≡ a → s.task m ≡ b → SwitchedTo m s
    go none b p q = absurd (ground (arith, v.current_present, p))
    go (some c) none p q = absurd (ground (arith, h, q))
    go (some c) (some t) p q =
        let cp : c.pid ≡ s.current = ground (arith, v.numbered s.current, p) in
        let tp : t.pid ≡ m = ground (arith, v.numbered m, q) in
        elim (ℕ_discrete s.current m) [
          | yes e ↦ record {
            next = s;
            result = ground (arith, p, q, cp, tp, e);
            current = e;
            same_tasks = refl;
            same_count = refl;
          }
          | no ne ↦ record {
            next = record s { current = m };
            result = ground (arith, p, q, cp, tp, ne);
            current = refl;
            same_tasks = refl;
            same_count = refl;
          }
        ]

module _ (s : Table) where
  pub all_refilled : ℕ → Option Task
  all_refilled = refill s.task (s.num_tasks - 1) 1

  present-refill : (j : ℕ) → present s.task j ≡ true → present all_refilled j ≡ true
  unfolding all_refilled
  present-refill j h = ground (arith, refill_slot (s.num_tasks - 1) 1 j s.task, h)

  runnable-refill : (j : ℕ) → runnable s.task j ≡ true → runnable all_refilled j ≡ true
  unfolding all_refilled
  runnable-refill j h = ground (arith, refill_slot (s.num_tasks - 1) 1 j s.task, h)

  counter-refill :
      (j : ℕ)
      → 0 < j
      → j < s.num_tasks
      → runnable s.task j ≡ true
      → counter_at all_refilled j ≡ priority_at s.task j
  unfolding all_refilled
  counter-refill j pos lt h = ground (arith, refill_slot (s.num_tasks - 1) 1 j s.task, h)

  refill-IsTable : IsTable s → IsTable (record s { task = all_refilled })
  unfolding all_refilled
  refill-IsTable v = record {
    idle = present-refill 0 v.idle;
    idle_counter = ground (arith, refill_slot (s.num_tasks - 1) 1 0 s.task, v.idle_counter);
    numbered = λ i. ground (arith, refill_slot (s.num_tasks - 1) 1 i s.task, v.numbered i);
    current_present = present-refill s.current v.current_present;
    some_tasks = v.some_tasks;
  }

-- The time slices are as before, or refilled because no runnable task had any left.
abbrev pub Slices : Table → Table → Type 0
Slices s next =
    ((next.current ≢ 0) × (next.task ≡ s.task))
    ⊎ ((next.task ≡ all_refilled s)
        × ((j : ℕ) → 0 < j → j < s.num_tasks → runnable s.task j ≡ true → counter_at s.task j ≡ 0))

-- What `schedule` has done: the next task is the best of the table that it leaves.
pub record Scheduled (s : Table) : Type 0 where
  pub next : Table
  pub result : schedule s ≡ done next
  pub best : IsBest next.task s.num_tasks next.current
  pub same_count : next.num_tasks ≡ s.num_tasks
  pub slices : Slices s next

module _ (s : Table) (v : IsTable s) where
  schedule_at :
      (m : ℕ) → m ≢ 0 → get_max_cnt_pid s ≡ done m → IsBest s.task s.num_tasks m → Scheduled s
  unfolding schedule
  schedule_at m ne q b = record {
    next = w.next;
    result = rw (q, ne→== m 0 ne) w.result;
    best = rw (w.current, w.same_tasks) b;
    same_count = w.same_count;
    slices = inl ((λ z. ne (sym w.current ∙ z)), w.same_tasks);
  }
    where
      w : SwitchedTo m s
      w = switch_to_lem m s v b.exists

  schedule_refilled :
      (m : ℕ)
      → get_max_cnt_pid s ≡ done 0
      → IsBest s.task s.num_tasks 0
      → get_max_cnt_pid (record s { task = all_refilled s }) ≡ done m
      → IsBest (all_refilled s) s.num_tasks m
      → Scheduled s
  unfolding schedule all_refilled
  schedule_refilled m q none_left q' b = record {
    next = w.next;
    result = rw (q, q') w.result;
    best = rw (w.current, w.same_tasks) b;
    same_count = w.same_count;
    slices = inr (
      w.same_tasks,
      λ j pos lt run. omega (arith, none_left.largest j pos lt run, v.idle_counter),
    );
  }
    where
      w : SwitchedTo m (record s { task = all_refilled s })
      w = switch_to_lem m (record s { task = all_refilled s }) (refill-IsTable s v) b.exists

  -- `schedule` returns on every well-formed table, with the best task of the table it leaves.
  pub schedule-Scheduled : Scheduled s
  schedule-Scheduled =
      let (m, q, b) = get_max_cnt_pid-IsBest s v.idle v.some_tasks in
      let (m', q', b') =
        get_max_cnt_pid-IsBest (record s { task = all_refilled s }) (refill-IsTable s v).idle
          v.some_tasks in
      elim (ℕ_discrete m 0) [
        | yes e ↦ schedule_refilled m' (rw e at q) (subst (IsBest s.task s.num_tasks) e b) q' b'
        | no ne ↦ schedule_at m ne q b
      ]

  -- If some runnable task has a time slice left, or a priority, then `schedule` picks a runnable
  -- task with a time slice, and none with a longer one is passed over.
  pub schedule-runs :
      (j : ℕ)
      → 0 < j
      → j < s.num_tasks
      → runnable s.task j ≡ true
      → 0 < counter_at s.task j + priority_at s.task j
      → (next : Table) × (schedule s ≡ done next)
        × (0 < next.current)
        × (next.current < s.num_tasks)
        × (runnable next.task next.current ≡ true)
        × (0 < counter_at next.task next.current)
        × (counter_at next.task j ≤ counter_at next.task next.current)
  schedule-runs j pos lt run left = (
    w.next,
    w.result,
    omega (arith, some_task),
    (w.best.picked some_task).0,
    (w.best.picked some_task).1,
    has_slice,
    w.best.largest j pos lt (run_next w.slices),
  )
    where
      w : Scheduled s
      w = schedule-Scheduled

      run_next : Slices s w.next → runnable w.next.task j ≡ true
      run_next (inl (ne, e)) = rw e run
      run_next (inr (e, z)) = rw e (runnable-refill s j run)

      some_task_of : Slices s w.next → w.next.current ≢ 0
      some_task_of (inl (ne, e)) zero_current = ne zero_current
      some_task_of (inr (e, z)) zero_current = omega (
        arith,
        w.best.largest j pos lt (run_next (inr (e, z))),
        ap (λ x. counter_at w.next.task x) zero_current,
        ap (λ x. counter_at x 0) e,
        ap (λ x. counter_at x j) e,
        (refill-IsTable s v).idle_counter,
        counter-refill s j pos lt run,
        z j pos lt run,
        left,
      )

      some_task : w.next.current ≢ 0
      some_task = some_task_of w.slices

      has_slice : 0 < counter_at w.next.task w.next.current
      has_slice = omega (arith, w.best.above_idle some_task)
