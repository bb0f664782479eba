-- ===== src/Proc/Sched.antt =====
-- The scheduler of arch/riscv/kernel/proc.c: the choice of the next task, the refill of the time
-- slices, the timer tick, and the search for a free slot of the task table.
mod Choice
mod Switch
mod Slots
mod Tests
use zju_sys3_sp25_kernel.Base.{
  ℕ, zero, suc, ◌+◌, ◌-◌, ◌^◌, Bool, true, false, Option, none, some, ltb, ◌==◌, not, if◌then◌else◌,
  w64, Run, done, fault, ◌>>=◌,
}

-- `TASK_RUNNING` and its siblings.
pub data TaskState : Type 0 where
  running zombie interruptible stopped : TaskState

-- The fields of `struct task_struct` that the scheduler reads and writes.
pub record Task : Type 0 where
  pub pid : ℕ
  pub state : TaskState
  pub priority : ℕ
  pub counter : ℕ

-- `task`, `current` (by its slot) and `num_tasks`.
pub record Table : Type 0 where
  pub task : ℕ → Option Task
  pub current : ℕ
  pub num_tasks : ℕ

abbrev pub is_running : TaskState → Bool
is_running running = true
is_running zombie = false
is_running interruptible = false
is_running stopped = false

-- `task[i] = p`
pub put : (ℕ → Option Task) → ℕ → Task → ℕ → Option Task
put task i t j = if j == i then some t else task j

-- One round of the search: is the task a better choice than the one at hand?
pub better : (ℕ → Option Task) → ℕ → ℕ → Run Bool
better task i best = elim (task i) [
  | none ↦ done false
  | some t ↦
      if not (is_running t.state)
      then done false
      else elim (task best) [ none ↦ fault | some b ↦ done (ltb b.counter t.counter) ]
]

pub max_loop : (ℕ → Option Task) → ℕ → ℕ → ℕ → Run ℕ
max_loop task zero i best = done best
max_loop task (suc n) i best =
    better task i best >>= (λ c. max_loop task n (i + 1) (if c then i else best))

pub get_max_cnt_pid : Table → Run ℕ
unfolding max_loop better
get_max_cnt_pid s = max_loop s.task (s.num_tasks - 1) 1 0

-- `if (task[i] != NULL) task[i]->counter = task[i]->priority;`
pub refill_at : (ℕ → Option Task) → ℕ → ℕ → Option Task
refill_at task i = elim (task i) [
  | none ↦ task
  | some t ↦ put task i (record t { counter = t.priority })
]

-- The refill of all time slices, from slot `i` on.
pub refill : (ℕ → Option Task) → ℕ → ℕ → ℕ → Option Task
refill task zero i = task
refill task (suc n) i = refill (refill_at task i) n (i + 1)

-- `next` is the slot of the task; `__switch_to` saves and loads registers.
pub switch_to : ℕ → Table → Run Table
switch_to next s = elim (s.task s.current) [
  | none ↦ fault
  | some c ↦ elim (s.task next) [
    | none ↦ fault
    | some t ↦ if not (c.pid == t.pid) then done (record s { current = next }) else done s
  ]
]

pub schedule : Table → Run Table
unfolding get_max_cnt_pid refill
schedule s = get_max_cnt_pid s >>= (λ m.
    let s' = record s { task = refill s.task (s.num_tasks - 1) 1 } in
    if m == 0 then get_max_cnt_pid s' >>= (λ m'. switch_to m' s') else switch_to m s)

pub do_timer : Table → Run Table
do_timer s = elim (s.task s.current) [
  | none ↦ fault
  | some c ↦
      let s' = record s { task = put s.task s.current (record c { counter = c.counter - 1 }) } in
      if c.counter == 0 then schedule s else (if c.counter - 1 == 0 then schedule s' else done s')
]

-- The first free slot from `i` on, or the number of tasks.
pub find_slot : (ℕ → Option Task) → ℕ → ℕ → Option ℕ
find_slot task zero i = none
find_slot task (suc n) i = elim (task i) [ none ↦ some i | some t ↦ find_slot task n (i + 1) ]

pub get_avail_task_id : Table → ℕ × Table
unfolding find_slot
get_avail_task_id s = elim (find_slot s.task (s.num_tasks - 1) 1) [
  | some i ↦ (i, s)
  | none ↦ (s.num_tasks, record s { num_tasks = w64 (s.num_tasks + 1) })
]
