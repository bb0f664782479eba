-- ===== src/Proc/Sched/Tests.antt =====
-- Runs of the scheduler on three tasks, and the theorems at this table.
use zju_sys3_sp25_kernel.Base.{
  ℕ, zero, suc, ◌≤◌, ◌<◌, ◌≡◌, refl, arith, true, Option, none, some, done, ◌>>=◌,
}
use zju_sys3_sp25_kernel.Proc.Sched.{
  TaskState, running, stopped, Task, Table, schedule, do_timer, get_avail_task_id, refill_at, put,
  switch_to,
}
use zju_sys3_sp25_kernel.Proc.Sched.Choice.{runnable, counter_at}
use zju_sys3_sp25_kernel.Proc.Sched.Switch.{
  IsTable, Scheduled, schedule-Scheduled, schedule-runs, pid_at,
}

abbrev make : ℕ → TaskState → ℕ → ℕ → Task
make pid state priority counter = record {
  pid = pid;
  state = state;
  priority = priority;
  counter = counter;
}

abbrev slots : ℕ → Option Task
slots zero = some (make 0 running 0 0)
slots (suc zero) = some (make 1 running 4 0)
slots (suc (suc zero)) = some (make 2 stopped 9 0)
slots (suc (suc (suc zero))) = none
slots (suc (suc (suc (suc n)))) = none

abbrev table : Table
table = record { task = slots; current = 0; num_tasks = 3 }

slots-numbered : (i : ℕ) → pid_at slots i ≡ i
slots-numbered zero = refl
slots-numbered (suc zero) = refl
slots-numbered (suc (suc zero)) = refl
slots-numbered (suc (suc (suc zero))) = refl
slots-numbered (suc (suc (suc (suc n)))) = refl

table-IsTable : IsTable table
table-IsTable = record {
  idle = refl;
  idle_counter = refl;
  numbered = slots-numbered;
  current_present = refl;
  some_tasks = omega arith;
}

-- No time slice is left: they are refilled, and the only runnable task is picked.
timer_run : (do_timer table >>= (λ s. done s.current)) ≡ done 1
unfolding do_timer schedule switch_to put refill_at
timer_run = refl

slot_run : (get_avail_task_id table).0 ≡ 3
unfolding get_avail_task_id
slot_run = refl

schedule-Scheduled_example : Scheduled table
schedule-Scheduled_example = schedule-Scheduled table table-IsTable

schedule-runs_example :
    (next : Table) × (schedule table ≡ done next)
    × (0 < next.current)
    × (next.current < 3)
    × (runnable next.task next.current ≡ true)
    × (0 < counter_at next.task next.current)
    × (counter_at next.task 1 ≤ counter_at next.task next.current)
schedule-runs_example =
    schedule-runs table table-IsTable 1 (omega arith) (omega arith) refl (omega arith)
