-- ===== src/Signal/Tests.antt =====
-- A process with two children, the second a zombie, and the theorems at it.
use zju_sys3_sp25_kernel.Base.{
  ℕ, ◌==◌, ◌≡◌, refl, arith, false, if◌then◌else◌, Option, none, some, done, Words, success,
}
use zju_sys3_sp25_kernel.Proc.Sched.{TaskState, running, zombie}
use zju_sys3_sp25_kernel.Signal.{Action, SignalStruct, Process, Kernel, do_kill, child_loop}
use zju_sys3_sp25_kernel.Signal.Kill.{Killed, do_kill-Killed, FirstZombie, child_loop-FirstZombie}

abbrev nothing : Action
nothing = record { handle_type = 0; k_handler = none; u_handler = false; u_ext_handler = false }

abbrev quiet : SignalStruct
quiet = record { self = 8192; pending = 4; action = λ i. nothing }

abbrev children : Words
children i = if i == 0 then 2 else (if i == 1 then 3 else 0)

abbrev process : ℕ → TaskState → Process
process pid state = record {
  self = 4096;
  pid = pid;
  fpid = 0;
  cpid = some (12288, children);
  child_cnt = 2;
  state = state;
  priority = 0;
  counter = 0;
  exit_code = 0;
  pgd = 0;
  mm = none;
  files = none;
  signal = some quiet;
}

abbrev family : Kernel ℕ
family = record {
  task = λ j. if j == 3 then some (process 3 zombie) else some (process j running);
  current = 1;
  num_tasks = 4;
  wait_queue = λ j. record { valid = 0; mask = 0 };
  tables = record { mem = λ p i. 0; pages = 0 };
}

do_kill-Killed_example :
    (k' : Kernel ℕ) × (do_kill 2 17 family ≡ done (success, k'))
    × Killed 2 17 (process 2 running) quiet family k'
do_kill-Killed_example =
    do_kill-Killed 2 17 family (process 2 running) quiet (omega arith) (omega arith) (omega arith)
      refl refl

child_loop-FirstZombie_example :
    (r : Option ℕ) × (child_loop 3 family children 0 ≡ done r) × FirstZombie family children 0 r
child_loop-FirstZombie_example = child_loop-FirstZombie 2 3 family children refl (omega arith)
