-- ===== src/Life/Tests.antt =====
-- A process with one area and one child, whose parent waits for it, and the theorems at it.
use zju_sys3_sp25_kernel.Base.{
  ℕ, ◌+◌, ◌≡◌, refl, subst, arith, true, false, Bool-cases, inl, inr, ◌==◌, if◌then◌else◌, [],
  Option, none, some, done, fault, Words,
}
use zju_sys3_sp25_kernel.Base.Bits.{bit}
use zju_sys3_sp25_kernel.Fs.{File, Files, null}
use zju_sys3_sp25_kernel.Proc.Sched.{TaskState, running, interruptible}
use zju_sys3_sp25_kernel.Proc.Vma.{MmStruct, Area, zero_vma}
use zju_sys3_sp25_kernel.Proc.Vma.First.{do_mmap-IsMm}
use zju_sys3_sp25_kernel.Vm.Sample.{page, bump, delete_mapping-bump, empty}
use zju_sys3_sp25_kernel.Vm.Recycle.{Heap, shared}
use zju_sys3_sp25_kernel.Signal.{Action, SignalStruct, Process, Kernel}
use zju_sys3_sp25_kernel.Vm.{clear, Tables}
use zju_sys3_sp25_kernel.Signal.{reap}
use zju_sys3_sp25_kernel.Life.Reaped.{reap-adopt_loop}
use zju_sys3_sp25_kernel.Life.Wait.{Asleep, meanwhile, sleep-notify}
use zju_sys3_sp25_kernel.Life.{sleep, adopt_loop, notify}
use zju_sys3_sp25_kernel.Life.Adopt.{Adoptable}

abbrev area : Area
area = record { start = 0x2000; len = 0x2000; flags = 3; file = 0; pgoff = 0; filesz = 0 }

abbrev new_mm : MmStruct
new_mm = record { self = page 64; mmap = 0; num_vmas = 0; free_vma_list = 0; slot = λ _. zero_vma }

abbrev areas : MmStruct
areas = (do_mmap-IsMm new_mm area refl refl).0

abbrev no_action : Action
no_action = record { handle_type = 0; k_handler = none; u_handler = false; u_ext_handler = false }

abbrev quiet : SignalStruct
quiet = record { self = page 65; pending = 0; action = λ i. no_action }

abbrev closed : File
closed = record {
  opened = 0;
  perms = 0;
  cfo = 0;
  fs_type = 0;
  flags = 0;
  fat32_file = record { cluster = 0; dir_cluster = 0; dir_index = 0 };
  lseek = null;
  write_to = null;
  read_from = null;
  path = [];
}

abbrev files : Files
files i = closed

abbrev process : ℕ → ℕ → TaskState → Words → ℕ → Option MmStruct → Process
process pid fpid state ch cnt mm = record {
  self = page (66 + pid);
  pid = pid;
  fpid = fpid;
  cpid = some (page (70 + pid), ch);
  child_cnt = cnt;
  state = state;
  priority = 1;
  counter = 1;
  exit_code = 0;
  pgd = page 0;
  mm = mm;
  files = some (page 80, files);
  signal = some quiet;
}

abbrev first_children : Words
first_children i = if i == 0 then 2 else 0

abbrev own_children : Words
own_children i = if i == 0 then 3 else 0

abbrev init : Process
init = process 1 0 interruptible first_children 1 none

abbrev leaver : Process
leaver = process 2 1 running own_children 1 (some areas)

abbrev baby : Process
baby = process 3 2 running (λ i. 0) 0 none

-- Process 2 runs, and process 1 waits for it.
abbrev world_with : {S : Type 0} → Tables S → Kernel S
world_with t = record {
  task = λ j.
      if j == 1
      then some init
      else (if j == 2 then some leaver else (if j == 3 then some baby else none));
  current = 2;
  num_tasks = 4;
  wait_queue =
      λ j. if j == 1 then record { valid = 1; mask = 4 } else record { valid = 0; mask = 0 };
  tables = t;
}

abbrev world : Kernel ℕ
world = world_with empty

abbrev shared_world : Kernel Heap
shared_world = world_with shared

three : (j : ℕ) → (j == 3) ≡ true → 3 ≡ j
three j e = ground (arith, e)

world-Adoptable :
    {S : Type 0}
    → (t : Tables S)
    → Adoptable leaver init (page 72) (page 71) first_children own_children (world_with t)
world-Adoptable t = record {
  here = refl;
  mine = refl;
  ne_one = λ e. omega (arith, e);
  not_self = refl;
  not_one = refl;
  there = λ j h. elim (Bool-cases (j == 3)) [
    | inl e ↦ (baby, subst (λ x. (world_with t).task x ≡ some baby) (three j e) refl)
    | inr e ↦ absurd (ground (arith, h, e))
  ];
  first = refl;
  theirs = refl;
  fits = omega arith;
}

reap-adopt_loop_example :
    (w : Kernel ℕ × Words) × (reap bump 3 (world, λ i. 0) ≡ done w) × (adopt_loop 2 0 w.0 ≡ fault)
reap-adopt_loop_example =
    reap-adopt_loop bump 2 0 (page 72) (page 71) leaver init baby first_children own_children world
      (λ i. 0) (record { mem = clear empty.mem (page 0); pages = 1 }) 1 1 (world-Adoptable empty)
      (omega arith) (omega arith) refl refl (delete_mapping-bump (page 0) empty) refl refl

sleep-notify_example :
    (k1 k' : Kernel ℕ) × (sleep 3 world ≡ done k1)
    × Asleep 3 leaver world k1
    × (notify baby (meanwhile 2 world.task 3 empty k1) ≡ done k')
    × ((f : Process) × (s : SignalStruct) × (k'.task 2 ≡ some f)
        × (f.state ≡ running)
        × (f.signal ≡ some s)
        × (bit 17 s.pending ≡ 1))
sleep-notify_example =
    sleep-notify leaver baby quiet world world.task 3 empty refl refl refl refl
      (λ e. omega (arith, e)) (omega arith) (omega arith) (omega arith)
