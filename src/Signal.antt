-- ===== src/Signal.antt =====
-- arch/riscv/kernel/signal.c. A process is what signals use of a `task_struct`; `schedule`, `do_exit` and the handlers
-- of the user programs are parameters.
pub mod Kill
mod Tests
use zju_sys3_sp25_kernel.Base.{
  ℕ, zero, suc, ◌+◌, ◌-◌, ◌^◌, ◌%◌, bit_and, bit_or, Bool, true, false, not, ◌&&◌, ◌||◌, ltb, leb,
  ◌==◌, if◌then◌else◌, List, [], ◌∷◌, Option, none, some, Run, done, no_fuel, fault, ◌>>=◌, Words,
  write, Status, success, failure,
}
use zju_sys3_sp25_kernel.Base.Bits.{bit}
use zju_sys3_sp25_kernel.Proc.Sched.{TaskState, running, zombie, interruptible, stopped}
use zju_sys3_sp25_kernel.Proc.Vma.{MmStruct}
use zju_sys3_sp25_kernel.Fs.{Files}
use zju_sys3_sp25_kernel.Vm.{Pages, Tables}
use zju_sys3_sp25_kernel.Vm.Delete.{delete_mapping}

pub data KHandler : Type 0 where
  sigint_handler sigstop_handler sigchld_handler : KHandler

-- The signal that a handler is for.
abbrev pub signum : KHandler → ℕ
signum sigint_handler = 2
signum sigstop_handler = 19
signum sigchld_handler = 17

-- `struct k_sigaction`; a handler of the user is there or NULL.
pub record Action : Type 0 where
  pub handle_type : ℕ
  pub k_handler : Option KHandler
  pub u_handler : Bool
  pub u_ext_handler : Bool

-- `struct signal_struct`, in the page `self`.
pub record SignalStruct : Type 0 where
  pub self : ℕ
  pub pending : ℕ
  pub action : ℕ → Action

-- `struct task_struct`, in the page `self`, without the saved registers. `none` is a NULL pointer; the arrays `cpid` and
-- `files` stand with the address of their page.
pub record Process : Type 0 where
  pub self : ℕ
  pub pid : ℕ
  pub fpid : ℕ
  pub cpid : Option (ℕ × Words)
  pub child_cnt : ℕ
  pub state : TaskState
  pub priority : ℕ
  pub counter : ℕ
  pub exit_code : ℕ
  pub pgd : ℕ
  pub mm : Option MmStruct
  pub files : Option (ℕ × Files)
  pub signal : Option SignalStruct

pub record WaitTask : Type 0 where
  pub valid : ℕ
  pub mask : ℕ

pub record Kernel (S : Type 0) : Type 0 where
  pub task : ℕ → Option Process
  pub current : ℕ
  pub num_tasks : ℕ
  pub wait_queue : ℕ → WaitTask
  pub tables : Tables S

-- `task[i] = p`
unfoldable pub set_task : {S : Type 0} → ℕ → Option Process → Kernel S → Kernel S
set_task i p k = record k { task = λ j. if j == i then p else k.task j }

-- `pid` has 32 bits and a sign.
unfoldable pub do_kill : {S : Type 0} → ℕ → ℕ → Kernel S → Run (Status × Kernel S)
unfolding set_task
do_kill pid sig k =
    if leb (2 ^ 31) pid || ltb k.num_tasks pid then done (failure, k) else elim (k.task pid) [
      | none ↦ done (failure, k)
      | some p ↦ elim p.signal [
        | none ↦ fault
        | some g ↦ done (
          success,
          set_task pid
              (some (record p {
                signal = some (record g { pending = bit_or g.pending (2 ^ sig) % 2 ^ 32 });
              }))
              k,
        )
      ]
    ]

abbrev no_action : Action
no_action = record { handle_type = 0; k_handler = none; u_handler = false; u_ext_handler = false }

-- SIGINT is 2, SIGCHLD 17, SIGSTOP 19.
pub default_action : ℕ → Action
default_action i =
    if i == 2
    then record no_action { k_handler = some sigint_handler }
    else (if i == 17
        then record no_action { k_handler = some sigchld_handler }
        else (if i == 19 then record no_action { k_handler = some sigstop_handler } else no_action))

-- The start of the structure `signal_struct` in the page `page`, and of the entry of the wait queue.
pub init_signal : {S : Type 0} → ℕ → Process → ℕ → Kernel S → Kernel S
unfolding set_task default_action
init_signal pid p page k =
    record (set_task pid
      (some
        (record p { signal = some (record { self = page; pending = 0; action = default_action }) }))
      k) { wait_queue = λ j. if j == pid then record { valid = 0; mask = 0 } else k.wait_queue j }

pub signal_init : {S : Type 0} → Pages S → ℕ → Kernel S → Run (Kernel S)
unfolding init_signal
signal_init ops pid k = elim (k.task pid) [
  | none ↦ fault
  | some p ↦ elim p.signal [
    | some g ↦ done (init_signal pid p g.self k)
    | none ↦ ops.alloc_page k.tables.pages >>= (λ r.
        done (init_signal pid p r.0 (record k { tables = record k.tables { pages = r.1 } })))
  ]
]

-- The first child, from the `i`-th on, that is a zombie, by its number; the children end at a 0.
pub child_loop : {S : Type 0} → ℕ → Kernel S → Words → ℕ → Run (Option ℕ)
child_loop zero k cpid i = no_fuel
child_loop (suc f) k cpid i =
    let rest = child_loop f k cpid (i + 1) in
    if cpid i == 0 then done none else elim (k.task (cpid i)) [
      | none ↦ rest
      | some c ↦ elim c.state [
        | running ↦ rest
        | zombie ↦ done (some (cpid i))
        | interruptible ↦ rest
        | stopped ↦ rest
      ]
    ]

-- The current task without the pending signal.
pub unpend : ℕ → Process → Run Process
unpend sig p = elim p.signal [
  | none ↦ fault
  | some g ↦
      done (record p {
        signal = some (record g { pending = bit_and g.pending (2 ^ 32 - 1 - 2 ^ sig) });
      })
]

-- The zombie `c` is taken away: its tables, its root and its page are freed, and its number and its exit code go to a0
-- and a1.
unfoldable pub reap : {S : Type 0} → Pages S → ℕ → Kernel S × Words → Run (Kernel S × Words)
unfolding set_task
reap ops c w =
    let k = w.0 in
    elim (k.task c) [
      | none ↦ fault
      | some child ↦ delete_mapping ops child.pgd k.tables >>= (λ t.
          ops.free_pages child.pgd t.pages >>= (λ s. ops.free_pages child.self s >>= (λ s'. done (
            set_task c none (record k { tables = record t { pages = s' } }),
            write (write w.1 10 child.pid) 11 child.exit_code,
          ))))
    ]

module _ {S : Type 0} (ops : Pages S) (schedule : Kernel S → Run (Kernel S))
    (do_exit : ℕ → Kernel S → Run (Kernel S)) (user : ℕ → Kernel S × Words → Run (Kernel S × Words))
    (rounds : ℕ) where
  -- The kernel and the registers `regs->x`.
  abbrev pub World : Type 0
  World = Kernel S × Words

  -- What a handler does to the current process, behind its test of the signal's number and without the pending signal.
  pub run_handler : KHandler → Process → World → Run World
  unfolding reap child_loop set_task
  run_handler h p w =
      let k = set_task w.0.current (some p) w.0 in
      elim h [
        | sigint_handler ↦ do_exit 0 k >>= (λ e. done (e, w.1))
        | sigstop_handler ↦
            schedule (set_task k.current (some (record p { state = stopped })) k)
            >>= (λ e. done (e, w.1))
        | sigchld_handler ↦ elim p.cpid [
          | none ↦ fault
          | some cs ↦ child_loop rounds k cs.1 0 >>= (λ o. elim o [
            | none ↦ done (k, w.1)
            | some c ↦ reap ops c (k, w.1) >>= (λ e. schedule e.0 >>= (λ k2. done (k2, e.1)))
          ])
        ]
      ]

  pub handle : KHandler → ℕ → World → Run World
  unfolding unpend run_handler
  handle h sig w =
      if sig == signum h
      then elim (w.0.task w.0.current) [
        | none ↦ fault
        | some p ↦ unpend sig p >>= (λ p'. run_handler h p' w)
      ]
      else done w

  pub act : Action → ℕ → World → Run World
  unfolding handle
  act a sig w =
      if a.handle_type == 0
      then elim a.k_handler [ none ↦ done w | some h ↦ handle h sig w ]
      else (if a.handle_type == 2
          then (if a.u_handler then user sig w else done w)
          else (if a.handle_type == 3
              then (if a.u_ext_handler then user sig w else done w)
              else done w))

  -- The loop of `signal_handler` over the signals in their order.
  pub handle_loop : List ℕ → World → Run World
  unfolding act
  handle_loop [] w = done w
  handle_loop (sig ∷ sigs) w = elim (w.0.task w.0.current) [
    | none ↦ fault
    | some p ↦ elim p.signal [
      | none ↦ fault
      | some g ↦
          (if bit sig g.pending == 0 then done w else act (g.action sig) sig w) >>= handle_loop sigs
    ]
  ]

  pub signal_handler : World → Run World
  unfolding handle_loop
  signal_handler w = handle_loop (19 ∷ 2 ∷ 17 ∷ []) w
