-- ===== src/Life.antt =====
-- The end of a process and the waiting for it in arch/riscv/kernel/proc.c, on the state of Signal. `current` is known by
-- its slot in `task`.
mod Adopt
mod Exit
mod Notify
mod Release
mod Stages
mod Reaped
mod Tests
mod Wait
use zju_sys3_sp25_kernel.Base.{
  ℕ, zero, suc, ◌+◌, ◌-◌, ◌%◌, ◌^◌, bit_or, Bool, true, false, not, ◌&&◌, ◌||◌, ltb, leb, ◌==◌,
  if◌then◌else◌, Option, none, some, Run, done, no_fuel, fault, ◌>>=◌, w64, write, Status,
}
use zju_sys3_sp25_kernel.Base.Bits.{bit}
use zju_sys3_sp25_kernel.Fs.{File, Files, minus_one, max_file_number, sys_close}
use zju_sys3_sp25_kernel.Proc.Sched
use zju_sys3_sp25_kernel.Proc.Sched.{running, zombie, interruptible}
use zju_sys3_sp25_kernel.Proc.Vma.{MmStruct, nr_vma_slots, remove_vma}
use zju_sys3_sp25_kernel.Vm.{Pages, Tables, remove_mapping}
use zju_sys3_sp25_kernel.Signal.{Process, WaitTask, Kernel, set_task, do_kill}

-- What the scheduler sees of a process, and its time slice afterwards.
pub seen : Option Process → Option Sched.Task
seen none = none
seen (some p) =
    some (record { pid = p.pid; state = p.state; priority = p.priority; counter = p.counter })

pub sliced : Option Process → Option Sched.Task → Option Process
sliced none t = none
sliced (some p) none = some p
sliced (some p) (some t) = some (record p { counter = t.counter })

pub view : {S : Type 0} → Kernel S → Sched.Table
unfolding seen
view k = record { task = λ j. seen (k.task j); current = k.current; num_tasks = k.num_tasks }

-- `schedule`, up to the switch to the next task.
pub schedule : {S : Type 0} → Kernel S → Run (Kernel S)
unfolding view sliced
schedule k =
    Sched.schedule (view k)
    >>= (λ t. done (record k { task = λ j. sliced (k.task j) (t.task j); current = t.current }))

pub with_current : {S : Type 0} → Kernel S → (Process → Run (Kernel S)) → Run (Kernel S)
with_current k f = elim (k.task k.current) [ none ↦ fault | some p ↦ f p ]

pub write_current : {S : Type 0} → Process → Kernel S → Kernel S
unfolding set_task
write_current p k = set_task k.current (some p) k

-- `free_pages` on the state of the allocator.
pub free : {S : Type 0} → Pages S → ℕ → Kernel S → Run (Kernel S)
free ops page k =
    ops.free_pages page k.tables.pages
    >>= (λ s. done (record k { tables = record k.tables { pages = s } }))

pub mark_zombie : ℕ → Process → Process
mark_zombie status p = record p {
  state = zombie;
  priority = 0;
  counter = 0;
  exit_code = status % 2 ^ 8;
}

-- The loop over the areas of the process: each is unmapped and removed.
pub release_loop :
    {S : Type 0} → ℕ → Pages S → ℕ → MmStruct → ℕ → Tables S → Run (MmStruct × Tables S)
release_loop zero ops pgd mm vma t = no_fuel
release_loop (suc f) ops pgd mm vma t =
    let v = mm.slot vma in
    let rest : Tables _ → Run (MmStruct × Tables _) =
      λ t'. release_loop f ops pgd (remove_vma mm vma) v.vm_next t' in
    if vma == 0
    then done (mm, t)
    else remove_mapping ops pgd v.vm_start (w64 (v.vm_end + 2 ^ 64 - v.vm_start)) t >>= rest

pub release_areas : {S : Type 0} → Pages S → Process → Kernel S → Run (Kernel S)
unfolding release_loop write_current free
release_areas ops p k = elim p.mm [
  | none ↦ fault
  | some mm ↦ release_loop (nr_vma_slots + 1) ops p.pgd mm mm.mmap k.tables >>= (λ r.
      free ops mm.self (record k { tables = r.1 })
      >>= (λ k'. done (write_current (record p { mm = none }) k')))
]

-- The loop of the adoption, from child `i` on: `task[1]` becomes the parent. All is read anew in each round.
pub adopt : {S : Type 0} → ℕ → Kernel S → Run (Kernel S)
unfolding set_task
adopt c k = elim (k.task c) [
  | none ↦ fault
  | some child ↦
      let k1 = set_task c (some (record child { fpid = 1 })) k in
      elim (k1.task 1) [
        | none ↦ fault
        | some one ↦ elim one.cpid [
          | none ↦ fault
          | some cs ↦ done (
              set_task 1
                (some (record one {
                  cpid = some (cs.0, write cs.1 one.child_cnt c);
                  child_cnt = w64 (one.child_cnt + 1);
                }))
                k1)
        ]
      ]
]

pub adopt_loop : {S : Type 0} → ℕ → ℕ → Kernel S → Run (Kernel S)
unfolding adopt with_current
adopt_loop zero i k = no_fuel
adopt_loop (suc f) i k =
    let rest : Kernel _ → Run (Kernel _) = λ k'. adopt_loop f (i + 1) k' in
    with_current k (λ p.
      if ltb i p.child_cnt
      then elim p.cpid [ none ↦ fault | some cs ↦ adopt (cs.1 i) k >>= rest ]
      else done k)

-- The address of a page that a pointer holds; 0 is NULL.
pub address : {A : Type 0} → Option (ℕ × A) → ℕ
address none = 0
address (some x) = x.0

pub drop_children : {S : Type 0} → Pages S → Process → Kernel S → Run (Kernel S)
unfolding free write_current address
drop_children ops p k =
    free ops (address p.cpid) k
    >>= (λ k'. done (write_current (record p { cpid = none; child_cnt = 0 }) k'))

-- The loop over the open files, from descriptor `i` on.
pub close_loop : ℕ → ℕ → Files → Files
close_loop zero i fds = fds
close_loop (suc n) i fds =
    close_loop n (i + 1) (if (fds i).opened == 0 then fds else (sys_close i fds).1)

pub close_files : {S : Type 0} → Process → Kernel S → Run (Kernel S)
unfolding close_loop write_current
close_files p k = elim p.files [
  | none ↦ fault
  | some fs ↦
      done (
        write_current (record p { files = some (fs.0, close_loop (max_file_number - 3) 3 fs.1) }) k)
]

pub drop_files : {S : Type 0} → Pages S → Process → Kernel S → Run (Kernel S)
unfolding free write_current address
drop_files ops p k =
    free ops (address p.files) k >>= (λ k'. done (write_current (record p { files = none }) k'))

pub drop_signal : {S : Type 0} → Pages S → Process → Kernel S → Run (Kernel S)
unfolding free write_current
drop_signal ops p k =
    let page : ℕ = elim p.signal [ none ↦ 0 | some g ↦ g.self ] in
    free ops page k >>= (λ k'. done (write_current (record p { signal = none }) k'))

-- `wait_queue[i] = w`
pub set_wait : {S : Type 0} → ℕ → WaitTask → Kernel S → Kernel S
set_wait i w k = record k { wait_queue = λ j. if j == i then w else k.wait_queue j }

pub wake_up_process : {S : Type 0} → ℕ → Kernel S → Run (Kernel S)
unfolding set_wait set_task
wake_up_process pid k = elim (k.task pid) [
  | none ↦ fault
  | some p ↦ done (
      set_task pid (some (record p { state = running }))
        (set_wait pid (record { valid = 0; mask = 0 }) k))
]

-- The parent is told: SIGCHLD, and the end of its waiting if it waits for this child.
pub notify : {S : Type 0} → Process → Kernel S → Run (Kernel S)
unfolding wake_up_process set_wait
notify p k = do_kill p.fpid 17 k >>= (λ r.
    let k1 = set_wait p.pid (record (r.1.wait_queue p.pid) { valid = 0 }) r.1 in
    let w = k1.wait_queue p.fpid in
    if not (w.valid == 0) && not (bit p.pid w.mask == 0)
    then wake_up_process p.fpid k1
    else done k1)

-- `do_exit` up to its `schedule`; `rounds` bounds the adoption.
pub leave : {S : Type 0} → Pages S → ℕ → ℕ → Kernel S → Run (Kernel S)
unfolding mark_zombie release_areas adopt_loop drop_children close_files drop_files drop_signal
    notify
leave ops rounds status k =
    with_current k (λ p. release_areas ops (mark_zombie status p) k) >>= (λ k1.
      adopt_loop rounds 0 k1 >>= (λ k2. with_current k2 (λ p. drop_children ops p k2) >>= (λ k3.
        with_current k3 (λ p. close_files p k3) >>= (λ k4.
          with_current k4 (λ p. drop_files ops p k4) >>= (λ k5.
            with_current k5 (λ p. drop_signal ops p k5)
            >>= (λ k6. with_current k6 (λ p. notify p k6)))))))

pub do_exit : {S : Type 0} → Pages S → ℕ → ℕ → Kernel S → Run (Kernel S)
unfolding leave schedule
do_exit ops rounds status k = leave ops rounds status k >>= schedule

-- -1 as a 32-bit word waits for any child. `1 << wpid` is a bit for numbers below 31.
pub wait_queue_add : {S : Type 0} → ℕ → ℕ → Kernel S → Kernel S
unfolding set_wait
wait_queue_add pid wpid k =
    let w = k.wait_queue pid in
    set_wait pid
      (record w { mask = if wpid == 2 ^ 32 - 1 then 2 ^ 64 - 1 else bit_or w.mask (2 ^ wpid) }) k

-- `do_wait` up to its `schedule`.
pub sleep : {S : Type 0} → ℕ → Kernel S → Run (Kernel S)
unfolding wait_queue_add set_wait write_current
sleep pid k = with_current k (λ p.
    let k1 = wait_queue_add p.pid pid (write_current (record p { state = interruptible }) k) in
    done (set_wait p.pid (record (k1.wait_queue p.pid) { valid = 1 }) k1))

pub do_wait : {S : Type 0} → ℕ → Kernel S → Run (Kernel S)
unfolding sleep schedule
do_wait pid k = sleep pid k >>= schedule

pub sys_waitpid : {S : Type 0} → ℕ → Kernel S → Run (ℕ × Kernel S)
unfolding do_wait
sys_waitpid pid k =
    if leb (2 ^ 31) pid || leb k.num_tasks pid
    then done (minus_one, k)
    else do_wait pid k >>= (λ k'. done (0, k'))
