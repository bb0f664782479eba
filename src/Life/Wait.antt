-- ===== src/Life/Wait.antt =====
-- Waiting for a child, in `do_wait` and `do_exit` of arch/riscv/kernel/proc.c.
use zju_sys3_sp25_kernel.Base.{
  ℕ, ◌-◌, ◌^◌, bit_or, ◌≤◌, ◌<◌, ◌≡◌, ◌≢◌, ◌∙◌, refl, ap, sym, arith, true, false, ◌==◌,
  if◌then◌else◌, Option, some, done,
}
use zju_sys3_sp25_kernel.Base.Bits.{bit}
use zju_sys3_sp25_kernel.Proc.Sched.{running, interruptible}
use zju_sys3_sp25_kernel.Vm.{Tables}
use zju_sys3_sp25_kernel.Signal.{Process, SignalStruct, Kernel, set_task}
use zju_sys3_sp25_kernel.Signal.Kill.{bit_same}
use zju_sys3_sp25_kernel.Life.{with_current, write_current, set_wait, wait_queue_add, sleep, notify}
use zju_sys3_sp25_kernel.Life.Notify.{Notified, awaited, notify-Notified}

module _ {S : Type 0} where
  -- The state in which the process sleeps until `pid` exits.
  asleep : ℕ → Process → Kernel S → Kernel S
  asleep pid p k =
      let k1 = wait_queue_add p.pid pid (write_current (record p { state = interruptible }) k) in
      set_wait p.pid (record (k1.wait_queue p.pid) { valid = 1 }) k1

  sleep-asleep :
      (pid : ℕ) (p : Process) (k : Kernel S)
      → k.task k.current ≡ some p
      → sleep pid k ≡ done (asleep pid p k)
  unfolding sleep with_current asleep
  sleep-asleep pid p k e = rw (e, sleep, with_current) refl

  -- The process `p` sleeps, and waits for `pid`.
  pub record Asleep (pid : ℕ) (p : Process) (k k1 : Kernel S) : Type 0 where
    pub dozes : k1.task k.current ≡ some (record p { state = interruptible })
    pub others : (j : ℕ) → j ≢ k.current → k1.task j ≡ k.task j
    pub waits : (k1.wait_queue p.pid).valid ≡ 1
    pub waited : bit pid (k1.wait_queue p.pid).mask ≡ 1
    pub num_tasks : k1.num_tasks ≡ k.num_tasks

  asleep-Asleep :
      (pid : ℕ) (p : Process) (k : Kernel S) → pid < 2 ^ 31 → Asleep pid p k (asleep pid p k)
  unfolding asleep write_current wait_queue_add set_wait set_task
  asleep-Asleep pid p k l =
      let plain : (pid == 2 ^ 32 - 1) ≡ false = ground (arith, l) in
      let one : bit pid (bit_or (k.wait_queue p.pid).mask (2 ^ pid)) ≡ 1 =
        bit_same pid (k.wait_queue p.pid).mask in
      record {
        dozes = ground arith;
        others = λ j n. ground (arith, n);
        waits = ground arith;
        waited = ground (arith, plain, one);
        num_tasks = refl;
      }

  -- What happens between: other processes may change, run, and change the tables.
  abbrev pub meanwhile : ℕ → (ℕ → Option Process) → ℕ → Tables S → Kernel S → Kernel S
  meanwhile i others c t k = record k {
    task = λ j. if j == i then k.task j else others j;
    current = c;
    tables = t;
  }

  meanwhile-same :
      (i j : ℕ) (others : ℕ → Option Process) (c : ℕ) (t : Tables S) (k : Kernel S)
      → j ≡ i
      → (meanwhile i others c t k).task j ≡ k.task i
  meanwhile-same i j others c t k e =
      ap (λ x. if x == i then k.task x else others x) e ∙ ground arith

  -- A process, numbered by its slot and with a signal structure, that waits for its child `q`, numbered below 31, sleeps. Whatever the other
  -- processes are, whichever runs and whatever the tables are when the child tells its parent at the end of `do_exit`: the
  -- telling returns, and the process runs then and has SIGCHLD pending.
  pub sleep-notify :
      (p q : Process) (g : SignalStruct) (k : Kernel S) (others : ℕ → Option Process) (c : ℕ)
      (t : Tables S)
      → k.task k.current ≡ some p
      → p.pid ≡ k.current
      → p.signal ≡ some g
      → q.fpid ≡ p.pid
      → q.pid ≢ p.pid
      → q.pid < 31
      → p.pid < 2 ^ 31
      → p.pid ≤ k.num_tasks
      → (k1 k' : Kernel S) × (sleep q.pid k ≡ done k1)
        × Asleep q.pid p k k1
        × (notify q (meanwhile p.pid others c t k1) ≡ done k')
        × ((f : Process) × (s : SignalStruct) × (k'.task p.pid ≡ some f)
            × (f.state ≡ running)
            × (f.signal ≡ some s)
            × (bit 17 s.pending ≡ 1))
  sleep-notify p q g k others c t e number sig child other small_q small_p within =
      let k1 : Kernel S = asleep q.pid p k in
      let a : Asleep q.pid p k k1 = asleep-Asleep q.pid p k (omega (arith, small_q)) in
      let dozing : Process = record p { state = interruptible } in
      let k2 : Kernel S = meanwhile p.pid others c t k1 in
      let there : k2.task q.fpid ≡ some dozing =
        meanwhile-same p.pid q.fpid others c t k1 child ∙ ap k1.task number ∙ a.dozes in
      let r : (k' : Kernel S) × (notify q k2 ≡ done k') × Notified q dozing k2 k' =
        notify-Notified q dozing g k2 (rw child small_p) (rw (child, a.num_tasks) within)
          (λ y. other (sym (sym child ∙ y))) there sig in
      let yes_waits : awaited q k2 ≡ true = ground (arith, child, a.waits, a.waited) in
      (
        k1,
        r.0,
        sleep-asleep q.pid p k e,
        a,
        r.1,
        (
          record dozing { signal = some r.2.signal; state = running },
          r.2.signal,
          ap r.0.task (sym child)
              ∙ r.2.told
              ∙ ap
                  (λ b. some (record dozing {
                    signal = some r.2.signal;
                    state = if b then running else interruptible;
                  }))
                  yes_waits,
          refl,
          refl,
          r.2.pends,
        ),
      )
