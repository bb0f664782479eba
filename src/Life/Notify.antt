-- ===== src/Life/Notify.antt =====
-- The end of `do_exit` in arch/riscv/kernel/proc.c: the parent is told.
use zju_sys3_sp25_kernel.Base.{
  ℕ, ◌^◌, ◌≤◌, ◌<◌, ◌≡◌, ◌≢◌, ◌∙◌, refl, arith, Bool, true, false, not, ◌&&◌, Bool-cases, inl, inr,
  ◌==◌, ne→==, if◌then◌else◌, some, done, success,
}
use zju_sys3_sp25_kernel.Base.Bits.{bit}
use zju_sys3_sp25_kernel.Proc.Sched.{running}
use zju_sys3_sp25_kernel.Signal.{Process, SignalStruct, Kernel, set_task, do_kill}
use zju_sys3_sp25_kernel.Signal.Kill.{Killed, do_kill-Killed}
use zju_sys3_sp25_kernel.Life.{set_wait, wake_up_process, notify}

module _ {S : Type 0} where
  -- Does the parent wait for this process?
  abbrev pub awaited : Process → Kernel S → Bool
  awaited p k =
      not ((k.wait_queue p.fpid).valid == 0) && not (bit p.pid (k.wait_queue p.fpid).mask == 0)

  -- The parent has SIGCHLD pending, and runs if it waited for this process; the other processes are as before, and this
  -- one waits for none.
  pub record Notified (p parent : Process) (k k' : Kernel S) : Type 0 where
    pub signal : SignalStruct
    pub told :
        k'.task p.fpid
        ≡ some (record parent {
          signal = some signal;
          state = if awaited p k then running else parent.state;
        })
    pub pends : bit 17 signal.pending ≡ 1
    pub others : (j : ℕ) → j ≢ p.fpid → k'.task j ≡ k.task j
    pub over : (k'.wait_queue p.pid).valid ≡ 0
    pub woken : awaited p k ≡ true → (k'.wait_queue p.fpid).valid ≡ 0
    pub current : k'.current ≡ k.current
    pub tables : k'.tables ≡ k.tables

  unwait : Process → Kernel S → Kernel S
  unwait p k = set_wait p.pid (record (k.wait_queue p.pid) { valid = 0 }) k

  notify-told :
      (p : Process) (k k1 : Kernel S)
      → do_kill p.fpid 17 k ≡ done (success, k1)
      → p.fpid ≢ p.pid
      → notify p k
        ≡ (if awaited p k1 then wake_up_process p.fpid (unwait p k1) else done (unwait p k1))
  unfolding notify unwait set_wait
  notify-told p k k1 e n = rw (e, ne→== p.fpid p.pid n) refl

  roused : Process → Process → Kernel S → Kernel S
  roused p parent k =
      set_task p.fpid (some (record parent { state = running }))
        (set_wait p.fpid (record { valid = 0; mask = 0 }) k)

  wake_up_process-roused :
      (p parent : Process) (k : Kernel S)
      → k.task p.fpid ≡ some parent
      → wake_up_process p.fpid k ≡ done (roused p parent k)
  unfolding wake_up_process roused set_wait set_task
  wake_up_process-roused p parent k e = rw (wake_up_process, e) refl

  module _ (p parent : Process) (g : SignalStruct) (k k1 : Kernel S)
      (kl : Killed p.fpid 17 parent g k k1) where
    awaited-same : awaited p k1 ≡ awaited p k
    awaited-same = rw kl.queue refl

    Notified-woken :
        p.fpid ≢ p.pid
        → awaited p k ≡ true
        → Notified p parent k (roused p (record parent { signal = some kl.signal }) (unwait p k1))
    unfolding roused unwait set_wait set_task
    Notified-woken n a = record {
      signal = kl.signal;
      told = rw a (ground arith);
      pends = kl.pends;
      others = λ j m. rw (ne→== j p.fpid m) (kl.others j m);
      over = ground (arith, n);
      woken = λ h. ground arith;
      current = kl.current;
      tables = kl.tables;
    }

    Notified-still : p.fpid ≢ p.pid → awaited p k ≡ false → Notified p parent k (unwait p k1)
    unfolding unwait set_wait
    Notified-still n a = record {
      signal = kl.signal;
      told = rw a kl.target;
      pends = kl.pends;
      others = kl.others;
      over = ground arith;
      woken = λ h. absurd (ground (arith, a, h));
      current = kl.current;
      tables = kl.tables;
    }

    told-killed :
        p.fpid ≢ p.pid
        → (unwait p k1).task p.fpid ≡ some (record parent { signal = some kl.signal })
    unfolding unwait set_wait
    told-killed n = kl.target

  -- For a process whose parent is another one, below the number of tasks or at it, that has a signal structure: the end
  -- of `do_exit` returns. The parent has SIGCHLD pending then; if it waited for this process it waits no more and runs,
  -- and otherwise its state is as before. No other process changes.
  pub notify-Notified :
      (p parent : Process) (g : SignalStruct) (k : Kernel S)
      → p.fpid < 2 ^ 31
      → p.fpid ≤ k.num_tasks
      → p.fpid ≢ p.pid
      → k.task p.fpid ≡ some parent
      → parent.signal ≡ some g
      → (k' : Kernel S) × (notify p k ≡ done k') × Notified p parent k k'
  notify-Notified p parent g k small within n e q =
      let r : (k1 : Kernel S) × (do_kill p.fpid 17 k ≡ done (success, k1))
          × Killed p.fpid 17 parent g k k1 =
        do_kill-Killed p.fpid 17 k parent g small (omega arith) within e q in
      elim (Bool-cases (awaited p k)) [
        | inl a ↦ (
          roused p (record parent { signal = some r.2.signal }) (unwait p r.0),
          notify-told p k r.0 r.1 n
              ∙ rw (awaited-same p parent g k r.0 r.2, a)
                  (wake_up_process-roused p (record parent { signal = some r.2.signal })
                    (unwait p r.0) (told-killed p parent g k r.0 r.2 n)),
          Notified-woken p parent g k r.0 r.2 n a,
        )
        | inr a ↦ (
          unwait p r.0,
          notify-told p k r.0 r.1 n ∙ rw (awaited-same p parent g k r.0 r.2, a) refl,
          Notified-still p parent g k r.0 r.2 n a,
        )
      ]
