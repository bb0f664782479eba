-- ===== src/Proc/Sched/Choice.antt =====
-- `get_max_cnt_pid` of arch/riscv/kernel/proc.c finds the first of the runnable tasks with the
-- longest time slice.
use zju_sys3_sp25_kernel.Base.{
  ℕ, zero, suc, ◌+◌, ◌-◌, ◌≤◌, ◌<◌, ◌≡◌, ◌≢◌, inl, inr, sym, subst, and-eq-true, and-eq-false, refl,
  arith, Bool, true, false, Option, none, some, ltb, ltb→lt, ltb→ge, Bool-cases, ◌&&◌, done,
}
use native.Mathlib.Decide.{ℕ_discrete}
use zju_sys3_sp25_kernel.Proc.Sched.{Task, Table, is_running, better, max_loop, get_max_cnt_pid}

-- Slot `i` holds a runnable task.
abbrev pub runnable : (ℕ → Option Task) → ℕ → Bool
runnable task i = elim (task i) [ none ↦ false | some t ↦ is_running t.state ]

abbrev pub counter_at : (ℕ → Option Task) → ℕ → ℕ
counter_at task i = elim (task i) [ none ↦ 0 | some t ↦ t.counter ]

abbrev pub present : (ℕ → Option Task) → ℕ → Bool
present task i = elim (task i) [ none ↦ false | some t ↦ true ]

-- `best` is the choice among the slots below `i`: it is slot 0, or runnable; no runnable slot has a
-- larger counter, and one before it has a smaller one.
pub record IsBest (task : ℕ → Option Task) (i best : ℕ) : Type 0 where
  pub exists : present task best ≡ true
  pub picked : best ≢ 0 → (best < i) × (runnable task best ≡ true)
  pub largest :
      (j : ℕ) → 0 < j → j < i → runnable task j ≡ true → counter_at task j ≤ counter_at task best
  pub first :
      (j : ℕ) → 0 < j → j < best → runnable task j ≡ true → counter_at task j < counter_at task best
  pub above_idle : best ≢ 0 → counter_at task 0 < counter_at task best

-- One round compares with the choice at hand.
better_lem :
    (task : ℕ → Option Task) (i best : ℕ)
    → present task best ≡ true
    → better task i best ≡ done (runnable task i && ltb (counter_at task best) (counter_at task i))
unfolding better
better_lem task i best h = ground arith

-- A slot that holds a runnable task holds a task.
present_of_runnable :
    (task : ℕ → Option Task) (i : ℕ) → runnable task i ≡ true → present task i ≡ true
present_of_runnable task i h = ground arith

module _ (task : ℕ → Option Task) (i best : ℕ) (v : IsBest task i best) (pos : 0 < i) where
  not_better :
      (runnable task i && ltb (counter_at task best) (counter_at task i)) ≡ false
      → runnable task i ≡ true
      → counter_at task i ≤ counter_at task best
  not_better c run =
      ltb→ge (counter_at task best) (counter_at task i)
        (and-eq-false (runnable task i) (ltb (counter_at task best) (counter_at task i)) run c)

  IsBest-keep :
      (runnable task i && ltb (counter_at task best) (counter_at task i)) ≡ false
      → IsBest task (i + 1) best
  IsBest-keep c = record {
    exists = v.exists;
    picked = λ ne. (omega (arith, (v.picked ne).0), (v.picked ne).1);
    largest = λ j hj lt run. elim (ℕ_discrete j i) [
      | yes e ↦
          subst (λ x. counter_at task x ≤ counter_at task best) (sym e)
            (not_better c (subst (λ x. runnable task x ≡ true) e run))
      | no ne ↦ v.largest j hj (omega (arith, ne)) run
    ];
    first = v.first;
    above_idle = v.above_idle;
  }

  IsBest-take :
      (runnable task i && ltb (counter_at task best) (counter_at task i)) ≡ true
      → IsBest task (i + 1) i
  IsBest-take c = record {
    exists = present_of_runnable task i run_i;
    picked = λ ne. (omega arith, run_i);
    largest = λ j hj lt run. elim (ℕ_discrete j i) [
      | yes e ↦ subst (λ x. counter_at task x ≤ counter_at task i) (sym e) (omega arith)
      | no ne ↦ omega (arith, more, v.largest j hj (omega (arith, ne)) run)
    ];
    first = λ j hj lt run. omega (arith, more, v.largest j hj lt run);
    above_idle = λ ne. elim (ℕ_discrete best 0) [
      | yes e ↦ subst (λ x. counter_at task x < counter_at task i) e more
      | no some_best ↦ omega (arith, more, v.above_idle some_best)
    ];
  }
    where
      both : (runnable task i ≡ true) × (ltb (counter_at task best) (counter_at task i) ≡ true)
      both = and-eq-true (runnable task i) (ltb (counter_at task best) (counter_at task i)) c

      run_i : runnable task i ≡ true
      run_i = both.0

      more : counter_at task best < counter_at task i
      more = ltb→lt (counter_at task best) (counter_at task i) both.1

max_loop-IsBest :
    (task : ℕ → Option Task) (n i best : ℕ)
    → IsBest task i best
    → 0 < i
    → (r : ℕ) × (max_loop task n i best ≡ done r) × IsBest task (i + n) r
unfolding max_loop
max_loop-IsBest task zero i best v pos =
    let e : i ≡ i + 0 = omega arith in (best, refl, subst (λ x. IsBest task x best) e v)
max_loop-IsBest task (suc n) i best v pos =
    let c = runnable task i && ltb (counter_at task best) (counter_at task i) in
    let e : i + 1 + n ≡ i + suc n = omega arith in
    elim (Bool-cases c) [
      | inl take ↦
          let (r, eq, w) =
            max_loop-IsBest task n (i + 1) i (IsBest-take task i best v pos take) (omega arith) in
          (r, rw (better_lem task i best v.exists, take) eq, subst (λ x. IsBest task x r) e w)
      | inr keep ↦
          let (r, eq, w) =
            max_loop-IsBest task n (i + 1) best (IsBest-keep task i best v pos keep)
              (omega arith) in
          (r, rw (better_lem task i best v.exists, keep) eq, subst (λ x. IsBest task x r) e w)
    ]

-- With an idle task in slot 0, `get_max_cnt_pid` returns: slot 0, or the first of the runnable
-- slots with the largest counter, if that is above the idle task's.
pub get_max_cnt_pid-IsBest :
    (s : Table)
    → present s.task 0 ≡ true
    → 0 < s.num_tasks
    → (r : ℕ) × (get_max_cnt_pid s ≡ done r) × IsBest s.task s.num_tasks r
unfolding get_max_cnt_pid
get_max_cnt_pid-IsBest s idle pos =
    let (r, eq, w) = max_loop-IsBest s.task (s.num_tasks - 1) 1 0 start (omega arith) in
    let e : 1 + (s.num_tasks - 1) ≡ s.num_tasks = omega arith in
    (r, eq, subst (λ x. IsBest s.task x r) e w)
  where
    start : IsBest s.task 1 0
    start = record {
      exists = idle;
      picked = λ ne. absurd (ne refl);
      largest = λ j hj lt run. absurd (omega arith);
      first = λ j hj lt run. absurd (omega arith);
      above_idle = λ ne. absurd (ne refl);
    }
