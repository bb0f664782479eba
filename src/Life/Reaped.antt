-- ===== src/Life/Reaped.antt =====
-- The children of a process keep the numbers of those that SIGCHLD has taken away, in arch/riscv/kernel/signal.c and in
-- `do_exit` of arch/riscv/kernel/proc.c.
use zju_sys3_sp25_kernel.Base.{
  ℕ, zero, suc, ◌+◌, ◌<◌, ◌≤◌, ◌≡◌, ◌≢◌, ◌∙◌, refl, ap, sym, subst, arith, true, false, ◌||◌,
  Bool-cases, inl, inr, ◌==◌, ltb, ne→==, if◌then◌else◌, w64, Bool, none, some, done, fault, Words,
  write,
}
use zju_sys3_sp25_kernel.Vm.{Pages, Tables}
use zju_sys3_sp25_kernel.Vm.Delete.{delete_mapping}
use zju_sys3_sp25_kernel.Signal.{Process, Kernel, set_task, reap}
use zju_sys3_sp25_kernel.Life.{with_current, adopt, adopt_loop}
use zju_sys3_sp25_kernel.Life.Adopt.{
  among, Adoptable, orphan, still_there, adopted, adopt-adopted, task-adopted, parent-adopted,
  current-adopted, ne_one-adopted, among-adopted, adopt_loop-step,
}

module _ {S : Type 0} where
  adopt-fault : (c : ℕ) (k : Kernel S) → k.task c ≡ none → adopt c k ≡ fault
  unfolding adopt
  adopt-fault c k e = rw (e, adopt) refl

  adopt_loop-stop :
      (f i own : ℕ) (p : Process) (ch : Words) (k : Kernel S)
      → k.task k.current ≡ some p
      → p.cpid ≡ some (own, ch)
      → i < p.child_cnt
      → adopt (ch i) k ≡ fault
      → adopt_loop (suc f) i k ≡ fault
  unfolding adopt_loop with_current
  adopt_loop-stop f i own p ch k cur mine more stop =
      let low : ltb i p.child_cnt ≡ true = ground (arith, more) in
      rw (cur, low, mine, stop, adopt_loop, with_current) refl

  -- The loop reaches the first child that is not there.
  adopt_loop-missing :
      (f n i page own : ℕ) (p one : Process) (ws ch : Words) (k : Kernel S)
      → n < f
      → i + n < p.child_cnt
      → k.task k.current ≡ some p
      → p.cpid ≡ some (own, ch)
      → k.current ≢ 1
      → among ch i n k.current ≡ false
      → among ch i n 1 ≡ false
      → ((j : ℕ) → among ch i n j ≡ true → (q : Process) × (k.task j ≡ some q))
      → k.task 1 ≡ some one
      → one.cpid ≡ some (page, ws)
      → ch (i + n) ≢ 1
      → k.task (ch (i + n)) ≡ none
      → adopt_loop f i k ≡ fault
  adopt_loop-missing zero n i page own p one ws ch k l cnt cur mine ne no1 no2 there first theirs
        far gone =
      absurd (omega (arith, l))
  adopt_loop-missing (suc f) zero i page own p one ws ch k l cnt cur mine ne no1 no2 there first
        theirs far gone =
      let here : i + zero ≡ i = omega arith in
      adopt_loop-stop f i own p ch k cur mine (omega (arith, cnt))
        (adopt-fault (ch i) k (subst (λ x. k.task (ch x) ≡ none) here gone))
  adopt_loop-missing (suc f) (suc n) i page own p one ws ch k l cnt cur mine ne no1 no2 there first
        theirs far gone =
      let c : ℕ = ch i in
      let child : (q : Process) × (k.task c ≡ some q) = there c (ground arith) in
      let k1 : Kernel S = adopted c child.0 one page ws k in
      let away1 : c ≢ 1 = λ e. absurd (ground (arith, no2, e)) in
      let away : k.current ≢ c = λ e. absurd (ground (arith, no1, e)) in
      let place : i + suc n ≡ i + 1 + n = omega arith in
      let stays : (j : ℕ) → among ch (i + 1) n j ≡ true → (q : Process) × (k1.task j ≡ some q) =
        λ j h.
          let q : (q : Process) × (k.task j ≡ some q) = there j (ground (arith, h)) in
          let ne1 : j ≢ 1 =
            λ e. absurd (ground (arith, no2, subst (λ x. among ch (i + 1) n x ≡ true) e h)) in
          still_there (j == c) (k.task j) (k1.task j) q.0
            (task-adopted c page child.0 one ws k j child.1 ne1) q.1 in
      let gone1 : k1.task (ch (i + suc n)) ≡ none =
        task-adopted c page child.0 one ws k (ch (i + suc n)) child.1 far
        ∙ ap (λ o. if ch (i + suc n) == c then orphan o else o) gone
        ∙ none_kept (ch (i + suc n) == c) in
      adopt_loop-step f i k k1 p (own, ch) cur mine (ground (arith, cnt))
        (adopt-adopted c page child.0 one ws k away1 child.1 first theirs)
      ∙ adopt_loop-missing f n (i + 1) page own p (next_parent c) (write ws one.child_cnt c) ch k1
          (omega (arith, l)) (omega (arith, cnt))
          (current-adopted c page child.0 one ws k (some p) ne away cur) mine
          (ne_one-adopted c page child.0 one ws k ne)
          (among-adopted c page child.0 one ws ch k (i + 1) n (ground (arith, no1)))
          (ground (arith, no2)) stays (parent-adopted c page child.0 one ws k) refl
          (subst (λ x. ch x ≢ 1) place far) (subst (λ x. k1.task (ch x) ≡ none) place gone1)
    where
      none_kept : (b : Bool) → (if b then orphan none else none) ≡ none
      none_kept true = refl
      none_kept false = refl

      next_parent : ℕ → Process
      next_parent c = record one {
        cpid = some (page, write ws one.child_cnt c);
        child_cnt = w64 (one.child_cnt + 1);
      }

among-prefix : (ch : Words) (i n m j : ℕ) → n ≤ m → among ch i m j ≡ false → among ch i n j ≡ false
among-prefix ch i zero m j l h = refl
among-prefix ch i (suc n) zero j l h = absurd (omega (arith, l))
among-prefix ch i (suc n) (suc m) j l h =
    let rest : among ch (i + 1) n j ≡ false =
      among-prefix ch (i + 1) n m j (omega (arith, l)) (ground (arith, h)) in
    ground (arith, h, rest)

among-at : (ch : Words) (i n m : ℕ) → n < m → among ch i m (ch (i + n)) ≡ true
among-at ch i n zero l = absurd (omega (arith, l))
among-at ch i zero (suc m) l =
    let here : i + zero ≡ i = omega arith in
    let same : ch (i + zero) ≡ ch i = ap ch here in ground (arith, same)
among-at ch i (suc n) (suc m) l =
    let place : i + suc n ≡ i + 1 + n = omega arith in
    let rest : among ch (i + 1) m (ch (i + 1 + n)) ≡ true =
      among-at ch (i + 1) n m (omega (arith, l)) in
    subst (λ x. (ch x == ch i) || among ch (i + 1) m (ch x) ≡ true) (sym place)
      (ground (arith, rest))

same_number : (c : ℕ) → (c == c) ≡ true
same_number c = ground arith

zero_plus : (n : ℕ) → 0 + n ≡ n
zero_plus n = omega arith

module _ {S : Type 0} (ops : Pages S) where
  reaped : ℕ → Tables S → S → Kernel S → Kernel S
  reaped c t s k = set_task c none (record k { tables = record t { pages = s } })

  reap-reaped :
      (c : ℕ) (child : Process) (k : Kernel S) (regs : Words) (t : Tables S) (s s' : S)
      → k.task c ≡ some child
      → delete_mapping ops child.pgd k.tables ≡ done t
      → ops.free_pages child.pgd t.pages ≡ done s
      → ops.free_pages child.self s ≡ done s'
      → reap ops c (k, regs)
        ≡ done (reaped c t s' k, write (write regs 10 child.pid) 11 child.exit_code)
  unfolding reap reaped
  reap-reaped c child k regs t s s' e d f g = rw (e, d, f, g, reap) refl

  -- A process all of whose children are there, and the first place at which one of them, a zombie or not, stands among its
  -- children; its tables and its pages can be freed. The step of SIGCHLD that takes the child away returns, and in the state
  -- that it leaves the adoption in `do_exit`, with more rounds than there are children before, follows a null pointer.
  pub reap-adopt_loop :
      (rounds n own page : ℕ) (p one child : Process) (ws ch : Words) (k : Kernel S) (regs : Words)
      (t : Tables S) (s s' : S)
      → Adoptable p one own page ws ch k
      → n < rounds
      → n < p.child_cnt
      → among ch 0 n (ch n) ≡ false
      → k.task (ch n) ≡ some child
      → delete_mapping ops child.pgd k.tables ≡ done t
      → ops.free_pages child.pgd t.pages ≡ done s
      → ops.free_pages child.self s ≡ done s'
      → (w : Kernel S × Words) × (reap ops (ch n) (k, regs) ≡ done w)
        × (adopt_loop rounds 0 w.0 ≡ fault)
  unfolding reaped set_task
  reap-adopt_loop rounds n own page p one child ws ch k regs t s s' a l m fresh e d f g =
      let listed : among ch 0 p.child_cnt (ch n) ≡ true =
        subst (λ x. among ch 0 p.child_cnt (ch x) ≡ true) (zero_plus n)
          (among-at ch 0 n p.child_cnt m) in
      let prefix : (j : ℕ) → among ch 0 p.child_cnt j ≡ false → among ch 0 n j ≡ false =
        λ j h. among-prefix ch 0 n p.child_cnt j (omega (arith, m)) h in
      let ne_one : ch n ≢ 1 =
        λ h. absurd (ground (arith, a.not_one, ap (among ch 0 p.child_cnt) h, listed)) in
      let ne_self : k.current ≢ ch n =
        λ h. absurd (ground (arith, a.not_self, ap (among ch 0 p.child_cnt) h, listed)) in
      let whole : (j : ℕ) → among ch 0 n j ≡ true → among ch 0 p.child_cnt j ≡ true = λ j h.
        elim (Bool-cases (among ch 0 p.child_cnt j)) [
          | inl y ↦ y
          | inr y ↦ absurd (ground (arith, h, prefix j y))
        ] in
      let stays : (j : ℕ)
          → among ch 0 n j ≡ true
          → (q : Process) × ((reaped (ch n) t s' k).task j ≡ some q) =
        λ j h.
          let q : (q : Process) × (k.task j ≡ some q) = a.there j (whole j h) in
          let ne : j ≢ ch n = λ y. absurd (ground (arith, fresh, ap (among ch 0 n) y, h)) in
          (q.0, rw (ne→== j (ch n) ne) q.1) in
      (
        (reaped (ch n) t s' k, write (write regs 10 child.pid) 11 child.exit_code),
        reap-reaped (ch n) child k regs t s s' e d f g,
        adopt_loop-missing rounds n 0 page own p one ws ch (reaped (ch n) t s' k) l
            (omega (arith, m)) (rw (ne→== k.current (ch n) ne_self) a.here) a.mine a.ne_one
            (prefix k.current a.not_self) (prefix 1 a.not_one) stays
            (rw (ne→== 1 (ch n) (λ h. ne_one (sym h))) a.first) a.theirs
            (subst (λ x. ch x ≢ 1) (sym (zero_plus n)) ne_one)
            (subst (λ x. (reaped (ch n) t s' k).task (ch x) ≡ none) (sym (zero_plus n))
              (rw (same_number (ch n)) refl)),
      )
