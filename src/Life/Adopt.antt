-- ===== src/Life/Adopt.antt =====
-- The adoption in `do_exit` of arch/riscv/kernel/proc.c: the children go to process 1.
use zju_sys3_sp25_kernel.Base.{
  ℕ, zero, suc, ◌+◌, ◌-◌, ◌^◌, ◌<◌, ◌≡◌, ◌≢◌, ◌∙◌, sym, subst, refl, ap, arith, Bool, true, false,
  ◌&&◌, ◌||◌, ◌==◌, ltb, leb, ne→==, Bool-cases, inl, inr, if◌then◌else◌, w64, Option, none, some,
  done, Words, write,
}
use zju_sys3_sp25_kernel.Signal.{Process, Kernel, set_task}
use zju_sys3_sp25_kernel.Life.{adopt, adopt_loop, with_current}

-- Is `j` one of the `n` children from `i` on?
abbrev pub among : Words → ℕ → ℕ → ℕ → Bool
among ch i zero j = false
among ch i (suc n) j = (j == ch i) || among ch (i + 1) n j

-- The children of process 1 afterwards.
abbrev pub appended : Words → ℕ → Words → ℕ → ℕ → Words
appended ws c ch i zero = ws
appended ws c ch i (suc n) = appended (write ws c (ch i)) (c + 1) ch (i + 1) n

abbrev pub orphan : Option Process → Option Process
orphan none = none
orphan (some p) = some (record p { fpid = 1 })

-- The new children stand behind the old ones, in their order.
pub appended-at :
    (ws : Words) (c : ℕ) (ch : Words) (i n j : ℕ)
    → appended ws c ch i n j ≡ (if leb c j && ltb j (c + n) then ch (i + (j - c)) else ws j)
unfolding write
appended-at ws c ch i zero j = ground arith
appended-at ws c ch i (suc n) j =
    let rest : appended (write ws c (ch i)) (c + 1) ch (i + 1) n j ≡ (
        if leb (c + 1) j && ltb j (c + 1 + n)
        then ch (i + 1 + (j - (c + 1)))
        else write ws c (ch i) j) =
      appended-at (write ws c (ch i)) (c + 1) ch (i + 1) n j in
    elim (Bool-cases (leb (c + 1) j && ltb j (c + 1 + n))) [
      | inl e ↦
          let place : i + 1 + (j - (c + 1)) ≡ i + (j - c) = ground (arith, e) in
          ground (arith, rest, e, ap ch place)
      | inr e ↦ elim (Bool-cases (j == c)) [
        | inl f ↦
            let place : i + (j - c) ≡ i = ground (arith, f) in
            ground (arith, rest, e, f, ap ch place)
        | inr f ↦ ground (arith, rest, e, f)
      ]
    ]

-- The rest of the state is left alone.
pub record Beside {S : Type 0} (k k' : Kernel S) : Type 0 where
  pub current : k'.current ≡ k.current
  pub num_tasks : k'.num_tasks ≡ k.num_tasks
  pub wait_queue : k'.wait_queue ≡ k.wait_queue
  pub tables : k'.tables ≡ k.tables

-- The children `ch` from `i` on have process 1 as their parent, it has them behind its own, and no other process has
-- changed.
pub record Adopted {S : Type 0} (one : Process) (page : ℕ) (ws ch : Words) (i n : ℕ)
    (k k' : Kernel S) : Type 0 where
  pub beside : Beside k k'
  pub others :
      (j : ℕ) → j ≢ 1 → k'.task j ≡ (if among ch i n j then orphan (k.task j) else k.task j)
  pub parent :
      k'.task 1
      ≡ some (record one {
        cpid = some (page, appended ws one.child_cnt ch i n);
        child_cnt = one.child_cnt + n;
      })

orphan_twice :
    (b c : Bool) (o : Option Process)
    → (if c then orphan (if b then orphan o else o) else (if b then orphan o else o))
      ≡ (if b || c then orphan o else o)
orphan_twice true true none = refl
orphan_twice true true (some p) = refl
orphan_twice true false o = refl
orphan_twice false true o = refl
orphan_twice false false o = refl

abbrev one_next : ℕ → ℕ → Words → Process → Process
one_next c page ws one = record one {
  cpid = some (page, write ws one.child_cnt c);
  child_cnt = one.child_cnt + 1;
}

pub still_there :
    (b : Bool) (o o' : Option Process) (q : Process)
    → o' ≡ (if b then orphan o else o)
    → o ≡ some q
    → (r : Process) × (o' ≡ some r)
still_there true o o' q e f = (record q { fpid = 1 }, e ∙ ap orphan f)
still_there false o o' q e f = (q, e ∙ f)

module _ {S : Type 0} where
  pub adopted : ℕ → Process → Process → ℕ → Words → Kernel S → Kernel S
  adopted c child one page ws k =
      set_task 1
        (some (record one {
          cpid = some (page, write ws one.child_cnt c);
          child_cnt = w64 (one.child_cnt + 1);
        }))
        (set_task c (some (record child { fpid = 1 })) k)

  pub adopt-adopted :
      (c page : ℕ) (child one : Process) (ws : Words) (k : Kernel S)
      → c ≢ 1
      → k.task c ≡ some child
      → k.task 1 ≡ some one
      → one.cpid ≡ some (page, ws)
      → adopt c k ≡ done (adopted c child one page ws k)
  unfolding adopt adopted set_task
  adopt-adopted c page child one ws k n e first own =
      let far : (1 == c) ≡ false = ne→== 1 c (λ h. n (sym h)) in rw (e, far, first, own, adopt) refl

  pub task-adopted :
      (c page : ℕ) (child one : Process) (ws : Words) (k : Kernel S) (j : ℕ)
      → k.task c ≡ some child
      → j ≢ 1
      → (adopted c child one page ws k).task j ≡ (if j == c then orphan (k.task j) else k.task j)
  unfolding adopted set_task
  task-adopted c page child one ws k j e n = elim (Bool-cases (j == c)) [
    | inl h ↦
        let same : j ≡ c = ground (arith, h) in
        rw (ne→== j 1 n, h) (sym (ap orphan (ap k.task same ∙ e)))
    | inr h ↦ rw (ne→== j 1 n, h) refl
  ]

  pub parent-adopted :
      (c page : ℕ) (child one : Process) (ws : Words) (k : Kernel S)
      → (adopted c child one page ws k).task 1
        ≡ some (record one {
          cpid = some (page, write ws one.child_cnt c);
          child_cnt = w64 (one.child_cnt + 1);
        })
  unfolding adopted set_task
  parent-adopted c page child one ws k = refl

  Beside-adopted :
      (c page : ℕ) (child one : Process) (ws : Words) (k : Kernel S)
      → Beside k (adopted c child one page ws k)
  unfolding adopted set_task
  Beside-adopted c page child one ws k = record {
    current = refl;
    num_tasks = refl;
    wait_queue = refl;
    tables = refl;
  }

  pub adopt_loop-step :
      (f i : ℕ) (k k' : Kernel S) (p : Process) (cs : ℕ × Words)
      → k.task k.current ≡ some p
      → p.cpid ≡ some cs
      → ltb i p.child_cnt ≡ true
      → adopt (cs.1 i) k ≡ done k'
      → adopt_loop (suc f) i k ≡ adopt_loop f (i + 1) k'
  unfolding adopt_loop with_current
  adopt_loop-step f i k k' p cs e own more now =
      rw (e, more, own, now, adopt_loop, with_current) refl

  adopt_loop-over :
      (f i : ℕ) (k : Kernel S) (p : Process)
      → k.task k.current ≡ some p
      → ltb i p.child_cnt ≡ false
      → adopt_loop (suc f) i k ≡ done k
  unfolding adopt_loop with_current
  adopt_loop-over f i k p e over = rw (e, over, adopt_loop, with_current) refl

  Adopted-none :
      (i page : ℕ) (one : Process) (ws ch : Words) (k : Kernel S)
      → k.task 1 ≡ some one
      → one.cpid ≡ some (page, ws)
      → Adopted one page ws ch i 0 k k
  Adopted-none i page one ws ch k first theirs = record {
    beside = record { current = refl; num_tasks = refl; wait_queue = refl; tables = refl };
    others = λ j n. refl;
    parent =
        first
        ∙ ap (λ (o : Option (ℕ × Words)). some (record one { cpid = o })) theirs
        ∙ ap (λ n. some (record one { cpid = some (page, ws); child_cnt = n })) (omega arith);
  }

  Adopted-next :
      (i n page : ℕ) (child one : Process) (ws ch : Words) (k k' : Kernel S)
      → k.task (ch i) ≡ some child
      → one.child_cnt + 1 < 2 ^ 64
      → Adopted
          (one_next (ch i) page ws one)
          page
          (write ws one.child_cnt (ch i))
          ch
          (i + 1)
          n
          (adopted (ch i) child one page ws k)
          k'
      → Adopted one page ws ch i (suc n) k k'
  Adopted-next i n page child one ws ch k k' e fits a =
      let b : Beside k (adopted (ch i) child one page ws k) =
        Beside-adopted (ch i) page child one ws k in
      record {
        beside = record {
          current = a.beside.current ∙ b.current;
          num_tasks = a.beside.num_tasks ∙ b.num_tasks;
          wait_queue = a.beside.wait_queue ∙ b.wait_queue;
          tables = a.beside.tables ∙ b.tables;
        };
        others = λ j ne.
            a.others j ne
            ∙ rw (task-adopted (ch i) page child one ws k j e ne)
                (orphan_twice (j == ch i) (among ch (i + 1) n j) (k.task j));
        parent =
            a.parent
            ∙ ap
                (λ c. some (record one {
                  cpid = some (
                    page,
                    appended (write ws one.child_cnt (ch i)) (one.child_cnt + 1) ch (i + 1) n,
                  );
                  child_cnt = c;
                }))
                (omega arith);
      }

  pub current-adopted :
      (c page : ℕ) (child one : Process) (ws : Words) (k : Kernel S) (o : Option Process)
      → k.current ≢ 1
      → k.current ≢ c
      → k.task k.current ≡ o
      → (adopted c child one page ws k).task (adopted c child one page ws k).current ≡ o
  unfolding adopted set_task
  current-adopted c page child one ws k o n m e = rw (ne→== k.current 1 n, ne→== k.current c m) e

  pub among-adopted :
      (c page : ℕ) (child one : Process) (ws ch : Words) (k : Kernel S) (i n : ℕ)
      → among ch i n k.current ≡ false
      → among ch i n (adopted c child one page ws k).current ≡ false
  unfolding adopted set_task
  among-adopted c page child one ws ch k i n e = e

  pub ne_one-adopted :
      (c page : ℕ) (child one : Process) (ws : Words) (k : Kernel S)
      → k.current ≢ 1
      → (adopted c child one page ws k).current ≢ 1
  unfolding adopted set_task
  ne_one-adopted c page child one ws k n = n

  -- The loop from child `i` on, of `n` that are left.
  pub adopt_loop-from :
      (f n i page own : ℕ) (p one : Process) (ws ch : Words) (k : Kernel S)
      → n < f
      → i + n ≡ p.child_cnt
      → k.task k.current ≡ some p
      → p.cpid ≡ some (own, ch)
      → k.current ≢ 1
      → among ch i n k.current ≡ false
      → among ch i n 1 ≡ false
      → ((j : ℕ) → among ch i n j ≡ true → (q : Process) × (k.task j ≡ some q))
      → k.task 1 ≡ some one
      → one.cpid ≡ some (page, ws)
      → one.child_cnt + n < 2 ^ 64
      → (k' : Kernel S) × (adopt_loop f i k ≡ done k') × Adopted one page ws ch i n k k'
  adopt_loop-from zero n i page own p one ws ch k l cnt cur mine ne no1 no2 there first theirs
        fits =
      absurd (omega (arith, l))
  adopt_loop-from (suc f) zero i page own p one ws ch k l cnt cur mine ne no1 no2 there first theirs
        fits =
      (
        k,
        adopt_loop-over f i k p cur (ground (arith, cnt)),
        Adopted-none i page one ws ch k first theirs,
      )
  adopt_loop-from (suc f) (suc n) i page own p one ws ch k l cnt cur mine ne no1 no2 there first
        theirs fits =
      let c : ℕ = ch i in
      let child : (q : Process) × (k.task c ≡ some q) = there c (ground arith) in
      let k1 : Kernel S = adopted c child.0 one page ws k in
      let far : c ≢ 1 = λ e. absurd (ground (arith, no2, e)) in
      let away : k.current ≢ c = λ e. absurd (ground (arith, no1, e)) in
      let counted : w64 (one.child_cnt + 1) ≡ one.child_cnt + 1 = omega (arith, fits) in
      let stays : (j : ℕ) → among ch (i + 1) n j ≡ true → (q : Process) × (k1.task j ≡ some q) =
        λ j h.
          let q : (q : Process) × (k.task j ≡ some q) = there j (ground (arith, h)) in
          let ne1 : j ≢ 1 =
            λ e. absurd (ground (arith, no2, subst (λ x. among ch (i + 1) n x ≡ true) e h)) in
          still_there (j == c) (k.task j) (k1.task j) q.0
            (task-adopted c page child.0 one ws k j child.1 ne1) q.1 in
      let rest : (k' : Kernel S) × (adopt_loop f (i + 1) k1 ≡ done k')
          × Adopted (one_next c page ws one) page (write ws one.child_cnt c) ch (i + 1) n k1 k' =
        adopt_loop-from f n (i + 1) page own p (one_next c page ws one) (write ws one.child_cnt c)
          ch k1 (omega (arith, l)) (omega (arith, cnt))
          (current-adopted c page child.0 one ws k (some p) ne away cur) mine
          (ne_one-adopted c page child.0 one ws k ne)
          (among-adopted c page child.0 one ws ch k (i + 1) n (ground (arith, no1)))
          (ground (arith, no2)) stays
          (parent-adopted c page child.0 one ws k
            ∙ ap
                (λ m.
                  some (record one { cpid = some (page, write ws one.child_cnt c); child_cnt = m }))
                counted)
          refl (omega (arith, fits)) in
      (
        rest.0,
        adopt_loop-step f i k k1 p (own, ch) cur mine (ground (arith, cnt))
              (adopt-adopted c page child.0 one ws k far child.1 first theirs)
            ∙ rest.1,
        Adopted-next i n page child.0 one ws ch k rest.0 child.1 (omega (arith, fits)) rest.2,
      )

  -- What the adoption needs: the children are other processes than this one and than 1, they are there, and process 1
  -- has room for them.
  pub record Adoptable (p one : Process) (own page : ℕ) (ws ch : Words) (k : Kernel S)
      : Type 0 where
    pub here : k.task k.current ≡ some p
    pub mine : p.cpid ≡ some (own, ch)
    pub ne_one : k.current ≢ 1
    pub not_self : among ch 0 p.child_cnt k.current ≡ false
    pub not_one : among ch 0 p.child_cnt 1 ≡ false
    pub there : (j : ℕ) → among ch 0 p.child_cnt j ≡ true → (q : Process) × (k.task j ≡ some q)
    pub first : k.task 1 ≡ some one
    pub theirs : one.cpid ≡ some (page, ws)
    pub fits : one.child_cnt + p.child_cnt < 2 ^ 64

  -- With more rounds than the process has children, all of them there and none of them itself or process 1: the adoption
  -- returns, their parent is process 1 then, which has them behind its own children, and all else is as before.
  pub adopt_loop-Adopted :
      (rounds own page : ℕ) (p one : Process) (ws ch : Words) (k : Kernel S)
      → p.child_cnt < rounds
      → Adoptable p one own page ws ch k
      → (k' : Kernel S) × (adopt_loop rounds 0 k ≡ done k')
        × Adopted one page ws ch 0 p.child_cnt k k'
  adopt_loop-Adopted rounds own page p one ws ch k l a =
      adopt_loop-from rounds p.child_cnt 0 page own p one ws ch k l (omega arith) a.here a.mine
        a.ne_one a.not_self a.not_one a.there a.first a.theirs a.fits
