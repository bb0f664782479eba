-- ===== src/Life/Stages.antt =====
-- The parts of `do_exit` in arch/riscv/kernel/proc.c that give up what belongs to the process alone.
use zju_sys3_sp25_kernel.Base.{
  ℕ, ◌+◌, ◌-◌, ◌≡◌, ◌≢◌, ◌∙◌, refl, sym, subst, arith, ◌==◌, if◌then◌else◌, none, some, Run, done,
  Words,
}
use zju_sys3_sp25_kernel.Fs.{Files, max_file_number}
use zju_sys3_sp25_kernel.Proc.Vma.{MmStruct, nr_vma_slots}
use zju_sys3_sp25_kernel.Vm.{Pages, Tables}
use zju_sys3_sp25_kernel.Signal.{Process, SignalStruct, Kernel, set_task}
use zju_sys3_sp25_kernel.Life.{
  with_current, write_current, free, release_loop, release_areas, drop_children, close_loop,
  close_files, drop_files, drop_signal, address,
}

-- The page can be given back, and the allocator keeps the pages it has.
abbrev pub Freeable : {S : Type 0} → Pages S → (ℕ → S → (ℕ → ℕ) → Type 0) → ℕ → Type 0
Freeable {S} ops P p =
    (n : ℕ) (s : S) (level : ℕ → ℕ)
    → P n s level
    → (s' : S) × (ops.free_pages p s ≡ done s') × P n s' level

-- The process without its children, its open files and its signals.
abbrev pub bare : Process → Process
bare p = record p { cpid = none; child_cnt = 0; files = none; signal = none }

module _ {S : Type 0} where
  -- The current process is `q` now; the other processes, the queue and the tables are as before.
  pub record Turned (q : Process) (k k' : Kernel S) : Type 0 where
    pub current : k'.current ≡ k.current
    pub num_tasks : k'.num_tasks ≡ k.num_tasks
    pub wait_queue : k'.wait_queue ≡ k.wait_queue
    pub mem : k'.tables.mem ≡ k.tables.mem
    pub here : k'.task k.current ≡ some q
    pub others : (j : ℕ) → j ≢ k.current → k'.task j ≡ k.task j

  pub Turned-trans :
      (q r : Process) (k k' k2 : Kernel S) → Turned q k k' → Turned r k' k2 → Turned r k k2
  Turned-trans q r k k' k2 a b = record {
    current = b.current ∙ a.current;
    num_tasks = b.num_tasks ∙ a.num_tasks;
    wait_queue = b.wait_queue ∙ a.wait_queue;
    mem = b.mem ∙ a.mem;
    here = subst (λ c. k2.task c ≡ some r) a.current b.here;
    others = λ j n. b.others j (λ e. n (e ∙ a.current)) ∙ a.others j n;
  }

  -- The process at the number of the current one.
  pub here_now : (q : Process) (k k' : Kernel S) → Turned q k k' → k'.task k'.current ≡ some q
  here_now q k k' a = subst (λ c. k'.task c ≡ some q) (sym a.current) a.here

  pub with_current-some :
      (k : Kernel S) (p : Process) (f : Process → Run (Kernel S))
      → k.task k.current ≡ some p
      → with_current k f ≡ f p
  unfolding with_current
  with_current-some k p f e = rw (with_current, e) refl

  -- The state with the process written, and the pages of the allocator.
  pub turned : Process → S → Kernel S → Kernel S
  turned q s k = record k {
    task = λ j. if j == k.current then some q else k.task j;
    tables = record k.tables { pages = s };
  }

  pub turned-Turned : (q : Process) (s : S) (k : Kernel S) → Turned q k (turned q s k)
  unfolding turned
  turned-Turned q s k = record {
    current = refl;
    num_tasks = refl;
    wait_queue = refl;
    mem = refl;
    here = ground arith;
    others = λ j n. ground (arith, n);
  }

  pub pages-turned : (q : Process) (s : S) (k : Kernel S) → (turned q s k).tables.pages ≡ s
  unfolding turned
  pages-turned q s k = refl

module _ {S : Type 0} (ops : Pages S) where
  drop_children-turned :
      (p : Process) (k : Kernel S) (cs : ℕ × Words) (s : S)
      → p.cpid ≡ some cs
      → ops.free_pages cs.0 k.tables.pages ≡ done s
      → drop_children ops p k ≡ done (turned (record p { cpid = none; child_cnt = 0 }) s k)
  unfolding drop_children free write_current set_task turned address
  drop_children-turned p k cs s e f = rw (e, f) refl

  drop_files-turned :
      (p : Process) (k : Kernel S) (s : S)
      → ops.free_pages (address p.files) k.tables.pages ≡ done s
      → drop_files ops p k ≡ done (turned (record p { files = none }) s k)
  unfolding drop_files free write_current set_task turned
  drop_files-turned p k s e = rw e refl

  drop_signal-turned :
      (p : Process) (k : Kernel S) (g : SignalStruct) (s : S)
      → p.signal ≡ some g
      → ops.free_pages g.self k.tables.pages ≡ done s
      → drop_signal ops p k ≡ done (turned (record p { signal = none }) s k)
  unfolding drop_signal free write_current set_task turned
  drop_signal-turned p k g s e f = rw (drop_signal, e, f) refl

  close_files-turned :
      (p : Process) (k : Kernel S) (fs : ℕ × Files)
      → p.files ≡ some fs
      → close_files p k
        ≡ done (
            turned
              (record p { files = some (fs.0, close_loop (max_file_number - 3) 3 fs.1) })
              k.tables.pages
              k)
  unfolding close_files write_current set_task turned
  close_files-turned p k fs e = rw (close_files, e) refl

  pub release_areas-turned :
      (p : Process) (mm mm' : MmStruct) (k : Kernel S) (t : Tables S) (s : S)
      → p.mm ≡ some mm
      → release_loop (nr_vma_slots + 1) ops p.pgd mm mm.mmap k.tables ≡ done (mm', t)
      → ops.free_pages mm.self t.pages ≡ done s
      → release_areas ops p k ≡ done (turned (record p { mm = none }) s (record k { tables = t }))
  unfolding release_areas free write_current set_task turned
  release_areas-turned p mm mm' k t s e f g = rw (release_areas, e, f, g) refl

  -- The four parts after the adoption: they return one after the other.
  pub record GivenUp (p : Process) (k k6 : Kernel S) : Type 0 where
    pub k3 : Kernel S
    pub k4 : Kernel S
    pub k5 : Kernel S
    pub children : with_current k (λ q. drop_children ops q k) ≡ done k3
    pub closed : with_current k3 (λ q. close_files q k3) ≡ done k4
    pub files : with_current k4 (λ q. drop_files ops q k4) ≡ done k5
    pub signal : with_current k5 (λ q. drop_signal ops q k5) ≡ done k6
    pub turn : Turned (bare p) k k6

  module _ (P : ℕ → S → (ℕ → ℕ) → Type 0) where
    pub give_up-GivenUp :
        (p : Process) (k : Kernel S) (own : ℕ) (ch : Words) (fs : ℕ × Files) (g : SignalStruct)
        (n : ℕ) (level : ℕ → ℕ)
        → k.task k.current ≡ some p
        → p.cpid ≡ some (own, ch)
        → p.files ≡ some fs
        → p.signal ≡ some g
        → Freeable ops P own
        → Freeable ops P fs.0
        → Freeable ops P g.self
        → P n k.tables.pages level
        → (k6 : Kernel S) × GivenUp p k k6
    give_up-GivenUp p k own ch fs g n level e mine opens sig f1 f2 f3 give =
        let s1 : (s : S) × (ops.free_pages own k.tables.pages ≡ done s) × P n s level =
          f1 n k.tables.pages level give in
        let p3 : Process = record p { cpid = none; child_cnt = 0 } in
        let k3 : Kernel S = turned p3 s1.0 k in
        let t3 : Turned p3 k k3 = turned-Turned p3 s1.0 k in
        let fs4 : ℕ × Files = (fs.0, close_loop (max_file_number - 3) 3 fs.1) in
        let p4 : Process = record p3 { files = some fs4 } in
        let k4 : Kernel S = turned p4 k3.tables.pages k3 in
        let t4 : Turned p4 k3 k4 = turned-Turned p4 k3.tables.pages k3 in
        let at4 : s1.0 ≡ k4.tables.pages =
          sym (pages-turned p4 k3.tables.pages k3 ∙ pages-turned p3 s1.0 k) in
        let s2 : (s : S) × (ops.free_pages fs.0 k4.tables.pages ≡ done s) × P n s level =
          f2 n k4.tables.pages level (subst (λ x. P n x level) at4 s1.2) in
        let p5 : Process = record p3 { files = none } in
        let k5 : Kernel S = turned p5 s2.0 k4 in
        let t5 : Turned p5 k4 k5 = turned-Turned p5 s2.0 k4 in
        let s3 : (s : S) × (ops.free_pages g.self k5.tables.pages ≡ done s) × P n s level =
          f3 n k5.tables.pages level
            (subst (λ x. P n x level) (sym (pages-turned p5 s2.0 k4)) s2.2) in
        let k6 : Kernel S = turned (bare p) s3.0 k5 in
        let t6 : Turned (bare p) k5 k6 = turned-Turned (bare p) s3.0 k5 in
        (
          k6,
          record {
            k3 = k3;
            k4 = k4;
            k5 = k5;
            children =
                with_current-some k p _ e ∙ drop_children-turned p k (own, ch) s1.0 mine s1.1;
            closed =
                with_current-some k3 p3 _ (here_now p3 k k3 t3) ∙ close_files-turned p3 k3 fs opens;
            files =
                with_current-some k4 p4 _ (here_now p4 k3 k4 t4)
                ∙ drop_files-turned p4 k4 s2.0 (unfold address in s2.1);
            signal =
                with_current-some k5 p5 _ (here_now p5 k4 k5 t5)
                ∙ drop_signal-turned p5 k5 g s3.0 sig s3.1;
            turn =
                Turned-trans p3 (bare p) k k3 k6 t3
                  (Turned-trans p4 (bare p) k3 k4 k6 t4 (Turned-trans p5 (bare p) k4 k5 k6 t5 t6));
          },
        )
