-- ===== src/Life/Exit.antt =====
-- `do_exit` of arch/riscv/kernel/proc.c as a whole, up to the choice of the next process.
use zju_sys3_sp25_kernel.Base.{
  ℕ, ◌+◌, ◌%◌, ◌^◌, ◌≤◌, ◌<◌, ◌≡◌, ◌≢◌, true, false, if◌then◌else◌, List, none, some, Words,
}
use zju_sys3_sp25_kernel.Base.Bits.{bit}
use zju_sys3_sp25_kernel.Fs.{Files}
use zju_sys3_sp25_kernel.Proc.Sched.{running, zombie}
use zju_sys3_sp25_kernel.Proc.Vma.{MmStruct}
use zju_sys3_sp25_kernel.Proc.Vma.Chain.{IsMm}
use zju_sys3_sp25_kernel.Vm.{Pages, Tables, walk_page_table}
use zju_sys3_sp25_kernel.Vm.Shape.{Place, Shape}
use zju_sys3_sp25_kernel.Vm.Unmap.{numbered}
use zju_sys3_sp25_kernel.Signal.{Process, SignalStruct, Kernel}
use zju_sys3_sp25_kernel.Life.{mark_zombie}
use zju_sys3_sp25_kernel.Life.Adopt.{among, orphan, Adoptable}
use zju_sys3_sp25_kernel.Life.Release.{Ordered, cost, covered}
use zju_sys3_sp25_kernel.Life.Stages.{Freeable, Turned}
use zju_sys3_sp25_kernel.Life.Notify.{awaited}

-- The process behind the release of its areas.
abbrev unmapped : ℕ → Process → Process
unmapped status p = record (mark_zombie status p) { mm = none }

module _ {S : Type 0} (ops : Pages S) (H : (ℕ → ℕ) → ℕ → S → (ℕ → ℕ) → Type 0) where
  -- A process that can exit: its parent and process 1 are there, its children too, and its areas are ranges of the user
  -- half, in a tree of tables whose entries the allocator knows.
  pub record Ready (p one parent : Process) (own page : ℕ) (ws ch : Words) (mm : MmStruct)
      (ps fs : List ℕ) (fds : ℕ × Files) (g gp : SignalStruct) (at : ℕ → Place) (k : Kernel S)
      : Type 0 where
    pub family : Adoptable p one own page ws ch k
    pub number : p.pid ≡ k.current
    pub areas : p.mm ≡ some mm
    pub listed : IsMm mm ps fs
    pub ordered : Ordered mm.slot ps
    pub shape : Shape k.tables.mem p.pgd at
    pub supply :
        H (numbered k.tables.mem p.pgd) (cost mm.slot ps + 0) k.tables.pages (λ q. (at q).level)
    pub open_files : p.files ≡ some fds
    pub signals : p.signal ≡ some g
    pub free_mm : (entries : ℕ → ℕ) → Freeable ops (H entries) mm.self
    pub free_children : (entries : ℕ → ℕ) → Freeable ops (H entries) own
    pub free_files : (entries : ℕ → ℕ) → Freeable ops (H entries) fds.0
    pub free_signal : (entries : ℕ → ℕ) → Freeable ops (H entries) g.self
    pub father : k.task p.fpid ≡ some parent
    pub father_signals : parent.signal ≡ some gp
    pub small : p.fpid < 2 ^ 31
    pub within : p.fpid ≤ k.num_tasks
    pub other : p.fpid ≢ p.pid
    pub not_child : among ch 0 p.child_cnt p.fpid ≡ false

  -- What the process leaves behind.
  pub record Left (p parent : Process) (status : ℕ) (mm : MmStruct) (ps : List ℕ) (ch : Words)
      (k k' : Kernel S) : Type 0 where
    pub self : Process
    pub here : k'.task p.pid ≡ some self
    pub dead : self.state ≡ zombie
    pub code : self.exit_code ≡ status % 2 ^ 8
    pub nothing : (self.mm ≡ none) × (self.cpid ≡ none) × (self.files ≡ none) × (self.signal ≡ none)
    pub walks :
        (a : ℕ)
        → walk_page_table k'.tables.mem p.pgd a
          ≡ (if covered mm.slot ps a then none else walk_page_table k.tables.mem p.pgd a)
    pub father : Process
    pub pending : SignalStruct
    pub told : k'.task p.fpid ≡ some father
    pub signal : (father.signal ≡ some pending) × (bit 17 pending.pending ≡ 1)
    pub wakes : father.state ≡ (if awaited p k then running else parent.state)
    pub orphans : (j : ℕ) → among ch 0 p.child_cnt j ≡ true → k'.task j ≡ orphan (k.task j)
    pub others :
        (j : ℕ)
        → j ≢ p.pid
        → j ≢ p.fpid
        → j ≢ 1
        → among ch 0 p.child_cnt j ≡ false
        → k'.task j ≡ k.task j

  -- The state after the areas are released.
  record Unmapped (p : Process) (status : ℕ) (mm : MmStruct) (ps : List ℕ) (k k1 : Kernel S)
      : Type 0 where
    tables : Tables S
    level : ℕ → ℕ
    turn : Turned (unmapped status p) (record k { tables = tables }) k1
    supply : H (numbered tables.mem p.pgd) 0 k1.tables.pages level
    walks :
        (a : ℕ)
        → walk_page_table tables.mem p.pgd a
          ≡ (if covered mm.slot ps a then none else walk_page_table k.tables.mem p.pgd a)
