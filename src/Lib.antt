-- ===== src/Lib.antt =====
-- zju-sys3-sp25-kernel: a RISC-V kernel with a buddy page allocator, a scheduler, virtual memory areas,
-- page tables, signals, a FAT32 file system and a small C library. This library models its logic.
--
-- How the parts interact. mm hands out pages to all others. proc keeps the table of tasks, chooses the next
-- one in `schedule`, and keeps for each task a list of virtual memory areas in the page of its `mm_struct`.
-- A page fault looks its address up with `find_vma`. A system call on files goes from ksyscalls through the
-- table of descriptors to fs, and from there to fat32 and the block device.
--
-- Files.
-- Base: native numbers, the words of 64 bits, bit operations, Boolean tests, and the outcomes `Run` of code
--   that can return, stop the machine, access memory that it must not, or leave its bounded loop.
-- Mm: arch/riscv/kernel/mm.c, each function under its own name. The state `Buddy` holds the array of the
--   tree and the reference counts. Mm.Block is the tree of blocks that the array stands for, Mm.Rep the
--   relation of the two, and Mm.Index the numbering of the nodes.
-- Proc.Sched: the scheduler of arch/riscv/kernel/proc.c. The array `task` is a function from slots to
--   optional tasks, and the register switch of entry.S is the change of the current slot.
-- Proc.Vma: find_vma, do_mmap, remove_vma and copy_mm of the same file. A pointer to a slot is its number
--   from 1 on in the page of its `mm_struct`, and 0 is NULL; copy_mm takes it for an address, adds the distance of the
--   two pages, and reads it as a number again. Proc.Vma.Chain relates the links to a list of slots.
-- Str: lib/string.c on a memory of bytes.
-- Fs: fs/fs.c and the calls on files of arch/riscv/kernel/ksyscalls.c. The table of descriptors is a function
--   from numbers to entries; the services of fs/fat32.c, which may fault, are the interface Fs.Volume, and what
--   the function pointers of a file do is the interface Fs.Calls.Operations.
-- Vm: arch/riscv/kernel/vm.c, on a store of tables. A table is known by its virtual address; the page allocator
--   is the interface Vm.Pages. Vm.Shape says that the tables are a tree, and its children that a new table keeps it
--   one; Vm.Rounds are the loops over a range, Vm.Map and Vm.Unmap their two uses, Vm.Walk what the walk finds;
--   Vm.Range.Supply is what mapping asks of the allocator, Vm.Unmap.Tracks what unmapping asks, and Vm.Recycle an
--   allocator that hands out the pages given back, which meets both; Vm.Boot is the start-up, Vm.Delete the end of
--   a table.
-- Fat32: fs/fat32.c on a device that is an array of sectors, with the volume in place of the header and the
--   globals. Fat32.Contents is a file by the entries of the table; Fat32.Lookup are the paths and the directories;
--   a path is the list of its bytes before the NUL.
-- Trap: arch/riscv/kernel/trap.c. The page fault handler works on the areas of Proc.Vma, the tables of Vm and the
--   bytes of the data pages; Trap.Demand is a page that is not mapped yet and Trap.Share the copy on write;
--   Trap.Syscall has the table of the handlers and the system calls by their numbers.
-- Signal: arch/riscv/kernel/signal.c, on the table of the processes, the wait queue and the tables of Vm. A process
--   is its task_struct without the saved registers.
-- Life: do_exit, do_wait and wake_up_process of arch/riscv/kernel/proc.c, and sys_waitpid of ksyscalls.c, on the
--   state of Signal; schedule is the one of Proc.Sched on what it sees of that state. Life.Release unmaps the areas,
--   Life.Adopt is the adoption, Life.Stages what the process gives up, Life.Notify the news to the parent, and
--   Life.Exit all of them in their order.
-- Munmap: do_munmap and to_vm_flags of arch/riscv/kernel/proc.c, sys_mmap and sys_munmap of ksyscalls.c, on the
--   areas of Proc.Vma and the tables of Vm.
-- Malloc: user/src/malloc.c, with a slab and a block known by their addresses and the kernel's mmap as the interface
--   Malloc.System; a write through a NULL pointer is a fault.
--
-- Bounds and fuel. Loops over the nodes of the buddy tree have 64 rounds, since the tree of 2^d pages has
-- d + 1 <= 63 levels. Loops over the areas have 57 rounds, since a page has 56 slots. Each theorem that says
-- that a function returns says with it that the rounds are enough.
-- strlen and strcpy take the number of rounds as an argument.
-- The loops of fat32.c that follow a chain of clusters take the number of rounds as an argument; the theorems
-- ask for more rounds than the chain, or the read, has clusters; so does the search of the children in
-- signal.c, and the adoption in do_exit. The loops of vm.c run over the entries of a table.
--
-- Not modelled: printk and the other output, the assembly of head.S and entry.S, the SBI calls and the virtio
-- driver, which are input and output; the parts of the C library that come from musl, formatted output and input
-- among them; and, of the repository's own logic, fork, exec, the start of the first tasks, the listing of
-- directories in fs/fat32.c, fs/mbr.c, and the shell of the user programs.
pub mod Base
pub mod Fat32
pub mod Fs
pub mod Life
pub mod Malloc
pub mod Munmap
pub mod Mm
pub mod Proc
pub mod Signal
pub mod Str
pub mod Vm
pub mod Trap
