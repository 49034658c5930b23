-- ===== src/Lib.antt =====
-- A model of the kernel code of this repository: the xv6 files of the labs on page tables, traps
-- and system calls, with theorems that show what the code does.
--
-- The parts and their files. The allocator gives pages out; vm.c builds page tables of them and
-- copies between kernel and user memory; proc.c keeps the table of processes, each with a page
-- table and a trapframe; trap.c enters the kernel, counts timer ticks and the alarm of a process,
-- and calls syscall.c, which reads arguments from the trapframe and calls a handler of sysproc.c.
-- - Kernel.antt: the state that these share (memory, free list, processes, ticks) and the monad of
--   the code over it: a run ends with a result and a state, in a panic, or out of fuel. `Proc` is
--   struct proc of Lab_traps/proc.h. Kernel/Memory: words, bytes and pages of memory, and
--   Kernel/Memory/Bytes: its bytes. Kernel/Returns, Kernel/Ends and Kernel/Locks: total correctness,
--   termination, and which locks a trace holds. Kernel/Ensures and Kernel/Keeps: partial
--   correctness, and code that leaves the processes alone and gives its locks back. Kernel/Holding:
--   the locks that code holds when it returns.
-- - Layout.antt: the constants of memlayout.h and param.h and the addresses that the linker sets,
--   which are not in the repository, as a record; `qemu` is one choice of them. `Extern` holds the
--   functions of the file system and of string.c that the code calls.
-- - Riscv.antt: the macros of Lab_page_tables/riscv.h (PGROUNDUP, PX, PA2PTE and so on).
--   Riscv/Registers: the registers of Lab_traps/riscv.h, with the instructions as parameters.
-- - Kalloc.antt: Lab_syscall/kalloc.c (kinit, freerange, kfree, kalloc, freemem).
-- - Vm/: Lab_page_tables/vm.c. Walk: walk, walkaddr. Map: mappages, kvmmap, uvmunmap, uvmclear.
--   User: uvmcreate, uvminit, uvmalloc, uvmdealloc, freewalk, uvmfree, uvmcopy. Copy: copyout,
--   copyin, copyinstr; Copy/Seen is user memory as user code sees it, and Copy/Sent copies one
--   after another. Boot: kvmmake, kvminit, kvminithart. Print: vmprint.
-- - Proc/: Lab_traps/proc.c. Table: allocpid, allocproc, freeproc and the page tables of processes.
--   Life: userinit, growproc, fork, exit and the copies. Sleep: wakeup, kill, reparent. Switch:
--   sched, yield, sleep and a pass of scheduler. Wait: wait. Print: procdump. Current: cpuid,
--   mycpu, myproc, forkret. Usyscall: what Lab_page_tables/proc.c has otherwise. Count: nproc of
--   Lab_syscall/proc.c.
-- - Trap.antt: Lab_traps/trap.c. Syscall.antt: Lab_traps/syscall.c. Syscall/Dispatch: its
--   table of handlers, in which those of sysfile.c are a parameter. Syscall/Handlers:
--   Lab_traps/sysproc.c. Printf.antt: Lab_traps/printf.c.
-- - Exec.antt: Lab_page_tables/exec.c. Pgaccess.antt: sys_pgaccess of Lab_page_tables/sysproc.c.
-- - Tracing.antt: what Lab_syscall/syscall.c and sysproc.c have for trace and sysinfo.
--   Tracing/Process: allocproc, freeproc and fork of Lab_syscall/proc.c.
-- - Modules named for a property (Kalloc/Boot, Vm/Map/Unmap, Trap/Alarm and so on) hold its proof.
-- - Programs/: Lab_util/primes.c, find.c and xargs.c.
-- - Base.antt and its children: tests, lists and their lemmas. Tests/: the theorems at concrete
--   states.
--
-- How the code is read. Memory is a function from addresses to 64-bit words, read at multiples
-- of 8; bytes are parts of words. A uint64 keeps its wrap-around (`% 2 ^ 64`); an int is its
-- 32-bit pattern; masks and shifts are `%` and `/`. A pointer into the array `proc` is an index,
-- and myproc() is an argument `me`. Calls whose effect lies outside the repository (locks, the
-- console, files, control registers, the context switch) are recorded in the order of their
-- happening in `trace`; the values that a register has when it is read are the records Regs and
-- Cpu, and the interrupt handlers of the devices are the record Devices. One hart runs; what
-- other harts and processes do while the process sleeps or is switched away is the argument
-- `swtch` of Cpu.
--
-- Loops. A loop over pages below MAXVA has `page_fuel` = 2 ^ 26 + 1 rounds: walk panics at MAXVA
-- = 2 ^ 38, so no loop needs more. A copy has a round for each byte and one more, freerange a
-- round for each page below its end, freemem one for each page of physical memory, freewalk and
-- vmprint the three levels of a page table, loadseg two rounds more than its segment has whole
-- pages (only the counter of a segment of nearly 4 GB wraps around and goes on), printint the 32
-- binary digits of a uint, and the sieve a round for each process of its chain. find makes 513
-- nested calls at most, since every one is on a longer path and no path of 512 bytes is
-- searched. wait, sys_sleep and backtrace have no bound in the code; their rounds are an
-- argument. The scheduler's endless loop is given by its single pass.
--
-- Not modelled: pingpong.c and sleep.c of Lab_util, which are straight lines of system calls whose
-- behaviour is not in the repository; what the files of one lab repeat of another lab's; and the
-- headers of declarations. What csrr, csrw and mv do to a hart is a parameter of the accessors.
pub mod Base
pub mod Exec
pub mod Kernel
pub mod Kalloc
pub mod Layout
pub mod Printf
pub mod Programs
pub mod Pgaccess
pub mod Proc
pub mod Riscv
pub mod Syscall
mod Tests
pub mod Tracing
pub mod Trap
pub mod Vm
