-- ===== src/Tracing.antt =====
-- Lab_syscall/syscall.c and sysproc.c: the system calls trace and sysinfo, and the dispatch that
-- prints the traced calls. Arguments are read as in Syscall.antt.
pub mod Process
pub mod Slots
pub mod Files
pub mod Forked
pub mod Line
pub mod Traced
use learning_mits.Base.{
  ℕ, zero, suc, ◌+◌, ◌*◌, Bool, true, false, Option, none, some, List, [], ◌∷◌, ◌==◌, update,
  if◌then◌else◌,
}
use learning_mits.Kernel.{
  Kernel, M, success, failure, pure, ◌>>=◌, ◌>>◌, when, modify, gets, acquire, release, proc_lock,
}
use learning_mits.Kernel.Memory.{load, store}
use learning_mits.Kalloc.{freemem}
use learning_mits.Layout.{Layout}
use learning_mits.Printf.{codes, c_string, print, int_arg, str_arg}
use learning_mits.Proc.Count.{nproc}
use learning_mits.Proc.Life.{a_off}
use learning_mits.Riscv.{u32, bit}
use learning_mits.Syscall.{argint, argaddr, minus_one64}
use learning_mits.Vm.Copy.{copyout}

-- The names at SYS_fork = 1 to SYS_sysinfo = 23; the entry 0 is null.
abbrev pub syscall_names : List (Option (List ℕ))
syscall_names =
    none
    ∷ some (codes "fork")
    ∷ some (codes "exit")
    ∷ some (codes "wait")
    ∷ some (codes "pipe")
    ∷ some (codes "read")
    ∷ some (codes "kill")
    ∷ some (codes "exec")
    ∷ some (codes "fstat")
    ∷ some (codes "chdir")
    ∷ some (codes "dup")
    ∷ some (codes "getpid")
    ∷ some (codes "sbrk")
    ∷ some (codes "sleep")
    ∷ some (codes "uptime")
    ∷ some (codes "open")
    ∷ some (codes "write")
    ∷ some (codes "mknod")
    ∷ some (codes "unlink")
    ∷ some (codes "link")
    ∷ some (codes "mkdir")
    ∷ some (codes "close")
    ∷ some (codes "trace")
    ∷ some (codes "sysinfo")
    ∷ []

-- `syscall_names[num]`
unfoldable pub name_of : List (Option (List ℕ)) → ℕ → Option (List ℕ)
name_of [] num = none
name_of (s ∷ names) zero = s
name_of (s ∷ names) (suc num) = name_of names num

module _ ⦃l : Layout⦄ where
  unfoldable pub sys_trace : ℕ → M ℕ
  sys_trace me = do
    n ← argint me 0
    acquire (proc_lock me)
    modify (λ k. record k { trace_mask = update k.trace_mask me n })
    release (proc_lock me)
    pure 0

  -- `sysinfo` is struct sysinfo of kernel/sysinfo.h as bytes, from its freemem and its nproc.
  unfoldable pub sys_sysinfo : (ℕ → ℕ → List ℕ) → ℕ → M ℕ
  sys_sysinfo sysinfo me = do
    p ← argaddr me 0
    free ← freemem
    n ← nproc
    mp ← gets (λ k. k.proc me)
    r ← copyout mp.pagetable p (sysinfo free n)
    elim r [ success ↦ pure 0 | failure ↦ pure minus_one64 ]

-- The two branches of syscall; the line is printed after the call has run.
unfoldable pub run_traced : ℕ → ℕ → Option (M ℕ) → M (Unit {0})
unfolding name_of
run_traced me num (some handler) = do
  res ← handler
  p ← gets (λ k. k.proc me)
  store (p.trapframe + a_off 0) res
  mask ← gets (λ k. k.trace_mask me)
  when (bit num mask) (
      print "%d: syscall %s -> %d\n"
        (int_arg p.pid ∷ str_arg (name_of syscall_names num) ∷ int_arg (u32 res) ∷ []))
run_traced me num none = do
  p ← gets (λ k. k.proc me)
  print "%d %s: unknown sys call %d\n"
      (int_arg p.pid ∷ str_arg (some (c_string p.name)) ∷ int_arg num ∷ [])
  store (p.trapframe + a_off 0) minus_one64

-- `table` is `syscalls`: `none` where an entry is null or beyond the end, which a negative number is
-- too. `num` is an int.
unfoldable pub syscall : (ℕ → Option (M ℕ)) → ℕ → M (Unit {0})
unfolding run_traced
syscall table me = do
  p ← gets (λ k. k.proc me)
  a7 ← load (p.trapframe + a_off 7)
  run_traced me (u32 a7) (if u32 a7 == 0 then none else table (u32 a7))
