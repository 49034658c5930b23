-- ===== src/Syscall/Handlers.antt =====
-- Lab_traps/sysproc.c: the system calls on processes, and the table of syscall.c.
use learning_mits.Base.{ℕ, zero, suc, not, Option, none, some, ◌==◌, ltb, if◌then◌else◌}
use learning_mits.Kernel.{
  ticks_chan, M, Status, success, failure, pure, ◌>>=◌, ◌>>◌, modify, modify_proc, gets, acquire,
  release, ticks_lock, proc_lock, out_of_fuel,
}
use learning_mits.Layout.{Layout, Extern}
use learning_mits.Printf.{backtrace}
use learning_mits.Riscv.{u32, sub64}
use learning_mits.Vm.User.{int_to_u64}
use learning_mits.Proc.Life.{copy_trapframe, growproc, fork, exit}
use learning_mits.Proc.Sleep.{kill}
use learning_mits.Proc.Switch.{Cpu, sleep}
use learning_mits.Proc.Wait.{wait}
use learning_mits.Syscall.{argint, argaddr, minus_one64}

abbrev pub of_status : Status → ℕ
of_status success = 0
of_status failure = minus_one64

-- A pid, or -1.
abbrev pub of_pid : Option ℕ → ℕ
of_pid none = minus_one64
of_pid (some pid) = int_to_u64 pid

module _ ⦃l : Layout⦄ where
  unfoldable pub sys_getpid : ℕ → M ℕ
  sys_getpid me = gets (λ k. int_to_u64 (k.proc me).pid)

  unfoldable pub sys_exit : Cpu → ℕ → M ℕ
  sys_exit cpu me = do n ← argint me 0; exit cpu me n; pure 0

  unfoldable pub sys_fork : Extern → ℕ → M ℕ
  sys_fork ext me = do r ← fork ext me; pure (of_pid r)

  -- `rounds` bounds the naps of wait.
  unfoldable pub sys_wait : Cpu → ℕ → ℕ → M ℕ
  sys_wait cpu rounds me = do p ← argaddr me 0; r ← wait cpu rounds me p; pure (of_pid r)

  unfoldable pub sys_sbrk : ℕ → M ℕ
  sys_sbrk me = do
    n ← argint me 0
    addr ← gets (λ k. u32 (k.proc me).sz)
    r ← growproc me n
    elim r [ failure ↦ pure minus_one64 | success ↦ pure (int_to_u64 addr) ]

  -- `ticks - ticks0 < n` compares unsigned numbers.
  unfoldable pub sleep_loop : Cpu → ℕ → ℕ → ℕ → ℕ → M ℕ
  sleep_loop cpu zero me ticks0 n = λ _. out_of_fuel
  sleep_loop cpu (suc rounds) me ticks0 n = do
    ticks ← gets (λ k. k.ticks)
    if not (ltb (u32 (sub64 ticks ticks0)) n) then (do release ticks_lock; pure 0) else (do
      p ← gets (λ k. k.proc me)
      if not (p.killed == 0)
          then (do release ticks_lock; pure minus_one64)
          else (do sleep cpu me ticks_chan ticks_lock; sleep_loop cpu rounds me ticks0 n))

  -- `fp` is what r_fp answers, and `frames` bounds the walk of backtrace.
  unfoldable pub sys_sleep : Cpu → ℕ → ℕ → ℕ → ℕ → M ℕ
  unfolding sleep_loop
  sys_sleep cpu rounds frames fp me = do
    n ← argint me 0
    backtrace frames fp
    acquire ticks_lock
    ticks0 ← gets (λ k. k.ticks)
    sleep_loop cpu rounds me ticks0 n

  unfoldable pub sys_kill : ℕ → M ℕ
  sys_kill me = do pid ← argint me 0; r ← kill pid; pure (of_status r)

  unfoldable pub sys_uptime : M ℕ
  sys_uptime = do acquire ticks_lock; xticks ← gets (λ k. k.ticks); release ticks_lock; pure xticks

  unfoldable pub sys_sigalarm : ℕ → M ℕ
  unfolding argint argaddr
  sys_sigalarm me = do
    ticks ← argint me 0
    handler ← argaddr me 1
    acquire (proc_lock me)
    modify_proc me
        (λ p. record p { alarmticks = ticks; alarmremain = ticks; alarmhandler = handler })
    release (proc_lock me)
    pure 0

  unfoldable pub sys_sigreturn : ℕ → M ℕ
  unfolding copy_trapframe
  sys_sigreturn me = do
    modify_proc me (λ p. record p { alarmremain = p.alarmticks })
    p ← gets (λ k. k.proc me)
    modify (λ k. record k { mem = copy_trapframe p.trapframe p.original_trapframe k.mem })
    pure 0
