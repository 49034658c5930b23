-- ===== src/Syscall/Locked.antt =====
-- The locks that the handlers of system calls hold.
use mathlib.Core.Option.{some-injective, none-ne-some}
use learning_mits.Base.{
  subst, All, get_elem?, Bool-cases, inl, inr, ◌-◌, ℕ, zero, suc, not, ◌+◌, Option, none, some,
  List, [], ◌∷◌, ◌≡◌, refl, ◌==◌, if◌then◌else◌, ltb,
}
use learning_mits.Kernel.{Lock, Proc, proc_lock, ticks_lock, ticks_chan, zombie_exit, M}
use learning_mits.Kernel.Keeps
use learning_mits.Kernel.Keeps.{Keeps, keeps_rules}
use learning_mits.Kernel.Ensures.{ensured}
use learning_mits.Kernel.Holding
use learning_mits.Kernel.Holding.{Holding, Balanced, holding_rules}
use learning_mits.Layout.{Layout, Extern}
use learning_mits.Riscv.{u32, sub64}
use learning_mits.Printf.{backtrace_loop, backtrace}
use learning_mits.Printf.Keeps.{printf-Keeps}
use learning_mits.Proc.Life.{exit, exit_to_sched, a_off}
use learning_mits.Proc.Switch.{Cpu}
use learning_mits.Proc.Locked.{kill-Holding}
use learning_mits.Proc.Locked.Calls.{
  fork-Holding, growproc-Holding, exit_to_sched-Holding, sched-Holding, wait-Holding, sleep-Holding,
}
use learning_mits.Syscall.Dispatch.{FileCalls, Services, handlers, syscalls}
use learning_mits.Syscall.{syscall, run_entry, argraw, argint, argaddr, minus_one64}
use learning_mits.Syscall.Handlers.{
  sys_getpid, sys_exit, sys_fork, sys_wait, sys_sbrk, sleep_loop, sys_sleep, sys_kill, sys_uptime,
  sys_sigalarm, sys_sigreturn,
}

backtrace_loop-Keeps : (f fp : ℕ) → Keeps (backtrace_loop f fp)
unfolding backtrace_loop
backtrace_loop-Keeps zero fp = search keeps_rules
backtrace_loop-Keeps (suc f) fp =
    search (keeps_rules, printf-Keeps, backtrace_loop-Keeps f) depth 14

backtrace-Keeps : (f fp : ℕ) → Keeps (backtrace f fp)
unfolding backtrace
backtrace-Keeps f fp = search (keeps_rules, printf-Keeps, backtrace_loop-Keeps)

module _ ⦃l : Layout⦄ where
  argraw-Keeps : (me n : ℕ) → Keeps (argraw me n)
  unfolding argraw
  argraw-Keeps me n = search keeps_rules depth 12

  argint-Keeps : (me n : ℕ) → Keeps (argint me n)
  unfolding argint
  argint-Keeps me n = search (keeps_rules, argraw-Keeps)

  argaddr-Keeps : (me n : ℕ) → Keeps (argaddr me n)
  unfolding argaddr
  argaddr-Keeps me n = search (keeps_rules, argraw-Keeps)

  -- Handlers that do not sleep.
  sys_fork-Balanced : {hs : List Lock} (ext : Extern) (me : ℕ) → Balanced hs (sys_fork ext me)
  unfolding sys_fork
  sys_fork-Balanced ext me = search (holding_rules, fork-Holding)

  sys_sbrk-Balanced : {hs : List Lock} (me : ℕ) → Balanced hs (sys_sbrk me)
  unfolding sys_sbrk
  sys_sbrk-Balanced me =
      search (holding_rules, keeps_rules, argint-Keeps, growproc-Holding) depth 14

  sys_kill-Balanced : {hs : List Lock} (me : ℕ) → Balanced hs (sys_kill me)
  unfolding sys_kill
  sys_kill-Balanced me = search (holding_rules, keeps_rules, argint-Keeps, kill-Holding) depth 14

  sys_getpid-Balanced : {hs : List Lock} (me : ℕ) → Balanced hs (sys_getpid me)
  unfolding sys_getpid
  sys_getpid-Balanced me = search (holding_rules, keeps_rules)

  sys_uptime-Balanced : {hs : List Lock} → Balanced hs sys_uptime
  unfolding sys_uptime
  sys_uptime-Balanced = search (holding_rules, keeps_rules) depth 14

  sys_sigalarm-Balanced : {hs : List Lock} (me : ℕ) → Balanced hs (sys_sigalarm me)
  unfolding sys_sigalarm
  sys_sigalarm-Balanced me = search (holding_rules, keeps_rules, argraw-Keeps) depth 20

  sys_sigreturn-Balanced : {hs : List Lock} (me : ℕ) → Balanced hs (sys_sigreturn me)
  unfolding sys_sigreturn
  sys_sigreturn-Balanced me = record { run = λ k e. ensured e }

module _ ⦃l : Layout⦄ {hs : List Lock} (cpu : Cpu) (me : ℕ)
    (back : Balanced (proc_lock me ∷ hs) cpu.swtch) where
  sys_wait-Balanced : (rounds : ℕ) → Balanced hs (sys_wait cpu rounds me)
  unfolding sys_wait
  sys_wait-Balanced rounds =
      search (holding_rules, keeps_rules, argaddr-Keeps, wait-Holding cpu me back) depth 14

  pub exit-Balanced : (status : ℕ) → Balanced hs (exit cpu me status)
  unfolding exit
  exit-Balanced status =
      Holding.bind-Holding (exit_to_sched-Holding me status) λ _.
        Holding.bind-Holding (sched-Holding cpu me back) (λ _. Holding.fail-Holding zombie_exit)

  sys_exit-Balanced : Balanced hs (sys_exit cpu me)
  unfolding sys_exit
  sys_exit-Balanced = search (holding_rules, keeps_rules, argint-Keeps, exit-Balanced) depth 14

  sleep_loop-Holding :
      (rounds ticks0 n : ℕ)
      → Holding (ticks_lock ∷ hs) (sleep_loop cpu rounds me ticks0 n) (λ _. hs)
  unfolding sleep_loop
  sleep_loop-Holding zero ticks0 n = Holding.no_fuel-Holding
  sleep_loop-Holding (suc rounds) ticks0 n =
      Holding.part-Holding (Holding.Keeps-Holding (Keeps.gets-Keeps (λ k. k.ticks))) λ ticks.
        Holding.branch-Holding (not (ltb (u32 (sub64 ticks ticks0)) n))
          (Holding.release-Holding ticks_lock (Holding.pure-Holding 0 refl))
          (Holding.part-Holding (Holding.Keeps-Holding (Keeps.gets-Keeps (λ k. k.proc me))) λ p.
            Holding.branch-Holding (not (p.killed == 0))
              (Holding.release-Holding ticks_lock (Holding.pure-Holding minus_one64 refl))
              (Holding.then-Holding (sleep-Holding cpu me back ticks_chan ticks_lock refl)
                (sleep_loop-Holding rounds ticks0 n)))

  sys_sleep-Balanced : (rounds frames fp : ℕ) → Balanced hs (sys_sleep cpu rounds frames fp me)
  unfolding sys_sleep
  sys_sleep-Balanced rounds frames fp =
      search (holding_rules, keeps_rules, argint-Keeps, backtrace-Keeps, sleep_loop-Holding) depth
        24

-- Handlers of files that give back the locks that they take.
pub record FilesBalanced (hs : List Lock) (f : FileCalls) (me : ℕ) : Type 0 where
  pub sys_pipe : Balanced hs (f.sys_pipe me)
  pub sys_read : Balanced hs (f.sys_read me)
  pub sys_exec : Balanced hs (f.sys_exec me)
  pub sys_fstat : Balanced hs (f.sys_fstat me)
  pub sys_chdir : Balanced hs (f.sys_chdir me)
  pub sys_dup : Balanced hs (f.sys_dup me)
  pub sys_open : Balanced hs (f.sys_open me)
  pub sys_write : Balanced hs (f.sys_write me)
  pub sys_mknod : Balanced hs (f.sys_mknod me)
  pub sys_unlink : Balanced hs (f.sys_unlink me)
  pub sys_link : Balanced hs (f.sys_link me)
  pub sys_mkdir : Balanced hs (f.sys_mkdir me)
  pub sys_close : Balanced hs (f.sys_close me)

-- The handler that a number finds has what all of them have.
found-Balanced :
    {hs : List Lock} (ms : List (M ℕ)) (i : ℕ) (m : M ℕ)
    → All (Balanced hs) ms
    → get_elem? ms i ≡ some m
    → Balanced hs m
found-Balanced [] i m b e = absurd (none-ne-some _ e)
found-Balanced {hs} (x ∷ ms) zero m b e = subst (λ y. Balanced hs y) (some-injective _ _ e) b.0
found-Balanced (x ∷ ms) (suc i) m b e = found-Balanced ms i m b.1 e

module _ ⦃l : Layout⦄ {hs : List Lock} where
  run_entry-Balanced :
      (p : Proc) (num : ℕ) (o : Option (M ℕ))
      → ((m : M ℕ) → o ≡ some m → Balanced hs m)
      → Balanced hs (run_entry p num o)
  unfolding run_entry
  run_entry-Balanced p num none h = search (holding_rules, keeps_rules, printf-Keeps)
  run_entry-Balanced p num (some m) h =
      Holding.part-Holding (h m refl) (λ res. Holding.Keeps-Holding (Keeps.store-Keeps _ res))

module _ ⦃l : Layout⦄ (s : Services) (me : ℕ) (back : Balanced (proc_lock me ∷ []) s.cpu.swtch)
    (files : FilesBalanced [] s.files me) where
  handlers-Balanced : All (Balanced []) (handlers s me)
  unfolding handlers
  handlers-Balanced =
      search
        (
          sys_fork-Balanced,
          sys_exit-Balanced s.cpu me back,
          sys_wait-Balanced s.cpu me back,
          sys_kill-Balanced,
          sys_getpid-Balanced,
          sys_sbrk-Balanced,
          sys_sleep-Balanced s.cpu me back,
          sys_uptime-Balanced,
          sys_sigalarm-Balanced,
          sys_sigreturn-Balanced,
          files,
        )
        depth 40

  entry-Balanced :
      (num : ℕ) (m : M ℕ) → (if num == 0 then none else syscalls s me num) ≡ some m → Balanced [] m
  unfolding syscalls
  entry-Balanced num m e = elim (Bool-cases (num == 0)) [
    | inl z ↦ absurd (none-ne-some m (rw z at e))
    | inr nz ↦ found-Balanced (handlers s me) (num - 1) m handlers-Balanced (rw nz at e)
  ]

  -- A system call by a process that holds no lock, where what runs until the process is switched to
  -- again leaves it the lock that it held, and the handlers of files give back what they take: when
  -- it returns, no lock is held; and exit comes to sched with exactly the process's own lock held.
  pub calls-Balanced :
      Balanced [] (syscall (syscalls s me) me)
      × ((status : ℕ) → Holding [] (exit_to_sched me status) (λ _. proc_lock me ∷ []))
  unfolding syscall syscalls
  calls-Balanced = (
    Holding.part-Holding (Holding.Keeps-Holding (Keeps.gets-Keeps (λ k. k.proc me))) (λ p.
        Holding.part-Holding (Holding.Keeps-Holding (Keeps.load-Keeps (p.trapframe + a_off 7)))
          (λ a7. run_entry-Balanced p (u32 a7) _ (entry-Balanced (u32 a7)))),
    exit_to_sched-Holding me,
  )
