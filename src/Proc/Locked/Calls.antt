-- ===== src/Proc/Locked/Calls.antt =====
-- The locks that fork, exit, wait and the switches hold.
use learning_mits.Base.{
  ℕ, zero, suc, Bool, false, not, ◌||◌, ◌+◌, Option, none, some, List, ◌∷◌, ◌≡◌, refl, ap, ◌∙◌,
  ◌==◌, if◌then◌else◌,
}
use learning_mits.Kernel.{
  Lock, proc_lock, wait_lock, fail, sched_running, sched_interruptible, sched_lock, sched_locks,
  Proc, Chan, no_chan, proc_chan, zombie, M, pure, ◌>>=◌, ◌>>◌, modify, modify_proc, gets, acquire,
  release, Proc,
}
use learning_mits.Kernel.Keeps
use learning_mits.Kernel.Keeps.{Keeps, keeps_rules}
use learning_mits.Kernel.Ensures
use learning_mits.Kernel.Ensures.{Ensures, ensured}
use learning_mits.Kernel.Locks.{same_lock, without, without_head}
use learning_mits.Kernel.Holding
use learning_mits.Kernel.Holding.{Holding, Balanced, holding_rules}
use learning_mits.Layout.{Layout, Extern}
use learning_mits.Vm.Keeps.{uvmcopy-Keeps, uvmalloc-Keeps, uvmdealloc-Keeps, copyout-Keeps}
use learning_mits.Proc.Life.{
  copy_trapframe, dup_files, fork_finish, fork, close_files, exit_to_sched, growproc,
}
use learning_mits.Proc.Sleep.{wakeup, reparent}
use learning_mits.Proc.Switch.{Cpu, is_running, sched, yield, sleep}
use learning_mits.Proc.Wait.{reap, wait_scan, wait_loop, wait, Scan, reaped, copy_failed, nothing}
use learning_mits.Proc.Locked.{
  freeproc-Holding, allocproc-Holding, wakeup-Holding, reparent-Holding,
}

module _ {hs : List Lock} where
  pub trapframe-Holding :
      (dst src : ℕ) → Balanced hs (modify (λ k. record k { mem = copy_trapframe dst src k.mem }))
  trapframe-Holding dst src = Holding.modify-Holding _ (λ k. refl)

module _ ⦃l : Layout⦄ (ext : Extern) {hs : List Lock} where
  dup_files-Holding : (me np n i : ℕ) → Balanced hs (dup_files ext me np n i)
  unfolding dup_files
  dup_files-Holding me np zero i = Holding.pure-Holding tt refl
  dup_files-Holding me np (suc n) i =
      search (holding_rules, keeps_rules, dup_files-Holding me np n) depth 24

module _ ⦃l : Layout⦄ (ext : Extern) {hs : List Lock} where
  open l use {nofile}

  -- Behind the copying of the open files the child's lock is given back, and taken once more.
  fork_finish-Holding : (me np : ℕ) → Holding (proc_lock np ∷ hs) (fork_finish ext me np) (λ _. hs)
  unfolding fork_finish
  fork_finish-Holding me np = record {
    run = λ k e. Ensures.bind ((dup_files-Holding ext me np nofile 0).run _ e) (λ _ k' e'. ensured (
        without_head (proc_lock np) _
        ∙ ap (without (proc_lock np)) e'
        ∙ without_head (proc_lock np) hs));
  }

  pub fork-Holding : (me : ℕ) → Balanced hs (fork ext me)
  unfolding fork
  fork-Holding me =
      search
        (
          Holding.found-Holding, allocproc-Holding, holding_rules, keeps_rules, uvmcopy-Keeps,
          freeproc-Holding, fork_finish-Holding,
        )
        depth 30

module _ ⦃l : Layout⦄ {hs : List Lock} where
  close_files-Holding : (me n fd : ℕ) → Balanced hs (close_files me n fd)
  unfolding close_files
  close_files-Holding me zero fd = Holding.pure-Holding tt refl
  close_files-Holding me (suc n) fd =
      search (holding_rules, keeps_rules, close_files-Holding me n) depth 24

  wake_parent-Holding :
      (me : ℕ) (parent : Option ℕ)
      → Balanced hs (elim parent [ none ↦ wakeup me no_chan | some i ↦ wakeup me (proc_chan i) ])
  wake_parent-Holding me none = wakeup-Holding me no_chan
  wake_parent-Holding me (some i) = wakeup-Holding me (proc_chan i)

-- The end of exit: the process takes its own lock before it gives back wait_lock.
retire-Holding :
    {hs : List Lock} (me status : ℕ)
    → Holding
        (wait_lock ∷ hs)
        (do
          acquire (proc_lock me)
          modify_proc me (λ q. record q { xstate = status; state = zombie })
          release wait_lock)
        (λ _. proc_lock me ∷ hs)
retire-Holding me status = record {
  run = λ k e. ensured (ap (λ hs. proc_lock me ∷ without wait_lock hs) e);
}

module _ ⦃l : Layout⦄ {hs : List Lock} where
  -- What exit does from the taking of wait_lock on.
  hand_over-Holding :
      (me status : ℕ)
      → Holding hs
          (do
            acquire wait_lock
            reparent me me
            parent ← gets (λ k. (k.proc me).parent)
            elim parent [ none ↦ wakeup me no_chan | some i ↦ wakeup me (proc_chan i) ]
            acquire (proc_lock me)
            modify_proc me (λ q. record q { xstate = status; state = zombie })
            release wait_lock)
          (λ _. proc_lock me ∷ hs)
  hand_over-Holding me status = Holding.acquire-Holding wait_lock (
      Holding.then-Holding (reparent-Holding me me) (
        Holding.part-Holding (Holding.Keeps-Holding (Keeps.gets-Keeps (λ k. (k.proc me).parent)))
          (λ parent.
            Holding.then-Holding (wake_parent-Holding me parent) (retire-Holding me status))))

module _ ⦃l : Layout⦄ {hs : List Lock} where
  open l use {nofile}

  pub exit_to_sched-Holding :
      (me status : ℕ) → Holding hs (exit_to_sched me status) (λ _. proc_lock me ∷ hs)
  unfolding exit_to_sched
  exit_to_sched-Holding me status =
      search (holding_rules, keeps_rules, close_files-Holding, hand_over-Holding) depth 40

  pub growproc-Holding : (me n : ℕ) → Balanced hs (growproc me n)
  unfolding growproc
  growproc-Holding me n =
      search (holding_rules, keeps_rules, uvmalloc-Keeps, uvmdealloc-Keeps) depth 24

module _ {hs : List Lock} (cpu : Cpu) (me : ℕ) (back : Balanced (proc_lock me ∷ hs) cpu.swtch) where
  switch-Holding :
      (p : Proc)
      → Balanced (proc_lock me ∷ hs) (
          if is_running p.state
          then fail sched_running
          else if cpu.intr_get
          then fail sched_interruptible
          else cpu.swtch)
  switch-Holding p =
      Holding.branch-Holding (is_running p.state) (Holding.fail-Holding sched_running)
        (Holding.branch-Holding cpu.intr_get (Holding.fail-Holding sched_interruptible) back)

  pub sched-Holding : Balanced (proc_lock me ∷ hs) (sched cpu me)
  unfolding sched
  sched-Holding = Holding.branch-Holding (not cpu.holding) (Holding.fail-Holding sched_lock) (
      Holding.branch-Holding (not (cpu.noff == 1)) (Holding.fail-Holding sched_locks) (
        Holding.part-Holding (Holding.Keeps-Holding (Keeps.gets-Keeps (λ k. k.proc me)))
          switch-Holding))

  pub yield-Holding : Balanced hs (yield cpu me)
  unfolding yield
  yield-Holding = search (holding_rules, sched-Holding) depth 24

  -- sleep gives the caller's lock back after it has taken the process's own.
  pub sleep-Holding :
      (chan : Chan) (lk : Lock)
      → same_lock lk (proc_lock me) ≡ false
      → Balanced (lk ∷ hs) (sleep cpu me chan lk)
  unfolding sleep
  sleep-Holding chan lk other = record {
    run = λ k e.
        Ensures.bind (sched-Holding.run _ (ap (λ hs. without lk (proc_lock me ∷ hs)) e ∙ below))
          (λ _ k' e'. ensured (
            ap (λ hs. lk ∷ without (proc_lock me) hs) e'
            ∙ ap (λ hs. lk ∷ hs) (without_head (proc_lock me) hs)));
  }
    where
      below : without lk (proc_lock me ∷ lk ∷ hs) ≡ proc_lock me ∷ hs
      below = rw other (ap (λ hs. proc_lock me ∷ hs) (without_head lk hs))

-- The locks after a scan of wait.
scan_locks : List Lock → Scan → List Lock
scan_locks hs (reaped pid) = hs
scan_locks hs copy_failed = hs
scan_locks hs (nothing havekids) = wait_lock ∷ hs

module _ ⦃l : Layout⦄ {hs : List Lock} where
  reap-Holding :
      (me addr i : ℕ) → Holding (proc_lock i ∷ wait_lock ∷ hs) (reap me addr i) (scan_locks hs)
  unfolding reap scan_locks
  reap-Holding me addr i =
      search (holding_rules, keeps_rules, copyout-Keeps, freeproc-Holding) depth 24

  wait_scan-Holding :
      (me addr : ℕ) (havekids : Bool) (n i : ℕ)
      → Holding (wait_lock ∷ hs) (wait_scan me addr havekids n i) (scan_locks hs)
  unfolding wait_scan scan_locks
  wait_scan-Holding me addr havekids zero i = Holding.pure-Holding (nothing havekids) refl
  wait_scan-Holding me addr havekids (suc n) i =
      search
        (
          holding_rules,
          keeps_rules,
          reap-Holding,
          λ (h : Bool). wait_scan-Holding me addr h n (i + 1),
        )
        depth 24

module _ ⦃l : Layout⦄ {hs : List Lock} (cpu : Cpu) (me : ℕ)
    (back : Balanced (proc_lock me ∷ hs) cpu.swtch) where
  open l use {nproc}

  after_scan-Holding :
      (s : Scan) (killed : ℕ) {rest : M (Option ℕ)}
      → Holding (wait_lock ∷ hs) rest (λ _. hs)
      → Holding
          (scan_locks hs s)
          (elim s [
            | reaped pid ↦ pure (some pid)
            | copy_failed ↦ pure none
            | nothing havekids ↦
                (if not havekids || not (killed == 0)
                  then (do release wait_lock; pure none)
                  else (do sleep cpu me (proc_chan me) wait_lock; rest))
          ])
          (λ _. hs)
  unfolding scan_locks
  after_scan-Holding (reaped pid) killed t = Holding.pure-Holding (some pid) refl
  after_scan-Holding copy_failed killed t = Holding.pure-Holding none refl
  after_scan-Holding (nothing havekids) killed t =
      Holding.branch-Holding (not havekids || not (killed == 0))
        (Holding.release-Holding wait_lock (Holding.pure-Holding none refl))
        (Holding.then-Holding (sleep-Holding cpu me back (proc_chan me) wait_lock refl) t)

  wait_loop-Holding :
      (rounds addr : ℕ) → Holding (wait_lock ∷ hs) (wait_loop cpu rounds me addr) (λ _. hs)
  unfolding wait_loop
  wait_loop-Holding zero addr = Holding.no_fuel-Holding
  wait_loop-Holding (suc rounds) addr =
      Holding.bind-Holding (wait_scan-Holding me addr false nproc 0) λ s.
        Holding.part-Holding (Holding.Keeps-Holding (Keeps.gets-Keeps (λ k. (k.proc me).killed)))
          λ killed. after_scan-Holding s killed (wait_loop-Holding rounds addr)

  pub wait-Holding : (rounds addr : ℕ) → Balanced hs (wait cpu rounds me addr)
  unfolding wait
  wait-Holding rounds addr = Holding.acquire-Holding wait_lock (wait_loop-Holding rounds addr)
