-- ===== src/Proc/Switch.antt =====
-- sched, yield, sleep, scheduler and forkret of proc.c. `swtch` is swtch.S: it runs whatever comes
-- next and returns when the caller is resumed; `holding`, `noff` and `intr_get` are the answers of
-- spinlock.c and of the status register when sched asks.
use learning_mits.Base.{ℕ, zero, suc, ◌+◌, Bool, true, false, not, ◌==◌, if◌then◌else◌}
use learning_mits.Kernel.{
  ProcState, sleeping, runnable, running, Chan, no_chan, M, pure, ◌>>=◌, ◌>>◌, fail, when,
  modify_proc, gets, record_event, interrupts_on, acquire, release, Lock, proc_lock, sched_lock,
  sched_locks, sched_running, sched_interruptible,
}
use learning_mits.Layout.{Layout}

abbrev pub is_running : ProcState → Bool
is_running running = true
is_running _ = false

abbrev pub is_runnable : ProcState → Bool
is_runnable runnable = true
is_runnable _ = false

-- What sched asks of the processor, and the switch to the scheduler.
pub record Cpu : Type 0 where
  pub holding : Bool
  pub noff : ℕ
  pub intr_get : Bool
  pub swtch : M (Unit {0})

-- The saved and restored `intena` belongs to spinlock.c.
unfoldable pub sched : Cpu → ℕ → M (Unit {0})
sched cpu me =
    if not cpu.holding
    then fail sched_lock
    else if not (cpu.noff == 1)
    then fail sched_locks
    else do
      p ← gets (λ k. k.proc me)
      if is_running p.state
          then fail sched_running
          else if cpu.intr_get
          then fail sched_interruptible
          else cpu.swtch

unfoldable pub yield : Cpu → ℕ → M (Unit {0})
yield cpu me = do
  acquire (proc_lock me)
  modify_proc me (λ p. record p { state = runnable })
  sched cpu me
  release (proc_lock me)

unfoldable pub sleep : Cpu → ℕ → Chan → Lock → M (Unit {0})
sleep cpu me chan lk = do
  acquire (proc_lock me)
  release lk
  modify_proc me (λ p. record p { chan = chan; state = sleeping })
  sched cpu me
  modify_proc me (λ p. record p { chan = no_chan })
  release (proc_lock me)
  acquire lk

-- One pass of the scheduler over the table, from `i` on; `run i` is the switch to process `i` until
-- it switches back.
unfoldable pub scheduler_from : (ℕ → M (Unit {0})) → ℕ → ℕ → M (Unit {0})
scheduler_from run zero i = pure tt
scheduler_from run (suc n) i = do
  acquire (proc_lock i)
  p ← gets (λ k. k.proc i)
  when (is_runnable p.state) (do modify_proc i (λ q. record q { state = running }); run i)
  release (proc_lock i)
  scheduler_from run n (i + 1)

module _ ⦃l : Layout⦄ where
  open l use {nproc}

  -- The body of the scheduler's endless loop.
  unfoldable pub scheduler_pass : (ℕ → M (Unit {0})) → M (Unit {0})
  unfolding scheduler_from
  scheduler_pass run = do record_event interrupts_on; scheduler_from run nproc 0
