-- ===== src/Proc/Sleep.antt =====
-- wakeup, kill and reparent of proc.c: scans of the process table.
pub mod Wakeup
pub mod Kill
pub mod Reparent
use learning_mits.Base.{
  ℕ, zero, suc, ◌+◌, Bool, true, false, not, ◌&&◌, Option, none, some, ◌==◌, if◌then◌else◌,
}
use learning_mits.Kernel.{
  Kernel, Proc, ProcState, sleeping, runnable, Chan, no_chan, proc_chan, ticks_chan, other_chan, M,
  Status, success, failure, pure, ◌>>=◌, ◌>>◌, when, modify_proc, gets, acquire, release, proc_lock,
}
use learning_mits.Layout.{Layout}

abbrev pub is_sleeping : ProcState → Bool
is_sleeping sleeping = true
is_sleeping _ = false

abbrev pub same_chan : Chan → Chan → Bool
same_chan no_chan no_chan = true
same_chan (proc_chan i) (proc_chan j) = i == j
same_chan ticks_chan ticks_chan = true
same_chan (other_chan a) (other_chan b) = a == b
same_chan _ _ = false

abbrev pub is_parent : ℕ → Option ℕ → Bool
is_parent me none = false
is_parent me (some i) = i == me

-- `killed` is set whatever the state, and a sleeper is made runnable.
abbrev pub kill_proc : Proc → Proc
kill_proc p =
    if is_sleeping p.state
    then record p { killed = 1; state = runnable }
    else record p { killed = 1 }

module _ ⦃l : Layout⦄ where
  open l use {nproc}

  unfoldable pub wakeup_from : ℕ → Chan → ℕ → ℕ → M (Unit {0})
  wakeup_from me chan zero i = pure tt
  wakeup_from me chan (suc n) i = do
    when (not (i == me)) (do
      acquire (proc_lock i)
      p ← gets (λ k. k.proc i)
      when (is_sleeping p.state && same_chan p.chan chan)
          (modify_proc i (λ q. record q { state = runnable }))
      release (proc_lock i))
    wakeup_from me chan n (i + 1)

  unfoldable pub wakeup : ℕ → Chan → M (Unit {0})
  unfolding wakeup_from
  wakeup me chan = wakeup_from me chan nproc 0

  unfoldable pub kill_from : ℕ → ℕ → ℕ → M Status
  kill_from pid zero i = pure failure
  kill_from pid (suc n) i = do
    acquire (proc_lock i)
    p ← gets (λ k. k.proc i)
    if p.pid == pid
        then (do modify_proc i kill_proc; release (proc_lock i); pure success)
        else (do release (proc_lock i); kill_from pid n (i + 1))

  unfoldable pub kill : ℕ → M Status
  unfolding kill_from
  kill pid = kill_from pid nproc 0

  -- `me` is the process that runs, and `p` the one whose children are given to init.
  unfoldable pub reparent_from : ℕ → ℕ → ℕ → ℕ → M (Unit {0})
  reparent_from me p zero i = pure tt
  reparent_from me p (suc n) i = do
    pp ← gets (λ k. k.proc i)
    init ← gets (λ k. k.initproc)
    when (is_parent p pp.parent)
        (do modify_proc i (λ q. record q { parent = some init }); wakeup me (proc_chan init))
    reparent_from me p n (i + 1)

  unfoldable pub reparent : ℕ → ℕ → M (Unit {0})
  unfolding reparent_from
  reparent me p = reparent_from me p nproc 0
