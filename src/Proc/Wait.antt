-- ===== src/Proc/Wait.antt =====
-- wait of proc.c.
pub mod Reaped
use learning_mits.Base.{
  ℕ, zero, suc, ◌+◌, ◌/◌, ◌%◌, Bool, true, false, not, ◌||◌, Option, none, some, List, [], ◌∷◌,
  ◌==◌, if◌then◌else◌,
}
use learning_mits.Kernel.{
  ProcState, zombie, proc_chan, M, success, failure, pure, ◌>>=◌, ◌>>◌, gets, acquire, release,
  wait_lock, proc_lock, out_of_fuel,
}
use learning_mits.Layout.{Layout}
use learning_mits.Vm.Copy.{copyout}
use learning_mits.Proc.Table.{freeproc}
use learning_mits.Proc.Sleep.{is_parent}
use learning_mits.Proc.Switch.{Cpu, sleep}

abbrev pub is_zombie : ProcState → Bool
is_zombie zombie = true
is_zombie _ = false

-- The four bytes of an int.
abbrev pub int_bytes : ℕ → List ℕ
int_bytes x = x % 256 ∷ x / 256 % 256 ∷ x / 65536 % 256 ∷ x / 16777216 % 256 ∷ []

-- How one scan of the table ends: a child was freed, its status could not be copied out, or no
-- child is a zombie, and then whether there are children.
pub data Scan : Type 0 where
  reaped : ℕ → Scan
  copy_failed : Scan
  nothing : Bool → Scan

module _ ⦃l : Layout⦄ where
  open l use {nproc}

  -- A zombie child: its status goes to `addr`, unless that is 0.
  unfoldable pub reap : ℕ → ℕ → ℕ → M Scan
  reap me addr i = do
    np ← gets (λ k. k.proc i)
    p ← gets (λ k. k.proc me)
    s ← (if addr == 0 then pure success else copyout p.pagetable addr (int_bytes np.xstate))
    elim s [
      | failure ↦ (do release (proc_lock i); release wait_lock; pure copy_failed)
      | success ↦ (do freeproc i; release (proc_lock i); release wait_lock; pure (reaped np.pid))
    ]

  unfoldable pub wait_scan : ℕ → ℕ → Bool → ℕ → ℕ → M Scan
  wait_scan me addr havekids zero i = pure (nothing havekids)
  wait_scan me addr havekids (suc n) i = do
    np ← gets (λ k. k.proc i)
    if not (is_parent me np.parent) then wait_scan me addr havekids n (i + 1) else do
      acquire (proc_lock i)
      if is_zombie np.state
          then reap me addr i
          else do release (proc_lock i); wait_scan me addr true n (i + 1)

  -- The loop of wait: it can sleep any number of times, so `out_of_fuel` is a wait that lasts longer
  -- than the rounds. `none` is -1.
  unfoldable pub wait_loop : Cpu → ℕ → ℕ → ℕ → M (Option ℕ)
  unfolding wait_scan
  wait_loop cpu zero me addr = λ _. out_of_fuel
  wait_loop cpu (suc rounds) me addr = do
    s ← wait_scan me addr false nproc 0
    killed ← gets (λ k. (k.proc me).killed)
    elim s [
      | reaped pid ↦ pure (some pid)
      | copy_failed ↦ pure none
      | nothing havekids ↦
          (if not havekids || not (killed == 0)
            then (do release wait_lock; pure none)
            else (do sleep cpu me (proc_chan me) wait_lock; wait_loop cpu rounds me addr))
    ]

  unfoldable pub wait : Cpu → ℕ → ℕ → ℕ → M (Option ℕ)
  unfolding wait_loop
  wait cpu rounds me addr = do acquire wait_lock; wait_loop cpu rounds me addr
