-- ===== src/Proc/Locked.antt =====
-- The locks that the code of proc.c holds: scans of the table, and the life of a process.
pub mod Calls
use learning_mits.Base.{
  ℕ, zero, suc, Bool, true, false, not, ◌+◌, Option, none, some, List, [], ◌∷◌, refl, ◌==◌,
  if◌then◌else◌,
}
use learning_mits.Kernel.{
  Lock, proc_lock, pid_lock, Chan, M, pure, ◌>>=◌, ◌>>◌, when, modify, modify_proc, gets, Status,
  success, failure,
}
use learning_mits.Kernel.Keeps.{keeps_rules}
use learning_mits.Kernel.Holding
use learning_mits.Kernel.Holding.{Holding, Balanced, with_found, holding_rules}
use learning_mits.Layout.{Layout, Extern}
use learning_mits.Riscv.{u32}
use learning_mits.Kalloc.{kalloc, kfree}
use learning_mits.Vm.Keeps.{kfree-Keeps, kalloc-Keeps, uvmcopy-Keeps}
use learning_mits.Proc.Table.{
  allocpid, freeproc, find_unused, give_back, allocproc_found, allocproc,
}
use learning_mits.Proc.Table.Keeps.{proc_pagetable-Keeps, proc_freepagetable-Keeps}
use learning_mits.Proc.Sleep.{wakeup_from, wakeup, kill_from, kill, reparent_from, reparent}

module _ {hs : List Lock} where
  count_pid-Holding : Balanced hs (modify (λ k. record k { nextpid = u32 (k.nextpid + 1) }))
  count_pid-Holding = Holding.modify-Holding _ (λ k. refl)

pub allocpid-Holding : {hs : List Lock} → Balanced hs allocpid
unfolding allocpid
allocpid-Holding = search (holding_rules, keeps_rules, count_pid-Holding) depth 14

module _ ⦃l : Layout⦄ {hs : List Lock} where
  wakeup_from-Holding : (me : ℕ) (chan : Chan) (n i : ℕ) → Balanced hs (wakeup_from me chan n i)
  unfolding wakeup_from
  wakeup_from-Holding me chan zero i = Holding.pure-Holding tt refl
  wakeup_from-Holding me chan (suc n) i =
      search (holding_rules, keeps_rules, wakeup_from-Holding me chan n) depth 20

  pub wakeup-Holding : (me : ℕ) (chan : Chan) → Balanced hs (wakeup me chan)
  unfolding wakeup
  wakeup-Holding me chan = wakeup_from-Holding me chan _ 0

  kill_from-Holding : (pid n i : ℕ) → Balanced hs (kill_from pid n i)
  unfolding kill_from
  kill_from-Holding pid zero i = Holding.pure-Holding failure refl
  kill_from-Holding pid (suc n) i =
      search (holding_rules, keeps_rules, kill_from-Holding pid n) depth 20

  pub kill-Holding : (pid : ℕ) → Balanced hs (kill pid)
  unfolding kill
  kill-Holding pid = kill_from-Holding pid _ 0

  reparent_from-Holding : (me p n i : ℕ) → Balanced hs (reparent_from me p n i)
  unfolding reparent_from
  reparent_from-Holding me p zero i = Holding.pure-Holding tt refl
  reparent_from-Holding me p (suc n) i =
      search (holding_rules, keeps_rules, wakeup-Holding, reparent_from-Holding me p n) depth 20

  pub reparent-Holding : (me p : ℕ) → Balanced hs (reparent me p)
  unfolding reparent
  reparent-Holding me p = reparent_from-Holding me p _ 0

  pub freeproc-Holding : (i : ℕ) → Balanced hs (freeproc i)
  unfolding freeproc
  freeproc-Holding i =
      search (holding_rules, keeps_rules, kfree-Keeps, proc_freepagetable-Keeps) depth 20

  pub find_unused-Holding : (n i : ℕ) → Holding hs (find_unused n i) (with_found hs)
  unfolding find_unused
  find_unused-Holding zero i = Holding.pure-Holding none refl
  find_unused-Holding (suc n) i =
      search (holding_rules, keeps_rules, find_unused-Holding n) depth 20

module _ ⦃l : Layout⦄ {hs : List Lock} where
  open l use {nproc}

  give_back-Holding : (i : ℕ) → Holding (proc_lock i ∷ hs) (give_back i) (with_found hs)
  unfolding give_back
  give_back-Holding i = search (holding_rules, freeproc-Holding)

  allocproc_found-Holding : (i : ℕ) → Holding (proc_lock i ∷ hs) (allocproc_found i) (with_found hs)
  unfolding allocproc_found
  allocproc_found-Holding i =
      search
        (
          holding_rules, keeps_rules, allocpid-Holding, kalloc-Keeps, proc_pagetable-Keeps,
          give_back-Holding,
        )
        depth 30

  pub allocproc-Holding : Holding hs allocproc (with_found hs)
  unfolding allocproc
  allocproc-Holding = search (
    Holding.found-Holding,
    find_unused-Holding nproc 0,
    Holding.pure-Holding,
    allocproc_found-Holding,
  )
