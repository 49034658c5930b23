-- ===== src/Proc/Usyscall/Locked.antt =====
-- The locks that allocproc of Lab_page_tables/proc.c holds.
use learning_mits.Base.{ℕ, List, ◌∷◌}
use learning_mits.Kernel.{Lock, proc_lock}
use learning_mits.Kernel.Keeps.{keeps_rules}
use learning_mits.Kernel.Holding
use learning_mits.Kernel.Holding.{Holding, Balanced, with_found, holding_rules}
use learning_mits.Layout.{Layout}
use learning_mits.Vm.Keeps.{kfree-Keeps, kalloc-Keeps}
use learning_mits.Exec.Keeps.{proc_pagetable-Keeps, proc_freepagetable-Keeps}
use learning_mits.Proc.Locked.{allocpid-Holding, find_unused-Holding}
use learning_mits.Proc.Usyscall.{freeproc, return_slot, setup_proc, allocproc}

module _ ⦃l : Layout⦄ {hs : List Lock} where
  freeproc-Holding : (i : ℕ) → Balanced hs (freeproc i)
  unfolding freeproc
  freeproc-Holding i =
      search (holding_rules, keeps_rules, kfree-Keeps, proc_freepagetable-Keeps) depth 20

module _ ⦃l : Layout⦄ {hs : List Lock} where
  open l use {nproc}

  return_slot-Holding : (i : ℕ) → Holding (proc_lock i ∷ hs) (return_slot i) (with_found hs)
  unfolding return_slot
  return_slot-Holding i = search (holding_rules, freeproc-Holding)

  setup_proc-Holding : (i : ℕ) → Holding (proc_lock i ∷ hs) (setup_proc i) (with_found hs)
  unfolding setup_proc
  setup_proc-Holding i =
      search
        (
          holding_rules, keeps_rules, allocpid-Holding, kalloc-Keeps, proc_pagetable-Keeps,
          return_slot-Holding,
        )
        depth 30

  -- allocproc returns with the lock of the process that it answers, and with no lock of its own
  -- where it answers none.
  pub allocproc-Holding : Holding hs allocproc (with_found hs)
  unfolding allocproc
  allocproc-Holding =
      search (
        Holding.found-Holding,
        find_unused-Holding nproc 0,
        Holding.pure-Holding,
        setup_proc-Holding,
      )
