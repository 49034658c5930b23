-- ===== src/Proc/Table/Keeps.antt =====
-- The page tables of processes leave the process table alone.
use learning_mits.Base.{ℕ}
use learning_mits.Kernel.Keeps.{Keeps, keeps_rules}
use learning_mits.Layout.{Layout}
use learning_mits.Proc.Table.{proc_pagetable, proc_freepagetable}
use learning_mits.Vm.Keeps.{mappages-Keeps, uvmunmap-Keeps, uvmcreate-Keeps, uvmfree-Keeps}

module _ ⦃l : Layout⦄ where
  pub proc_pagetable-Keeps : (i : ℕ) → Keeps (proc_pagetable i)
  unfolding proc_pagetable
  proc_pagetable-Keeps i =
      search (keeps_rules, uvmcreate-Keeps, mappages-Keeps, uvmunmap-Keeps, uvmfree-Keeps) depth 16

  pub proc_freepagetable-Keeps : (pt sz : ℕ) → Keeps (proc_freepagetable pt sz)
  unfolding proc_freepagetable
  proc_freepagetable-Keeps pt sz = search (keeps_rules, uvmunmap-Keeps, uvmfree-Keeps)
