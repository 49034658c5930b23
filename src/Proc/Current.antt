-- ===== src/Proc/Current.antt =====
-- Which process a hart runs (cpuid, mycpu and myproc of Lab_traps/proc.c), and forkret, where a new
-- process begins. Spinlock.c's push_off and pop_off and the array `cpus` of the hart's memory are
-- parameters, and so is fsinit of the file system.
use learning_mits.Base.{ℕ, Bool, false}
use learning_mits.Kernel.{M, when, pure, ◌>>◌, release, proc_lock}
use learning_mits.Layout.{Layout}
use learning_mits.Riscv.{u32}
use learning_mits.Riscv.Registers.{Register, r_tp}
use learning_mits.Trap.{Regs, usertrapret}

module _ {H : Type 0} (read : Register → H → ℕ) where
  unfoldable cpuid : H → ℕ
  cpuid h = u32 (r_tp read h)

  -- A pointer into the array `cpus` is an index.
  unfoldable mycpu : H → ℕ
  mycpu h = cpuid h

  -- `proc_of c` is `cpus[c].proc`.
  module _ (push_off pop_off : H → H) (proc_of : ℕ → H → ℕ) where
    unfoldable myproc : H → ℕ × H
    myproc h = (let h' = push_off h in (proc_of (mycpu h') h', pop_off h'))

-- `first` is the static variable; the result is its new value.
module _ ⦃lay : Layout⦄ (fsinit : M (Unit {0})) where
  unfoldable pub forkret : Bool → ℕ → Regs → M Bool
  forkret first me r = do release (proc_lock me); when first fsinit; usertrapret me r; pure false
