-- ===== src/Proc/Usyscall/Failure.antt =====
-- proc_pagetable of Lab_page_tables without a page for the usyscall data.
use learning_mits.Base.{ℕ, ◌≡◌, refl, Bool, true, false, eq→==}
use learning_mits.Kernel.{Kernel, Run, ok, panic, out_of_fuel, M, and_then}
use learning_mits.Kalloc.{kalloc}
use learning_mits.Layout.{Layout}
use learning_mits.Proc.Usyscall.{map_usyscall}

-- Whether a run ends without a result: in a panic, or not in the rounds given.
unfoldable pub stops : {A : Type 0} → Run A → Bool
stops (ok a k) = false
stops (panic e) = true
stops out_of_fuel = true

stops-and_then :
    {A B : Type 0} (r : Run A) (f : A → M B)
    → ((a : A) (k : Kernel) → stops (f a k) ≡ true)
    → stops (and_then r f) ≡ true
unfolding stops
stops-and_then (ok a k) f h = h a k
stops-and_then (panic e) f h = refl
stops-and_then out_of_fuel f h = refl

module _ ⦃l : Layout⦄ where
  -- With no free page for the usyscall data, proc_pagetable of the page table lab does not come back
  -- to its caller, with 0 or otherwise: it stops in the undoing of its mappings, or at the write
  -- to a null pointer behind it.
  pub stops-map_usyscall :
      (pagetable i : ℕ) (k : Kernel) → k.freelist ≡ 0 → stops (map_usyscall pagetable i k) ≡ true
  unfolding stops map_usyscall kalloc
  stops-map_usyscall pagetable i k empty =
      rw (eq→== k.freelist 0 empty, empty) (search stops-and_then)
