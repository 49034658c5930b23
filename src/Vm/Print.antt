-- ===== src/Vm/Print.antt =====
-- vmprint of vm.c.
use learning_mits.Base.{ℕ, zero, suc, ◌+◌, ◌*◌, not, ◌&&◌, ◌||◌, [], ◌∷◌, ◌==◌, if◌then◌else◌}
use learning_mits.Kernel.{M, pure, ◌>>=◌, ◌>>◌, when, out_of_fuel}
use learning_mits.Kernel.Memory.{load}
use learning_mits.Printf.{print, int_arg, ptr_arg}
use learning_mits.Riscv.{pte_v, pte_r, pte_w, pte_x, pte2pa}

unfoldable pub put_dots : ℕ → M (Unit {0})
put_dots zero = pure tt
put_dots (suc j) = do print ".." []; put_dots j

-- The line of entry `i`.
unfoldable pub print_entry : ℕ → ℕ → ℕ → M (Unit {0})
unfolding put_dots
print_entry depth i pte = do
  put_dots depth
  print " %d: pte %p pa %p\n" (int_arg i ∷ ptr_arg pte ∷ ptr_arg (pte2pa pte) ∷ [])

-- The entries from `i` on, `n` of them; `child` prints the table that an entry points at.
unfoldable pub vmprint_entries : (ℕ → M (Unit {0})) → ℕ → ℕ → ℕ → ℕ → M (Unit {0})
unfolding print_entry
vmprint_entries child pagetable depth zero i = pure tt
vmprint_entries child pagetable depth (suc n) i = do
  pte ← load (pagetable + i * 8)
  (if pte_v pte && not (pte_r pte || (pte_w pte || pte_x pte))
      then (do print_entry depth i pte; child (pte2pa pte))
      else when (pte_v pte) (print_entry depth i pte))
  vmprint_entries child pagetable depth n (i + 1)

-- `levels` bounds the recursion: three for an Sv39 table.
unfoldable pub vmprint : ℕ → ℕ → ℕ → M (Unit {0})
unfolding vmprint_entries
vmprint zero pagetable depth = λ _. out_of_fuel
vmprint (suc levels) pagetable depth = do
  when (depth == 1) (print "page table %p\n" (ptr_arg pagetable ∷ []))
  vmprint_entries (λ child. vmprint levels child (depth + 1)) pagetable depth 512 0
