-- ===== src/Riscv/Entries.antt =====
-- Page-table entries: the address and the flags of an entry come back.
use learning_mits.Base.{ℕ, ◌+◌, ◌/◌, ◌%◌, ◌^◌, ◌<◌, ◌≡◌, ap, true, arith, ◌==◌}
use learning_mits.Riscv.{pte_v, pte_u, pa2pte, pte2pa, pte_flags, or_v, bit}

-- An entry made as `PA2PTE(pa) | perm | PTE_V` is valid, its flags are `perm | PTE_V`, and its
-- address is `pa`, for a page-aligned address and permissions in the ten flag bits.
pub entry_fields :
    (pa perm : ℕ)
    → pa % 4096 ≡ 0
    → pa < 2 ^ 56
    → perm < 2 ^ 10
    → (pte_v (or_v (pa2pte pa + perm)) ≡ true)
      × (pte2pa (or_v (pa2pte pa + perm)) ≡ pa)
      × (pte_flags (or_v (pa2pte pa + perm)) ≡ or_v perm)
      × (pte_u (or_v (pa2pte pa + perm)) ≡ bit 4 perm)
unfolding pa2pte pte2pa pte_flags or_v
entry_fields pa perm al hi small = (ground arith, omega arith, omega arith, ap (λ t. t == 1) user)
  where
    user : or_v (pa2pte pa + perm) / 2 ^ 4 % 2 ≡ perm / 2 ^ 4 % 2
    user = omega arith
