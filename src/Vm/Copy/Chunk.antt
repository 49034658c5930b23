-- ===== src/Vm/Copy/Chunk.antt =====
-- The bytes that one round of a copy moves.
use learning_mits.Base.{ℕ, ◌+◌, ◌-◌, ◌*◌, ◌/◌, ◌≤◌, ◌<◌, ◌≡◌, ◌⊎◌, inl, inr, arith, ltb, Bool-cases}
use learning_mits.Riscv.{u64, pgrounddown, pgsize, maxva}
use learning_mits.Vm.Copy.{chunk}

-- The bytes of one round lie in one page.
pub chunk_sum : (va len : ℕ) → len ≡ chunk va len + (len - chunk va len)
unfolding chunk pgrounddown
chunk_sum va len = ground arith

pub chunk_fits : (va len : ℕ) → (va - pgrounddown va) + chunk va len ≤ 4096
unfolding chunk pgrounddown
chunk_fits va len = ground arith

-- The next round starts at the next page, if one is needed.
pub chunk_ends :
    (va len : ℕ)
    → va < maxva
    → (len - chunk va len ≡ 0) ⊎ (va + chunk va len ≡ u64 (pgrounddown va + pgsize))
unfolding chunk pgrounddown
chunk_ends va len small = elim (Bool-cases (ltb len (pgsize - (va - va / 4096 * 4096)))) [
  | inl lt ↦ rw lt (inl (omega arith))
  | inr ge ↦ rw ge (inr (omega arith))
]

-- Each round of a copy moves a byte at least.
pub chunk_bounds : (va len : ℕ) → 0 < len → (0 < chunk va len) × (chunk va len ≤ len)
unfolding chunk pgrounddown
chunk_bounds va len h = ground arith
