-- ===== src/Riscv/Rounding.antt =====
-- Rounding to page boundaries.
use learning_mits.Base.{ℕ, ◌+◌, ◌%◌, ◌^◌, ◌≤◌, ◌<◌, ◌≡◌, arith}
use learning_mits.Riscv.{pgroundup, pgrounddown}

-- Rounding up gives the least page boundary that is not below the size, and rounding down the
-- greatest that is not above it; the sizes are those for which `sz + PGSIZE - 1` does not wrap.
pub pgroundup_least :
    (sz : ℕ)
    → sz + 4095 < 2 ^ 64
    → (pgroundup sz % 4096 ≡ 0)
      × (sz ≤ pgroundup sz)
      × (pgroundup sz < sz + 4096)
      × (pgrounddown sz % 4096 ≡ 0)
      × (pgrounddown sz ≤ sz)
      × (sz < pgrounddown sz + 4096)
unfolding pgroundup pgrounddown
pgroundup_least sz h = omega arith
