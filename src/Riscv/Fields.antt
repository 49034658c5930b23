-- ===== src/Riscv/Fields.antt =====
-- The fields of a virtual address.
use learning_mits.Base.{ℕ, ◌+◌, ◌*◌, ◌%◌, ◌^◌, ◌<◌, ◌≡◌, arith}
use learning_mits.Riscv.{px, maxva}

-- A virtual address below MAXVA is its three page-table indices and its offset.
pub px_decompose :
    (va : ℕ)
    → va < maxva
    → (va ≡ px 2 va * 2 ^ 30 + px 1 va * 2 ^ 21 + px 0 va * 2 ^ 12 + va % 2 ^ 12)
      × (px 2 va < 512)
      × (px 1 va < 512)
      × (px 0 va < 512)
unfolding px
px_decompose va h = omega arith
