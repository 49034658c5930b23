-- ===== src/Riscv.antt =====
-- Lab_page_tables/riscv.h: page size, page-table entries and the fields of a virtual address.
-- A uint64 is a number below 2 ^ 64. `x >> k` is `/ 2 ^ k`, `x & (2 ^ k - 1)` is `% 2 ^ k`,
-- and `x & ~(PGSIZE - 1)` drops the last twelve bits.
pub mod Entries
pub mod Fields
pub mod Rounding
pub mod Registers
use learning_mits.Base.{ℕ, ◌+◌, ◌-◌, ◌*◌, ◌/◌, ◌%◌, ◌^◌, Bool, ◌==◌, if◌then◌else◌}

abbrev pub u64 : ℕ → ℕ
u64 x = x % 2 ^ 64

abbrev pub u32 : ℕ → ℕ
u32 x = x % 2 ^ 32

-- a - b in uint64
abbrev pub sub64 : ℕ → ℕ → ℕ
sub64 a b = (a + 2 ^ 64 - b) % 2 ^ 64

abbrev pub pgsize : ℕ
pgsize = 4096

unfoldable pub pgroundup : ℕ → ℕ
pgroundup sz = (sz + 4095) % 2 ^ 64 / 4096 * 4096

unfoldable pub pgrounddown : ℕ → ℕ
pgrounddown a = a / 4096 * 4096

-- Bit k of x, as in `x & (1L << k)`.
abbrev pub bit : ℕ → ℕ → Bool
bit k x = (x / 2 ^ k % 2) == 1

abbrev pub pte_v : ℕ → Bool
pte_v pte = bit 0 pte

abbrev pub pte_r : ℕ → Bool
pte_r pte = bit 1 pte

abbrev pub pte_w : ℕ → Bool
pte_w pte = bit 2 pte

abbrev pub pte_x : ℕ → Bool
pte_x pte = bit 3 pte

abbrev pub pte_u : ℕ → Bool
pte_u pte = bit 4 pte

-- The masks themselves, for the permissions that callers pass.
abbrev pub flag_r : ℕ
flag_r = 2

abbrev pub flag_w : ℕ
flag_w = 4

abbrev pub flag_x : ℕ
flag_x = 8

abbrev pub flag_u : ℕ
flag_u = 16

unfoldable pub pa2pte : ℕ → ℕ
pa2pte pa = pa / 2 ^ 12 * 2 ^ 10 % 2 ^ 64

unfoldable pub pte2pa : ℕ → ℕ
pte2pa pte = pte / 2 ^ 10 * 2 ^ 12 % 2 ^ 64

unfoldable pub pte_flags : ℕ → ℕ
pte_flags pte = pte % 2 ^ 10

-- x | PTE_V
unfoldable pub or_v : ℕ → ℕ
or_v x = x / 2 * 2 + 1

-- x & ~PTE_U
unfoldable pub clear_u : ℕ → ℕ
clear_u x = if bit 4 x then x - 16 else x

abbrev pub pxshift : ℕ → ℕ
pxshift level = 12 + 9 * level

unfoldable pub px : ℕ → ℕ → ℕ
px level va = va / 2 ^ pxshift level % 2 ^ 9

abbrev pub maxva : ℕ
maxva = 2 ^ 38

-- `x & ~(1L << k)` and `x | (1L << k)`
abbrev pub clear_bit : ℕ → ℕ → ℕ
clear_bit k x = if bit k x then x - 2 ^ k else x

abbrev pub set_bit : ℕ → ℕ → ℕ
set_bit k x = if bit k x then x else x + 2 ^ k

-- The bits of sstatus that the code reads or writes.
abbrev pub sstatus_spp : ℕ
sstatus_spp = 8

abbrev pub sstatus_spie : ℕ
sstatus_spie = 5

abbrev pub sstatus_sie : ℕ
sstatus_sie = 1

-- The page number stays below the mode bits of satp.
unfoldable pub make_satp : ℕ → ℕ
make_satp pagetable = 2 ^ 63 + pagetable / 2 ^ 12
