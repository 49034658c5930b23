-- ===== src/Vm/Walk.antt =====
-- walk and walkaddr of vm.c. A page table is the address of a page of 512 entries.
pub mod Lookup
pub mod Words
pub mod Route
pub mod Tables
pub mod Entries
pub mod Grow
use learning_mits.Base.{ℕ, zero, suc, ◌+◌, ◌*◌, Bool, true, false, not, ◌==◌, leb, if◌then◌else◌}
use learning_mits.Kernel.{M, pure, ◌>>=◌, ◌>>◌, fail, walk_panic}
use learning_mits.Kernel.Memory.{load, store, memset_page}
use learning_mits.Kalloc.{kalloc}
use learning_mits.Layout.{Layout}
use learning_mits.Riscv.{px, pte_v, pte_u, pa2pte, pte2pa, or_v, maxva}

-- `&pagetable[PX(level, va)]`
abbrev pub pte_addr : ℕ → ℕ → ℕ → ℕ
pte_addr pagetable level va = pagetable + px level va * 8

module _ ⦃l : Layout⦄ where
  -- The levels from `level` down to 1, and the address of the entry at level 0; 0 for none.
  unfoldable pub walk_down : ℕ → ℕ → ℕ → Bool → M ℕ
  walk_down zero pagetable va alloc = pure (pte_addr pagetable 0 va)
  walk_down (suc level) pagetable va alloc = do
    pte ← load (pte_addr pagetable (suc level) va)
    if pte_v pte then walk_down level (pte2pa pte) va alloc else if not alloc then pure 0 else do
      page ← kalloc
      if page == 0 then pure 0 else do
        memset_page page 0
        store (pte_addr pagetable (suc level) va) (or_v (pa2pte page))
        walk_down level page va alloc

  unfoldable pub walk : ℕ → ℕ → Bool → M ℕ
  unfolding walk_down
  walk pagetable va alloc = if leb maxva va then fail walk_panic else walk_down 2 pagetable va alloc

-- walkaddr from the answer of walk on.
unfoldable pub entry_page : ℕ → M ℕ
entry_page pte = if pte == 0 then pure 0 else do
  entry ← load pte
  if not (pte_v entry) then pure 0 else if not (pte_u entry) then pure 0 else pure (pte2pa entry)

module _ ⦃l : Layout⦄ where
  unfoldable pub walkaddr : ℕ → ℕ → M ℕ
  unfolding entry_page
  walkaddr pagetable va =
      if leb maxva va then pure 0 else do pte ← walk pagetable va false; entry_page pte
