-- ===== src/Pgaccess.antt =====
-- sys_pgaccess of Lab_page_tables/sysproc.c, with argint and argaddr as in Syscall.antt. The bitmap
-- is a function from the index of a page to its bit, which is bit i % 8 of the byte i / 8.
pub mod Cleared
pub mod Reported
pub mod Stopped
use learning_mits.Base.{
  ℕ, zero, suc, ◌+◌, ◌-◌, ◌*◌, ◌/◌, ◌%◌, ◌^◌, Bool, true, false, not, ◌&&◌, List, [], ◌∷◌, ◌==◌,
  ltb, if◌then◌else◌, update,
}
use learning_mits.Kernel.{
  Kernel, M, success, failure, pure, ◌>>=◌, ◌>>◌, fail, when, gets, page_fuel, out_of_fuel,
  bitmap_overrun,
}
use learning_mits.Kernel.Memory.{load, store}
use learning_mits.Layout.{Layout}
use learning_mits.Proc.Life.{int_pos, int_neg}
use learning_mits.Riscv.{u64, pgsize, bit, clear_bit}
use learning_mits.Syscall.{argint, argaddr, minus_one64}
use learning_mits.Vm.Copy.{copyout}
use learning_mits.Vm.Walk.{walk}

abbrev pub max_pages : ℕ
max_pages = 512

-- `pte & PTE_A`
abbrev pub pte_a : ℕ → Bool
pte_a pte = bit 6 pte

abbrev pub bit_value : Bool → ℕ
bit_value true = 1
bit_value false = 0

-- The bits i to i + 7 in a byte, the lowest first.
unfoldable pub bitmap_byte : (ℕ → Bool) → ℕ → ℕ → ℕ
bitmap_byte bits zero i = 0
bitmap_byte bits (suc n) i = bit_value (bits i) + 2 * bitmap_byte bits n (i + 1)

-- The first n bytes of `temp_bitmap` from the bit i on.
unfoldable pub bitmap_bytes : (ℕ → Bool) → ℕ → ℕ → List ℕ
unfolding bitmap_byte
bitmap_bytes bits zero i = []
bitmap_bytes bits (suc n) i = bitmap_byte bits 8 i ∷ bitmap_bytes bits n (i + 8)

module _ ⦃l : Layout⦄ where
  -- The body of the loop for page i: whether its bit is set. A write behind `temp_bitmap` is a panic
  -- of the model.
  unfoldable pub take_access : ℕ → ℕ → ℕ → M Bool
  take_access pagetable addr i = do
    pte ← walk pagetable addr false
    if pte == 0 then pure false else do
      entry ← load pte
      if not (pte_a entry) then pure false else do
        when (not (ltb i max_pages)) (fail bitmap_overrun)
        store pte (clear_bit 6 entry)
        pure true

  -- `num_pages` is compared as a uint64.
  unfoldable pub pgaccess_loop : ℕ → ℕ → ℕ → ℕ → ℕ → (ℕ → Bool) → M (ℕ → Bool)
  unfolding take_access
  pgaccess_loop zero pagetable start num_pages i bits = λ _. out_of_fuel
  pgaccess_loop (suc f) pagetable start num_pages i bits =
      if not (ltb i num_pages) then pure bits else do
        accessed ← take_access pagetable (u64 (start + i * pgsize)) i
        pgaccess_loop f pagetable start num_pages (i + 1)
            (if accessed then update bits i true else bits)

  -- A negative number of pages is large as a uint64, and then walk panics at MAXVA.
  unfoldable pub sys_pgaccess : ℕ → M ℕ
  unfolding pgaccess_loop bitmap_bytes
  sys_pgaccess me = do
    start_addr ← argaddr me 0
    num ← argint me 1
    bitmap ← argaddr me 2
    p ← gets (λ k. k.proc me)
    let num_pages = if int_pos num && ltb max_pages num then max_pages else num
    let rounds = if int_neg num_pages then num_pages + (2 ^ 64 - 2 ^ 32) else num_pages
    bits ← pgaccess_loop page_fuel p.pagetable start_addr rounds 0 (λ _. false)
    r ←
        copyout p.pagetable bitmap
          (bitmap_bytes bits (num_pages / 8 + (if num_pages % 8 == 0 then 0 else 1)) 0)
    elim r [ success ↦ pure 0 | failure ↦ pure minus_one64 ]
