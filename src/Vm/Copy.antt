-- ===== src/Vm/Copy.antt =====
-- copyout, copyin and copyinstr of vm.c. The kernel's buffer is given by its bytes: copyout takes
-- the `len` bytes at `src`, and copyin and copyinstr answer with the bytes written at `dst`.
pub mod Chunk
pub mod Seen
pub mod Reads
pub mod Strings
pub mod Writes
pub mod RoundTrip
pub mod Sent
use learning_mits.Base.{
  ℕ, zero, suc, ◌+◌, ◌-◌, Bool, true, false, List, [], ◌∷◌, ◌++◌, ◌==◌, ltb, if◌then◌else◌, length,
  take, drop,
}
use learning_mits.Kernel.{M, Status, success, failure, pure, ◌>>=◌, ◌>>◌, modify, gets, out_of_fuel}
use learning_mits.Kernel.Memory.{Memory, load_byte, load_bytes, store_bytes}
use learning_mits.Layout.{Layout}
use learning_mits.Riscv.{u64, pgsize, pgrounddown}
use learning_mits.Vm.Walk.{walkaddr}

-- `n = PGSIZE - (va - va0); if(n > len) n = len;`
unfoldable pub chunk : ℕ → ℕ → ℕ
chunk va len = let n = pgsize - (va - pgrounddown va) in if ltb len n then len else n

module _ ⦃l : Layout⦄ where
  unfoldable pub copyout_loop : ℕ → ℕ → ℕ → List ℕ → M Status
  copyout_loop zero pagetable dstva src = λ _. out_of_fuel
  copyout_loop (suc f) pagetable dstva src = if length src == 0 then pure success else do
    pa0 ← walkaddr pagetable (pgrounddown dstva)
    if pa0 == 0 then pure failure else do
      let n = chunk dstva (length src)
      modify (λ k. record k {
        mem = store_bytes (pa0 + (dstva - pgrounddown dstva)) (take n src) k.mem;
      })
      copyout_loop f pagetable (u64 (pgrounddown dstva + pgsize)) (drop n src)

  -- Each round copies a byte at least.
  unfoldable pub copyout : ℕ → ℕ → List ℕ → M Status
  unfolding copyout_loop chunk
  copyout pagetable dstva src = copyout_loop (length src + 1) pagetable dstva src

  unfoldable pub copyin_loop : ℕ → ℕ → List ℕ → ℕ → ℕ → M (Status × List ℕ)
  copyin_loop zero pagetable dst srcva len = λ _. out_of_fuel
  copyin_loop (suc f) pagetable dst srcva len = if len == 0 then pure (success, dst) else do
    pa0 ← walkaddr pagetable (pgrounddown srcva)
    if pa0 == 0 then pure (failure, dst) else do
      let n = chunk srcva len
      bytes ← gets (λ k. load_bytes k.mem (pa0 + (srcva - pgrounddown srcva)) n)
      copyin_loop f pagetable (dst ++ bytes) (u64 (pgrounddown srcva + pgsize)) (len - n)

  unfoldable pub copyin : ℕ → ℕ → ℕ → M (Status × List ℕ)
  unfolding copyin_loop chunk
  copyin pagetable srcva len = copyin_loop (len + 1) pagetable [] srcva len

-- The inner `while(n > 0)` of copyinstr: the bytes written, and whether a '\0' was met.
unfoldable pub scan_string : Memory → ℕ → ℕ → List ℕ × Bool
unfolding load_byte
scan_string m p zero = ([], false)
scan_string m p (suc n) =
    let rest = scan_string m (p + 1) n in
    if load_byte m p == 0 then (0 ∷ [], true) else (load_byte m p ∷ rest.0, rest.1)

module _ ⦃l : Layout⦄ where
  unfoldable pub copyinstr_loop : ℕ → ℕ → List ℕ → ℕ → ℕ → M (Status × List ℕ)
  copyinstr_loop zero pagetable dst srcva max = λ _. out_of_fuel
  copyinstr_loop (suc f) pagetable dst srcva max = if max == 0 then pure (failure, dst) else do
    pa0 ← walkaddr pagetable (pgrounddown srcva)
    if pa0 == 0 then pure (failure, dst) else do
      let n = chunk srcva max
      (bytes, got_null) ← gets (λ k. scan_string k.mem (pa0 + (srcva - pgrounddown srcva)) n)
      if got_null
          then pure (success, dst ++ bytes)
          else copyinstr_loop f pagetable (dst ++ bytes) (u64 (pgrounddown srcva + pgsize))
              (max - n)

  unfoldable pub copyinstr : ℕ → ℕ → ℕ → M (Status × List ℕ)
  unfolding copyinstr_loop chunk scan_string
  copyinstr pagetable srcva max = copyinstr_loop (max + 1) pagetable [] srcva max
