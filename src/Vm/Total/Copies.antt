-- ===== src/Vm/Total/Copies.antt =====
-- Termination of the copies between kernel and user memory.
use learning_mits.Base.{
  ℕ, zero, suc, ◌+◌, ◌-◌, ◌<◌, List, ◌++◌, length, take, drop, length-drop, arith, ◌==◌, inl, inr,
  Bool-cases, if◌then◌else◌,
}
use learning_mits.Kernel.{success, failure, pure, ◌>>=◌, ◌>>◌, gets, modify}
use learning_mits.Kernel.Memory.{load_bytes, store_bytes}
use learning_mits.Kernel.Ends
use learning_mits.Kernel.Ends.{Total}
use learning_mits.Layout.{Layout}
use learning_mits.Riscv.{u64, pgrounddown, pgsize}
use learning_mits.Vm.Walk.{walkaddr}
use learning_mits.Vm.Copy.{scan_string, chunk, copyout_loop, copyin_loop, copyinstr_loop}
use learning_mits.Vm.Copy.Chunk.{chunk_bounds}
use learning_mits.Vm.Total.Walks.{total_rules, walkaddr-Total}

module _ ⦃l : Layout⦄ where
  pub copyin_loop-Total :
      (f pt : ℕ) (dst : List ℕ) (srcva len : ℕ) → len < f → Total (copyin_loop f pt dst srcva len)
  unfolding copyin_loop
  copyin_loop-Total zero pt dst srcva len h = absurd (omega arith)
  copyin_loop-Total (suc f) pt dst srcva len h = elim (Bool-cases (len == 0)) [
    | inl e ↦ rw e (Ends.pure-Total _)
    | inr ne ↦ rw ne (
        round (λ d.
          copyin_loop-Total f pt d _ (len - chunk srcva len)
            (ground (arith, chunk_bounds srcva len))))
  ]
    where
      round :
          ((d : List ℕ)
            → Total (copyin_loop f pt d (u64 (pgrounddown srcva + pgsize)) (len - chunk srcva len)))
          → Total (do
            pa0 ← walkaddr pt (pgrounddown srcva)
            if pa0 == 0 then pure (failure, dst) else do
              let n = chunk srcva len
              bytes ← gets (λ k. load_bytes k.mem (pa0 + (srcva - pgrounddown srcva)) n)
              copyin_loop f pt (dst ++ bytes) (u64 (pgrounddown srcva + pgsize)) (len - n))
      round rest = search (total_rules, walkaddr-Total) depth 16

  pub copyinstr_loop-Total :
      (f pt : ℕ) (dst : List ℕ) (srcva max : ℕ)
      → max < f
      → Total (copyinstr_loop f pt dst srcva max)
  unfolding copyinstr_loop
  copyinstr_loop-Total zero pt dst srcva max h = absurd (omega arith)
  copyinstr_loop-Total (suc f) pt dst srcva max h = elim (Bool-cases (max == 0)) [
    | inl e ↦ rw e (Ends.pure-Total _)
    | inr ne ↦ rw ne (
        round (λ d.
          copyinstr_loop-Total f pt d _ (max - chunk srcva max)
            (ground (arith, chunk_bounds srcva max))))
  ]
    where
      round :
          ((d : List ℕ)
            → Total
                (copyinstr_loop f pt d (u64 (pgrounddown srcva + pgsize)) (max - chunk srcva max)))
          → Total (do
            pa0 ← walkaddr pt (pgrounddown srcva)
            if pa0 == 0 then pure (failure, dst) else do
              let n = chunk srcva max
              (bytes, got_null) ←
                  gets (λ k. scan_string k.mem (pa0 + (srcva - pgrounddown srcva)) n)
              if got_null
                  then pure (success, dst ++ bytes)
                  else copyinstr_loop f pt
                      (dst ++ bytes)
                      (u64 (pgrounddown srcva + pgsize))
                      (max - n))
      round rest = search (total_rules, walkaddr-Total) depth 16

  pub copyout_loop-Total :
      (f pt dstva : ℕ) (src : List ℕ) → length src < f → Total (copyout_loop f pt dstva src)
  unfolding copyout_loop
  copyout_loop-Total zero pt dstva src h = absurd (omega arith)
  copyout_loop-Total (suc f) pt dstva src h = elim (Bool-cases (length src == 0)) [
    | inl e ↦ rw e (Ends.pure-Total _)
    | inr ne ↦ rw ne (
        round (
          copyout_loop-Total f pt _ (drop (chunk dstva (length src)) src) (
            ground (
              arith,
              chunk_bounds dstva (length src),
              length-drop (chunk dstva (length src)) src,
            ))))
  ]
    where
      round :
          Total (
            copyout_loop f pt
              (u64 (pgrounddown dstva + pgsize))
              (drop (chunk dstva (length src)) src))
          → Total (do
            pa0 ← walkaddr pt (pgrounddown dstva)
            if pa0 == 0 then pure failure else do
              let n = chunk dstva (length src)
              modify (λ k. record k {
                mem = store_bytes (pa0 + (dstva - pgrounddown dstva)) (take n src) k.mem;
              })
              copyout_loop f pt (u64 (pgrounddown dstva + pgsize)) (drop n src))
      round rest = search (total_rules, walkaddr-Total) depth 16
