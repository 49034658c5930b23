-- ===== src/Vm/Map.antt =====
-- Making and removing mappings: mappages, kvmmap, uvmunmap and uvmclear of vm.c.
pub mod RoundTrip
pub mod Unmap
use learning_mits.Base.{
  ℕ, zero, suc, ◌+◌, ◌*◌, ◌%◌, Bool, true, false, not, ◌==◌, ltb, if◌then◌else◌,
}
use learning_mits.Kernel.{
  M, Status, success, failure, pure, ◌>>=◌, ◌>>◌, fail, when, page_fuel, out_of_fuel, mappages_size,
  mappages_remap, kvmmap_panic, unmap_aligned, unmap_walk, unmap_not_mapped, unmap_not_leaf,
  uvmclear_panic,
}
use learning_mits.Kernel.Memory.{load, store}
use learning_mits.Kalloc.{kfree}
use learning_mits.Layout.{Layout}
use learning_mits.Riscv.{
  u64, sub64, pgsize, pgrounddown, pte_v, pa2pte, pte2pa, pte_flags, or_v, clear_u,
}
use learning_mits.Vm.Walk.{walk}

-- The rest of a round: return, break or go on.
abbrev pub after_page : Status → Bool → M Status → M Status
after_page failure done rest = pure failure
after_page success done rest = if done then pure success else rest

module _ ⦃l : Layout⦄ where
  -- One round of mappages; `perm` lies in the ten flag bits, which PA2PTE leaves 0.
  unfoldable pub map_page : ℕ → ℕ → ℕ → ℕ → M Status
  map_page pagetable a pa perm = do
    pte ← walk pagetable a true
    if pte == 0 then pure failure else do
      old ← load pte
      if pte_v old
          then fail mappages_remap
          else do store pte (or_v (pa2pte pa + perm)); pure success

  -- The `for(;;)` of mappages.
  unfoldable pub mappages_loop : ℕ → ℕ → ℕ → ℕ → ℕ → ℕ → M Status
  mappages_loop zero pagetable a last pa perm = λ _. out_of_fuel
  mappages_loop (suc f) pagetable a last pa perm = do
    s ← map_page pagetable a pa perm
    after_page s (a == last)
        (mappages_loop f pagetable (u64 (a + pgsize)) last (u64 (pa + pgsize)) perm)

  unfoldable pub mappages : ℕ → ℕ → ℕ → ℕ → ℕ → M Status
  mappages pagetable va size pa perm =
      if size == 0
      then fail mappages_size
      else mappages_loop page_fuel pagetable (pgrounddown va)
          (pgrounddown (sub64 (u64 (va + size)) 1)) pa perm

  unfoldable pub kvmmap : ℕ → ℕ → ℕ → ℕ → ℕ → M (Unit {0})
  kvmmap kpgtbl va pa sz perm = do
    r ← mappages kpgtbl va sz pa perm
    elim r [ success ↦ pure tt | failure ↦ fail kvmmap_panic ]

  -- `stop` is `va + npages * PGSIZE`.
  unfoldable pub uvmunmap_loop : ℕ → ℕ → ℕ → ℕ → Bool → M (Unit {0})
  uvmunmap_loop zero pagetable a stop do_free = λ _. out_of_fuel
  uvmunmap_loop (suc f) pagetable a stop do_free = if not (ltb a stop) then pure tt else do
    pte ← walk pagetable a false
    if pte == 0 then fail unmap_walk else do
      entry ← load pte
      if not (pte_v entry)
          then fail unmap_not_mapped
          else if pte_flags entry == 1
          then fail unmap_not_leaf
          else do
            when do_free (kfree (pte2pa entry))
            store pte 0
            uvmunmap_loop f pagetable (u64 (a + pgsize)) stop do_free

  unfoldable pub uvmunmap : ℕ → ℕ → ℕ → Bool → M (Unit {0})
  uvmunmap pagetable va npages do_free =
      if not (va % pgsize == 0)
      then fail unmap_aligned
      else uvmunmap_loop page_fuel pagetable va (u64 (va + npages * pgsize)) do_free

  unfoldable pub uvmclear : ℕ → ℕ → M (Unit {0})
  uvmclear pagetable va = do
    pte ← walk pagetable va false
    if pte == 0 then fail uvmclear_panic else do entry ← load pte; store pte (clear_u entry)
