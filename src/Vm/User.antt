-- ===== src/Vm/User.antt =====
-- User address spaces: uvmcreate to uvmcopy and freewalk of vm.c.
use learning_mits.Base.{
  ℕ, zero, suc, ◌+◌, ◌-◌, ◌*◌, ◌/◌, ◌%◌, ◌^◌, true, false, not, ◌&&◌, ◌||◌, List, ◌==◌, leb, ltb,
  if◌then◌else◌, length,
}
use learning_mits.Kernel.{
  M, Status, success, failure, pure, ◌>>=◌, ◌>>◌, fail, when, modify, page_fuel, out_of_fuel,
  inituvm, freewalk_leaf, uvmcopy_pte, uvmcopy_present,
}
use learning_mits.Kernel.Memory.{load, store, memset_page, memmove_page, store_bytes}
use learning_mits.Kalloc.{kalloc, kfree}
use learning_mits.Layout.{Layout}
use learning_mits.Riscv.{
  u64, pgsize, pgroundup, pte_v, pte_r, pte_w, pte_x, pte2pa, pte_flags, flag_r, flag_w, flag_x,
  flag_u,
}
use learning_mits.Vm.Walk.{walk}
use learning_mits.Vm.Map.{mappages, uvmunmap}

-- `(uint64)(int) x`
abbrev pub int_to_u64 : ℕ → ℕ
int_to_u64 x = if ltb (x % 2 ^ 32) (2 ^ 31) then x % 2 ^ 32 else x % 2 ^ 32 + (2 ^ 64 - 2 ^ 32)

abbrev pub flag_rwxu : ℕ
flag_rwxu = flag_w + flag_r + flag_x + flag_u

module _ ⦃l : Layout⦄ where
  unfoldable pub uvmcreate : M ℕ
  uvmcreate = do
    pagetable ← kalloc
    if pagetable == 0 then pure 0 else (do memset_page pagetable 0; pure pagetable)

  -- `src` is the `sz` bytes of the program. The answer of mappages is not looked at.
  unfoldable pub uvminit : ℕ → List ℕ → M (Unit {0})
  uvminit pagetable src = if leb pgsize (length src) then fail inituvm else do
    page ← kalloc
    memset_page page 0
    mappages pagetable 0 pgsize page flag_rwxu
    modify (λ k. record k { mem = store_bytes page src k.mem })

  unfoldable pub uvmdealloc : ℕ → ℕ → ℕ → M ℕ
  uvmdealloc pagetable oldsz newsz = if leb oldsz newsz then pure oldsz else do
    when (ltb (pgroundup newsz) (pgroundup oldsz)) (
        uvmunmap pagetable (pgroundup newsz)
          (int_to_u64 ((pgroundup oldsz - pgroundup newsz) / pgsize)) true)
    pure newsz

  -- `oldsz` is rounded up already.
  unfoldable pub uvmalloc_loop : ℕ → ℕ → ℕ → ℕ → ℕ → M ℕ
  uvmalloc_loop zero pagetable a oldsz newsz = λ _. out_of_fuel
  uvmalloc_loop (suc f) pagetable a oldsz newsz = if not (ltb a newsz) then pure newsz else do
    page ← kalloc
    if page == 0 then (do uvmdealloc pagetable a oldsz; pure 0) else do
      memset_page page 0
      r ← mappages pagetable a pgsize page flag_rwxu
      elim r [
        | success ↦ uvmalloc_loop f pagetable (u64 (a + pgsize)) oldsz newsz
        | failure ↦ (do kfree page; uvmdealloc pagetable a oldsz; pure 0)
      ]

  unfoldable pub uvmalloc : ℕ → ℕ → ℕ → M ℕ
  uvmalloc pagetable oldsz newsz =
      if ltb newsz oldsz
      then pure oldsz
      else uvmalloc_loop page_fuel pagetable (pgroundup oldsz) (pgroundup oldsz) newsz

  -- The entries from `i` on, `n` of them; `free_child` frees the table that an entry points at.
  unfoldable pub freewalk_entries : (ℕ → M (Unit {0})) → ℕ → ℕ → ℕ → M (Unit {0})
  freewalk_entries free_child pagetable zero i = pure tt
  freewalk_entries free_child pagetable (suc n) i = do
    pte ← load (pagetable + i * 8)
    (if pte_v pte && not (pte_r pte || (pte_w pte || pte_x pte))
        then (do free_child (pte2pa pte); store (pagetable + i * 8) 0)
        else when (pte_v pte) (fail freewalk_leaf))
    freewalk_entries free_child pagetable n (i + 1)

  unfoldable pub freewalk_depth : ℕ → ℕ → M (Unit {0})
  unfolding freewalk_entries
  freewalk_depth zero pagetable = λ _. out_of_fuel
  freewalk_depth (suc d) pagetable = do
    freewalk_entries (freewalk_depth d) pagetable 512 0
    kfree pagetable

  -- Sv39 tables are three deep.
  unfoldable pub freewalk : ℕ → M (Unit {0})
  unfolding freewalk_depth
  freewalk pagetable = freewalk_depth 3 pagetable

  unfoldable pub uvmfree : ℕ → ℕ → M (Unit {0})
  uvmfree pagetable sz = do
    when (ltb 0 sz) (uvmunmap pagetable 0 (pgroundup sz / pgsize) true)
    freewalk pagetable

  -- The label `err` of uvmcopy, reached at address `i`.
  unfoldable pub uvmcopy_err : ℕ → ℕ → M Status
  uvmcopy_err new i = do uvmunmap new 0 (i / pgsize) true; pure failure

  unfoldable pub uvmcopy_loop : ℕ → ℕ → ℕ → ℕ → ℕ → M Status
  uvmcopy_loop zero old new i sz = λ _. out_of_fuel
  uvmcopy_loop (suc f) old new i sz = if not (ltb i sz) then pure success else do
    pte ← walk old i false
    if pte == 0 then fail uvmcopy_pte else do
      entry ← load pte
      if not (pte_v entry) then fail uvmcopy_present else do
        page ← kalloc
        if page == 0 then uvmcopy_err new i else do
          memmove_page page (pte2pa entry)
          r ← mappages new i pgsize page (pte_flags entry)
          elim r [
            | success ↦ uvmcopy_loop f old new (u64 (i + pgsize)) sz
            | failure ↦ (do kfree page; uvmcopy_err new i)
          ]

  unfoldable pub uvmcopy : ℕ → ℕ → ℕ → M Status
  unfolding uvmcopy_loop uvmcopy_err
  uvmcopy old new sz = uvmcopy_loop page_fuel old new 0 sz
