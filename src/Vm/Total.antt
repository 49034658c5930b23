-- ===== src/Vm/Total.antt =====
-- Termination of the loops of vm.c.
pub mod Walks
mod Copies
use learning_mits.Base.{
  ℕ, zero, suc, ◌+◌, ◌-◌, ◌*◌, ◌^◌, ◌≤◌, ◌<◌, ◌≡◌, refl, List, [], ◌∷◌, ◌++◌, length, take, drop,
  Bool, true, false, not, arith, ◌==◌, ltb, leb, leb→le, inl, inr, Bool-cases, if◌then◌else◌,
}
use learning_mits.Kernel.{
  Kernel, M, Status, success, failure, pure, page_fuel, panic, walk_panic, ◌>>=◌, ◌>>◌, fail, when,
  gets, modify, unmap_walk, unmap_not_mapped, unmap_not_leaf, record_event, Event,
}
use learning_mits.Kernel.Memory.{load, store, memset_page, load_bytes, store_bytes}
use learning_mits.Kernel.Ends
use learning_mits.Kernel.Ends.{Total}
use learning_mits.Layout.{Layout}
use learning_mits.Kalloc.{kfree, kalloc}
use learning_mits.Riscv.{u64, maxva, pgrounddown, pgsize, pte_v, pte_flags, pte2pa}
use learning_mits.Vm.Walk.{walk_down, walk, walkaddr}
use learning_mits.Vm.Walk.Lookup.{walk_beyond}
use learning_mits.Vm.User.{uvmdealloc}
use learning_mits.Vm.Copy.{
  scan_string, chunk, copyout_loop, copyout, copyin_loop, copyin, copyinstr_loop, copyinstr,
}
use learning_mits.Vm.Map.{after_page, map_page, mappages_loop, mappages, uvmunmap_loop, uvmunmap}
use learning_mits.Vm.Total.Walks.{mappages-Total, uvmunmap-Total, uvmdealloc-Total}
use learning_mits.Vm.Total.Copies.{copyin_loop-Total, copyinstr_loop-Total, copyout_loop-Total}

module _ ⦃l : Layout⦄ where
  -- mappages, uvmunmap, uvmdealloc and the three copies return or panic from every state and for
  -- all arguments: the rounds that the model gives their loops are never used up.
  pub vm-Total :
      ((pt va size pa perm : ℕ) → Total (mappages pt va size pa perm))
      × ((pt va npages : ℕ) (do_free : Bool) → Total (uvmunmap pt va npages do_free))
      × ((pt oldsz newsz : ℕ) → Total (uvmdealloc pt oldsz newsz))
      × ((pt dstva : ℕ) (src : List ℕ) → Total (copyout pt dstva src))
      × ((pt srcva len : ℕ) → Total (copyin pt srcva len))
      × ((pt srcva max : ℕ) → Total (copyinstr pt srcva max))
  unfolding copyout copyin copyinstr
  vm-Total = (
    mappages-Total,
    uvmunmap-Total,
    uvmdealloc-Total,
    (λ pt dstva src. copyout_loop-Total (length src + 1) pt dstva src (omega arith)),
    (λ pt srcva len. copyin_loop-Total (len + 1) pt [] srcva len (omega arith)),
    (λ pt srcva max. copyinstr_loop-Total (max + 1) pt [] srcva max (omega arith)),
  )
