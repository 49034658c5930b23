-- ===== src/Vm/Map/Unmap.antt =====
-- uvmunmap of one page, and the translation that is gone.
use learning_mits.Base.{
  ℕ, suc, ◌+◌, ◌-◌, ◌*◌, ◌%◌, ◌^◌, ◌<◌, ◌≡◌, refl, ◌≢◌, true, false, none, List, arith, ne→==,
  eq→==, lt→leb, lt→ltb, le→ltb, update,
}
use learning_mits.Kernel.{Kernel, page_fuel, ok}
use learning_mits.Kernel.Memory.{Memory}
use learning_mits.Kernel.Returns.{Returns, returns}
use learning_mits.Layout.{Layout}
use learning_mits.Riscv.{u64, pgsize, pte_v, pte_flags, maxva}
use learning_mits.Vm.Walk.{walk}
use learning_mits.Vm.Walk.Lookup.{user_page}
use learning_mits.Vm.Walk.Route.{Route, Route-store, walk_down-Route}
use learning_mits.Vm.Map.{uvmunmap_loop, uvmunmap}
use learning_mits.Vm.Map.RoundTrip.{Route-leaf_entry}

-- No translation goes through an entry that is 0.
cleared :
    (m : Memory) (va pt r : ℕ) {ts : List ℕ}
    → va < maxva
    → 0 < r
    → Route m va 2 pt r ts
    → m r ≡ 0
    → user_page m pt va ≡ none
unfolding user_page
cleared m va pt r small pos rt z =
    rw (lt→leb va maxva small, Route-leaf_entry rt, ne→== r 0 (omega arith), z) refl

module _ ⦃l : Layout⦄ where
  one_round :
      (f : ℕ) (k : Kernel) (pt va r : ℕ) {ts : List ℕ}
      → va < maxva
      → 0 < r
      → Route k.mem va 2 pt r ts
      → pte_v (k.mem r) ≡ true
      → pte_flags (k.mem r) ≢ 1
      → uvmunmap_loop (suc (suc f)) pt va (va + 4096) false k
        ≡ ok tt (record k { mem = update k.mem r 0 })
  unfolding uvmunmap_loop walk
  one_round f k pt va r small pos rt v leaf =
      rw
        (
          lt→ltb va (va + 4096) (omega arith),
          lt→leb va maxva small,
          walk_down-Route k false rt,
          ne→== r 0 (omega arith),
          v,
          ne→== _ 1 leaf,
        )
        (rw (le→ltb (u64 (va + pgsize)) (va + 4096) (omega arith)) refl)

  page_fuel_lem : page_fuel ≡ suc (suc (2 ^ 26 - 1))
  unfolding page_fuel
  page_fuel_lem = refl

  -- uvmunmap of one page without freeing it, for a page-aligned va below MAXVA whose entry lies at r,
  -- at the end of a route of valid tables, and is valid with more flags than PTE_V: it writes 0 to
  -- that entry and to nothing else, and va is not translated afterwards.
  pub uvmunmap-user_page :
      (k : Kernel) (pt va r : ℕ) {ts : List ℕ}
      → va % 4096 ≡ 0
      → va < maxva
      → 0 < r
      → Route k.mem va 2 pt r ts
      → pte_v (k.mem r) ≡ true
      → pte_flags (k.mem r) ≢ 1
      → Returns
          (λ _ k'. (k' ≡ record k { mem = update k.mem r 0 }) × (user_page k'.mem pt va ≡ none))
          (uvmunmap pt va 1 false k)
  unfolding uvmunmap
  uvmunmap-user_page k pt va r aligned small pos rt v leaf =
      rw (aligned, stop, page_fuel_lem, one_round (2 ^ 26 - 1) k pt va r small pos rt v leaf)
        (returns (
          refl,
          cleared (update k.mem r 0) va pt r small pos (Route-store 0 rt)
              (rw (eq→== r r refl) refl),
        ))
    where
      stop : u64 (va + 1 * pgsize) ≡ va + 4096
      stop = omega arith
