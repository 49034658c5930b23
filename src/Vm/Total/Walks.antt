-- ===== src/Vm/Total/Walks.antt =====
-- Termination of walk and of the loops over the pages of a range.
use learning_mits.Base.{
  ℕ, zero, suc, ◌+◌, ◌*◌, ◌^◌, ◌≤◌, ◌<◌, ◌≡◌, refl, Bool, true, false, not, arith, ◌==◌, ltb, leb,
  leb→le, inl, inr, Bool-cases, if◌then◌else◌,
}
use learning_mits.Kernel.{
  Kernel, M, Status, success, failure, page_fuel, panic, walk_panic, ◌>>=◌, ◌>>◌, fail, when,
  unmap_walk, unmap_not_mapped, unmap_not_leaf, record_event, Event,
}
use learning_mits.Kernel.Memory.{load, store, memset_page}
use learning_mits.Kernel.Ends
use learning_mits.Kernel.Ends.{Total}
use learning_mits.Layout.{Layout}
use learning_mits.Kalloc.{kfree, kalloc}
use learning_mits.Riscv.{u64, maxva, pgsize, pte_v, pte_flags, pte2pa}
use learning_mits.Vm.Walk.{walk_down, walk, walkaddr}
use learning_mits.Vm.Walk.Lookup.{walk_beyond}
use learning_mits.Vm.User.{uvmdealloc}
use learning_mits.Vm.Map.{after_page, map_page, mappages_loop, mappages, uvmunmap_loop, uvmunmap}

pub load-Total : (a : ℕ) → Total (load a)
load-Total a = record { ends = λ k. Ends.ended _ k }

pub store-Total : (a v : ℕ) → Total (store a v)
store-Total a v = record { ends = λ k. Ends.ended tt _ }

pub event-Total : (e : Event) → Total (record_event e)
event-Total e = record { ends = λ k. Ends.ended tt _ }

pub memset-Total : (p c : ℕ) → Total (memset_page p c)
memset-Total p c = Ends.branch-Total (p == 0) (Ends.fail-Total _) (Ends.modify-Total _)

pub ruleset total_rules = (
  Ends.bind-Total, Ends.then-Total, Ends.pure-Total, Ends.fail-Total, Ends.gets-Total,
  Ends.branch-Total, Ends.modify-Total, Ends.when-Total, load-Total, store-Total, event-Total,
  memset-Total,
)

page_fuel_lem : page_fuel ≡ suc (2 ^ 26)
unfolding page_fuel
page_fuel_lem = refl

after-Total :
    (s : Status) (done : Bool) {rest : M Status} → Total rest → Total (after_page s done rest)
after-Total failure done t = Ends.pure-Total _
after-Total success done t = Ends.branch-Total done (Ends.pure-Total _) t

module _ ⦃l : Layout⦄ where
  kfree-Total : (pa : ℕ) → Total (kfree pa)
  unfolding kfree
  kfree-Total pa = search total_rules depth 12

  kalloc-Total : Total kalloc
  unfolding kalloc
  kalloc-Total = search total_rules depth 12

  walk_down-Total : (level pt va : ℕ) (alloc : Bool) → Total (walk_down level pt va alloc)
  unfolding walk_down
  walk_down-Total zero pt va alloc = Ends.pure-Total _
  walk_down-Total (suc level) pt va alloc =
      search (total_rules, kalloc-Total, walk_down-Total level) depth 14

  pub walk-Total : (pt va : ℕ) (alloc : Bool) → Total (walk pt va alloc)
  unfolding walk
  walk-Total pt va alloc = search (total_rules, walk_down-Total)

  pub walkaddr-Total : (pt va : ℕ) → Total (walkaddr pt va)
  unfolding walkaddr
  walkaddr-Total pt va = search (total_rules, walk-Total) depth 14

  map_page-Total : (pt a pa perm : ℕ) → Total (map_page pt a pa perm)
  unfolding map_page
  map_page-Total pt a pa perm = search (total_rules, walk-Total) depth 14

  map_page_beyond :
      (pt a pa perm : ℕ) (k : Kernel) → maxva ≤ a → map_page pt a pa perm k ≡ panic walk_panic
  unfolding map_page
  map_page_beyond pt a pa perm k big = rw (walk_beyond k pt a true big)

  -- Each round moves on by a page, and from MAXVA on walk panics.
  mappages_loop-Total :
      (f pt a last pa perm : ℕ)
      → maxva + 4096 ≤ a + f * 4096
      → 0 < f
      → Total (mappages_loop f pt a last pa perm)
  unfolding mappages_loop
  mappages_loop-Total zero pt a last pa perm enough near = absurd (omega arith)
  mappages_loop-Total (suc f) pt a last pa perm enough near = elim (Bool-cases (leb maxva a)) [
    | inl big ↦ record {
      ends = λ k. rw (map_page_beyond pt a pa perm k (leb→le _ _ big)) (Ends.panicked _);
    }
    | inr small ↦ Ends.bind-Total (map_page-Total pt a pa perm) (λ s. after-Total s (a == last) (
        mappages_loop-Total f pt (u64 (a + 4096)) last (u64 (pa + 4096)) perm (ground arith)
          (ground arith)))
  ]

  pub mappages-Total : (pt va size pa perm : ℕ) → Total (mappages pt va size pa perm)
  unfolding mappages
  mappages-Total pt va size pa perm = Ends.branch-Total (size == 0) (Ends.fail-Total _) (
      mappages_loop-Total page_fuel pt _ _ pa perm (omega (arith, page_fuel_lem))
        (omega (arith, page_fuel_lem)))

  uvmunmap_loop-Total :
      (f pt a stop : ℕ) (do_free : Bool)
      → maxva + 4096 ≤ a + f * 4096
      → 0 < f
      → Total (uvmunmap_loop f pt a stop do_free)
  unfolding uvmunmap_loop
  uvmunmap_loop-Total zero pt a stop do_free enough near = absurd (omega arith)
  uvmunmap_loop-Total (suc f) pt a stop do_free enough near =
      Ends.branch-Total (not (ltb a stop)) (Ends.pure-Total tt) (elim (Bool-cases (leb maxva a)) [
        | inl big ↦ record {
          ends = λ k. rw (walk_beyond k pt a false (leb→le _ _ big)) (Ends.panicked _);
        }
        | inr small ↦
            round (
              uvmunmap_loop-Total f pt (u64 (a + pgsize)) stop do_free (ground arith)
                (ground arith))
      ])
    where
      round :
          Total (uvmunmap_loop f pt (u64 (a + pgsize)) stop do_free)
          → Total (do
            pte ← walk pt a false
            if pte == 0 then fail unmap_walk else do
              entry ← load pte
              if not (pte_v entry)
                  then fail unmap_not_mapped
                  else if pte_flags entry == 1
                  then fail unmap_not_leaf
                  else do
                    when do_free (kfree (pte2pa entry))
                    store pte 0
                    uvmunmap_loop f pt (u64 (a + pgsize)) stop do_free)
      round rest = search (total_rules, walk-Total, kfree-Total) depth 16

  pub uvmunmap-Total : (pt va npages : ℕ) (do_free : Bool) → Total (uvmunmap pt va npages do_free)
  unfolding uvmunmap
  uvmunmap-Total pt va npages do_free = Ends.branch-Total _ (Ends.fail-Total _) (
      uvmunmap_loop-Total page_fuel pt va _ do_free (omega (arith, page_fuel_lem))
        (omega (arith, page_fuel_lem)))

  pub uvmdealloc-Total : (pt oldsz newsz : ℕ) → Total (uvmdealloc pt oldsz newsz)
  unfolding uvmdealloc
  uvmdealloc-Total pt oldsz newsz = search (total_rules, uvmunmap-Total) depth 12
