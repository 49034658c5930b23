-- ===== src/Tests/Memory.antt =====
-- The page allocator and the page tables.
use learning_mits.Vm.Walk.Route.{Route, last, down}
use learning_mits.Vm.Map.Unmap.{uvmunmap-user_page}
use learning_mits.Base.{
  ℕ, ◌-◌, ◌/◌, ◌≡◌, refl, some, true, false, Bool, List, [], ◌∷◌, arith, has, length, none, update,
}
use learning_mits.Kernel.{Kernel, ok}
use learning_mits.Kernel.Ends.{Total}
use learning_mits.Kernel.Returns.{Returns}
use learning_mits.Layout.{qemu}
use learning_mits.Riscv.{pgsize, pgroundup, px, pte_v, pte2pa, pte_flags}
use learning_mits.Kalloc.{kinit, kalloc, kfree, freemem}
use learning_mits.Kalloc.Chain.{IsPage, Free, SameOutside}
use learning_mits.Kalloc.Pages.{Popped, SameElse, kalloc-Popped, kfree-Free}
use learning_mits.Kalloc.Boot.{kinit-Free}
use learning_mits.Kalloc.Count.{freemem-length}
use learning_mits.Vm.Walk.{walk_down, walkaddr}
use learning_mits.Vm.Walk.Lookup.{leaf_entry, or_zero, user_page, walkaddr-user_page}
use learning_mits.Vm.Walk.Tables.{Tables, cut, Apart}
use learning_mits.Vm.Walk.Grow.{Grows, walk_down-Grows}
use learning_mits.Vm.Map.{mappages, uvmunmap}
use learning_mits.Vm.Map.RoundTrip.{Mapped, mappages-user_page}
use learning_mits.Vm.User.{uvmdealloc}
use learning_mits.Vm.Copy.{copyout, copyin, copyinstr}
use learning_mits.Vm.Total.{vm-Total}
use learning_mits.Tests.State.{
  first_page, second_page, root_table, used_page, machine, at_boot, qemu-IsSane, used-IsPage,
  machine-Free,
}

abbrev free_pages : List ℕ
free_pages = first_page ∷ second_page ∷ []

root-Tables : Tables machine.mem 0x5000 2 root_table (root_table ∷ [])
unfolding px
root-Tables = cut (omega arith) (omega arith) refl

root-Apart : Apart (root_table ∷ []) free_pages
root-Apart t i = ground arith

-- No entry of the root table is there.
nothing_mapped :
    (r : ℕ) → leaf_entry machine.mem root_table 0x5000 ≡ some r → pte_v (machine.mem r) ≡ false
unfolding leaf_entry px
nothing_mapped r e = cc

mappages-user_page_example :
    Returns
      (Mapped machine root_table 0x5000 used_page 22 (root_table ∷ []) free_pages)
      (mappages root_table 0x5000 pgsize used_page 22 machine)
mappages-user_page_example =
    mappages-user_page qemu-IsSane machine root_table 0x5000 used_page 22 free_pages (omega arith)
      (omega arith) (omega arith) (omega arith) root-Tables machine-Free root-Apart nothing_mapped
      (omega arith)

walk_down-Grows_example :
    Returns
      (Grows machine 0x5000 2 root_table (root_table ∷ []) free_pages)
      (walk_down 2 root_table 0x5000 true machine)
walk_down-Grows_example =
    walk_down-Grows qemu-IsSane 0x5000 2 free_pages machine root-Tables machine-Free root-Apart

walkaddr-user_page_example :
    walkaddr root_table 0x5000 machine
    ≡ ok (or_zero (user_page machine.mem root_table 0x5000)) machine
walkaddr-user_page_example = walkaddr-user_page machine root_table 0x5000

kinit-Free_example :
    Returns
      (λ _ k'.
        (qs : List ℕ) × Free k' qs
        × ((a : ℕ) → IsPage a → has a qs ≡ true)
        × (length qs ≡ (0x88000000 - pgroundup 0x80021d60) / 4096))
      (kinit at_boot)
kinit-Free_example = kinit-Free at_boot qemu-IsSane refl

kalloc-Popped_example : Returns (Popped machine free_pages) (kalloc machine)
kalloc-Popped_example = kalloc-Popped machine free_pages machine-Free

kfree-Free_example :
    Returns
      (λ _ k'.
        Free k' (used_page ∷ free_pages)
        × SameOutside used_page machine.mem k'.mem
        × SameElse machine k')
      (kfree used_page machine)
kfree-Free_example = kfree-Free machine used_page (omega arith) machine-Free used-IsPage refl

freemem-length_example :
    Returns
      (λ n k'. (n ≡ 8192) × Free k' free_pages × (k'.mem ≡ machine.mem) × SameElse machine k')
      (freemem machine)
freemem-length_example = freemem-length machine free_pages qemu-IsSane machine-Free

vm-Total_example :
    ((pt va size pa perm : ℕ) → Total (mappages pt va size pa perm))
    × ((pt va npages : ℕ) (do_free : Bool) → Total (uvmunmap pt va npages do_free))
    × ((pt oldsz newsz : ℕ) → Total (uvmdealloc pt oldsz newsz))
    × ((pt dstva : ℕ) (src : List ℕ) → Total (copyout pt dstva src))
    × ((pt srcva len : ℕ) → Total (copyin pt srcva len))
    × ((pt srcva max : ℕ) → Total (copyinstr pt srcva max))
vm-Total_example = vm-Total ⦃l = qemu⦄

-- Three tables that map virtual page 0 to the page in use.
abbrev mapped : Kernel
mapped = record machine {
  mem =
      update (update (update (λ _. 0) root_table 0x20080401) 0x80201000 0x20080801) 0x80202000
        0x200c0017;
}

mapped-Route :
    Route mapped.mem 0 2 root_table 0x80202000 (root_table ∷ 0x80201000 ∷ 0x80202000 ∷ [])
unfolding px pte2pa
mapped-Route = down (omega arith) refl refl (down (omega arith) refl refl (last (omega arith)))

uvmunmap-user_page_example :
    Returns
      (λ _ k'.
        (k' ≡ record mapped { mem = update mapped.mem 0x80202000 0 })
        × (user_page k'.mem root_table 0 ≡ none))
      (uvmunmap root_table 0 1 false mapped)
unfolding pte_flags
uvmunmap-user_page_example =
    uvmunmap-user_page mapped root_table 0 0x80202000 (omega arith) (omega arith) (omega arith)
      mapped-Route refl (omega arith)
