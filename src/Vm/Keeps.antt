-- ===== src/Vm/Keeps.antt =====
-- The allocator and vm.c leave the process table alone.
use learning_mits.Base.{
  ℕ, zero, suc, ◌+◌, ◌*◌, not, ◌&&◌, ◌||◌, if◌then◌else◌, Bool, List, [], ◌∷◌, ◌==◌, some, refl,
  false, Bool-cases, inl, inr,
}
use learning_mits.Kernel.{
  uvmcopy_pte, uvmcopy_present, Status, success, failure, M, modify, freewalk_leaf, ◌>>=◌, ◌>>◌,
  fail, when, acquire, release, kmem_lock, gets,
}
use learning_mits.Kernel.Keeps
use learning_mits.Kernel.Keeps.{Keeps, kept, keeps_rules}
use learning_mits.Kernel.Memory.{memmove_page, load, store, store_bytes}
use learning_mits.Riscv.{u64, pgsize, pte_flags, pte_v, pte_r, pte_w, pte_x, pte2pa}
use learning_mits.Layout.{Layout}
use learning_mits.Kalloc.{kfree, kalloc}
use learning_mits.Vm.Walk.{walk_down, walk, walkaddr}
use learning_mits.Vm.Map.{
  after_page, map_page, mappages_loop, mappages, uvmunmap_loop, uvmunmap, uvmclear,
}
use learning_mits.Vm.User.{
  uvmcopy_err, uvmcopy_loop, uvmcopy, uvmcreate, uvmdealloc, uvmalloc_loop, uvmalloc,
  freewalk_entries, freewalk_depth, freewalk, uvmfree,
}
use learning_mits.Vm.Print.{put_dots, print_entry, vmprint_entries, vmprint}
use learning_mits.Printf.{print, codes, ptr_arg}
use learning_mits.Printf.Keeps.{printf-Keeps}
use learning_mits.Vm.Copy.{copyout_loop, copyout}

freelist-Keeps : (r : ℕ) → Keeps (modify (λ k. record k { freelist = r }))
freelist-Keeps r = Keeps.modify-Keeps _ (λ k. (refl, refl))

pub bytes-Keeps :
    (a : ℕ) (bytes : List ℕ) → Keeps (modify (λ k. record k { mem = store_bytes a bytes k.mem }))
bytes-Keeps a bytes = Keeps.modify-Keeps _ (λ k. (refl, refl))

module _ ⦃l : Layout⦄ where
  -- What kfree does under its lock.
  push_page-Keeps :
      (pa : ℕ)
      → Keeps (do
        acquire kmem_lock
        r ← gets (λ k. k.freelist)
        store pa r
        modify (λ k. record k { freelist = pa })
        release kmem_lock)
  push_page-Keeps pa = record { after = λ k. kept tt _ refl refl }

  pub kfree-Keeps : (pa : ℕ) → Keeps (kfree pa)
  unfolding kfree
  kfree-Keeps pa = search (keeps_rules, push_page-Keeps)

  pub kalloc-Keeps : Keeps kalloc
  unfolding kalloc
  kalloc-Keeps = record {
    after = λ k. elim (Bool-cases (k.freelist == 0)) [
      | inl z ↦ rw z (kept k.freelist _ refl refl)
      | inr nz ↦ rw nz (kept k.freelist _ refl refl)
    ];
  }

  walk_down-Keeps : (level pt va : ℕ) (alloc : Bool) → Keeps (walk_down level pt va alloc)
  unfolding walk_down
  walk_down-Keeps zero pt va alloc = search keeps_rules
  walk_down-Keeps (suc level) pt va alloc =
      search (keeps_rules, kalloc-Keeps, walk_down-Keeps level) depth 14

  walk-Keeps : (pt va : ℕ) (alloc : Bool) → Keeps (walk pt va alloc)
  unfolding walk
  walk-Keeps pt va alloc = search (keeps_rules, walk_down-Keeps)

  pub walkaddr-Keeps : (pt va : ℕ) → Keeps (walkaddr pt va)
  unfolding walkaddr
  walkaddr-Keeps pt va = search (keeps_rules, walk-Keeps) depth 14

  map_page-Keeps : (pt a pa perm : ℕ) → Keeps (map_page pt a pa perm)
  unfolding map_page
  map_page-Keeps pt a pa perm = search (keeps_rules, walk-Keeps) depth 14

  after-Keeps :
      (s : Status) (done : Bool) {rest : M Status} → Keeps rest → Keeps (after_page s done rest)
  after-Keeps failure done t = Keeps.pure-Keeps _
  after-Keeps success done t = Keeps.branch-Keeps done (Keeps.pure-Keeps _) t

  mappages_loop-Keeps : (f pt a last pa perm : ℕ) → Keeps (mappages_loop f pt a last pa perm)
  unfolding mappages_loop
  mappages_loop-Keeps zero pt a last pa perm = search keeps_rules
  mappages_loop-Keeps (suc f) pt a last pa perm =
      search (keeps_rules, map_page-Keeps, after-Keeps, mappages_loop-Keeps f)

  pub mappages-Keeps : (pt va size pa perm : ℕ) → Keeps (mappages pt va size pa perm)
  unfolding mappages
  mappages-Keeps pt va size pa perm = search (keeps_rules, mappages_loop-Keeps)

  uvmunmap_loop-Keeps :
      (f pt a stop : ℕ) (do_free : Bool) → Keeps (uvmunmap_loop f pt a stop do_free)
  unfolding uvmunmap_loop
  uvmunmap_loop-Keeps zero pt a stop do_free = search keeps_rules
  uvmunmap_loop-Keeps (suc f) pt a stop do_free =
      search (keeps_rules, walk-Keeps, kfree-Keeps, uvmunmap_loop-Keeps f) depth 16

  pub uvmunmap-Keeps : (pt va npages : ℕ) (do_free : Bool) → Keeps (uvmunmap pt va npages do_free)
  unfolding uvmunmap
  uvmunmap-Keeps pt va npages do_free = search (keeps_rules, uvmunmap_loop-Keeps)

  pub uvmclear-Keeps : (pt va : ℕ) → Keeps (uvmclear pt va)
  unfolding uvmclear
  uvmclear-Keeps pt va = search (keeps_rules, walk-Keeps) depth 12

  pub uvmcreate-Keeps : Keeps uvmcreate
  unfolding uvmcreate
  uvmcreate-Keeps = search (keeps_rules, kalloc-Keeps) depth 12

  pub uvmdealloc-Keeps : (pt oldsz newsz : ℕ) → Keeps (uvmdealloc pt oldsz newsz)
  unfolding uvmdealloc
  uvmdealloc-Keeps pt oldsz newsz = search (keeps_rules, uvmunmap-Keeps) depth 12

  uvmalloc_loop-Keeps : (f pt a oldsz newsz : ℕ) → Keeps (uvmalloc_loop f pt a oldsz newsz)
  unfolding uvmalloc_loop
  uvmalloc_loop-Keeps zero pt a oldsz newsz = search keeps_rules
  uvmalloc_loop-Keeps (suc f) pt a oldsz newsz =
      search
        (
          keeps_rules,
          kalloc-Keeps,
          kfree-Keeps,
          mappages-Keeps,
          uvmdealloc-Keeps,
          uvmalloc_loop-Keeps f,
        )
        depth 16

  pub uvmalloc-Keeps : (pt oldsz newsz : ℕ) → Keeps (uvmalloc pt oldsz newsz)
  unfolding uvmalloc
  uvmalloc-Keeps pt oldsz newsz = search (keeps_rules, uvmalloc_loop-Keeps)

  freewalk_entry-Keeps :
      (free_child : ℕ → M (Unit {0})) (a : ℕ) {rest : M (Unit {0})}
      → ((c : ℕ) → Keeps (free_child c))
      → Keeps rest
      → Keeps (do
        pte ← load a
        (if pte_v pte && not (pte_r pte || (pte_w pte || pte_x pte))
            then (do free_child (pte2pa pte); store a 0)
            else when (pte_v pte) (fail freewalk_leaf))
        rest)
  freewalk_entry-Keeps free_child a child rest = search (keeps_rules, child) depth 14

  freewalk_entries-Keeps :
      (free_child : ℕ → M (Unit {0})) (pt n i : ℕ)
      → ((c : ℕ) → Keeps (free_child c))
      → Keeps (freewalk_entries free_child pt n i)
  unfolding freewalk_entries
  freewalk_entries-Keeps free_child pt zero i h = search keeps_rules
  freewalk_entries-Keeps free_child pt (suc n) i h =
      freewalk_entry-Keeps free_child (pt + i * 8) h
        (freewalk_entries-Keeps free_child pt n (i + 1) h)

  freewalk_depth-Keeps : (d pt : ℕ) → Keeps (freewalk_depth d pt)
  unfolding freewalk_depth
  freewalk_depth-Keeps zero pt = search keeps_rules
  freewalk_depth-Keeps (suc d) pt =
      Keeps.then-Keeps (freewalk_entries-Keeps (freewalk_depth d) pt 512 0 (freewalk_depth-Keeps d))
        (kfree-Keeps pt)

  pub uvmfree-Keeps : (pt sz : ℕ) → Keeps (uvmfree pt sz)
  unfolding uvmfree freewalk
  uvmfree-Keeps pt sz = search (keeps_rules, uvmunmap-Keeps, freewalk_depth-Keeps)

  copyout_loop-Keeps : (f pt dstva : ℕ) (src : List ℕ) → Keeps (copyout_loop f pt dstva src)
  unfolding copyout_loop
  copyout_loop-Keeps zero pt dstva src = search keeps_rules
  copyout_loop-Keeps (suc f) pt dstva src =
      search (keeps_rules, walkaddr-Keeps, bytes-Keeps, copyout_loop-Keeps f) depth 12

  pub copyout-Keeps : (pt dstva : ℕ) (src : List ℕ) → Keeps (copyout pt dstva src)
  unfolding copyout
  copyout-Keeps pt dstva src = copyout_loop-Keeps _ pt dstva src

put_dots-Keeps : (j : ℕ) → Keeps (put_dots j)
unfolding put_dots
put_dots-Keeps zero = search keeps_rules
put_dots-Keeps (suc j) = Keeps.then-Keeps (printf-Keeps (some (codes "..")) []) (put_dots-Keeps j)

print_entry-Keeps : (depth i pte : ℕ) → Keeps (print_entry depth i pte)
unfolding print_entry
print_entry-Keeps depth i pte = search (keeps_rules, printf-Keeps, put_dots-Keeps)

vmprint_entry-Keeps :
    (child : ℕ → M (Unit {0})) (a depth i : ℕ) {rest : M (Unit {0})}
    → ((c : ℕ) → Keeps (child c))
    → Keeps rest
    → Keeps (do
      pte ← load a
      (if pte_v pte && not (pte_r pte || (pte_w pte || pte_x pte))
          then (do print_entry depth i pte; child (pte2pa pte))
          else when (pte_v pte) (print_entry depth i pte))
      rest)
vmprint_entry-Keeps child a depth i c rest = search (keeps_rules, c, print_entry-Keeps) depth 14

vmprint_entries-Keeps :
    (child : ℕ → M (Unit {0})) (pt depth n i : ℕ)
    → ((c : ℕ) → Keeps (child c))
    → Keeps (vmprint_entries child pt depth n i)
unfolding vmprint_entries
vmprint_entries-Keeps child pt depth zero i h = search keeps_rules
vmprint_entries-Keeps child pt depth (suc n) i h =
    vmprint_entry-Keeps child (pt + i * 8) depth i h
      (vmprint_entries-Keeps child pt depth n (i + 1) h)

page_table_line-Keeps :
    (depth pt : ℕ) → Keeps (when (depth == 1) (print "page table %p\n" (ptr_arg pt ∷ [])))
page_table_line-Keeps depth pt = search (keeps_rules, printf-Keeps)

pub vmprint-Keeps : (levels pt depth : ℕ) → Keeps (vmprint levels pt depth)
unfolding vmprint
vmprint-Keeps zero pt depth = search keeps_rules
vmprint-Keeps (suc levels) pt depth =
    Keeps.then-Keeps (page_table_line-Keeps depth pt)
      (vmprint_entries-Keeps _ pt depth 512 0 (λ c. vmprint-Keeps levels c (depth + 1)))

module _ ⦃l : Layout⦄ where
  uvmcopy_err-Keeps : (new i : ℕ) → Keeps (uvmcopy_err new i)
  unfolding uvmcopy_err
  uvmcopy_err-Keeps new i = search (keeps_rules, uvmunmap-Keeps)

  uvmcopy_page-Keeps :
      (old new i : ℕ) {rest : M Status}
      → Keeps rest
      → Keeps (do
        pte ← walk old i false
        if pte == 0 then fail uvmcopy_pte else do
          entry ← load pte
          if not (pte_v entry) then fail uvmcopy_present else do
            page ← kalloc
            if page == 0 then uvmcopy_err new i else do
              memmove_page page (pte2pa entry)
              r ← mappages new i pgsize page (pte_flags entry)
              elim r [ success ↦ rest | failure ↦ (do kfree page; uvmcopy_err new i) ])
  uvmcopy_page-Keeps old new i rest =
      search (keeps_rules, walk-Keeps, kalloc-Keeps, kfree-Keeps, mappages-Keeps, uvmcopy_err-Keeps)
        depth 24

  uvmcopy_loop-Keeps : (f old new i sz : ℕ) → Keeps (uvmcopy_loop f old new i sz)
  unfolding uvmcopy_loop
  uvmcopy_loop-Keeps zero old new i sz = search keeps_rules
  uvmcopy_loop-Keeps (suc f) old new i sz =
      Keeps.branch-Keeps _ (Keeps.pure-Keeps success)
        (uvmcopy_page-Keeps old new i (uvmcopy_loop-Keeps f old new (u64 (i + pgsize)) sz))

  pub uvmcopy-Keeps : (old new sz : ℕ) → Keeps (uvmcopy old new sz)
  unfolding uvmcopy
  uvmcopy-Keeps old new sz = uvmcopy_loop-Keeps _ old new 0 sz
