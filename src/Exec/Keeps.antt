-- ===== src/Exec/Keeps.antt =====
-- exec leaves the process table alone until it commits.
use learning_mits.Base.{ℕ, zero, suc, Option, none, some, List, [], ◌∷◌}
use learning_mits.Kernel.Keeps.{Keeps, keeps_rules}
use learning_mits.Layout.{Layout}
use learning_mits.Vm.Keeps.{
  kfree-Keeps, kalloc-Keeps, walkaddr-Keeps, mappages-Keeps, uvmunmap-Keeps, uvmclear-Keeps,
  uvmcreate-Keeps, uvmalloc-Keeps, uvmfree-Keeps, copyout-Keeps, bytes-Keeps,
}
use learning_mits.Proc.Usyscall.{unmap_both, map_usyscall, proc_pagetable, proc_freepagetable}
use learning_mits.Exec.{
  Files, ElfFormat, ProgHeader, push_args, build_stack, make_stack, loadseg_loop, loadseg,
  load_segment, load_program, exec_bad,
}

module _ ⦃l : Layout⦄ where
  unmap_both-Keeps : (pt : ℕ) → Keeps (unmap_both pt)
  unfolding unmap_both
  unmap_both-Keeps pt = search (keeps_rules, uvmunmap-Keeps, uvmfree-Keeps)

  map_usyscall-Keeps : (pt i : ℕ) → Keeps (map_usyscall pt i)
  unfolding map_usyscall
  map_usyscall-Keeps pt i =
      search (keeps_rules, kalloc-Keeps, kfree-Keeps, mappages-Keeps, unmap_both-Keeps) depth 16

  pub proc_pagetable-Keeps : (i : ℕ) → Keeps (proc_pagetable i)
  unfolding proc_pagetable
  proc_pagetable-Keeps i =
      search
        (
          keeps_rules, uvmcreate-Keeps, mappages-Keeps, uvmunmap-Keeps, uvmfree-Keeps,
          map_usyscall-Keeps,
        )
        depth 16

  pub proc_freepagetable-Keeps : (pt sz : ℕ) → Keeps (proc_freepagetable pt sz)
  unfolding proc_freepagetable
  proc_freepagetable-Keeps pt sz = search (keeps_rules, uvmunmap-Keeps, uvmfree-Keeps)

  push_args-Keeps :
      (pt base sp : ℕ) (us : List ℕ) (argv : List (List ℕ)) → Keeps (push_args pt base sp us argv)
  unfolding push_args
  push_args-Keeps pt base sp us [] = search keeps_rules
  push_args-Keeps pt base sp us (s ∷ argv) =
      search
        (
          keeps_rules,
          copyout-Keeps,
          λ (sp' : ℕ) (us' : List ℕ). push_args-Keeps pt base sp' us' argv,
        )
        depth 12

  build_stack-Keeps : (pt base sp : ℕ) (argv : List (List ℕ)) → Keeps (build_stack pt base sp argv)
  unfolding build_stack
  build_stack-Keeps pt base sp argv = search (keeps_rules, copyout-Keeps, push_args-Keeps) depth 14

  pub make_stack-Keeps : (pt sz : ℕ) (argv : List (List ℕ)) → Keeps (make_stack pt sz argv)
  unfolding make_stack
  make_stack-Keeps pt sz argv =
      search (keeps_rules, uvmalloc-Keeps, uvmclear-Keeps, build_stack-Keeps) depth 14

  module _ (fs : Files) (elf : ElfFormat) where
    loadseg_loop-Keeps :
        (f pt va ip offset sz i : ℕ) → Keeps (loadseg_loop fs elf f pt va ip offset sz i)
    unfolding loadseg_loop
    loadseg_loop-Keeps zero pt va ip offset sz i = search keeps_rules
    loadseg_loop-Keeps (suc f) pt va ip offset sz i =
        search (keeps_rules, walkaddr-Keeps, bytes-Keeps, loadseg_loop-Keeps f) depth 14

    load_segment-Keeps :
        (pt ip : ℕ) (ph : ProgHeader) (sz : ℕ) → Keeps (load_segment fs elf pt ip ph sz)
    unfolding load_segment loadseg
    load_segment-Keeps pt ip ph sz =
        search (keeps_rules, uvmalloc-Keeps, loadseg_loop-Keeps) depth 16

    pub load_program-Keeps : (n pt ip off sz : ℕ) → Keeps (load_program fs elf n pt ip off sz)
    unfolding load_program
    load_program-Keeps zero pt ip off sz = search keeps_rules
    load_program-Keeps (suc n) pt ip off sz =
        search (keeps_rules, load_segment-Keeps, load_program-Keeps n) depth 14

    pub exec_bad-Keeps : (pt sz : ℕ) (ip : Option ℕ) → Keeps (exec_bad fs elf pt sz ip)
    unfolding exec_bad
    exec_bad-Keeps pt sz none = search (keeps_rules, proc_freepagetable-Keeps)
    exec_bad-Keeps pt sz (some i) = search (keeps_rules, proc_freepagetable-Keeps)
