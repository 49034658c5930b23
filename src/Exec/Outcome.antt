-- ===== src/Exec/Outcome.antt =====
-- What exec leaves of the process table.
use learning_mits.Base.{
  ℕ, true, subst, ◌≡◌, refl, ap, ◌∙◌, ◌≢◌, inl, inr, not, Option, none, some, List, ◌==◌,
  Bool-cases, length, update, eq→==,
}
use learning_mits.Kernel.{
  Kernel, Proc, M, ok, pure, when, ◌>>◌, record_event, inode_unlocked_put, op_ended,
}
use learning_mits.Proc.Usyscall.{proc_pagetable, proc_freepagetable}
use learning_mits.Kernel.Ensures
use learning_mits.Kernel.Ensures.{Ensures, ensured}
use learning_mits.Layout.{Layout}
use learning_mits.Riscv.{u32, pgroundup}
use learning_mits.Kernel.Keeps
use learning_mits.Vm.Keeps.{vmprint-Keeps}
use learning_mits.Exec.{
  Files, ElfFormat, ElfHeader, load_program, base_name, make_stack, exec_bad, exec_commit,
  exec_image, exec,
}
use learning_mits.Exec.Size.{with_stack_size, Sized, make_stack-Sized}
use learning_mits.Exec.Keeps.{
  proc_pagetable-Keeps, proc_freepagetable-Keeps, make_stack-Keeps, load_program-Keeps,
  exec_bad-Keeps,
}
use learning_mits.Exec.Argc.{Argc, make_stack-Argc}

module _ ⦃l : Layout⦄ where
  module _ (fs : Files) (elf : ElfFormat) where
    open fs use {namei, safestrcpy}

    -- What exec does to the process that calls it.
    abbrev pub image : List ℕ → ℕ → ℕ → Proc → Proc
    image path pagetable sz p = record p {
      name = safestrcpy p.name (base_name path path) 16;
      pagetable = pagetable;
      sz = sz;
    }

    -- The ELF header in the file that the path names.
    abbrev pub header_of : List ℕ → ElfHeader
    header_of path = elf.elfhdr (fs.readi (namei path) 0 elf.elfhdr_size)

    -- How the new image came to be, from the state `k` on: proc_pagetable answered the page table
    -- `pagetable`, into which the program of the file was loaded, of `program_size` bytes; and
    -- make_stack put the stack and `argc` arguments above it, which gives the size `sz`.
    pub record Image (me : ℕ) (path : List ℕ) (argv : List (List ℕ)) (k : Kernel)
        (pagetable sz argc : ℕ) : Type 0 where
      pub k0 : Kernel
      pub k1 : Kernel
      pub k2 : Kernel
      pub k3 : Kernel
      pub k4 : Kernel
      pub program_size : ℕ
      pub sp : ℕ
      pub opened : k0 ≡ record k { trace = k0.trace }
      pub table : proc_pagetable me k0 ≡ ok pagetable k1
      pub program :
          load_program fs elf
            (header_of path).phnum
            pagetable
            (namei path)
            (u32 (header_of path).phoff)
            0
            k1
          ≡ ok (true, program_size) k2
      pub shut : k3 ≡ record k2 { trace = k3.trace }
      pub stack :
          make_stack pagetable (pgroundup program_size) argv k3 ≡ ok (sz, some (sp, argc)) k4
      pub size : sz ≡ with_stack_size (pgroundup program_size)

    abbrev pub Outcome : ℕ → List ℕ → List (List ℕ) → Kernel → Option ℕ → Kernel → Type 0
    Outcome me path argv k none k' = k'.proc ≡ k.proc
    Outcome me path argv k (some argc) k' =
        (argc ≡ length argv)
        × ((pagetable : ℕ) × (sz : ℕ) × (pagetable ≢ 0)
            × Image me path argv k pagetable sz argc
            × (k'.proc ≡ update k.proc me (image path pagetable sz (k.proc me))))

    -- The two halves of exec_bad.
    abbrev freed : ℕ → ℕ → M (Unit {0})
    freed pt sz = when (not (pt == 0)) (proc_freepagetable pt sz)

    abbrev closed : ℕ → M (Option ℕ)
    closed i = do record_event (inode_unlocked_put i); record_event op_ended; pure none

    exec_bad-none :
        (pt sz : ℕ) (ip : Option ℕ) (k : Kernel)
        → Ensures (λ r _. r ≡ none) (exec_bad fs elf pt sz ip k)
    unfolding exec_bad
    exec_bad-none pt sz none k =
        Ensures.bind {f = λ _. pure none} (Ensures.any (freed pt sz k)) (λ _ k1 _. ensured refl)
    exec_bad-none pt sz (some i) k =
        Ensures.bind {f = λ _. closed i} (Ensures.any (freed pt sz k)) (λ _ k1 _. ensured refl)

    bad-Outcome :
        (me : ℕ) (path : List ℕ) (argv : List (List ℕ)) (pt sz : ℕ) (ip : Option ℕ) (k k1 : Kernel)
        → k1.proc ≡ k.proc
        → Ensures (Outcome me path argv k) (exec_bad fs elf pt sz ip k1)
    bad-Outcome me path argv pt sz ip k k1 same =
        Ensures.weaken
          (Ensures.both (exec_bad-none pt sz ip k1)
            (Ensures.of_Keeps (exec_bad-Keeps fs elf pt sz ip) k1))
          (λ r k2 (nothing, e). rw nothing (e ∙ same))

    commit-Outcome :
        (me : ℕ) (path : List ℕ) (argv : List (List ℕ)) (header : ElfHeader) (pt sz sp argc : ℕ)
        (k k1 : Kernel)
        → k1.proc ≡ k.proc
        → argc ≡ length argv
        → pt ≢ 0
        → Image me path argv k pt sz argc
        → Ensures (Outcome me path argv k) (exec_commit fs elf me path header pt sz sp argc k1)
    unfolding exec_commit
    commit-Outcome me path argv header pt sz sp argc k k1 same n ne made =
        Ensures.bind (Ensures.of_Keeps (proc_freepagetable-Keeps _ _) _) (λ _ k2 e2.
          Ensures.bind {f = λ _. pure (some argc)}
            (Ensures.of_Keeps (Keeps.when-Keeps ((k1.proc me).pid == 1) (vmprint-Keeps 3 pt 1)) k2)
            (λ _ k3 e3. ensured {a = some argc} (
              n,
              (
                pt,
                sz,
                ne,
                made,
                e3
                    ∙ e2
                    ∙ ap (λ (procs : ℕ → Proc). update procs me (image path pt sz (procs me))) same,
              ),
            )))

    image-Outcome :
        (me : ℕ) (path : List ℕ) (argv : List (List ℕ)) (pt : ℕ) (k k0 k1 : Kernel)
        → k0 ≡ record k { trace = k0.trace }
        → proc_pagetable me k0 ≡ ok pt k1
        → k1.proc ≡ k.proc
        → pt ≢ 0
        → Ensures
            (Outcome me path argv k)
            (exec_image fs elf me path argv (namei path) (header_of path) pt k1)
    unfolding exec_image
    image-Outcome me path argv pt k k0 k1 opened table same ne =
        Ensures.bind
          (Ensures.both
            (Ensures.of_Keeps
              (load_program-Keeps fs elf (header_of path).phnum pt (namei path)
                (u32 (header_of path).phoff) 0)
              k1)
            (Ensures.traced _))
          (λ (loaded, sz) k2 (e2, program). elim (Bool-cases loaded) [
            | inr failed ↦
                rw failed (bad-Outcome me path argv pt sz (some (namei path)) k k2 (e2 ∙ same))
            | inl done ↦ rw done (
                Ensures.bind
                  (Ensures.both
                    (Ensures.both (make_stack-Argc pt (pgroundup sz) argv _)
                      (make_stack-Sized pt (pgroundup sz) argv _))
                    (Ensures.both (Ensures.of_Keeps (make_stack-Keeps pt (pgroundup sz) argv) _)
                      (Ensures.traced _)))
                  (λ (sz1, stack) k4 ((n, size), (e4, run)).
                    stacked sz1 stack k4 n (e4 ∙ e2 ∙ same) (λ sp argc e. record {
                      k0 = k0;
                      k1 = k1;
                      k2 = k2;
                      k3 = _;
                      k4 = k4;
                      program_size = sz;
                      sp = sp;
                      opened = opened;
                      table = table;
                      program = program ∙ ap (λ b. ok (b, sz) k2) done;
                      shut = refl;
                      stack = run ∙ ap (λ o. ok (sz1, o) k4) e;
                      size = subst (λ o. Sized (pgroundup sz) (sz1, o) k4) e size;
                    })))
          ])
      where
        stacked :
            (sz1 : ℕ) (stack : Option (ℕ × ℕ)) (k4 : Kernel)
            → Argc (length argv) stack k4
            → k4.proc ≡ k.proc
            → ((sp argc : ℕ) → stack ≡ some (sp, argc) → Image me path argv k pt sz1 argc)
            → Ensures (Outcome me path argv k) (
                (elim stack as (λ _. M (Option ℕ)) [
                  | none ↦ exec_bad fs elf pt sz1 none
                  | some (sp, argc) ↦ exec_commit fs elf me path (header_of path) pt sz1 sp argc
                ])
                  k4)
        stacked sz1 none k4 n e made = bad-Outcome me path argv pt sz1 none k k4 e
        stacked sz1 (some (sp, argc)) k4 n e made =
            commit-Outcome me path argv (header_of path) pt sz1 sp argc k k4 e n ne
              (made sp argc refl)

    -- When exec returns, either it answers -1 and has changed no process; or it answers argc, the
    -- number of its arguments, and of the process table it has changed the caller's page table, size
    -- and name alone: the page table, not null, is the one that proc_pagetable answered and that the
    -- program of the file was loaded into and the stack made in, the size is that of the program in
    -- whole pages and two pages more, or that of the program where this is past 2 ^ 64, and the name
    -- is the last part of the path.
    pub exec-Outcome :
        (me : ℕ) (path : List ℕ) (argv : List (List ℕ)) (k : Kernel)
        → Ensures (Outcome me path argv k) (exec fs elf me path argv k)
    unfolding exec
    exec-Outcome me path argv k = elim (Bool-cases (namei path == 0)) [
      | inl missing ↦ rw missing (ensured refl)
      | inr found ↦
          rw found
            (elim (Bool-cases
              (length (fs.readi (namei path) 0 elf.elfhdr_size) == elf.elfhdr_size)) [
                | inr short ↦ rw short (bad-Outcome me path argv 0 0 (some (namei path)) k _ refl)
                | inl whole ↦
                    rw whole
                      (elim (Bool-cases (
                        (elf.elfhdr (fs.readi (namei path) 0 elf.elfhdr_size)).magic
                        == elf.elf_magic)) [
                          | inr foreign ↦
                              rw foreign (bad-Outcome me path argv 0 0 (some (namei path)) k _ refl)
                          | inl magic ↦ rw magic (
                              Ensures.bind
                                (Ensures.both (Ensures.of_Keeps (proc_pagetable-Keeps me) _)
                                  (Ensures.traced _))
                                (λ pt k2 (e2, table). elim (Bool-cases (pt == 0)) [
                                  | inl z ↦
                                      rw z
                                        (bad-Outcome me path argv 0 0 (some (namei path)) k k2 e2)
                                  | inr nz ↦ rw nz (
                                      image-Outcome me path argv pt k _ k2 refl table e2
                                        (λ z. cc (eq→== pt 0 z, nz)))
                                ]))
                        ])
              ])
    ]
