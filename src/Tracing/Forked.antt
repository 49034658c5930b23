-- ===== src/Tracing/Forked.antt =====
-- What fork of Lab_syscall/proc.c makes of the process table.
use learning_mits.Base.{
  update-here, update-other, ℕ, ◌+◌, ◌<◌, ◌≡◌, refl, ap, ◌∙◌, ◌≢◌, true, false, Option, none, some,
  ◌==◌, arith, update, List,
}
use learning_mits.Kernel.{Kernel, Proc, runnable}
use learning_mits.Kernel.Ensures
use learning_mits.Kernel.Ensures.{Ensures, ensured, framed}
use learning_mits.Kernel.Keeps.{Frame, frame}
use learning_mits.Layout.{Layout, Extern}
use learning_mits.Riscv.{u32}
use learning_mits.Vm.Keeps.{uvmcopy-Keeps}
use learning_mits.Proc.Life.{copy_trapframe}
use learning_mits.Proc.Table.{is_unused}
use learning_mits.Tracing.Process.{finish_child, fork}
use learning_mits.Tracing.Files.{Duped, dup_files-Duped}
use learning_mits.Tracing.Slots.{
  SameBut, SameBut-refl, SameBut-trans, SameBut-same, SameBut-edit, SameBut-mask, Refused,
  Refused-SameBut, freeproc-SameBut, allocproc-Fresh,
}

-- Three edits of one entry.
edited_thrice :
    (ps : ℕ → Proc) (i : ℕ) (q : Proc) (f g h : Proc → Proc)
    → ps i ≡ q
    → let ps1 = update ps i (f (ps i)) in
      let ps2 = update ps1 i (g (ps1 i)) in update ps2 i (h (ps2 i)) i ≡ h (g (f q))
edited_thrice ps i q f g h e =
    update-here twice i (h (twice i))
    ∙ ap h (update-here once i (g (once i)) ∙ ap g (update-here ps i (f (ps i)) ∙ ap f e))
  where
    once : ℕ → Proc
    once = update ps i (f (ps i))

    twice : ℕ → Proc
    twice = update once i (g (once i))

module _ ⦃l : Layout⦄ (ext : Extern) where
  open l use {nproc, nofile}
  open ext use {safestrcpy, filedup, idup}

  -- The child c of process me with struct p.
  pub record Child (me : ℕ) (p c : Proc) : Type 0 where
    pub ready : c.state ≡ runnable
    pub parent : c.parent ≡ some me
    pub size : c.sz ≡ p.sz
    pub named : (old : List ℕ) × (c.name ≡ safestrcpy old p.name 16)
    pub directory : c.cwd ≡ idup p.cwd
    pub files :
        (fd : ℕ) → fd < nofile → (p.ofile fd == 0) ≡ false → c.ofile fd ≡ filedup (p.ofile fd)

  -- From a state of the frame f, where np is a fresh process.
  pub record Forked (me np pid : ℕ) (f : Frame) (k' : Kernel) : Type 0 where
    pub child : Child me (f.0 me) (k'.proc np)
    pub child_pid : (k'.proc np).pid ≡ pid
    pub same : SameBut np f (frame k')
    pub mask : k'.trace_mask np ≡ f.1 me
    pub answer : k'.mem ((k'.proc np).trapframe + 112) ≡ 0

  abbrev Finished : (me np pid : ℕ) → Frame → Option ℕ → Kernel → Type 0
  Finished me np pid f none k' = ⊥
  Finished me np pid f (some r) k' = (r ≡ pid) × Forked me np pid f k'

  -- The state in which fork copies the open files.
  abbrev copied : ℕ → ℕ → Kernel → Kernel
  copied me np k = record k {
    proc = update k.proc np (record (k.proc np) { sz = (k.proc me).sz });
    mem =
        update (copy_trapframe (k.proc np).trapframe (k.proc me).trapframe k.mem)
          ((k.proc np).trapframe + 112) 0;
  }

  -- What fork does to the child from the copy of the open files on.
  abbrev settled : Proc → Proc → Proc
  settled p q = record q { cwd = idup p.cwd; name = safestrcpy q.name p.name 16 }

  abbrev adopted : ℕ → Proc → Proc
  adopted me q = record q { parent = some me }

  abbrev readied : Proc → Proc
  readied q = record q { state = runnable }

  module _ (me np : ℕ) (k : Kernel) {k1 : Kernel} (d : Duped ext me np nofile 0 (copied me np k) k1)
      (ne : np ≢ me) where
    sized : k1.proc np ≡ record (k.proc np) { sz = (k.proc me).sz; ofile = d.files }
    sized = d.child ∙ ap (λ (q : Proc). record q { ofile = d.files }) (update-here k.proc np _)

    parent : (copied me np k).proc me ≡ k.proc me
    parent = update-other k.proc np _ me ne

    finished :
        (k' : Kernel)
        → k'.mem ≡ k1.mem
        → frame k' ≡ (
            let ps1 = update k1.proc np (settled (k.proc me) (k1.proc np)) in
            let ps2 = update ps1 np (adopted me (ps1 np)) in
            (
              update ps2 np (readied (ps2 np)),
              update k1.trace_mask np (k1.trace_mask me),
              k1.nextpid,
            ))
        → Forked me np (k.proc np).pid (frame k) k'
    finished k' m e = record {
      child = rw child (record {
        ready = refl;
        parent = refl;
        size = refl;
        named = (_, refl);
        directory = refl;
        files = λ fd small used.
            d.dup fd (omega arith) (omega arith) (rw parent used)
            ∙ ap (λ (q : Proc). filedup (q.ofile fd)) parent;
      });
      child_pid = ap (λ (q : Proc). q.pid) child;
      same =
          SameBut-same
            (SameBut-mask _ (
              SameBut-edit _ (
                SameBut-edit _
                  (SameBut-edit _ (SameBut-trans (SameBut-edit _ SameBut-refl) d.same)))))
            e;
      mask =
          ap (λ f. f.1 np) e ∙ update-here k1.trace_mask np _ ∙ ap (λ (ms : ℕ → ℕ). ms me) d.mask;
      answer = rw (m ∙ d.mem) (
          rw child (
            update-here (copy_trapframe (k.proc np).trapframe (k.proc me).trapframe k.mem)
              ((k.proc np).trapframe + 112) 0));
    }
      where
        child :
            k'.proc np
            ≡ readied (
                adopted me (
                  settled
                    (k.proc me)
                    (record (k.proc np) { sz = (k.proc me).sz; ofile = d.files })))
        child =
            ap (λ f. f.0 np) e
            ∙ edited_thrice k1.proc np _ (settled (k.proc me)) (adopted me) readied sized

  finish_child-Finished :
      (me np : ℕ) (k : Kernel)
      → np ≢ me
      → Ensures (Finished me np (k.proc np).pid (frame k)) (finish_child ext me np k)
  unfolding finish_child
  finish_child-Finished me np k ne =
      Ensures.bind (dup_files-Duped ext me np nofile 0 (copied me np k) ne) (λ _ k1 d. ensured (
        ap (λ (q : Proc). q.pid)
            (update-here k1.proc np _ ∙ ap (settled (k.proc me)) (sized me np k d ne)),
        finished me np k d ne _ refl refl,
      ))

  -- The same seen from an earlier state, from which only np and the next pid differ.
  earlier :
      {me np pid : ℕ} {f g : Frame} {k' : Kernel}
      → Forked me np pid g k'
      → SameBut np f g
      → np ≢ me
      → Forked me np pid f k'
  earlier {me} done s ne = record {
    child = rw (← s.others me ne) done.child;
    child_pid = done.child_pid;
    same = SameBut-trans s done.same;
    mask = done.mask ∙ s.masks me ne;
    answer = done.answer;
  }

  -- What fork answers.
  abbrev pub ForkOutcome : ℕ → Kernel → Option ℕ → Kernel → Type 0
  ForkOutcome me k none k' = Refused k.proc k'.proc
  ForkOutcome me k (some pid) k' =
      (pid ≡ k.nextpid)
      × ((np : ℕ) × (np < nproc)
          × (is_unused (k.proc np).state ≡ true)
          × Forked me np pid (k.proc, k.trace_mask, u32 (k.nextpid + 1)) k')

  forked :
      (me np : ℕ) (k k2 : Kernel) (r : Option ℕ) (k' : Kernel)
      → np < nproc
      → is_unused (k.proc np).state ≡ true
      → np ≢ me
      → SameBut np (k.proc, k.trace_mask, u32 (k.nextpid + 1)) (frame k2)
      → (k2.proc np).pid ≡ k.nextpid
      → Finished me np (k2.proc np).pid (frame k2) r k'
      → ForkOutcome me k r k'
  forked me np k k2 none k' small free ne s pid impossible = elim impossible [ ]
  forked me np k k2 (some r) k' small free ne s pid (e, done) =
      (e ∙ pid, (np, small, free, earlier done' s ne))
    where
      done' : Forked me np r (frame k2) k'
      done' = rw e done

  -- When fork of a process in use returns: either it answers -1, and no process in use has changed
  -- and the unused slots are unused; or it answers the pid that was next, and in a slot that was
  -- unused there is a runnable process with that pid, the caller as its parent, the caller's size,
  -- directory, open files and trace mask, and 0 in the a0 of its trapframe; all other processes and
  -- masks are as before, and the next pid is one more.
  pub fork-ForkOutcome :
      (me : ℕ) (k : Kernel)
      → is_unused (k.proc me).state ≡ false
      → Ensures (ForkOutcome me k) (fork ext me k)
  unfolding fork
  fork-ForkOutcome me k busy =
      Ensures.bind_option _ (allocproc-Fresh k) (λ k1 refused. ensured refused)
        (λ np k1 (small, free, s, e).
          let ne : np ≢ me = (λ h. cc (h, free, busy)) in
          Ensures.bind_status _
            (framed (uvmcopy-Keeps (k1.proc me).pagetable (k1.proc np).pagetable (k1.proc me).sz)
              k1)
            (λ k2 e2. Ensures.weaken (finish_child-Finished me np k2 ne) (λ r k'.
              forked me np k k2 r k' small free ne (SameBut-same s e2)
                (ap (λ f. (f.0 np).pid) e2 ∙ e)))
            (λ k2 e2.
              Ensures.bind (freeproc-SameBut k2 (SameBut-same s e2))
                (λ _ k3 (t, freed). ensured {a = none} (Refused-SameBut free t freed))))
