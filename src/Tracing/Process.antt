-- ===== src/Tracing/Process.antt =====
-- What Lab_syscall/proc.c does with a process that has a trace mask and no alarm: allocproc,
-- freeproc and fork. The rest of the file is that of Lab_traps/proc.c.
use learning_mits.Base.{ℕ, ◌+◌, not, Option, none, some, ◌==◌, update, if◌then◌else◌}
use learning_mits.Kernel.{
  Proc, unused, used, runnable, no_chan, M, success, failure, pure, ◌>>=◌, ◌>>◌, when, modify,
  modify_proc, gets, record_event, acquire, release, proc_lock, wait_lock, inode_dup,
}
use learning_mits.Kernel.Memory.{store}
use learning_mits.Kalloc.{kalloc, kfree}
use learning_mits.Layout.{Layout, Extern}
use learning_mits.Riscv.{u64, pgsize}
use learning_mits.Vm.User.{uvmcopy}
use learning_mits.Proc.Table.{
  no_context, clear_name, allocpid, proc_pagetable, proc_freepagetable, find_unused,
}
use learning_mits.Proc.Life.{a_off, copy_trapframe, dup_files}

-- The fields that freeproc clears after it has freed the page table.
abbrev pub cleared : Proc → Proc
cleared p = record p {
  pagetable = 0;
  sz = 0;
  pid = 0;
  parent = none;
  name = clear_name p.name;
  chan = no_chan;
  killed = 0;
  xstate = 0;
  state = unused;
}

abbrev pub set_mask : ℕ → ℕ → M (Unit {0})
set_mask i mask = modify (λ k. record k { trace_mask = update k.trace_mask i mask })

module _ ⦃l : Layout⦄ where
  open l use {nproc, forkret}

  unfoldable pub freeproc : ℕ → M (Unit {0})
  freeproc i = do
    p ← gets (λ k. k.proc i)
    when (not (p.trapframe == 0)) (kfree p.trapframe)
    modify_proc i (λ q. record q { trapframe = 0 })
    when (not (p.pagetable == 0)) (proc_freepagetable p.pagetable p.sz)
    modify_proc i cleared

  -- The exits that give the process back.
  unfoldable pub release_freed : ℕ → M (Option ℕ)
  unfolding freeproc
  release_freed i = do freeproc i; release (proc_lock i); pure none

  -- allocproc from the label `found` on.
  unfoldable pub init_found : ℕ → M (Option ℕ)
  unfolding release_freed
  init_found i = do
    pid ← allocpid
    modify_proc i (λ p. record p { pid = pid; state = used })
    set_mask i 0
    frame ← kalloc
    modify_proc i (λ p. record p { trapframe = frame })
    if frame == 0 then release_freed i else do
      pagetable ← proc_pagetable i
      modify_proc i (λ p. record p { pagetable = pagetable })
      if pagetable == 0 then release_freed i else do
        modify_proc i (λ p. record p {
          context = record no_context { ra = forkret; sp = u64 (p.kstack + pgsize) };
        })
        pure (some i)

  unfoldable pub allocproc : M (Option ℕ)
  unfolding init_found
  allocproc = do r ← find_unused nproc 0; elim r [ none ↦ pure none | some i ↦ init_found i ]

module _ ⦃l : Layout⦄ (ext : Extern) where
  open l use {nofile}
  open ext use {safestrcpy, idup}

  -- fork once the child's memory is a copy: answers the child's pid.
  unfoldable pub finish_child : ℕ → ℕ → M (Option ℕ)
  finish_child me np = do
    p ← gets (λ k. k.proc me)
    c ← gets (λ k. k.proc np)
    modify_proc np (λ q. record q { sz = p.sz })
    modify (λ k. record k { mem = copy_trapframe c.trapframe p.trapframe k.mem })
    store (c.trapframe + a_off 0) 0
    dup_files ext me np nofile 0
    record_event (inode_dup p.cwd)
    modify_proc np (λ q. record q { cwd = idup p.cwd; name = safestrcpy q.name p.name 16 })
    pid ← gets (λ k. (k.proc np).pid)
    mask ← gets (λ k. k.trace_mask me)
    set_mask np mask
    release (proc_lock np)
    acquire wait_lock
    modify_proc np (λ q. record q { parent = some me })
    release wait_lock
    acquire (proc_lock np)
    modify_proc np (λ q. record q { state = runnable })
    release (proc_lock np)
    pure (some pid)

  -- `none` is -1.
  unfoldable pub fork : ℕ → M (Option ℕ)
  unfolding finish_child
  fork me = do
    r ← allocproc
    elim r [
      | none ↦ pure none
      | some np ↦ (do
        p ← gets (λ k. k.proc me)
        c ← gets (λ k. k.proc np)
        s ← uvmcopy p.pagetable c.pagetable p.sz
        elim s [
          | failure ↦ (do freeproc np; release (proc_lock np); pure none)
          | success ↦ finish_child me np
        ])
    ]
