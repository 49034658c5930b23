-- ===== src/Proc/Table.antt =====
-- Finding, making and freeing a process struct: procinit to proc_freepagetable of proc.c.
pub mod Find
pub mod Keeps
use learning_mits.Base.{
  ℕ, zero, suc, ◌+◌, ◌*◌, Bool, true, false, not, Option, none, some, List, [], ◌∷◌, ◌==◌,
  if◌then◌else◌,
}
use learning_mits.Kernel.{
  Kernel, Proc, ProcState, unused, used, no_chan, Context, M, Status, success, failure, pure, ◌>>=◌,
  ◌>>◌, when, fail, modify, modify_proc, gets, record_event, acquire, release, initialized,
  pid_lock, wait_lock, proc_lock, kalloc_panic,
}
use learning_mits.Kalloc.{kalloc, kfree}
use learning_mits.Layout.{Layout}
use learning_mits.Riscv.{u32, u64, pgsize, flag_r, flag_w, flag_x}
use learning_mits.Vm.Map.{mappages, uvmunmap, kvmmap}
use learning_mits.Vm.User.{uvmcreate, uvmfree}

abbrev pub no_context : Context
no_context = record {
  ra = 0;
  sp = 0;
  s0 = 0;
  s1 = 0;
  s2 = 0;
  s3 = 0;
  s4 = 0;
  s5 = 0;
  s6 = 0;
  s7 = 0;
  s8 = 0;
  s9 = 0;
  s10 = 0;
  s11 = 0;
}

abbrev pub is_unused : ProcState → Bool
is_unused unused = true
is_unused _ = false

-- `p->name[0] = 0`
abbrev pub clear_name : List ℕ → List ℕ
clear_name [] = []
clear_name (c ∷ cs) = 0 ∷ cs

unfoldable pub allocpid : M ℕ
allocpid = do
  acquire pid_lock
  pid ← gets (λ k. k.nextpid)
  modify (λ k. record k { nextpid = u32 (k.nextpid + 1) })
  release pid_lock
  pure pid

module _ ⦃l : Layout⦄ where
  open l use {kstack_va, nproc, trampoline, trampoline_pa, trapframe_va, forkret}

  -- The processes from `i` on, `n` of them.
  unfoldable pub mapstacks_from : ℕ → ℕ → ℕ → M (Unit {0})
  mapstacks_from kpgtbl zero i = pure tt
  mapstacks_from kpgtbl (suc n) i = do
    pa ← kalloc
    when (pa == 0) (fail kalloc_panic)
    kvmmap kpgtbl (kstack_va i) pa pgsize (flag_r + flag_w)
    mapstacks_from kpgtbl n (i + 1)

  unfoldable pub proc_mapstacks : ℕ → M (Unit {0})
  unfolding mapstacks_from
  proc_mapstacks kpgtbl = mapstacks_from kpgtbl nproc 0

  unfoldable pub procinit_from : ℕ → ℕ → M (Unit {0})
  procinit_from zero i = pure tt
  procinit_from (suc n) i = do
    record_event (initialized (proc_lock i))
    modify_proc i (λ p. record p { kstack = kstack_va i })
    procinit_from n (i + 1)

  unfoldable pub procinit : M (Unit {0})
  unfolding procinit_from
  procinit = do
    record_event (initialized pid_lock)
    record_event (initialized wait_lock)
    procinit_from nproc 0

  unfoldable pub proc_pagetable : ℕ → M ℕ
  proc_pagetable i = do
    pagetable ← uvmcreate
    if pagetable == 0 then pure 0 else do
      r ← mappages pagetable trampoline pgsize trampoline_pa (flag_r + flag_x)
      elim r [
        | failure ↦ (do uvmfree pagetable 0; pure 0)
        | success ↦ (do
          trapframe ← gets (λ k. (k.proc i).trapframe)
          s ← mappages pagetable trapframe_va pgsize trapframe (flag_r + flag_w)
          elim s [
            | failure ↦ (do uvmunmap pagetable trampoline 1 false; uvmfree pagetable 0; pure 0)
            | success ↦ pure pagetable
          ])
      ]

  unfoldable pub proc_freepagetable : ℕ → ℕ → M (Unit {0})
  proc_freepagetable pagetable sz = do
    uvmunmap pagetable trampoline 1 false
    uvmunmap pagetable trapframe_va 1 false
    uvmfree pagetable sz

  -- The fields that freeproc clears after it has freed the page table.
  abbrev pub reset_proc : Proc → Proc
  reset_proc p = record p {
    pagetable = 0;
    sz = 0;
    pid = 0;
    parent = none;
    name = clear_name p.name;
    chan = no_chan;
    killed = 0;
    xstate = 0;
    state = unused;
    alarmticks = 0;
    alarmremain = 0;
    alarmhandler = 0;
  }

  unfoldable pub freeproc : ℕ → M (Unit {0})
  freeproc i = do
    p ← gets (λ k. k.proc i)
    when (not (p.original_trapframe == 0)) (kfree p.original_trapframe)
    when (not (p.trapframe == 0)) (kfree p.trapframe)
    modify_proc i (λ q. record q { trapframe = 0 })
    when (not (p.pagetable == 0)) (proc_freepagetable p.pagetable p.sz)
    modify_proc i reset_proc

  -- The scan for an unused process: its lock is kept, the others are released.
  unfoldable pub find_unused : ℕ → ℕ → M (Option ℕ)
  find_unused zero i = pure none
  find_unused (suc n) i = do
    acquire (proc_lock i)
    p ← gets (λ k. k.proc i)
    if is_unused p.state then pure (some i) else do release (proc_lock i); find_unused n (i + 1)

  -- The three exits of allocproc that give the process back.
  unfoldable pub give_back : ℕ → M (Option ℕ)
  give_back i = do freeproc i; release (proc_lock i); pure none

  unfoldable pub allocproc_found : ℕ → M (Option ℕ)
  allocproc_found i = do
    pid ← allocpid
    modify_proc i (λ p. record p {
      pid = pid;
      state = used;
      alarmticks = 0;
      alarmremain = 0;
      alarmhandler = 0;
    })
    original ← kalloc
    modify_proc i (λ p. record p { original_trapframe = original })
    if original == 0 then give_back i else do
      frame ← kalloc
      modify_proc i (λ p. record p { trapframe = frame })
      if frame == 0 then give_back i else do
        pagetable ← proc_pagetable i
        modify_proc i (λ p. record p { pagetable = pagetable })
        if pagetable == 0 then give_back i else do
          modify_proc i (λ p. record p {
            context = record no_context { ra = forkret; sp = u64 (p.kstack + pgsize) };
          })
          pure (some i)

  unfoldable pub allocproc : M (Option ℕ)
  unfolding find_unused
  allocproc = do r ← find_unused nproc 0; elim r [ none ↦ pure none | some i ↦ allocproc_found i ]
