-- ===== src/Proc/Usyscall.antt =====
-- Lab_page_tables/proc.c: proc_pagetable and proc_freepagetable, which there map and free one more
-- page, with the pid in its first word (`struct usyscall`), for user code to read; and allocproc and
-- freeproc, without an alarm.
pub mod Failure
pub mod Locked
use learning_mits.Base.{
  ℕ, zero, suc, ◌+◌, Bool, true, false, not, Option, none, some, List, [], ◌∷◌, ◌==◌, if◌then◌else◌,
}
use learning_mits.Kernel.{
  Kernel, Proc, M, Status, success, failure, pure, ◌>>=◌, ◌>>◌, when, gets, acquire, release,
  proc_lock, modify_proc, no_chan, unused, used,
}
use learning_mits.Kernel.Memory.{store, memset_page}
use learning_mits.Kalloc.{kalloc, kfree}
use learning_mits.Layout.{Layout}
use learning_mits.Riscv.{u32, u64, pgsize, flag_r, flag_w, flag_x, flag_u}
use learning_mits.Vm.Map.{mappages, uvmunmap}
use learning_mits.Vm.User.{uvmcreate, uvmfree}
use learning_mits.Proc.Table.{is_unused, no_context, clear_name, allocpid, find_unused}

module _ ⦃l : Layout⦄ where
  open l use {trampoline, trampoline_pa, trapframe_va, usyscall_va, forkret, nproc}

  -- The undoing of both mappings before.
  unfoldable pub unmap_both : ℕ → M (Unit {0})
  unmap_both pagetable = do
    uvmunmap pagetable trapframe_va 1 false
    uvmunmap pagetable trampoline 1 false
    uvmfree pagetable 0

  -- From `kalloc` on. Neither error branch returns: after the first, memset writes to a null
  -- pointer, and after the second the function answers the page table.
  unfoldable pub map_usyscall : ℕ → ℕ → M ℕ
  unfolding unmap_both
  map_usyscall pagetable i = do
    pa ← kalloc
    when (pa == 0) (unmap_both pagetable)
    memset_page pa 0
    pid ← gets (λ k. (k.proc i).pid)
    store pa (u32 pid)
    s ← mappages pagetable usyscall_va pgsize pa (flag_r + flag_u)
    elim s [
      | failure ↦ (do kfree pa; unmap_both pagetable; pure pagetable)
      | success ↦ pure pagetable
    ]

  unfoldable pub proc_pagetable : ℕ → M ℕ
  unfolding map_usyscall
  proc_pagetable i = do
    pagetable ← uvmcreate
    if pagetable == 0 then pure 0 else do
      r ← mappages pagetable trampoline pgsize trampoline_pa (flag_r + flag_x)
      elim r [
        | failure ↦ (do uvmfree pagetable 0; pure 0)
        | success ↦ (do
          trapframe ← gets (λ k. (k.proc i).trapframe)
          s ← mappages pagetable trapframe_va pgsize trapframe (flag_r + flag_w)
          elim s [
            | failure ↦ (do uvmunmap pagetable trampoline 1 false; uvmfree pagetable 0; pure 0)
            | success ↦ map_usyscall pagetable i
          ])
      ]

  unfoldable pub proc_freepagetable : ℕ → ℕ → M (Unit {0})
  proc_freepagetable pagetable sz = do
    uvmunmap pagetable trampoline 1 false
    uvmunmap pagetable trapframe_va 1 false
    uvmunmap pagetable usyscall_va 1 true
    uvmfree pagetable sz

  abbrev pub reset_fields : Proc → Proc
  reset_fields p = record p {
    pagetable = 0;
    sz = 0;
    pid = 0;
    parent = none;
    name = clear_name p.name;
    chan = no_chan;
    killed = 0;
    xstate = 0;
    state = unused;
  }

  unfoldable pub freeproc : ℕ → M (Unit {0})
  freeproc i = do
    p ← gets (λ k. k.proc i)
    when (not (p.trapframe == 0)) (kfree p.trapframe)
    modify_proc i (λ q. record q { trapframe = 0 })
    when (not (p.pagetable == 0)) (proc_freepagetable p.pagetable p.sz)
    modify_proc i reset_fields

  -- The two exits of allocproc that give the process back.
  unfoldable pub return_slot : ℕ → M (Option ℕ)
  return_slot i = do freeproc i; release (proc_lock i); pure none

  -- allocproc from the label `found` on.
  unfoldable pub setup_proc : ℕ → M (Option ℕ)
  setup_proc i = do
    pid ← allocpid
    modify_proc i (λ p. record p { pid = pid; state = used })
    frame ← kalloc
    modify_proc i (λ p. record p { trapframe = frame })
    if frame == 0 then return_slot i else do
      pagetable ← proc_pagetable i
      modify_proc i (λ p. record p { pagetable = pagetable })
      if pagetable == 0 then return_slot i else do
        modify_proc i (λ p. record p {
          context = record no_context { ra = forkret; sp = u64 (p.kstack + pgsize) };
        })
        pure (some i)

  unfoldable pub allocproc : M (Option ℕ)
  allocproc = do r ← find_unused nproc 0; elim r [ none ↦ pure none | some i ↦ setup_proc i ]
