-- ===== src/Proc/Life.antt =====
-- userinit, growproc, fork and exit of proc.c, and either_copyout and either_copyin.
use learning_mits.Base.{
  ℕ, zero, suc, ◌+◌, ◌-◌, ◌*◌, ◌^◌, Bool, not, ◌&&◌, Option, none, some, List, [], ◌∷◌, ◌==◌, ltb,
  leb, if◌then◌else◌, update,
}
use learning_mits.Kernel.{
  runnable, zombie, no_chan, proc_chan, M, Status, success, failure, pure, ◌>>=◌, ◌>>◌, fail, when,
  modify, modify_proc, gets, record_event, acquire, release, wait_lock, proc_lock, file_dup,
  file_closed, inode_dup, inode_put, op_begun, op_ended, init_exiting, zombie_exit, null_pointer,
}
use learning_mits.Kernel.Memory.{Memory, store, load_bytes, store_bytes}
use learning_mits.Layout.{Layout, Extern}
use learning_mits.Riscv.{u32, pgsize}
use learning_mits.Vm.User.{uvminit, uvmalloc, uvmdealloc, uvmcopy}
use learning_mits.Vm.Copy.{copyout, copyin}
use learning_mits.Printf.{codes}
use learning_mits.Proc.Table.{allocproc, freeproc}
use learning_mits.Proc.Sleep.{wakeup, reparent}
use learning_mits.Proc.Switch.{Cpu, sched}

-- Byte offsets in struct trapframe.
abbrev pub kernel_satp_off : ℕ
kernel_satp_off = 0

abbrev pub kernel_sp_off : ℕ
kernel_sp_off = 8

abbrev pub kernel_trap_off : ℕ
kernel_trap_off = 16

abbrev pub epc_off : ℕ
epc_off = 24

abbrev pub kernel_hartid_off : ℕ
kernel_hartid_off = 32

abbrev pub sp_off : ℕ
sp_off = 48

-- a0 to a7 follow one another.
abbrev pub a_off : ℕ → ℕ
a_off n = 112 + 8 * n

-- `*dst = *src` on two trapframes, of 36 words each.
unfoldable pub copy_trapframe : ℕ → ℕ → Memory → Memory
copy_trapframe dst src m a = if leb dst a && ltb a (dst + 288) then m (src + (a - dst)) else m a

-- `initcode`
abbrev pub initcode : List ℕ
initcode =
    0x17 ∷ 0x05 ∷ 0x00 ∷ 0x00 ∷ 0x13 ∷ 0x05 ∷ 0x45 ∷ 0x02 ∷ 0x97 ∷ 0x05 ∷ 0x00 ∷ 0x00 ∷ 0x93 ∷ 0x85
    ∷ 0x35 ∷ 0x02 ∷ 0x93 ∷ 0x08 ∷ 0x70 ∷ 0x00 ∷ 0x73 ∷ 0x00 ∷ 0x00 ∷ 0x00 ∷ 0x93 ∷ 0x08 ∷ 0x20
    ∷ 0x00 ∷ 0x73 ∷ 0x00 ∷ 0x00 ∷ 0x00 ∷ 0xef ∷ 0xf0 ∷ 0x9f ∷ 0xff ∷ 0x2f ∷ 0x69 ∷ 0x6e ∷ 0x69
    ∷ 0x74 ∷ 0x00 ∷ 0x00 ∷ 0x24 ∷ 0x00 ∷ 0x00 ∷ 0x00 ∷ 0x00 ∷ 0x00 ∷ 0x00 ∷ 0x00 ∷ 0x00 ∷ []

-- `n > 0` and `n < 0` for the bit pattern of an int.
abbrev pub int_pos : ℕ → Bool
int_pos n = ltb 0 n && ltb n (2 ^ 31)

abbrev pub int_neg : ℕ → Bool
int_neg n = leb (2 ^ 31) n

module _ ⦃l : Layout⦄ where
  open l use {nofile}

  unfoldable pub growproc : ℕ → ℕ → M Status
  growproc me n = do
    p ← gets (λ k. k.proc me)
    let sz = u32 p.sz
    if int_pos n
        then (do
          grown ← uvmalloc p.pagetable sz (u32 (sz + n))
          if u32 grown == 0
              then pure failure
              else (do modify_proc me (λ q. record q { sz = u32 grown }); pure success))
        else if int_neg n
        then (do
          shrunk ← uvmdealloc p.pagetable sz (u32 (sz + n))
          modify_proc me (λ q. record q { sz = u32 shrunk })
          pure success)
        else (do modify_proc me (λ q. record q { sz = sz }); pure success)

  -- The open files of `exit` from `fd` on.
  unfoldable pub close_files : ℕ → ℕ → ℕ → M (Unit {0})
  close_files me zero fd = pure tt
  close_files me (suc n) fd = do
    p ← gets (λ k. k.proc me)
    when (not (p.ofile fd == 0)) (do
      record_event (file_closed (p.ofile fd))
      modify_proc me (λ q. record q { ofile = update q.ofile fd 0 }))
    close_files me n (fd + 1)

  -- exit up to the call of sched: the process is a zombie, and its lock is held.
  unfoldable pub exit_to_sched : ℕ → ℕ → M (Unit {0})
  unfolding close_files
  exit_to_sched me status = do
    init ← gets (λ k. k.initproc)
    when (me == init) (fail init_exiting)
    close_files me nofile 0
    record_event op_begun
    p ← gets (λ k. k.proc me)
    record_event (inode_put p.cwd)
    record_event op_ended
    modify_proc me (λ q. record q { cwd = 0 })
    acquire wait_lock
    reparent me me
    parent ← gets (λ k. (k.proc me).parent)
    elim parent [ none ↦ wakeup me no_chan | some i ↦ wakeup me (proc_chan i) ]
    acquire (proc_lock me)
    modify_proc me (λ q. record q { xstate = status; state = zombie })
    release wait_lock

  unfoldable pub exit : Cpu → ℕ → ℕ → M (Unit {0})
  exit cpu me status = do exit_to_sched me status; sched cpu me; fail zombie_exit

  unfoldable pub either_copyout : ℕ → Bool → ℕ → List ℕ → M Status
  either_copyout me user_dst dst src = do
    p ← gets (λ k. k.proc me)
    if user_dst
        then copyout p.pagetable dst src
        else (do modify (λ k. record k { mem = store_bytes dst src k.mem }); pure success)

  unfoldable pub either_copyin : ℕ → Bool → ℕ → ℕ → M (Status × List ℕ)
  either_copyin me user_src src len = do
    p ← gets (λ k. k.proc me)
    if user_src
        then copyin p.pagetable src len
        else (do bytes ← gets (λ k. load_bytes k.mem src len); pure (success, bytes))

module _ ⦃l : Layout⦄ (ext : Extern) where
  open l use {nofile}
  open ext use {safestrcpy, filedup, idup, root_inode}

  unfoldable pub userinit : M (Unit {0})
  userinit = do
    r ← allocproc
    elim r [
      | none ↦ fail null_pointer
      | some i ↦ (do
        modify (λ k. record k { initproc = i })
        p ← gets (λ k. k.proc i)
        uvminit p.pagetable initcode
        modify_proc i (λ q. record q { sz = pgsize })
        store (p.trapframe + epc_off) 0
        store (p.trapframe + sp_off) pgsize
        modify_proc i (λ q. record q {
          name = safestrcpy q.name (codes "initcode") 16;
          cwd = root_inode;
          state = runnable;
        })
        release (proc_lock i))
    ]

  -- The open files of `fork` from `i` on.
  unfoldable pub dup_files : ℕ → ℕ → ℕ → ℕ → M (Unit {0})
  dup_files me np zero i = pure tt
  dup_files me np (suc n) i = do
    p ← gets (λ k. k.proc me)
    when (not (p.ofile i == 0)) (do
      record_event (file_dup (p.ofile i))
      modify_proc np (λ q. record q { ofile = update q.ofile i (filedup (p.ofile i)) }))
    dup_files me np n (i + 1)

  -- fork once the child's memory is a copy: answers the child's pid.
  unfoldable pub fork_finish : ℕ → ℕ → M (Option ℕ)
  unfolding copy_trapframe dup_files
  fork_finish me np = do
    p ← gets (λ k. k.proc me)
    c ← gets (λ k. k.proc np)
    modify_proc np (λ q. record q { sz = p.sz })
    modify (λ k. record k { mem = copy_trapframe c.trapframe p.trapframe k.mem })
    store (c.trapframe + a_off 0) 0
    dup_files me np nofile 0
    record_event (inode_dup p.cwd)
    modify_proc np (λ q. record q { cwd = idup p.cwd; name = safestrcpy q.name p.name 16 })
    pid ← gets (λ k. (k.proc np).pid)
    release (proc_lock np)
    acquire wait_lock
    modify_proc np (λ q. record q { parent = some me })
    release wait_lock
    acquire (proc_lock np)
    modify_proc np (λ q. record q { state = runnable })
    release (proc_lock np)
    pure (some pid)

  -- `none` is -1.
  unfoldable pub fork : ℕ → M (Option ℕ)
  fork me = do
    r ← allocproc
    elim r [
      | none ↦ pure none
      | some np ↦ (do
        p ← gets (λ k. k.proc me)
        c ← gets (λ k. k.proc np)
        s ← uvmcopy p.pagetable c.pagetable p.sz
        elim s [
          | failure ↦ (do freeproc np; release (proc_lock np); pure none)
          | success ↦ fork_finish me np
        ])
    ]
