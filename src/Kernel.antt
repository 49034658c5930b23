-- ===== src/Kernel.antt =====
-- The state of the kernel that vm.c, kalloc.c, proc.c, trap.c and syscall.c share, and the monad
-- of the code over it. `Proc`, `Context` and `ProcState` are proc.h's (Lab_traps).
-- Calls that leave the repository's code and that matter to a property (locks, the console, files,
-- control registers) are recorded in `trace`, the newest first.
pub mod Memory
pub mod Returns
pub mod Ends
pub mod Keeps
pub mod Ensures
pub mod Holding
pub mod Locks
use learning_mits.Base.{
  ℕ, ◌^◌, ◌+◌, Bool, true, false, Option, List, ◌∷◌, ◌==◌, if◌then◌else◌, update,
}

pub data ProcState : Type 0 where
  unused used sleeping runnable running zombie : ProcState

-- What `void *chan` points at: the struct of process i, the tick counter, or something else.
pub data Chan : Type 0 where
  no_chan : Chan
  proc_chan : ℕ → Chan
  ticks_chan : Chan
  other_chan : ℕ → Chan

pub record Context : Type 0 where
  pub ra : ℕ
  pub sp : ℕ
  pub s0 : ℕ
  pub s1 : ℕ
  pub s2 : ℕ
  pub s3 : ℕ
  pub s4 : ℕ
  pub s5 : ℕ
  pub s6 : ℕ
  pub s7 : ℕ
  pub s8 : ℕ
  pub s9 : ℕ
  pub s10 : ℕ
  pub s11 : ℕ

-- An `int` is kept as its 32-bit pattern; a null pointer is 0, and a pointer into `proc` an index.
pub record Proc : Type 0 where
  pub state : ProcState
  pub chan : Chan
  pub killed : ℕ
  pub xstate : ℕ
  pub pid : ℕ
  pub alarmticks : ℕ
  pub alarmremain : ℕ
  pub alarmhandler : ℕ
  pub original_trapframe : ℕ
  pub parent : Option ℕ
  pub kstack : ℕ
  pub sz : ℕ
  pub pagetable : ℕ
  pub trapframe : ℕ
  pub context : Context
  pub ofile : ℕ → ℕ
  pub cwd : ℕ
  pub name : List ℕ

pub data Lock : Type 0 where
  kmem_lock pid_lock wait_lock ticks_lock pr_lock : Lock
  proc_lock : ℕ → Lock
  other_lock : ℕ → Lock

pub data Event : Type 0 where
  acquired : Lock → Event
  released : Lock → Event
  initialized : Lock → Event
  putc : ℕ → Event
  file_dup : ℕ → Event
  file_closed : ℕ → Event
  inode_dup : ℕ → Event
  inode_put : ℕ → Event
  inode_locked inode_unlocked_put : ℕ → Event
  op_begun op_ended : Event
  context_switched : ℕ → Event
  interrupts_on interrupts_off : Event
  plic_completed : ℕ → Event
  wrote_stvec wrote_sepc wrote_sstatus wrote_sip : ℕ → Event
  user_entered : ℕ → ℕ → Event
  satp_written : ℕ → Event
  tlb_flushed : Event

-- `proc` is the table of process structs, read at an index; `mem` the 64-bit words of physical
-- memory, read at addresses that are multiples of 8; `freelist` is `kmem.freelist`. `trace_mask` is
-- the field of struct proc that Lab_syscall/proc.h has and Lab_traps/proc.h has not, by the index of
-- the process.
pub record Kernel : Type 0 where
  pub mem : ℕ → ℕ
  pub freelist : ℕ
  pub kernel_pagetable : ℕ
  pub proc : ℕ → Proc
  pub trace_mask : ℕ → ℕ
  pub initproc : ℕ
  pub nextpid : ℕ
  pub ticks : ℕ
  pub pr_locking : Bool
  pub trace : List Event

-- The places where the code calls `panic`; a null pointer that is written through; a printf
-- whose arguments do not fit its format; and a write behind the bitmap of sys_pgaccess.
pub data Panic : Type 0 where
  kfree_panic walk_panic kvmmap_panic mappages_size mappages_remap : Panic
  unmap_aligned unmap_walk unmap_not_mapped unmap_not_leaf : Panic
  inituvm freewalk_leaf uvmcopy_pte uvmcopy_present uvmclear_panic : Panic
  kalloc_panic init_exiting zombie_exit argraw_panic loadseg_panic null_fmt : Panic
  sched_lock sched_locks sched_running sched_interruptible : Panic
  usertrap_mode kerneltrap_mode kerneltrap_intr kerneltrap_panic : Panic
  null_pointer bad_argument bitmap_overrun ustack_overrun : Panic

-- 0 and -1, as most functions answer.
pub data Status : Type 0 where
  success failure : Status

pub data Run {ℓ} (A : Type ℓ) : Type ℓ where
  ok : A → Kernel → Run A
  panic : Panic → Run A
  out_of_fuel : Run A

-- Rounds enough for a loop over the pages below MAXVA: walk panics from there on.
unfoldable pub page_fuel : ℕ
page_fuel = 2 ^ 26 + 1

abbrev pub M : Type 0 → Type 0
M A = Kernel → Run A

abbrev pub pure : {A : Type 0} → A → M A
pure a k = ok a k

abbrev pub and_then : {A B : Type 0} → Run A → (A → M B) → Run B
and_then (ok a k) f = f a k
and_then (panic e) f = panic e
and_then out_of_fuel f = out_of_fuel

infixl 5 ◌>>=◌ ◌>>◌
abbrev pub ◌>>=◌ : {A B : Type 0} → M A → (A → M B) → M B
m >>= f = λ k. and_then (m k) f

abbrev pub ◌>>◌ : {A B : Type 0} → M A → M B → M B
m >> n = m >>= λ _. n

abbrev pub fail : {A : Type 0} → Panic → M A
fail e k = panic e

abbrev pub when : Bool → M (Unit {0}) → M (Unit {0})
when c m = if c then m else pure tt

abbrev pub record_event : Event → M (Unit {0})
record_event e k = ok tt (record k { trace = e ∷ k.trace })

abbrev pub acquire : Lock → M (Unit {0})
acquire l = record_event (acquired l)

abbrev pub release : Lock → M (Unit {0})
release l = record_event (released l)

abbrev pub modify : (Kernel → Kernel) → M (Unit {0})
modify f k = ok tt (f k)

abbrev pub modify_proc : ℕ → (Proc → Proc) → M (Unit {0})
modify_proc i f k = ok tt (record k { proc = update k.proc i (f (k.proc i)) })

abbrev pub gets : {A : Type 0} → (Kernel → A) → M A
gets f k = ok (f k) k
