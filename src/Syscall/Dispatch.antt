-- ===== src/Syscall/Dispatch.antt =====
-- The table of Lab_traps/syscall.c, with the numbers of syscall.h.
use learning_mits.Base.{ℕ, ◌-◌, Option, List, [], ◌∷◌, get_elem?}
use learning_mits.Kernel.{M}
use learning_mits.Layout.{Layout, Extern}
use learning_mits.Proc.Switch.{Cpu}
use learning_mits.Syscall.Handlers.{
  sys_getpid, sys_exit, sys_fork, sys_wait, sys_sbrk, sys_sleep, sys_kill, sys_uptime, sys_sigalarm,
  sys_sigreturn,
}

-- The handlers of sysfile.c, which is not in the repository, by the process that calls.
pub record FileCalls : Type 0 where
  pub sys_pipe : ℕ → M ℕ
  pub sys_read : ℕ → M ℕ
  pub sys_exec : ℕ → M ℕ
  pub sys_fstat : ℕ → M ℕ
  pub sys_chdir : ℕ → M ℕ
  pub sys_dup : ℕ → M ℕ
  pub sys_open : ℕ → M ℕ
  pub sys_write : ℕ → M ℕ
  pub sys_mknod : ℕ → M ℕ
  pub sys_unlink : ℕ → M ℕ
  pub sys_link : ℕ → M ℕ
  pub sys_mkdir : ℕ → M ℕ
  pub sys_close : ℕ → M ℕ

-- What the handlers take from outside: the files, the processor, the bounds of their loops, and the
-- frame pointer of sys_sleep.
pub record Services : Type 0 where
  pub files : FileCalls
  pub ext : Extern
  pub cpu : Cpu
  pub rounds : ℕ
  pub frames : ℕ
  pub fp : ℕ

module _ ⦃l : Layout⦄ where
  -- The entries from SYS_fork on.
  unfoldable pub handlers : Services → ℕ → List (M ℕ)
  handlers s me =
      sys_fork s.ext me
      ∷ sys_exit s.cpu me
      ∷ sys_wait s.cpu s.rounds me
      ∷ s.files.sys_pipe me
      ∷ s.files.sys_read me
      ∷ sys_kill me
      ∷ s.files.sys_exec me
      ∷ s.files.sys_fstat me
      ∷ s.files.sys_chdir me
      ∷ s.files.sys_dup me
      ∷ sys_getpid me
      ∷ sys_sbrk me
      ∷ sys_sleep s.cpu s.rounds s.frames s.fp me
      ∷ sys_uptime
      ∷ s.files.sys_open me
      ∷ s.files.sys_write me
      ∷ s.files.sys_mknod me
      ∷ s.files.sys_unlink me
      ∷ s.files.sys_link me
      ∷ s.files.sys_mkdir me
      ∷ s.files.sys_close me
      ∷ sys_sigalarm me
      ∷ sys_sigreturn me
      ∷ []

  -- The entry at a number other than 0.
  unfoldable pub syscalls : Services → ℕ → ℕ → Option (M ℕ)
  unfolding handlers
  syscalls s me num = get_elem? (handlers s me) (num - 1)
