-- ===== src/Proc/Count.antt =====
-- Lab_syscall/proc.c: nproc, the number of processes that sysinfo reports.
pub mod InUse
use learning_mits.Base.{ℕ, zero, suc, ◌+◌, Bool, if◌then◌else◌}
use learning_mits.Kernel.{Kernel, Proc, M, pure, ◌>>=◌, ◌>>◌, gets, acquire, release, proc_lock}
use learning_mits.Layout.{Layout}
use learning_mits.Riscv.{u32}
use learning_mits.Proc.Table.{is_unused}

-- The loop over `n` processes from `i` on; `count` is an int.
unfoldable pub nproc_from : ℕ → ℕ → ℕ → M ℕ
nproc_from zero i count = pure count
nproc_from (suc n) i count = do
  acquire (proc_lock i)
  p ← gets (λ k. k.proc i)
  release (proc_lock i)
  nproc_from n (i + 1) (if is_unused p.state then count else u32 (count + 1))

module _ ⦃l : Layout⦄ where
  unfoldable pub nproc : M ℕ
  unfolding nproc_from
  nproc = nproc_from l.nproc 0 0
