-- ===== src/Syscall.antt =====
-- Lab_traps/syscall.c: arguments of system calls, and their dispatch. An argument or an answer of
-- type int is kept as its 32-bit pattern; a0 takes an answer as a uint64.
pub mod Handlers
pub mod Sigreturn
pub mod Sigalarm
pub mod Dispatch
pub mod Locked
use learning_mits.Base.{
  ℕ, zero, suc, ◌+◌, ◌*◌, ◌^◌, Bool, true, false, not, ◌&&◌, ◌||◌, Option, none, some, List, [],
  ◌∷◌, ◌==◌, leb, ltb, if◌then◌else◌, length,
}
use learning_mits.Kernel.{
  Kernel, Proc, M, Status, success, failure, pure, ◌>>=◌, ◌>>◌, fail, gets, argraw_panic,
}
use learning_mits.Kernel.Memory.{load, store}
use learning_mits.Layout.{Layout}
use learning_mits.Printf.{codes, c_string, print, int_arg, str_arg}
use learning_mits.Riscv.{u32, u64}
use learning_mits.Vm.Copy.{copyin, copyinstr}
use learning_mits.Proc.Life.{a_off}

-- A uint64 from its bytes.
abbrev pub of_bytes : List ℕ → ℕ
of_bytes [] = 0
of_bytes (b ∷ bs) = b + 256 * of_bytes bs

-- `(uint64) -1`
abbrev pub minus_one64 : ℕ
minus_one64 = 0xffff_ffff_ffff_ffff

module _ ⦃l : Layout⦄ where
  -- `none` is -1, and `some v` the value stored at `ip`.
  unfoldable pub fetchaddr : ℕ → ℕ → M (Option ℕ)
  fetchaddr me addr = do
    p ← gets (λ k. k.proc me)
    if leb p.sz addr || ltb p.sz (u64 (addr + 8)) then pure none else do
      (s, bytes) ← copyin p.pagetable addr 8
      elim s [ failure ↦ pure none | success ↦ pure (some (of_bytes bytes)) ]

  -- `none` is -1; otherwise the bytes in `buf`, and their length up to the '\0'.
  unfoldable pub fetchstr : ℕ → ℕ → ℕ → M (Option (List ℕ × ℕ))
  fetchstr me addr max = do
    p ← gets (λ k. k.proc me)
    (s, bytes) ← copyinstr p.pagetable addr max
    elim s [ failure ↦ pure none | success ↦ pure (some (bytes, length (c_string bytes))) ]

  unfoldable pub argraw : ℕ → ℕ → M ℕ
  argraw me n = do
    p ← gets (λ k. k.proc me)
    if leb n 5 then load (p.trapframe + a_off n) else fail argraw_panic

  unfoldable pub argint : ℕ → ℕ → M ℕ
  argint me n = do v ← argraw me n; pure (u32 v)

  unfoldable pub argaddr : ℕ → ℕ → M ℕ
  argaddr me n = argraw me n

  unfoldable pub argstr : ℕ → ℕ → ℕ → M (Option (List ℕ × ℕ))
  argstr me n max = do addr ← argaddr me n; fetchstr me addr max

-- The two branches of syscall.
unfoldable pub run_entry : Proc → ℕ → Option (M ℕ) → M (Unit {0})
run_entry p num (some handler) = do res ← handler; store (p.trapframe + a_off 0) res
run_entry p num none = do
  print "%d %s: unknown sys call %d\n"
      (int_arg p.pid ∷ str_arg (some (c_string p.name)) ∷ int_arg num ∷ [])
  store (p.trapframe + a_off 0) minus_one64

-- `table` is `syscalls`: `none` where an entry is null or beyond the end, which a negative number is
-- too. `num` is an int.
unfoldable pub syscall : (ℕ → Option (M ℕ)) → ℕ → M (Unit {0})
unfolding run_entry
syscall table me = do
  p ← gets (λ k. k.proc me)
  a7 ← load (p.trapframe + a_off 7)
  run_entry p (u32 a7) (if u32 a7 == 0 then none else table (u32 a7))
