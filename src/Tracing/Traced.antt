-- ===== src/Tracing/Traced.antt =====
-- When syscall prints a traced call.
use learning_mits.Base.{
  ℕ, ◌+◌, ◌≡◌, ◌≢◌, arith, refl, true, false, Option, some, List, ◌∷◌, ◌==◌, if◌then◌else◌, inl,
  inr, Bool-cases, update,
}
use learning_mits.Kernel.{Kernel, M, Event, ok, acquired, released, pr_lock}
use learning_mits.Riscv.{u32, bit}
use learning_mits.Tracing.{syscall_names, name_of, run_traced, syscall}
use learning_mits.Tracing.Line.{typed, trace_line, print-line}

-- The trace once a call has run and has perhaps been printed.
abbrev pub reported : ℕ → ℕ → List ℕ → ℕ → Kernel → List Event
reported me num name res k =
    if bit num (k.trace_mask me)
    then released pr_lock
      ∷ typed (trace_line (k.proc me).pid name (u32 res)) (acquired pr_lock ∷ k.trace)
    else k.trace

run_traced-reported :
    (me num res : ℕ) (name : List ℕ) (handler : M ℕ) (k k1 : Kernel)
    → handler k ≡ ok res k1
    → name_of syscall_names num ≡ some name
    → k1.pr_locking ≡ true
    → run_traced me num (some handler) k
      ≡ ok tt (record k1 {
        mem = update k1.mem ((k1.proc me).trapframe + 112) res;
        trace = reported me num name res k1;
      })
unfolding run_traced
run_traced-reported me num res name handler k k1 run named locking =
    rw run (elim (Bool-cases (bit num (k1.trace_mask me))) [
      | inl traced ↦ rw traced (rw named (print-line _ _ _ _ locking))
      | inr silent ↦ rw silent refl
    ])

-- When the number in a7 is that of a call with a name, and the call answers res, syscall stores res
-- in a0 and else leaves the state as the call has left it, but for the console: when the bit of the
-- number is set in the caller's trace mask as it is after the call, one line goes out under the
-- printing lock, the caller's pid, the call's name and res, and else nothing.
pub syscall-reported :
    (table : ℕ → Option (M ℕ)) (me num res : ℕ) (name : List ℕ) (handler : M ℕ) (k k1 : Kernel)
    → u32 (k.mem ((k.proc me).trapframe + 168)) ≡ num
    → num ≢ 0
    → table num ≡ some handler
    → handler k ≡ ok res k1
    → name_of syscall_names num ≡ some name
    → k1.pr_locking ≡ true
    → syscall table me k
      ≡ ok tt (record k1 {
        mem = update k1.mem ((k1.proc me).trapframe + 112) res;
        trace = reported me num name res k1;
      })
unfolding syscall
syscall-reported table me num res name handler k k1 a7 some_call entry run named locking = rw a7 (
    rw (nonzero num some_call)
      (rw entry (run_traced-reported me num res name handler k k1 run named locking)))
  where
    nonzero : (n : ℕ) → n ≢ 0 → (n == 0) ≡ false
    nonzero n h = ground (arith, h)
