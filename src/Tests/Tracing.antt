-- ===== src/Tests/Tracing.antt =====
-- Traced calls and fork.
use learning_mits.Base.{
  ℕ, ◌≡◌, refl, Option, none, some, [], ◌∷◌, ◌==◌, arith, if◌then◌else◌, update,
}
use learning_mits.Kernel.{Kernel, M, ok, proc_lock, acquired, released}
use learning_mits.Kernel.Ensures.{Ensures}
use learning_mits.Layout.{Extern, qemu}
use learning_mits.Printf.{codes}
use learning_mits.Syscall.{argint, argraw}
use learning_mits.Tracing.{sys_trace, syscall, name_of}
use learning_mits.Tracing.Process.{fork}
use learning_mits.Tracing.Forked.{ForkOutcome, fork-ForkOutcome}
use learning_mits.Tracing.Traced.{reported, syscall-reported}
use learning_mits.Tests.State.{machine}

-- Process 0 has called trace with the mask of trace itself.
abbrev calling_trace : Kernel
calling_trace = record machine {
  mem = update (update machine.mem 0x804010a8 22) 0x80401070 4194304;
}

abbrev traced : Kernel
traced = record calling_trace {
  trace_mask = update calling_trace.trace_mask 0 4194304;
  trace = released (proc_lock 0) ∷ acquired (proc_lock 0) ∷ [];
}

abbrev calls : ℕ → Option (M ℕ)
calls num = if num == 22 then some (sys_trace 0) else none

syscall-reported_example :
    syscall calls 0 calling_trace
    ≡ ok tt (record traced {
      mem = update traced.mem 0x80401070 0;
      trace = reported 0 22 (codes "trace") 0 traced;
    })
unfolding sys_trace argint argraw name_of
syscall-reported_example =
    syscall-reported calls 0 22 0 (codes "trace") (sys_trace 0) calling_trace traced (omega arith)
      (omega arith) refl refl refl refl

-- The strings and files of a small system.
abbrev small : Extern
small = record { safestrcpy = λ old src n. src; filedup = λ f. f; idup = λ i. i; root_inode = 1 }

fork-ForkOutcome_example : Ensures (ForkOutcome small 0 machine) (fork small 0 machine)
fork-ForkOutcome_example = fork-ForkOutcome small 0 machine refl
