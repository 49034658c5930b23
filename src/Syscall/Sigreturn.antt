-- ===== src/Syscall/Sigreturn.antt =====
-- sigreturn as a system call: its answer goes into the trapframe that it has just restored.
use learning_mits.Base.{ℕ, ◌+◌, ◌<◌, ◌≡◌, refl, ◌≢◌, Option, some, arith, eq→==, ne→==}
use learning_mits.Kernel.{Kernel, M}
use learning_mits.Kernel.Returns
use learning_mits.Kernel.Returns.{Returns, returns}
use learning_mits.Layout.{Layout}
use learning_mits.Riscv.{u32}
use learning_mits.Proc.Life.{a_off}
use learning_mits.Syscall.{syscall}
use learning_mits.Syscall.Handlers.{sys_sigreturn}
use learning_mits.Trap.Alarm.{sigreturn_copies}

-- SYS_sigreturn of syscall.h
abbrev pub sys_sigreturn_num : ℕ
sys_sigreturn_num = 23

module _ ⦃l : Layout⦄ where
  -- When a7 holds SYS_sigreturn and the table has sys_sigreturn there, syscall leaves a trapframe
  -- that is word for word the saved one but for a0: that one is 0, whatever was saved, since syscall
  -- stores the handler's answer there.
  pub sigreturn_loses_a0 :
      (table : ℕ → Option (M ℕ)) (me : ℕ) (k : Kernel)
      → u32 (k.mem ((k.proc me).trapframe + a_off 7)) ≡ sys_sigreturn_num
      → table sys_sigreturn_num ≡ some (sys_sigreturn me)
      → Returns
          (λ _ k2.
            (k2.mem ((k.proc me).trapframe + a_off 0) ≡ 0)
            × ((off : ℕ)
                → off < 288
                → off ≢ a_off 0
                → k2.mem ((k.proc me).trapframe + off)
                  ≡ k.mem ((k.proc me).original_trapframe + off)))
          (syscall table me k)
  unfolding syscall
  sigreturn_loses_a0 table me k num entry =
      rw (num, entry)
        (Returns.bind
          (sigreturn_copies me (k.proc me).trapframe (k.proc me).original_trapframe k refl refl)
          (λ res k2 (zero_answer, copied, _). returns (
            rw (eq→== ((k.proc me).trapframe + a_off 0) _ refl) zero_answer,
            (λ off h ne.
                rw
                  (ne→== ((k.proc me).trapframe + a_off 0) ((k.proc me).trapframe + off)
                    (λ e. ne (omega (arith, e))))
                  (copied off h)),
          )))
