-- ===== src/Syscall/Sigalarm.antt =====
-- sigalarm, and when its handler is entered.
use learning_mits.Base.{ℕ, ◌+◌, ◌≡◌, refl, sym, ap, ◌∙◌, ◌≢◌, arith, eq→==}
use learning_mits.Kernel.{Kernel, Proc}
use learning_mits.Kernel.Returns
use learning_mits.Kernel.Returns.{Returns, returns}
use learning_mits.Layout.{Layout}
use learning_mits.Riscv.{u32}
use learning_mits.Proc.Life.{epc_off, a_off}
use learning_mits.Trap.{alarm_tick}
use learning_mits.Trap.Alarm.{FramesApart, alarm_tick-Ticked, tick_times, ticks_down}
use learning_mits.Syscall.{argraw, argint, argaddr}
use learning_mits.Syscall.Handlers.{sys_sigalarm}

abbrev set : ℕ → ℕ → Proc → Proc
set n handler p = record p { alarmticks = n; alarmremain = 0; alarmhandler = handler }

module _ ⦃l : Layout⦄ where
  -- sigalarm with an interval of n ticks, not 0, by a process whose two trapframes are apart: the
  -- next n ticks leave memory and so the trapframe alone, and the tick after them, the (n + 1)-th,
  -- sends the process to the handler that it gave.
  pub sigalarm_fires :
      (me n : ℕ) (k : Kernel)
      → u32 (k.mem ((k.proc me).trapframe + a_off 0)) ≡ n
      → n ≢ 0
      → FramesApart (k.proc me)
      → Returns
          (λ _ k1.
            Returns
              (λ _ k2.
                (k2.mem ≡ k.mem)
                × Returns
                    (λ _ k3.
                      k3.mem ((k.proc me).trapframe + epc_off)
                      ≡ k.mem ((k.proc me).trapframe + a_off 1))
                    (alarm_tick me k2))
              (tick_times me n k1))
          (sys_sigalarm me k)
  unfolding sys_sigalarm argint argaddr argraw
  sigalarm_fires me n k count on apart = returns (
      Returns.weaken
        (ticks_down me n _ (rw (eq→== me me refl, count) on) (rw (eq→== me me refl) count)
          (omega (arith, count)))
        (λ _ k2 (m, same).
          let full : k2.proc me ≡ set n (k.mem ((k.proc me).trapframe + a_off 1)) (k.proc me) =
            same ∙ rw (eq→== me me refl, count) refl in
          (
            m,
            Returns.weaken (alarm_tick-Ticked me k2 (rw full apart)) (λ _ k3 t.
                ap {A = Proc} (λ q. k3.mem (q.trapframe + epc_off)) (sym full)
                ∙ (t.fires (rw full on) (rw full refl)).1
                ∙ ap {A = Proc} (λ q. q.alarmhandler) full),
          )))
