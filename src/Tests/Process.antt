-- ===== src/Tests/Process.antt =====
-- Processes, the alarm and system calls.
use learning_mits.Base.{
  ℕ, ◌+◌, ◌<◌, ◌≡◌, refl, ◌≢◌, inr, Option, none, some, arith, update, ◌==◌, ltb, if◌then◌else◌,
  List, length, true,
}
use learning_mits.Kernel.{Kernel, Run, ok, panic, out_of_fuel, M, ticks_chan}
use learning_mits.Kernel.Returns.{Returns}
use learning_mits.Layout.{qemu}
use learning_mits.Proc.Life.{a_off}
use learning_mits.Proc.Sleep.{wakeup, kill, reparent}
use learning_mits.Proc.Sleep.Reparent.{Adopted, reparent-Adopted}
use learning_mits.Proc.Sleep.Wakeup.{woken, wakeup-woken}
use learning_mits.Proc.Sleep.Kill.{Killed, kill-Killed}
use learning_mits.Proc.Table.{find_unused}
use learning_mits.Proc.Table.Find.{Found, OnlyHeld, find_unused-Found}
use learning_mits.Trap.{alarm_tick}
use learning_mits.Trap.Alarm.{FramesApart, SameFrame, tick_times, alarm_counts_down, alarm_resumes}
use learning_mits.Syscall.{syscall}
use learning_mits.Syscall.Handlers.{sys_sigreturn, sys_sigalarm}
use learning_mits.Syscall.Sigalarm.{sigalarm_fires}
use learning_mits.Syscall.Sigreturn.{sys_sigreturn_num, sigreturn_loses_a0}
use learning_mits.Proc.Count.{nproc}
use learning_mits.Proc.Count.InUse.{InUse, nproc-InUse}
use learning_mits.Proc.Usyscall.{map_usyscall}
use learning_mits.Proc.Usyscall.Failure.{stops, stops-map_usyscall}
use learning_mits.Tests.State.{sleeper, machine, at_boot, root_table}

wakeup-woken_example :
    Returns
      (λ _ k'.
        ((j : ℕ)
          → k'.proc j
            ≡ (if ltb j 64 then woken 1 ticks_chan j (machine.proc j) else machine.proc j))
        × (k'.mem ≡ machine.mem)
        × (k'.freelist ≡ machine.freelist)
        × (k'.nextpid ≡ machine.nextpid))
      (wakeup 1 ticks_chan machine)
wakeup-woken_example = wakeup-woken 1 ticks_chan machine

kill-Killed_example : Returns (Killed 7 64 0 machine) (kill 7 machine)
kill-Killed_example = kill-Killed 7 machine

find_unused-Found_example : Returns (Found 64 0 machine) (find_unused 64 0 machine)
find_unused-Found_example = find_unused-Found 64 0 machine (λ j. refl)

sleeper-FramesApart : FramesApart sleeper
sleeper-FramesApart = inr (omega arith)

-- The alarm of process 0 has two ticks left.
abbrev counting : Kernel
counting = record machine { proc = λ _. record sleeper { alarmremain = 2 } }

alarm_counts_down_example :
    Returns
      (λ _ k'.
        (k'.mem ≡ counting.mem) × ((k'.proc 0).alarmremain ≡ 0) × ((k'.proc 0).alarmticks ≡ 2))
      (tick_times 0 2 counting)
alarm_counts_down_example = alarm_counts_down 0 2 0 counting (omega arith) refl (omega arith)

-- The state that a run ends in; `k` if it does not.
state_after : {A : Type 0} → Kernel → Run A → Kernel
state_after k (ok a k') = k'
state_after k (panic e) = k
state_after k out_of_fuel = k

abbrev ticked : Kernel
unfolding alarm_tick state_after
ticked = state_after machine (alarm_tick 0 machine)

tick_ends : alarm_tick 0 machine ≡ ok tt ticked
unfolding alarm_tick state_after
tick_ends = refl

alarm_resumes_example :
    Returns
      (λ r k2.
        (r ≡ 0)
        × SameFrame k2.mem 0x80401000 machine.mem 0x80401000
        × ((k2.proc 0).alarmremain ≡ 2))
      (sys_sigreturn 0 (record ticked { ticks = 1 }))
alarm_resumes_example =
    alarm_resumes 0 machine ticked (record ticked { ticks = 1 }) (omega arith) refl
      sleeper-FramesApart tick_ends refl (λ _ _. refl)

-- A table with sigreturn alone.
abbrev table : ℕ → Option (M ℕ)
table n = if n == sys_sigreturn_num then some (sys_sigreturn 0) else none

sigreturn_loses_a0_example :
    Returns
      (λ _ k2.
        (k2.mem 0x80401070 ≡ 0)
        × ((off : ℕ)
            → off < 288
            → off ≢ a_off 0
            → k2.mem (0x80401000 + off) ≡ machine.mem (0x80400000 + off)))
      (syscall table 0 machine)
sigreturn_loses_a0_example = sigreturn_loses_a0 table 0 machine refl refl

nproc-InUse_example :
    Returns
      (λ n k'.
        ((js : List ℕ) × InUse machine.proc 64 0 js × (n ≡ length js))
        × (k'.proc ≡ machine.proc)
        × (k'.mem ≡ machine.mem)
        × OnlyHeld none k')
      (nproc machine)
nproc-InUse_example = nproc-InUse machine (omega arith) (λ j. refl)

stops-map_usyscall_example : stops (map_usyscall root_table 0 at_boot) ≡ true
stops-map_usyscall_example = stops-map_usyscall root_table 0 at_boot refl

reparent-Adopted_example :
    Returns
      (λ _ k'.
        ((j : ℕ) → Adopted 0 0 (ltb j 64) (machine.proc j) (k'.proc j))
        × (k'.mem ≡ machine.mem)
        × (k'.freelist ≡ machine.freelist)
        × (k'.nextpid ≡ 8)
        × (k'.initproc ≡ 0))
      (reparent 0 0 machine)
reparent-Adopted_example = reparent-Adopted 0 0 machine

-- Process 0 asks for an alarm after 2 ticks, handled at 0x40.
abbrev asking : Kernel
asking = record machine { mem = update (update (λ _. 0) 0x80401070 2) 0x80401078 0x40 }

sigalarm_fires_example :
    Returns
      (λ _ k1.
        Returns
          (λ _ k2.
            (k2.mem ≡ asking.mem) × Returns (λ _ k3. k3.mem 0x80401018 ≡ 0x40) (alarm_tick 0 k2))
          (tick_times 0 2 k1))
      (sys_sigalarm 0 asking)
sigalarm_fires_example = sigalarm_fires 0 2 asking refl (omega arith) sleeper-FramesApart
