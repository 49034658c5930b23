-- ===== src/Trap.antt =====
-- Lab_traps/trap.c: traps from user space and from the kernel, and the alarm.
pub mod Alarm
pub mod Locked
use learning_mits.Base.{
  ℕ, ◌+◌, ◌^◌, ◌%◌, ◌≤◌, Bool, true, false, not, ◌&&◌, List, [], ◌∷◌, ◌==◌, leb, if◌then◌else◌,
}
use learning_mits.Kernel.{
  Kernel, ticks_chan, M, pure, ◌>>=◌, ◌>>◌, fail, when, modify, modify_proc, gets, record_event,
  acquire, release, initialized, ticks_lock, interrupts_on, interrupts_off, plic_completed,
  wrote_stvec, wrote_sepc, wrote_sstatus, wrote_sip, user_entered, usertrap_mode, kerneltrap_mode,
  kerneltrap_intr, kerneltrap_panic,
}
use learning_mits.Kernel.Memory.{load, store}
use learning_mits.Layout.{Layout}
use learning_mits.Printf.{codes, print, int_arg, ptr_arg}
use learning_mits.Riscv.{
  u32, u64, bit, clear_bit, set_bit, sstatus_spp, sstatus_spie, sstatus_sie, make_satp, pgsize,
}
use learning_mits.Proc.Sleep.{wakeup}
use learning_mits.Proc.Switch.{Cpu, is_running, yield}
use learning_mits.Proc.Life.{
  copy_trapframe, epc_off, kernel_satp_off, kernel_sp_off, kernel_trap_off, kernel_hartid_off, exit,
}

-- The control registers when the trap is taken, and what plic_claim answers.
pub record Regs : Type 0 where
  pub sstatus : ℕ
  pub scause : ℕ
  pub sepc : ℕ
  pub stval : ℕ
  pub satp : ℕ
  pub tp : ℕ
  pub irq : ℕ
  pub sip : ℕ

-- The interrupt handlers of uart.c and virtio_disk.c, which are not in the repository.
pub record Devices : Type 0 where
  pub uartintr : M (Unit {0})
  pub virtio_disk_intr : M (Unit {0})

-- `-1` as an int.
abbrev pub minus_one : ℕ
minus_one = 0xffff_ffff

unfoldable pub trapinit : M (Unit {0})
trapinit = record_event (initialized ticks_lock)

module _ ⦃l : Layout⦄ where
  open l use {
    uart0_irq, virtio0_irq, kernelvec, trampoline, trapframe_va, uservec_off, userret_off,
    usertrap_pa,
  }

  unfoldable pub trapinithart : M (Unit {0})
  trapinithart = record_event (wrote_stvec kernelvec)

  unfoldable pub clockintr : ℕ → M (Unit {0})
  clockintr me = do
    acquire ticks_lock
    modify (λ k. record k { ticks = u32 (k.ticks + 1) })
    wakeup me ticks_chan
    release ticks_lock

  -- 2 for a timer interrupt, 1 for another device, 0 for what is not recognized. `plic_completed`
  -- stands for plic_complete.
  unfoldable pub devintr : Devices → ℕ → Regs → M ℕ
  devintr dev me r =
      if leb (2 ^ 63) r.scause && (r.scause % 256 == 9)
      then (do
        (if r.irq == uart0_irq
            then dev.uartintr
            else if r.irq == virtio0_irq
            then dev.virtio_disk_intr
            else when (not (r.irq == 0))
                (print "unexpected interrupt irq=%d\n" (int_arg r.irq ∷ [])))
        when (not (r.irq == 0)) (record_event (plic_completed r.irq))
        pure 1)
      else if r.scause == 2 ^ 63 + 1
      then (do
        when (r.tp == 0) (clockintr me)
        record_event (wrote_sip (clear_bit 1 r.sip))
        pure 2)
      else pure 0

  -- The block of usertrap for a timer tick of a process with an alarm.
  unfoldable pub alarm_tick : ℕ → M (Unit {0})
  unfolding copy_trapframe
  alarm_tick me = do
    p ← gets (λ k. k.proc me)
    when (not (p.alarmticks == 0)) (do
      when (p.alarmremain == 0) (do
        modify (λ k. record k { mem = copy_trapframe p.original_trapframe p.trapframe k.mem })
        store (p.trapframe + epc_off) p.alarmhandler)
      modify_proc me (λ q. record q { alarmremain = u32 (q.alarmremain + minus_one) }))

  unfoldable pub usertrapret : ℕ → Regs → M (Unit {0})
  usertrapret me r = do
    p ← gets (λ k. k.proc me)
    record_event interrupts_off
    record_event (wrote_stvec (trampoline + uservec_off))
    store (p.trapframe + kernel_satp_off) r.satp
    store (p.trapframe + kernel_sp_off) (u64 (p.kstack + pgsize))
    store (p.trapframe + kernel_trap_off) usertrap_pa
    store (p.trapframe + kernel_hartid_off) r.tp
    record_event (wrote_sstatus (set_bit sstatus_spie (clear_bit sstatus_spp r.sstatus)))
    epc ← load (p.trapframe + epc_off)
    record_event (wrote_sepc epc)
    record_event (user_entered (trampoline + userret_off) (make_satp p.pagetable))

  -- The three branches of usertrap on the cause; the answer is `which_dev`.
  unfoldable pub usertrap_cause : Devices → Cpu → M (Unit {0}) → ℕ → Regs → M ℕ
  usertrap_cause dev cpu syscall me r =
      if r.scause == 8
      then (do
        p ← gets (λ k. k.proc me)
        when (not (p.killed == 0)) (exit cpu me minus_one)
        epc ← load (p.trapframe + epc_off)
        store (p.trapframe + epc_off) (u64 (epc + 4))
        record_event interrupts_on
        syscall
        pure 0)
      else (do
        which_dev ← devintr dev me r
        when (which_dev == 0) (do
          p ← gets (λ k. k.proc me)
          print "usertrap(): unexpected scause %p pid=%d\n" (ptr_arg r.scause ∷ int_arg p.pid ∷ [])
          print "            sepc=%p stval=%p\n" (ptr_arg r.sepc ∷ ptr_arg r.stval ∷ [])
          modify_proc me (λ q. record q { killed = 1 }))
        pure which_dev)

  -- `syscall` is that of syscall.c with its table.
  unfoldable pub usertrap : Devices → Cpu → M (Unit {0}) → ℕ → Regs → M (Unit {0})
  usertrap dev cpu syscall me r = do
    when (bit sstatus_spp r.sstatus) (fail usertrap_mode)
    record_event (wrote_stvec kernelvec)
    p ← gets (λ k. k.proc me)
    store (p.trapframe + epc_off) r.sepc
    which_dev ← usertrap_cause dev cpu syscall me r
    killed ← gets (λ k. (k.proc me).killed)
    when (not (killed == 0)) (exit cpu me minus_one)
    when (which_dev == 2) (do alarm_tick me; yield cpu me)
    usertrapret me r

  -- `running` says that this processor runs process `me`.
  unfoldable pub kerneltrap : Devices → Cpu → Bool → ℕ → Regs → M (Unit {0})
  kerneltrap dev cpu running me r = do
    when (not (bit sstatus_spp r.sstatus)) (fail kerneltrap_mode)
    when (bit sstatus_sie r.sstatus) (fail kerneltrap_intr)
    which_dev ← devintr dev me r
    when (which_dev == 0) (fail kerneltrap_panic)
    p ← gets (λ k. k.proc me)
    when ((which_dev == 2) && (running && is_running p.state)) (yield cpu me)
    record_event (wrote_sepc r.sepc)
    record_event (wrote_sstatus r.sstatus)
