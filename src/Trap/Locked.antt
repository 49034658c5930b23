-- ===== src/Trap/Locked.antt =====
-- The locks that are held where traps and the first run of a new process end.
use learning_mits.Base.{◌&&◌, ◌+◌, ◌==◌, not, ℕ, Bool, false, List, [], ◌∷◌, refl}
use learning_mits.Kernel.{
  Kernel, Lock, M, Panic, proc_lock, ticks_chan, modify, gets, fail, when, wrote_stvec, wrote_sepc,
  wrote_sstatus, interrupts_on, record_event, Event, modify_proc, ◌>>=◌, ◌>>◌, usertrap_mode,
  kerneltrap_mode, kerneltrap_intr, kerneltrap_panic,
}
use learning_mits.Kernel.Keeps
use learning_mits.Kernel.Keeps.{Keeps, keeps_rules}
use learning_mits.Kernel.Ensures.{ensured}
use learning_mits.Kernel.Holding
use learning_mits.Kernel.Holding.{Holding, Balanced, holding_rules}
use learning_mits.Kernel.Memory.{store}
use learning_mits.Layout.{Layout}
use learning_mits.Printf.{print, ptr_arg, int_arg}
use learning_mits.Printf.Keeps.{printf-Keeps}
use learning_mits.Proc.Current.{forkret}
use learning_mits.Proc.Switch.{Cpu, is_running}
use learning_mits.Proc.Life.{exit, epc_off}
use learning_mits.Riscv.{u32, u64, bit, sstatus_spp, sstatus_sie}
use learning_mits.Proc.Locked.{wakeup-Holding}
use learning_mits.Proc.Locked.Calls.{trapframe-Holding, yield-Holding}
use learning_mits.Syscall.{syscall}
use learning_mits.Syscall.Dispatch.{Services, syscalls}
use learning_mits.Syscall.Locked.{FilesBalanced, calls-Balanced, exit-Balanced}
use learning_mits.Trap.{
  minus_one, Regs, Devices, clockintr, devintr, alarm_tick, usertrapret, usertrap_cause, usertrap,
  kerneltrap,
}

-- Handlers of devices that give back the locks that they take.
pub record DevicesBalanced (hs : List Lock) (dev : Devices) : Type 0 where
  pub uartintr : Balanced hs dev.uartintr
  pub virtio_disk_intr : Balanced hs dev.virtio_disk_intr

module _ ⦃l : Layout⦄ where
  usertrapret-Balanced : {hs : List Lock} (me : ℕ) (r : Regs) → Balanced hs (usertrapret me r)
  unfolding usertrapret
  usertrapret-Balanced me r = record { run = λ k e. ensured e }

  count_tick-Balanced :
      {hs : List Lock} → Balanced hs (modify (λ k. record k { ticks = u32 (k.ticks + 1) }))
  count_tick-Balanced = Holding.modify-Holding _ (λ k. refl)

  clockintr-Balanced : {hs : List Lock} (me : ℕ) → Balanced hs (clockintr me)
  unfolding clockintr
  clockintr-Balanced me =
      search (holding_rules, count_tick-Balanced, wakeup-Holding me ticks_chan) depth 14

  alarm_tick-Balanced : {hs : List Lock} (me : ℕ) → Balanced hs (alarm_tick me)
  unfolding alarm_tick
  alarm_tick-Balanced me = search (holding_rules, keeps_rules, trapframe-Holding) depth 30

  devintr-Balanced :
      {hs : List Lock} (dev : Devices) (me : ℕ)
      → DevicesBalanced hs dev
      → (r : Regs) → Balanced hs (devintr dev me r)
  unfolding devintr
  devintr-Balanced dev me idle r =
      search (holding_rules, keeps_rules, printf-Keeps, clockintr-Balanced, idle) depth 24

module _ {hs : List Lock} where
  refuse-Balanced : (b : Bool) (e : Panic) → Balanced hs (when b (fail e))
  refuse-Balanced b e = Holding.when-Holding b (Holding.fail-Holding e)

  gets-Balanced : {A : Type 0} (f : Kernel → A) → Balanced hs (gets f)
  gets-Balanced f = Holding.Keeps-Holding (Keeps.gets-Keeps f)

  event-Balanced : (e : Event) → Keeps.Quiet e → Balanced hs (record_event e)
  event-Balanced e q = Holding.Keeps-Holding (Keeps.event-Keeps e q)

  store-Balanced : (a v : ℕ) → Balanced hs (store a v)
  store-Balanced a v = Holding.Keeps-Holding (Keeps.store-Keeps a v)

module _ ⦃l : Layout⦄ {hs : List Lock} (dev : Devices) (cpu : Cpu) (me : ℕ)
    (idle : DevicesBalanced hs dev) (back : Balanced (proc_lock me ∷ hs) cpu.swtch) where
  killed_exit-Balanced :
      (killed : ℕ) → Balanced hs (when (not (killed == 0)) (exit cpu me minus_one))
  killed_exit-Balanced killed =
      Holding.when-Holding (not (killed == 0)) (exit-Balanced cpu me back minus_one)

  kerneltrap-Balanced : (running : Bool) (r : Regs) → Balanced hs (kerneltrap dev cpu running me r)
  unfolding kerneltrap
  kerneltrap-Balanced running r =
      Holding.then-Holding (refuse-Balanced (not (bit sstatus_spp r.sstatus)) kerneltrap_mode) (
        Holding.then-Holding (refuse-Balanced (bit sstatus_sie r.sstatus) kerneltrap_intr) (
          Holding.part-Holding (devintr-Balanced dev me idle r) λ which_dev.
            Holding.then-Holding (refuse-Balanced (which_dev == 0) kerneltrap_panic) (
              Holding.part-Holding (gets-Balanced (λ k. k.proc me)) λ p.
                Holding.then-Holding
                  (Holding.when-Holding ((which_dev == 2) && (running && is_running p.state))
                    (yield-Holding cpu me back))
                  (Holding.then-Holding (event-Balanced (wrote_sepc r.sepc) tt)
                    (event-Balanced (wrote_sstatus r.sstatus) tt)))))

  unexpected-Balanced :
      (r : Regs)
      → Balanced hs (do
        p ← gets (λ k. k.proc me)
        print "usertrap(): unexpected scause %p pid=%d\n" (ptr_arg r.scause ∷ int_arg p.pid ∷ [])
        print "            sepc=%p stval=%p\n" (ptr_arg r.sepc ∷ ptr_arg r.stval ∷ [])
        modify_proc me (λ q. record q { killed = 1 }))
  unexpected-Balanced r = search (holding_rules, keeps_rules, printf-Keeps) depth 20

  module _ (syscall : M (Unit {0})) (call : Balanced hs syscall) where
    usertrap_cause-Balanced : (r : Regs) → Balanced hs (usertrap_cause dev cpu syscall me r)
    unfolding usertrap_cause
    usertrap_cause-Balanced r =
        Holding.branch-Holding (r.scause == 8)
          (Holding.part-Holding (gets-Balanced (λ k. k.proc me)) λ p.
            Holding.then-Holding (killed_exit-Balanced p.killed) (
              Holding.part-Holding
                (Holding.Keeps-Holding (Keeps.load-Keeps (p.trapframe + epc_off)))
                λ epc.
                  Holding.then-Holding (store-Balanced (p.trapframe + epc_off) (u64 (epc + 4))) (
                    Holding.then-Holding (event-Balanced interrupts_on tt)
                      (Holding.then-Holding call (Holding.pure-Holding 0 refl)))))
          (Holding.part-Holding (devintr-Balanced dev me idle r) λ which_dev.
            Holding.then-Holding (Holding.when-Holding (which_dev == 0) (unexpected-Balanced r))
              (Holding.pure-Holding which_dev refl))

    usertrap-Balanced : (r : Regs) → Balanced hs (usertrap dev cpu syscall me r)
    unfolding usertrap
    usertrap-Balanced r =
        Holding.then-Holding (refuse-Balanced (bit sstatus_spp r.sstatus) usertrap_mode) (
          Holding.then-Holding (event-Balanced (wrote_stvec l.kernelvec) tt) (
            Holding.part-Holding (gets-Balanced (λ k. k.proc me)) λ p.
              Holding.then-Holding (store-Balanced (p.trapframe + epc_off) r.sepc) (
                Holding.part-Holding (usertrap_cause-Balanced r) λ which_dev.
                  Holding.part-Holding (gets-Balanced (λ k. (k.proc me).killed)) λ killed.
                    Holding.then-Holding (killed_exit-Balanced killed) (
                      Holding.then-Holding
                        (Holding.when-Holding (which_dev == 2) (
                          Holding.then-Holding (alarm_tick-Balanced me)
                            (yield-Holding cpu me back)))
                        (usertrapret-Balanced me r)))))

module _ ⦃l : Layout⦄ {hs : List Lock} (fsinit : M (Unit {0})) (mounts : Balanced hs fsinit) where
  forkret-Holding :
      (first : Bool) (me : ℕ) (r : Regs)
      → Holding (proc_lock me ∷ hs) (forkret fsinit first me r) (λ _. hs)
  unfolding forkret
  forkret-Holding first me r = Holding.release-Holding (proc_lock me) (
      Holding.then-Holding (Holding.when-Holding first mounts)
        (Holding.then-Holding (usertrapret-Balanced me r) (Holding.pure-Holding false refl)))

module _ ⦃l : Layout⦄ (dev : Devices) (s : Services) (me : ℕ) (idle : DevicesBalanced [] dev)
    (back : Balanced (proc_lock me ∷ []) s.cpu.swtch) (files : FilesBalanced [] s.files me)
    (fsinit : M (Unit {0})) (mounts : Balanced [] fsinit) where
  -- Where what runs until the process is switched to again leaves it the lock that it held, and the
  -- handlers of files and of devices and fsinit give back what they take: a trap of a process that holds no lock
  -- enters user space with no lock held, whatever its cause and with every system call of the
  -- table; a trap from the kernel that comes while no lock is held returns with none; and the first
  -- run of a process, which starts with the process's own lock held, enters user space with none.
  pub traps-Balanced :
      ((r : Regs) → Balanced [] (usertrap dev s.cpu (syscall (syscalls s me) me) me r))
      × ((running : Bool) (r : Regs) → Balanced [] (kerneltrap dev s.cpu running me r))
      × ((first : Bool) (r : Regs)
          → Holding (proc_lock me ∷ []) (forkret fsinit first me r) (λ _. []))
  traps-Balanced = (
    usertrap-Balanced dev s.cpu me idle back _ (calls-Balanced s me back files).0,
    kerneltrap-Balanced dev s.cpu me idle back,
    λ first r. forkret-Holding fsinit mounts first me r,
  )
