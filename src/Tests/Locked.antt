-- ===== src/Tests/Locked.antt =====
-- System calls of a process with no lock held.
use learning_mits.Base.{ℕ, Bool, [], ◌∷◌, refl, true, false}
use learning_mits.Kernel.{M, pure, proc_lock}
use learning_mits.Kernel.Holding
use learning_mits.Kernel.Holding.{Holding, Balanced}
use learning_mits.Layout.{qemu}
use learning_mits.Proc.Life.{exit_to_sched}
use learning_mits.Proc.Current.{forkret}
use learning_mits.Trap.{Regs, Devices, usertrap, kerneltrap}
use learning_mits.Trap.Locked.{traps-Balanced}
use learning_mits.Syscall.{syscall}
use learning_mits.Syscall.Dispatch.{FileCalls, Services, syscalls}
use learning_mits.Syscall.Locked.{FilesBalanced, calls-Balanced}

-- Calls on files that answer 0, and a switch that comes back at once.
abbrev idle : ℕ → M ℕ
idle me = pure 0

abbrev idle_files : FileCalls
idle_files = record {
  sys_pipe = idle;
  sys_read = idle;
  sys_exec = idle;
  sys_fstat = idle;
  sys_chdir = idle;
  sys_dup = idle;
  sys_open = idle;
  sys_write = idle;
  sys_mknod = idle;
  sys_unlink = idle;
  sys_link = idle;
  sys_mkdir = idle;
  sys_close = idle;
}

abbrev services : Services
services = record {
  files = idle_files;
  ext = record { safestrcpy = λ old new n. new; filedup = λ f. f; idup = λ i. i; root_inode = 1 };
  cpu = record { holding = true; noff = 1; intr_get = false; swtch = pure tt };
  rounds = 10;
  frames = 10;
  fp = 0;
}

idle-Balanced : Balanced [] (idle 0)
idle-Balanced = Holding.pure-Holding 0 refl

idle_files-FilesBalanced : FilesBalanced [] idle_files 0
idle_files-FilesBalanced = record {
  sys_pipe = idle-Balanced;
  sys_read = idle-Balanced;
  sys_exec = idle-Balanced;
  sys_fstat = idle-Balanced;
  sys_chdir = idle-Balanced;
  sys_dup = idle-Balanced;
  sys_open = idle-Balanced;
  sys_write = idle-Balanced;
  sys_mknod = idle-Balanced;
  sys_unlink = idle-Balanced;
  sys_link = idle-Balanced;
  sys_mkdir = idle-Balanced;
  sys_close = idle-Balanced;
}

calls-Balanced_example :
    Balanced [] (syscall (syscalls services 0) 0)
    × ((status : ℕ) → Holding [] (exit_to_sched 0 status) (λ _. proc_lock 0 ∷ []))
calls-Balanced_example =
    calls-Balanced services 0 (Holding.pure-Holding tt refl) idle_files-FilesBalanced

abbrev idle_devices : Devices
idle_devices = record { uartintr = pure tt; virtio_disk_intr = pure tt }

traps-Balanced_example :
    ((r : Regs)
      → Balanced [] (usertrap idle_devices services.cpu (syscall (syscalls services 0) 0) 0 r))
    × ((running : Bool) (r : Regs) → Balanced [] (kerneltrap idle_devices services.cpu running 0 r))
    × ((first : Bool) (r : Regs)
        → Holding (proc_lock 0 ∷ []) (forkret (pure tt) first 0 r) (λ _. []))
traps-Balanced_example =
    traps-Balanced idle_devices services 0
      (record {
        uartintr = Holding.pure-Holding tt refl;
        virtio_disk_intr = Holding.pure-Holding tt refl;
      })
      (Holding.pure-Holding tt refl) idle_files-FilesBalanced (pure tt)
      (Holding.pure-Holding tt refl)
