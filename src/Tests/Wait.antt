-- ===== src/Tests/Wait.antt =====
-- A process with a child that has exited.
use learning_mits.Base.{some, false, update}
use learning_mits.Kernel.{Kernel, Proc, zombie}
use learning_mits.Kernel.Ensures.{Ensures}
use learning_mits.Layout.{qemu}
use learning_mits.Proc.Wait.{wait_scan}
use learning_mits.Proc.Wait.Reaped.{Scanned, wait_scan-Scanned}
use learning_mits.Tests.State.{machine, sleeper, free_slot}

abbrev exited : Proc
exited = record free_slot { state = zombie; pid = 9; parent = some 0; pagetable = 0; trapframe = 0 }

abbrev family : Kernel
family = record machine { proc = update (update (λ _. free_slot) 0 sleeper) 3 exited }

wait_scan-Scanned_example :
    Ensures (λ r k'. Scanned 0 family.proc false 64 0 r k'.proc) (wait_scan 0 0 false 64 0 family)
wait_scan-Scanned_example = wait_scan-Scanned 0 0 false 64 0 family
