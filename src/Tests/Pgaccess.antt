-- ===== src/Tests/Pgaccess.antt =====
-- Two pages, of which one has been accessed.
use learning_mits.Base.{ℕ, ◌<◌, ◌≡◌, false, Bool, arith, update}
use learning_mits.Kernel.{Kernel, page_fuel, ◌>>◌}
use learning_mits.Kernel.Returns.{Returns}
use learning_mits.Layout.{qemu}
use learning_mits.Pgaccess.{pgaccess_loop, sys_pgaccess}
use learning_mits.Pgaccess.Stopped.{Stops, sys_pgaccess-Stops}
use learning_mits.Pgaccess.Reported.{Reported, pgaccess_loop-Reported, pgaccess_loop_once}
use learning_mits.Tests.State.{root_table, machine}

-- Virtual page 2 is mapped and its access bit is set; page 3 is not mapped.
abbrev accessed_page : Kernel
accessed_page = record machine {
  mem =
      update (update (update (λ _. 0) root_table 0x20080401) 0x80201000 0x20080801) 0x80202010
        0x200c0057;
}

pgaccess_loop-Reported_example :
    Returns
      (Reported root_table 0x2000 2 0 accessed_page (λ _. false))
      (pgaccess_loop page_fuel root_table 0x2000 2 0 (λ _. false) accessed_page)
pgaccess_loop-Reported_example =
    pgaccess_loop-Reported root_table 0x2000 2 accessed_page (omega arith) (omega arith)

pgaccess_loop_once_example :
    Returns
      (λ (bits : ℕ → Bool) k'. (j : ℕ) → j < 2 → bits j ≡ false)
      ((do
        pgaccess_loop page_fuel root_table 0x2000 2 0 (λ _. false)
        pgaccess_loop page_fuel root_table 0x2000 2 0 (λ _. false))
        accessed_page)
pgaccess_loop_once_example =
    pgaccess_loop_once root_table 0x2000 2 accessed_page (omega arith) (omega arith)

-- Process 0 asks for -1 pages from 0x2000 on.
abbrev asking_minus_one : Kernel
asking_minus_one = record accessed_page {
  mem = update (update accessed_page.mem 0x80401070 0x2000) 0x80401078 0xffffffff;
}

sys_pgaccess-Stops_example : Stops (sys_pgaccess 0 asking_minus_one)
sys_pgaccess-Stops_example = sys_pgaccess-Stops 0 asking_minus_one (omega arith) (omega arith)
