-- ===== src/Tests/State.antt =====
-- A machine with two free pages, an empty root table, and one process with an alarm.
use learning_mits.Base.{ℕ, refl, none, true, [], ◌∷◌, arith, update}
use learning_mits.Kernel.{Kernel, Proc, sleeping, unused, ticks_chan}
use learning_mits.Layout.{IsSane, qemu}
use learning_mits.Kalloc.Chain.{IsPage, Chain.nil, Chain.cons, Free}
use learning_mits.Proc.Table.{no_context}

abbrev pub first_page : ℕ
first_page = 0x80100000

abbrev pub second_page : ℕ
second_page = 0x80101000

-- A root page table without entries.
abbrev pub root_table : ℕ
root_table = 0x80200000

-- A page in use.
abbrev pub used_page : ℕ
used_page = 0x80300000

abbrev pub sleeper : Proc
sleeper = record {
  state = sleeping;
  chan = ticks_chan;
  killed = 0;
  xstate = 0;
  pid = 7;
  alarmticks = 2;
  alarmremain = 0;
  alarmhandler = 0x40;
  original_trapframe = 0x80400000;
  parent = none;
  kstack = 0;
  sz = 4096;
  pagetable = root_table;
  trapframe = 0x80401000;
  context = no_context;
  ofile = λ _. 0;
  cwd = 0;
  name = [];
}

abbrev pub free_slot : Proc
free_slot = record sleeper { state = unused; pid = 0; alarmticks = 0 }

-- Process 0 sleeps until a tick and has an alarm that is due; the other slots are free.
abbrev pub machine : Kernel
machine = record {
  mem = update (update (λ _. 0) first_page second_page) 0x804010a8 23;
  freelist = first_page;
  kernel_pagetable = 0;
  proc = update (λ _. free_slot) 0 sleeper;
  trace_mask = λ _. 0;
  initproc = 0;
  nextpid = 8;
  ticks = 0;
  pr_locking = true;
  trace = [];
}

-- The state at boot: no page is free yet.
abbrev pub at_boot : Kernel
at_boot = record machine { mem = λ _. 0; freelist = 0 }

pub qemu-IsSane : IsSane qemu
qemu-IsSane = record {
  end_pos = omega arith;
  end_le = omega arith;
  stop_aligned = omega arith;
  stop_small = omega arith;
}

pub used-IsPage : IsPage used_page
used-IsPage = record { aligned = omega arith; above = omega arith; below = omega arith }

pub machine-Free : Free machine (first_page ∷ second_page ∷ [])
machine-Free =
    cons (omega arith) (record { aligned = omega arith; above = omega arith; below = omega arith })
      refl
      (cons (omega arith)
        (record { aligned = omega arith; above = omega arith; below = omega arith }) refl nil)
