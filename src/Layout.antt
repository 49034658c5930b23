-- ===== src/Layout.antt =====
-- Constants that memlayout.h, param.h and the linker script give, which are not in the repository.
use learning_mits.Base.{List, ℕ, ◌+◌, ◌-◌, ◌*◌, ◌%◌, ◌^◌, ◌≤◌, ◌<◌, ◌≡◌}

pub record Layout : Type 0 where
  pub end : ℕ  -- first address after the kernel
  pub etext : ℕ
  pub kernbase : ℕ
  pub phystop : ℕ
  pub uart0 : ℕ
  pub virtio0 : ℕ
  pub plic : ℕ
  pub trampoline : ℕ  -- TRAMPOLINE, a virtual address
  pub trampoline_pa : ℕ  -- the code of trampoline.S
  pub trapframe_va : ℕ  -- TRAPFRAME
  pub kstack_va : ℕ → ℕ  -- KSTACK(i)
  pub forkret : ℕ
  pub uart0_irq : ℕ
  pub virtio0_irq : ℕ
  pub kernelvec : ℕ
  pub uservec_off : ℕ  -- uservec - trampoline
  pub userret_off : ℕ
  pub usertrap_pa : ℕ
  pub usyscall_va : ℕ  -- USYSCALL, in the page table lab
  pub nproc : ℕ
  pub nofile : ℕ
  pub maxarg : ℕ

-- What kalloc.c relies on: the kernel's end is above address 0 and physical memory ends at a page
-- boundary below 2 ^ 56, the most that a page-table entry can name.
pub record IsSane (l : Layout) : Type 0 where
  pub end_pos : 0 < l.end
  pub end_le : l.end ≤ l.phystop
  pub stop_aligned : l.phystop % 4096 ≡ 0
  pub stop_small : l.phystop < 2 ^ 56

-- The machine that QEMU emulates, with a kernel that ends at 0x80021d60.
instance abbrev pub qemu : Layout
qemu = record {
  end = 0x80021d60;
  etext = 0x80008000;
  kernbase = 0x80000000;
  phystop = 0x88000000;
  uart0 = 0x10000000;
  virtio0 = 0x10001000;
  plic = 0x0c000000;
  trampoline = 0x3ffffff000;
  trampoline_pa = 0x80007000;
  trapframe_va = 0x3fffffe000;
  kstack_va = λ i. 0x3ffffff000 - (i + 1) * 2 * 4096;
  forkret = 0x80001000;
  uart0_irq = 10;
  virtio0_irq = 1;
  kernelvec = 0x80005a00;
  uservec_off = 0;
  userret_off = 0x90;
  usertrap_pa = 0x80002000;
  usyscall_va = 0x3fffffd000;
  nproc = 64;
  nofile = 16;
  maxarg = 32;
}

-- Functions of the kernel that the repository's code calls and that are not in it: safestrcpy of
-- string.c (old destination, source, size), filedup, idup and namei. Each answers a value; its
-- effect on files is recorded in the trace.
pub record Extern : Type 0 where
  pub safestrcpy : List ℕ → List ℕ → ℕ → List ℕ
  pub filedup : ℕ → ℕ
  pub idup : ℕ → ℕ
  pub root_inode : ℕ
