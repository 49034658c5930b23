-- ===== src/Vm/Boot.antt =====
-- kvmmake, kvminit and kvminithart of vm.c: the kernel's own page table.
use learning_mits.Base.{ℕ, ◌+◌, ◌-◌}
use learning_mits.Kernel.{
  M, pure, ◌>>=◌, ◌>>◌, gets, modify, record_event, satp_written, tlb_flushed,
}
use learning_mits.Kernel.Memory.{memset_page}
use learning_mits.Kalloc.{kalloc}
use learning_mits.Layout.{Layout}
use learning_mits.Riscv.{pgsize, flag_r, flag_w, flag_x, make_satp}
use learning_mits.Vm.Map.{kvmmap}
use learning_mits.Proc.Table.{proc_mapstacks}

module _ ⦃l : Layout⦄ where
  open l use {uart0, virtio0, plic, kernbase, etext, phystop, trampoline, trampoline_pa}

  unfoldable pub kvmmake : M ℕ
  kvmmake = do
    kpgtbl ← kalloc
    memset_page kpgtbl 0
    kvmmap kpgtbl uart0 uart0 pgsize (flag_r + flag_w)
    kvmmap kpgtbl virtio0 virtio0 pgsize (flag_r + flag_w)
    kvmmap kpgtbl plic plic 0x400000 (flag_r + flag_w)
    kvmmap kpgtbl kernbase kernbase (etext - kernbase) (flag_r + flag_x)
    kvmmap kpgtbl etext etext (phystop - etext) (flag_r + flag_w)
    kvmmap kpgtbl trampoline trampoline_pa pgsize (flag_r + flag_x)
    proc_mapstacks kpgtbl
    pure kpgtbl

  unfoldable pub kvminit : M (Unit {0})
  kvminit = do kpgtbl ← kvmmake; modify (λ k. record k { kernel_pagetable = kpgtbl })

unfoldable pub kvminithart : M (Unit {0})
kvminithart = do
  kpgtbl ← gets (λ k. k.kernel_pagetable)
  record_event (satp_written (make_satp kpgtbl))
  record_event tlb_flushed
