-- ===== src/Riscv/Registers.antt =====
-- Lab_traps/riscv.h: reading and writing the registers of a hart. What an instruction does to the
-- hart is not in the repository: `read` and `write` stand for csrr, csrw and mv on a register, and
-- `flush` for sfence.vma.
use learning_mits.Base.{ℕ, ◌≡◌, ◌∙◌, Bool, true, false, arith}
use learning_mits.Riscv.{bit, set_bit, clear_bit, sstatus_sie}

pub data Register : Type 0 where
  mhartid mstatus mepc sstatus sip sie mie sepc : Register
  medeleg mideleg stvec mtvec pmpcfg0 pmpaddr0 satp sscratch : Register
  mscratch scause stval mcounteren time sp tp ra : Register
  s0 : Register

module _ {H : Type 0} (read : Register → H → ℕ) where
  unfoldable pub r_mhartid : H → ℕ
  r_mhartid = read mhartid

  unfoldable pub r_mstatus : H → ℕ
  r_mstatus = read mstatus

  unfoldable pub r_sstatus : H → ℕ
  r_sstatus = read sstatus

  unfoldable pub r_sip : H → ℕ
  r_sip = read sip

  unfoldable pub r_sie : H → ℕ
  r_sie = read sie

  unfoldable pub r_mie : H → ℕ
  r_mie = read mie

  unfoldable pub r_sepc : H → ℕ
  r_sepc = read sepc

  unfoldable pub r_medeleg : H → ℕ
  r_medeleg = read medeleg

  unfoldable pub r_mideleg : H → ℕ
  r_mideleg = read mideleg

  unfoldable pub r_stvec : H → ℕ
  r_stvec = read stvec

  unfoldable pub r_satp : H → ℕ
  r_satp = read satp

  unfoldable pub r_scause : H → ℕ
  r_scause = read scause

  unfoldable pub r_stval : H → ℕ
  r_stval = read stval

  unfoldable pub r_mcounteren : H → ℕ
  r_mcounteren = read mcounteren

  unfoldable pub r_time : H → ℕ
  r_time = read time

  unfoldable pub r_sp : H → ℕ
  r_sp = read sp

  unfoldable pub r_tp : H → ℕ
  r_tp = read tp

  unfoldable pub r_ra : H → ℕ
  r_ra = read ra

  unfoldable pub r_fp : H → ℕ
  r_fp = read s0

module _ {H : Type 0} (write : Register → ℕ → H → H) where
  unfoldable pub w_mstatus : ℕ → H → H
  w_mstatus = write mstatus

  unfoldable pub w_mepc : ℕ → H → H
  w_mepc = write mepc

  unfoldable pub w_sstatus : ℕ → H → H
  w_sstatus = write sstatus

  unfoldable pub w_sip : ℕ → H → H
  w_sip = write sip

  unfoldable pub w_sie : ℕ → H → H
  w_sie = write sie

  unfoldable pub w_mie : ℕ → H → H
  w_mie = write mie

  unfoldable pub w_sepc : ℕ → H → H
  w_sepc = write sepc

  unfoldable pub w_medeleg : ℕ → H → H
  w_medeleg = write medeleg

  unfoldable pub w_mideleg : ℕ → H → H
  w_mideleg = write mideleg

  unfoldable pub w_stvec : ℕ → H → H
  w_stvec = write stvec

  unfoldable pub w_mtvec : ℕ → H → H
  w_mtvec = write mtvec

  unfoldable pub w_pmpcfg0 : ℕ → H → H
  w_pmpcfg0 = write pmpcfg0

  unfoldable pub w_pmpaddr0 : ℕ → H → H
  w_pmpaddr0 = write pmpaddr0

  unfoldable pub w_satp : ℕ → H → H
  w_satp = write satp

  unfoldable pub w_sscratch : ℕ → H → H
  w_sscratch = write sscratch

  unfoldable pub w_mscratch : ℕ → H → H
  w_mscratch = write mscratch

  unfoldable pub w_mcounteren : ℕ → H → H
  w_mcounteren = write mcounteren

  unfoldable pub w_tp : ℕ → H → H
  w_tp = write tp

-- `sfence.vma zero, zero`
unfoldable pub sfence_vma : {H : Type 0} → (H → H) → H → H
sfence_vma flush = flush

module _ {H : Type 0} (read : Register → H → ℕ) (write : Register → ℕ → H → H) where
  unfoldable pub intr_on : H → H
  unfolding w_sstatus r_sstatus
  intr_on h = w_sstatus write (set_bit sstatus_sie (r_sstatus read h)) h

  unfoldable pub intr_off : H → H
  unfolding w_sstatus r_sstatus
  intr_off h = w_sstatus write (clear_bit sstatus_sie (r_sstatus read h)) h

unfoldable pub intr_get : {H : Type 0} → (Register → H → ℕ) → H → Bool
unfolding r_sstatus
intr_get read h = bit sstatus_sie (r_sstatus read h)

bit-set_bit : (x : ℕ) → bit 1 (set_bit 1 x) ≡ true
bit-set_bit x = ground arith

bit-clear_bit : (x : ℕ) → bit 1 (clear_bit 1 x) ≡ false
bit-clear_bit x = ground arith

-- Where the interrupt bit of sstatus reads as it was written: device interrupts are enabled after
-- intr_on and disabled after intr_off.
pub intr_get-intr_on :
    {H : Type 0} (read : Register → H → ℕ) (write : Register → ℕ → H → H)
    → ((x : ℕ) (h : H) → bit 1 (read sstatus (write sstatus x h)) ≡ bit 1 x)
    → (h : H)
    → (intr_get read (intr_on read write h) ≡ true)
      × (intr_get read (intr_off read write h) ≡ false)
unfolding intr_get intr_on intr_off
intr_get-intr_on read write kept h =
    (kept _ h ∙ bit-set_bit (r_sstatus read h), kept _ h ∙ bit-clear_bit (r_sstatus read h))
