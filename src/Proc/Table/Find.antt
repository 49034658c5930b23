-- ===== src/Proc/Table/Find.antt =====
-- The scan of allocproc, and pids.
use learning_mits.Base.{
  ℕ, zero, suc, ◌+◌, ◌^◌, ◌≤◌, ◌<◌, ◌≡◌, refl, ◌≢◌, inl, inr, true, false, Option, none, some,
  arith, ◌==◌, Bool-cases, ==→eq,
}
use learning_mits.Kernel.{Kernel}
use learning_mits.Kernel.Locks.{held}
use learning_mits.Kernel.Returns
use learning_mits.Kernel.Returns.{Returns, returns}
use learning_mits.Layout.{Layout}
use learning_mits.Proc.Table.{is_unused, find_unused, allocpid}

-- No lock of a process is held but that of `t`.
abbrev pub OnlyHeld : Option ℕ → Kernel → Type 0
OnlyHeld none k = (j : ℕ) → held j k.trace ≡ false
OnlyHeld (some t) k = (j : ℕ) → held j k.trace ≡ (t == j)

-- How the scan of the `n` entries from `i` on ends.
abbrev pub Found : (n i : ℕ) → Kernel → Option ℕ → Kernel → Type 0
Found n i k (some t) k' =
    (i ≤ t)
    × (t < i + n)
    × (is_unused (k.proc t).state ≡ true)
    × ((j : ℕ) → i ≤ j → j < t → is_unused (k.proc j).state ≡ false)
    × (k'.proc ≡ k.proc)
    × OnlyHeld (some t) k'
Found n i k none k' =
    ((j : ℕ) → i ≤ j → j < i + n → is_unused (k.proc j).state ≡ false)
    × (k'.proc ≡ k.proc)
    × OnlyHeld none k'

Found-suc :
    (n i : ℕ) (k : Kernel) (r : Option ℕ) (k' : Kernel)
    → is_unused (k.proc i).state ≡ false
    → Found n (i + 1) k r k'
    → Found (suc n) i k r k'
Found-suc n i k (some t) k' used (lo, hi, free, before, same, only) =
    (omega arith, omega arith, free, passed, same, only)
  where
    passed : (j : ℕ) → i ≤ j → j < t → is_unused (k.proc j).state ≡ false
    passed j jlo jhi = elim (Bool-cases (i == j)) [
      | inl e ↦ rw (← ==→eq i j e) used
      | inr ne ↦ before j (ground arith) jhi
    ]
Found-suc n i k none k' used (absent, same, only) = (passed, same, only)
  where
    passed : (j : ℕ) → i ≤ j → j < i + suc n → is_unused (k.proc j).state ≡ false
    passed j jlo jhi = elim (Bool-cases (i == j)) [
      | inl e ↦ rw (← ==→eq i j e) used
      | inr ne ↦ absent j (ground arith) (omega arith)
    ]

module _ ⦃l : Layout⦄ where
  open l use {nproc}

  -- Started with no process lock held, the scan of allocproc finds the first unused process of the
  -- table and returns with its lock held, or says that there is none; no entry is changed, and
  -- every other lock that it took is given back.
  pub find_unused-Found :
      (n i : ℕ) (k : Kernel) → OnlyHeld none k → Returns (Found n i k) (find_unused n i k)
  unfolding find_unused
  find_unused-Found zero i k free = returns ((λ j lo hi. absurd (omega arith)), refl, free)
  find_unused-Found (suc n) i k free = elim (Bool-cases (is_unused (k.proc i).state)) [
    | inl e ↦ rw e (
        returns (
          omega arith,
          omega arith,
          e,
          (λ j lo hi. absurd (omega arith)),
          refl,
          λ j. ground (arith, free j),
        ))
    | inr used ↦ rw used (
        Returns.weaken (find_unused-Found n (i + 1) _ (λ j. ground (arith, free j)))
          (λ r k'. Found-suc n i k r k' used))
  ]

-- For a counter below 2 ^ 32, allocpid answers the counter and moves it on, so that the next pid
-- differs, and changes no process.
pub allocpid_fresh :
    (k : Kernel)
    → k.nextpid < 2 ^ 32
    → Returns
        (λ pid k'.
          (pid ≡ k.nextpid) × (k'.proc ≡ k.proc) × Returns (λ pid' _. pid' ≢ pid) (allocpid k'))
        (allocpid k)
unfolding allocpid
allocpid_fresh k small = returns (refl, refl, returns (omega arith))
