-- ===== src/Pgaccess/Stopped.antt =====
-- sys_pgaccess with a negative number of pages.
use learning_mits.Base.{
  ℕ, zero, suc, ◌&&◌, ◌-◌, ◌+◌, ◌*◌, ◌^◌, ◌≤◌, ◌<◌, ◌≡◌, refl, arith, ◌⊎◌, inl, inr, Bool, true,
  false, ltb, leb, lt→ltb, ltb→lt, ltb→le, Bool-cases, if◌then◌else◌,
}
use learning_mits.Proc.Life.{a_off, int_pos, int_neg}
use learning_mits.Kernel.{page_fuel, Kernel, Panic, Run, ok, panic, M, and_then}
use learning_mits.Kernel.Ends.{Ends, ended, Ends.panicked, Total}
use learning_mits.Layout.{Layout}
use learning_mits.Riscv.{u32, u64, maxva}
use learning_mits.Syscall.{argint, argaddr, argraw}
use learning_mits.Vm.Walk.Lookup.{walk_beyond}
use learning_mits.Vm.Total.Walks.{total_rules, walk-Total}
use learning_mits.Pgaccess.{take_access, pgaccess_loop, sys_pgaccess}

-- The run ends in a panic.
pub data Stops {A : Type 0} : Run A → Type 0 where
  stopped : (e : Panic) → Stops (panic e)

bind-Stops :
    {A B : Type 0} {r : Run A} (f : A → M B)
    → Ends r
    → ((a : A) (k : Kernel) → Stops (f a k))
    → Stops (and_then r f)
bind-Stops f (ended a k) h = h a k
bind-Stops f (panicked e) h = stopped e

at_once : {A B : Type 0} {r : Run A} (f : A → M B) → Stops r → Stops (and_then r f)
at_once f (stopped e) = stopped e

after_ok :
    {A B : Type 0} {r : Run A} {a : A} {k : Kernel} (f : A → M B)
    → r ≡ ok a k
    → Stops (f a k)
    → Stops (and_then r f)
after_ok f e h = rw e h

fuel_enough : (i : ℕ) → 2 ^ 26 < page_fuel + i
unfolding page_fuel
fuel_enough i = omega arith

module _ ⦃l : Layout⦄ where
  address_read :
      (me n : ℕ) (k : Kernel)
      → leb n 5 ≡ true
      → argaddr me n k ≡ ok (k.mem ((k.proc me).trapframe + a_off n)) k
  unfolding argaddr argraw
  address_read me n k h = rw h refl

  int_read :
      (me n : ℕ) (k : Kernel)
      → leb n 5 ≡ true
      → argint me n k ≡ ok (u32 (k.mem ((k.proc me).trapframe + a_off n))) k
  unfolding argint argraw
  int_read me n k h = rw h refl

  take_access-Total : (pt addr i : ℕ) → Total (take_access pt addr i)
  unfolding take_access
  take_access-Total pt addr i = search (total_rules, walk-Total) depth 16

  take_access_beyond : (pt addr i : ℕ) (k : Kernel) → maxva ≤ addr → Stops (take_access pt addr i k)
  unfolding take_access
  take_access_beyond pt addr i k big = rw (walk_beyond k pt addr false big) (stopped _)

  loop-Stops :
      (f pt start n i : ℕ) (bits : ℕ → Bool) (k : Kernel)
      → start < 2 ^ 64
      → start < 2 ^ 38 ⊎ (i ≡ 0)
      → 2 ^ 26 < n
      → 2 ^ 26 < f + i
      → i ≤ 2 ^ 26
      → Stops (pgaccess_loop f pt start n i bits k)
  unfolding pgaccess_loop
  loop-Stops zero pt start n i bits k small low many fuel le = absurd (omega arith)
  loop-Stops (suc f) pt start n i bits k small low many fuel le =
      rw (lt→ltb i n (omega arith)) (elim (Bool-cases (ltb (u64 (start + i * 4096)) (2 ^ 38))) [
        | inr beyond ↦ at_once _ (take_access_beyond pt _ i k (ltb→le _ _ beyond))
        | inl inside ↦ bind-Stops _ ((take_access-Total pt _ i).ends k) (λ r k1.
            loop-Stops f pt start n (i + 1) _ k1 small (inl (low_start low (ltb→lt _ _ inside)))
              many (omega arith) (next low (ltb→lt _ _ inside)))
      ])
    where
      low_start : start < 2 ^ 38 ⊎ (i ≡ 0) → u64 (start + i * 4096) < 2 ^ 38 → start < 2 ^ 38
      low_start (inl h) _ = h
      low_start (inr z) h = omega arith

      next : start < 2 ^ 38 ⊎ (i ≡ 0) → u64 (start + i * 4096) < 2 ^ 38 → i + 1 ≤ 2 ^ 26
      next (inl h) h' = omega arith
      next (inr z) h' = omega arith

  -- The number as a uint64.
  rounds_many :
      (num : ℕ)
      → 2 ^ 31 ≤ num
      → 2 ^ 26 < (
          let num_pages = if int_pos num && ltb 512 num then 512 else num in
          if int_neg num_pages then num_pages + (2 ^ 64 - 2 ^ 32) else num_pages)
  rounds_many num h = ground arith

  -- When a process calls sys_pgaccess with a negative number of pages and any uint64 for the start
  -- address, the run ends in a panic, whatever the page tables hold.
  pub sys_pgaccess-Stops :
      (me : ℕ) (k : Kernel)
      → 2 ^ 31 ≤ u32 (k.mem ((k.proc me).trapframe + 120))
      → k.mem ((k.proc me).trapframe + 112) < 2 ^ 64
      → Stops (sys_pgaccess me k)
  unfolding sys_pgaccess
  sys_pgaccess-Stops me k negative word = after_ok _ (address_read me 0 k refl) (
      after_ok _ (int_read me 1 k refl) (
        after_ok _ (address_read me 2 k refl) (
          at_once _ (
            loop-Stops page_fuel (k.proc me).pagetable _ _ 0 (λ _. false) k word (inr refl)
              (rounds_many _ negative) (fuel_enough 0) (omega arith)))))
