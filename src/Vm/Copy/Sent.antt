-- ===== src/Vm/Copy/Sent.antt =====
-- Copies to user memory one after another: what one of them leaves for user code to see, and what a
-- later one leaves of that.
use learning_mits.Base.{
  ℕ, zero, suc, ◌+◌, ◌≤◌, ◌<◌, ◌≡◌, ◌≢◌, refl, arith, ap, subst, inl, inr, All, none, some, List,
  [], ◌∷◌, length, Option-cases,
}
use mathlib.Core.Option
use learning_mits.Kernel.{Kernel, Status, success, failure}
use learning_mits.Kernel.Ensures.{Ensures, ensured}
use learning_mits.Kernel.Memory.{Memory, load_byte}
use learning_mits.Layout.{Layout}
use learning_mits.Vm.Copy.{copyout}
use learning_mits.Vm.Copy.Seen.{user_addr, user_read, user_write}
use learning_mits.Vm.Copy.Writes.{OffTables, Stable, Wrote, copyout-Wrote}
use learning_mits.Vm.Copy.RoundTrip.{Unshared, Holds, user_addr-Stable, user_write-Holds}

-- Physical memory has changed at most in the bytes that `m` maps the addresses from `from` up to
-- `to` to.
abbrev pub Changed : Memory → ℕ → ℕ → ℕ → Memory → Memory → Type 0
Changed m pt from to now m' =
    (a : ℕ)
    → ((u : ℕ) → from ≤ u → u < to → user_addr m pt u ≢ some a)
    → load_byte m' a ≡ load_byte now a

module _ (m : Memory) (pt lo hi : ℕ) (apart : OffTables m pt lo hi)
    (unshared : Unshared m pt lo hi) where
  -- A read above the addresses that have changed.
  pub user_read-Changed :
      (n va from to : ℕ) (now m' : Memory)
      → Stable m pt lo hi now
      → Stable m pt lo hi m'
      → Changed m pt from to now m'
      → lo ≤ from
      → to ≤ va
      → lo ≤ va
      → va + n ≤ hi
      → user_read m' pt va n ≡ user_read now pt va n
  unfolding user_read
  user_read-Changed zero va from to now m' s s' ch l below l' h = refl
  user_read-Changed (suc n) va from to now m' s s' ch l below l' h =
      rw
        (
          user_addr-Stable m pt lo hi apart unshared m' va s' l' (omega arith),
          user_addr-Stable m pt lo hi apart unshared now va s l' (omega arith),
          user_read-Changed n (va + 1) from to now m' s s' ch l (omega arith) (omega arith)
              (omega arith),
        )
        (elim (Option-cases (user_addr m pt va)) [
          | inl missing ↦ rw missing refl
          | inr (a, e) ↦ rw e (
              ap (λ b. Option.map (λ bs. b ∷ bs) (user_read now pt (va + 1) n))
                (ch a (λ u lu hu eu. absurd (
                  omega
                    (arith, unshared u va a (omega arith) (omega arith) l' (omega arith) eu e)))))
        ])

  -- What cannot be read cannot be written.
  unmapped :
      (src : List ℕ) (va : ℕ) (now : Memory)
      → user_read m pt va (length src) ≡ none
      → user_write m pt va src now ≡ none
  unfolding user_read user_write
  unmapped [] va now e = absurd (cc e)
  unmapped (b ∷ src) va now e = elim (Option-cases (user_addr m pt va)) [
    | inl missing ↦ rw missing refl
    | inr (a, ea) ↦ elim (Option-cases (user_read m pt (va + 1) (length src))) [
      | inl z ↦ rw ea (unmapped src (va + 1) _ z)
      | inr (bs, eb) ↦ absurd (cc (rw (ea, eb) at e))
    ]
  ]

  -- After a copyout that answers 0.
  abbrev pub Sent : List ℕ → ℕ → Kernel → Status → Kernel → Type 0
  Sent src va k failure k' = Unit
  Sent src va k success k' =
      Stable m pt lo hi k'.mem
      × Changed m pt va (va + length src) k.mem k'.mem
      × (user_read k'.mem pt va (length src) ≡ some src)

  module _ ⦃l : Layout⦄ where
    pub copyout-Sent :
        (src : List ℕ) (va : ℕ) (k : Kernel)
        → lo ≤ va
        → va + length src ≤ hi
        → All (λ b. b < 256) src
        → Stable m pt lo hi k.mem
        → Ensures (Sent src va k) (copyout pt va src k)
    copyout-Sent src va k low high bytes s = elim (Option-cases (user_read m pt va (length src))) [
      | inl z ↦
          failed (subst (λ o. Wrote k o (copyout pt va src k)) (unmapped src va k.mem z) wrote)
      | inr (bs, e) ↦ done (
          user_write-Holds m pt lo hi apart unshared src va k.mem low high bytes (λ z. cc (z, e)) s)
    ]
      where
        wrote : Wrote k (user_write m pt va src k.mem) (copyout pt va src k)
        wrote = copyout-Wrote m pt lo hi apart src va k low high s

        failed : Wrote k none (copyout pt va src k) → Ensures (Sent src va k) (copyout pt va src k)
        failed (m', e) = rw e (ensured tt)

        done :
            ((m' : Memory) × Holds m pt lo hi apart unshared k.mem va src m')
            → Ensures (Sent src va k) (copyout pt va src k)
        done (m', g) =
            let e : Wrote k (some m') (copyout pt va src k) =
              subst (λ o. Wrote k o (copyout pt va src k)) g.written wrote in
            rw e (ensured (g.stable, g.others, g.seen))
