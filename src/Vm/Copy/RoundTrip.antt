-- ===== src/Vm/Copy/RoundTrip.antt =====
-- What copyout writes, copyin reads back.
use learning_mits.Base.{
  ℕ, ◌+◌, ◌%◌, ◌≤◌, ◌<◌, ◌≡◌, ◌≢◌, refl, arith, ap, subst, ◌∙◌, inl, inr, All, none, some, List, [],
  ◌∷◌, length, Option-cases,
}
use learning_mits.Kernel.{Kernel, ok, success}
use learning_mits.Kernel.Returns.{Returns, returns}
use learning_mits.Kernel.Memory.{Memory, load_byte, store_byte}
use learning_mits.Kernel.Memory.Bytes.{load_byte-store_byte_self, load_byte-store_byte_ne}
use learning_mits.Layout.{Layout}
use learning_mits.Vm.Copy.{copyout, copyin}
use learning_mits.Vm.Copy.Seen.{user_addr, user_read, user_write}
use learning_mits.Vm.Copy.Reads.{Copied, copyin-user_read}
use learning_mits.Vm.Copy.Writes.{
  OffTables, Stable, store_byte-Stable, page_at-Stable, Wrote, copyout-user_write,
}

-- No two addresses from `lo` up to `hi` have the same byte of physical memory.
abbrev pub Unshared : Memory → ℕ → ℕ → ℕ → Type 0
Unshared m pt lo hi =
    (u v a : ℕ)
    → lo ≤ u
    → u < hi
    → lo ≤ v
    → v < hi
    → user_addr m pt u ≡ some a
    → user_addr m pt v ≡ some a
    → u ≡ v

mod_small : (b : ℕ) → b < 256 → b % 256 ≡ b
mod_small b h = omega arith

module _ (m : Memory) (pt lo hi : ℕ) (apart : OffTables m pt lo hi)
    (unshared : Unshared m pt lo hi) where
  pub user_addr-Stable :
      (now : Memory) (va : ℕ)
      → Stable m pt lo hi now
      → lo ≤ va
      → va < hi
      → user_addr now pt va ≡ user_addr m pt va
  unfolding user_addr
  user_addr-Stable now va s l h = rw (page_at-Stable m pt lo hi now va s l h) refl

  -- The memory `m'` after `src` has been written at `va` in the memory `now`.
  pub record Holds (now : Memory) (va : ℕ) (src : List ℕ) (m' : Memory) : Type 0 where
    pub written : user_write m pt va src now ≡ some m'
    pub stable : Stable m pt lo hi m'
    pub seen : user_read m' pt va (length src) ≡ some src
    pub others :
        (a : ℕ)
        → ((u : ℕ) → va ≤ u → u < va + length src → user_addr m pt u ≢ some a)
        → load_byte m' a ≡ load_byte now a

  pub user_write-Holds :
      (src : List ℕ) (va : ℕ) (now : Memory)
      → lo ≤ va
      → va + length src ≤ hi
      → All (λ b. b < 256) src
      → user_read m pt va (length src) ≢ none
      → Stable m pt lo hi now
      → (m' : Memory) × Holds now va src m'
  unfolding user_write user_read
  user_write-Holds [] va now l h small full s =
      (now, record { written = refl; stable = s; seen = refl; others = λ a f. refl })
  user_write-Holds (b ∷ src) va now l h small full s = elim (Option-cases (user_addr m pt va)) [
    | inl missing ↦ absurd (full (rw missing refl))
    | inr (a, e) ↦ first a e (
        user_write-Holds src (va + 1) (store_byte a b now) (omega arith) (omega arith) small.1
          (rest a e) (store_byte-Stable m pt lo hi apart b va a now l (omega arith) e s))
  ]
    where
      rest : (a : ℕ) → user_addr m pt va ≡ some a → user_read m pt (va + 1) (length src) ≢ none
      rest a e z = full (rw (e, z) refl)

      first :
          (a : ℕ)
          → user_addr m pt va ≡ some a
          → (m' : Memory) × Holds (store_byte a b now) (va + 1) src m'
          → (m' : Memory) × Holds now va (b ∷ src) m'
      first a e (m', g) = (
        m',
        record {
          written = rw e g.written;
          stable = g.stable;
          seen = rw (user_addr-Stable m' va g.stable l (omega arith) ∙ e, g.seen, here) refl;
          others = λ a' f.
              g.others a' (λ u lu hu. f u (omega arith) (omega arith))
              ∙ load_byte-store_byte_ne a a' b now
                  (λ same. f va (omega arith) (omega arith) (e ∙ ap some same));
        },
      )
        where
          here : load_byte m' a ≡ b
          here =
              g.others a (λ u lu hu eu.
                absurd
                  (omega (arith, unshared u va a (omega arith) (omega arith) l (omega arith) eu e)))
              ∙ load_byte-store_byte_self a b now
              ∙ mod_small b small.0

module _ ⦃l : Layout⦄ where
  -- The state after a copyout of `src` to `dstva`: copyin answers the same bytes, and a byte at none
  -- of the addresses is as before.
  abbrev pub ReadsBack : Kernel → ℕ → ℕ → List ℕ → Kernel → Type 0
  ReadsBack k pt dstva src k' =
      (copyin pt dstva (length src) k' ≡ ok (success, src) k')
      × ((a : ℕ)
          → ((u : ℕ) → dstva ≤ u → u < dstva + length src → user_addr k.mem pt u ≢ some a)
          → load_byte k'.mem a ≡ load_byte k.mem a)

  -- copyout of bytes to mapped addresses, no two of which share a byte of physical memory, and none
  -- of which stands in a page-table entry for them: it answers 0, copyin of as many bytes from there
  -- then answers 0 with the same bytes, and every byte at none of the addresses is as before.
  pub copyout-copyin :
      (k : Kernel) (pt dstva : ℕ) (src : List ℕ)
      → All (λ b. b < 256) src
      → user_read k.mem pt dstva (length src) ≢ none
      → OffTables k.mem pt dstva (dstva + length src)
      → Unshared k.mem pt dstva (dstva + length src)
      → Returns (λ s k'. (s ≡ success) × ReadsBack k pt dstva src k') (copyout pt dstva src k)
  copyout-copyin k pt dstva src bytes mapped apart unshared =
      let (m', g) =
        user_write-Holds k.mem pt dstva (dstva + length src) apart unshared src dstva k.mem
          (omega arith) (omega arith) bytes mapped (λ v lo hi. (refl, (refl, (refl, tt)))) in
      let wrote : Wrote k (some m') (copyout pt dstva src k) =
        subst (λ o. Wrote k o (copyout pt dstva src k)) g.written
          (copyout-user_write k pt dstva src apart) in
      let read : Copied (record k { mem = m' }) (some src)
          (copyin pt dstva (length src) (record k { mem = m' })) =
        subst
          (λ o.
            Copied (record k { mem = m' }) o (copyin pt dstva (length src) (record k { mem = m' })))
          g.seen (copyin-user_read (record k { mem = m' }) pt dstva (length src)) in
      rw wrote (returns (refl, (read, g.others)))
