-- ===== src/Proc/Count/InUse.antt =====
-- What nproc counts.
use learning_mits.Base.{
  ℕ, zero, suc, ◌+◌, ◌^◌, ◌≤◌, ◌<◌, ◌≡◌, refl, ◌↔◌, inl, inr, true, false, List, [], ◌∷◌, arith,
  ◌==◌, Bool-cases, ==→eq, length, has, Ascending, has-cons, has_tail, none,
}
use learning_mits.Kernel.{Kernel, Proc}
use learning_mits.Kernel.Returns
use learning_mits.Kernel.Returns.{Returns, returns}
use learning_mits.Riscv.{u32}
use learning_mits.Layout.{Layout}
use learning_mits.Proc.Table.{is_unused}
use learning_mits.Proc.Table.Find.{OnlyHeld}
use learning_mits.Proc.Count.{nproc_from, nproc}

-- `js` are the indices of the entries in use among the `n` from `i` on.
abbrev pub InUse : (ℕ → Proc) → (n i : ℕ) → List ℕ → Type 0
InUse procs n i js =
    Ascending js
    × ((j : ℕ) → (has j js ≡ true) ↔ ((i ≤ j) × (j < i + n) × (is_unused (procs j).state ≡ false)))

skip :
    (procs : ℕ → Proc) (n i : ℕ) (js : List ℕ)
    → is_unused (procs i).state ≡ true
    → InUse procs n (i + 1) js
    → InUse procs (suc n) i js
skip procs n i js free (up, all) = (
  up,
  λ j. (
    (λ h. let (lo, hi, used) = (all j).0 h in (omega arith, omega arith, used)),
    (λ (lo, hi, used). elim (Bool-cases (i == j)) [
      | inl e ↦
          let free' : is_unused (procs j).state ≡ true = rw (← ==→eq i j e) free in
          ground (arith, free', used)
      | inr ne ↦ (all j).1 (ground arith, omega arith, used)
    ]),
  ),
)

count_in :
    (procs : ℕ → Proc) (n i : ℕ) (js : List ℕ)
    → is_unused (procs i).state ≡ false
    → InUse procs n (i + 1) js
    → InUse procs (suc n) i (i ∷ js)
count_in procs n i js here (up, all) = (
  ((λ j h. let (lo, _, _) = (all j).0 h in omega arith), up),
  λ j. (
    (λ h. elim (has-cons j i js h) [
      | inl e ↦ (omega arith, omega arith, rw e here)
      | inr h' ↦ let (lo, hi, used) = (all j).0 h' in (omega arith, omega arith, used)
    ]),
    (λ (lo, hi, used). elim (Bool-cases (i == j)) [
      | inl e ↦ ground (arith, e)
      | inr ne ↦ has_tail j i js ((all j).1 (ground arith, omega arith, used))
    ]),
  ),
)

-- The loop counts on, changes no process and no memory, and gives every lock back.
abbrev Counted : Kernel → (n i count : ℕ) → ℕ → Kernel → Type 0
Counted k n i count r k' =
    ((js : List ℕ) × InUse k.proc n i js × (r ≡ count + length js))
    × (k'.proc ≡ k.proc)
    × (k'.mem ≡ k.mem)
    × OnlyHeld none k'

nproc_from-Counted :
    (n i count : ℕ) (k : Kernel)
    → count + n < 2 ^ 32
    → OnlyHeld none k
    → Returns (Counted k n i count) (nproc_from n i count k)
unfolding nproc_from
nproc_from-Counted zero i count k small free = returns (
  ([], (tt, λ j. ((λ h. ground (arith, h)), (λ (lo, hi, _). absurd (omega arith)))), omega arith),
  refl,
  refl,
  free,
)
nproc_from-Counted (suc n) i count k small free = elim (Bool-cases (is_unused (k.proc i).state)) [
  | inl e ↦ rw e (
      Returns.weaken
        (nproc_from-Counted n (i + 1) count _ (omega arith) (λ j. ground (arith, free j)))
        (λ r k' ((js, use_, total), same, mem, only).
          ((js, skip k.proc n i js e use_, total), same, mem, only)))
  | inr e ↦ rw e (
      Returns.weaken
        (nproc_from-Counted n (i + 1) (u32 (count + 1)) _ (omega arith)
          (λ j. ground (arith, free j)))
        (λ r k' ((js, use_, total), same, mem, only).
          ((i ∷ js, count_in k.proc n i js e use_, omega (arith, total)), same, mem, only)))
]

module _ ⦃l : Layout⦄ where
  -- Started with no process lock held, and with fewer than 2 ^ 32 entries in the table, nproc
  -- answers the number of the entries that are in use; it changes no process and no memory, and
  -- gives back every lock that it takes.
  pub nproc-InUse :
      (k : Kernel)
      → l.nproc < 2 ^ 32
      → OnlyHeld none k
      → Returns
          (λ n k'.
            ((js : List ℕ) × InUse k.proc l.nproc 0 js × (n ≡ length js))
            × (k'.proc ≡ k.proc)
            × (k'.mem ≡ k.mem)
            × OnlyHeld none k')
          (nproc k)
  unfolding nproc
  nproc-InUse k small free =
      Returns.weaken (nproc_from-Counted l.nproc 0 0 k (omega arith) free)
        (λ r k' ((js, use_, total), same, mem, only).
          ((js, use_, omega (arith, total)), same, mem, only))
