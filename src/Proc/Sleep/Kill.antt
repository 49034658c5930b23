-- ===== src/Proc/Sleep/Kill.antt =====
-- kill: which process it marks.
use learning_mits.Base.{
  ℕ, zero, suc, ◌+◌, ◌≤◌, ◌<◌, ◌≡◌, refl, ap, ◌∙◌, ◌≢◌, inl, inr, arith, ◌==◌, Bool-cases, ==→eq,
  eq→==, true, subst, sym, update-here, update-other,
}
use learning_mits.Kernel.{
  Kernel, Proc, ProcState, sleeping, runnable, unused, used, running, zombie, Status, success,
  failure,
}
use learning_mits.Kernel.Returns
use learning_mits.Kernel.Returns.{Returns, returns}
use learning_mits.Layout.{Layout}
use learning_mits.Proc.Sleep.{is_sleeping, kill_proc, kill_from, kill}

-- What is promised of the process with the pid: `q` is `p` after the kill.
pub record Marked (p q : Proc) : Type 0 where
  pub killed : q.killed ≡ 1
  pub woken : p.state ≡ sleeping → q.state ≡ runnable
  pub awake : p.state ≢ sleeping → q.state ≡ p.state
  pub rest : q ≡ record p { killed = q.killed; state = q.state }

asleep : (s : ProcState) → is_sleeping s ≡ true → s ≡ sleeping
asleep sleeping h = refl
asleep unused h = absurd (cc h)
asleep used h = absurd (cc h)
asleep runnable h = absurd (cc h)
asleep running h = absurd (cc h)
asleep zombie h = absurd (cc h)

kill_proc-Marked : (p : Proc) → Marked p (kill_proc p)
kill_proc-Marked p = elim (Bool-cases (is_sleeping p.state)) [
  | inl e ↦ rw e (record {
    killed = refl;
    woken = λ _. refl;
    awake = λ ne. absurd (ne (asleep p.state e));
    rest = refl;
  })
  | inr e ↦ rw e (record {
    killed = refl;
    woken = λ s. absurd (cc (ap is_sleeping s, e));
    awake = λ _. refl;
    rest = refl;
  })
]

-- How the scan of the `n` entries from `i` on ends.
abbrev pub Killed : (pid n i : ℕ) → Kernel → Status → Kernel → Type 0
Killed pid n i k success k' =
    (t : ℕ) × (i ≤ t)
    × (t < i + n)
    × ((k.proc t).pid ≡ pid)
    × ((j : ℕ) → i ≤ j → j < t → (k.proc j).pid ≢ pid)
    × Marked (k.proc t) (k'.proc t)
    × ((j : ℕ) → t ≢ j → k'.proc j ≡ k.proc j)
Killed pid n i k failure k' =
    ((j : ℕ) → i ≤ j → j < i + n → (k.proc j).pid ≢ pid) × (k'.proc ≡ k.proc)

-- An entry that is passed over.
Killed-suc :
    (pid n i : ℕ) (k k1 : Kernel) (s : Status) (k' : Kernel)
    → k1.proc ≡ k.proc
    → (k.proc i).pid ≢ pid
    → Killed pid n (i + 1) k1 s k'
    → Killed pid (suc n) i k s k'
Killed-suc pid n i k k1 success k' same other (t, lo, hi, here, before, marked, done) = (
  t,
  omega arith,
  omega arith,
  rw (← same) here,
  passed,
  subst (λ f. Marked (f t) (k'.proc t)) same marked,
  (λ j ne. done j ne ∙ ap (λ f. f j) same),
)
  where
    passed : (j : ℕ) → i ≤ j → j < t → (k.proc j).pid ≢ pid
    passed j jlo jhi = elim (Bool-cases (i == j)) [
      | inl e ↦ rw (← ==→eq i j e) other
      | inr ne ↦ rw (← same) (before j (ground arith) jhi)
    ]
Killed-suc pid n i k k1 failure k' same other (absent, done) = (passed, done ∙ same)
  where
    passed : (j : ℕ) → i ≤ j → j < i + suc n → (k.proc j).pid ≢ pid
    passed j lo hi = elim (Bool-cases (i == j)) [
      | inl e ↦ rw (← ==→eq i j e) other
      | inr ne ↦ rw (← same) (absent j (ground arith) (omega arith))
    ]

module _ ⦃l : Layout⦄ where
  open l use {nproc}

  kill_from-Killed : (pid n i : ℕ) (k : Kernel) → Returns (Killed pid n i k) (kill_from pid n i k)
  unfolding kill_from
  kill_from-Killed pid zero i k = returns ((λ j lo hi. absurd (omega arith)), refl)
  kill_from-Killed pid (suc n) i k = elim (Bool-cases ((k.proc i).pid == pid)) [
    | inl e ↦ rw e (
        returns (
          i,
          omega arith,
          omega arith,
          ==→eq _ _ e,
          (λ j lo hi. absurd (omega arith)),
          subst (Marked (k.proc i)) (sym (update-here k.proc i _)) (kill_proc-Marked (k.proc i)),
          (λ j ne. update-other k.proc i _ j ne),
        ))
    | inr ne ↦ rw ne (
        Returns.weaken (kill_from-Killed pid n (i + 1) _)
          (λ s k'. Killed-suc pid n i k k s k' refl (λ e. cc (eq→== (k.proc i).pid pid e))))
  ]

  -- kill answers 0, and the first process in the table with the given pid has `killed` set to 1,
  -- is runnable if it slept and keeps its state if not, and keeps its other fields, and every other
  -- process is as before; or no process of the table has that pid, and it answers -1 and changes
  -- none.
  pub kill-Killed : (pid : ℕ) (k : Kernel) → Returns (Killed pid nproc 0 k) (kill pid k)
  unfolding kill
  kill-Killed pid k = kill_from-Killed pid nproc 0 k
