-- ===== src/Proc/Wait/Reaped.antt =====
-- What a scan of wait finds, and which process it frees.
use learning_mits.Base.{
  ℕ, zero, suc, ◌+◌, ◌≤◌, ◌<◌, ◌≡◌, ◌≢◌, refl, subst, ◌-◌, ap, ◌∙◌, inl, inr, Bool, true, false,
  not, ◌||◌, arith, ◌==◌, Bool-cases, ==→eq, update-here, update-other,
}
use learning_mits.Kernel.{Kernel, Proc, success}
use learning_mits.Kernel.Ensures
use learning_mits.Kernel.Ensures.{Ensures, ensured, of_Keeps}
use learning_mits.Kernel.Keeps
use learning_mits.Kernel.Keeps.{Keeps, keeps_rules}
use learning_mits.Layout.{Layout}
use learning_mits.Vm.Keeps.{kfree-Keeps, copyout-Keeps}
use learning_mits.Proc.Table.{is_unused, freeproc, reset_proc}
use learning_mits.Proc.Table.Keeps.{proc_freepagetable-Keeps}
use learning_mits.Proc.Sleep.{is_parent}
use learning_mits.Proc.Wait.{
  is_zombie, int_bytes, Scan, reaped, copy_failed, nothing, reap, wait_scan,
}

-- Process i is unused, and the others are as before.
abbrev pub OnlyFreed : ℕ → (ℕ → Proc) → (ℕ → Proc) → Type 0
OnlyFreed i ps qs = (is_unused (qs i).state ≡ true) × ((j : ℕ) → i ≢ j → qs j ≡ ps j)

-- Whether one of the `n` processes from `i` on is a child of `me`.
unfoldable pub has_child : ℕ → (ℕ → Proc) → ℕ → ℕ → Bool
has_child me ps zero i = false
has_child me ps (suc n) i = is_parent me (ps i).parent || has_child me ps n (i + 1)

module _ (me : ℕ) (ps : ℕ → Proc) where
  -- Process t is the first zombie among the children of `me` from `i` on.
  pub record FirstZombie (i n t : ℕ) : Type 0 where
    pub lo : i ≤ t
    pub hi : t < i + n
    pub child : is_parent me (ps t).parent ≡ true
    pub zombie : is_zombie (ps t).state ≡ true
    pub passed :
        (j : ℕ) → i ≤ j → j < t → is_parent me (ps j).parent ≡ true → is_zombie (ps j).state ≡ false

  -- How a scan of the `n` processes from `i` on ends, with the table `qs`.
  abbrev pub Scanned : Bool → ℕ → ℕ → Scan → (ℕ → Proc) → Type 0
  Scanned havekids n i (reaped pid) qs =
      (t : ℕ) × FirstZombie i n t × (pid ≡ (ps t).pid) × OnlyFreed t ps qs
  Scanned havekids n i copy_failed qs = (t : ℕ) × FirstZombie i n t × (qs ≡ ps)
  Scanned havekids n i (nothing kids) qs =
      (kids ≡ (havekids || has_child me ps n i))
      × ((j : ℕ)
          → i ≤ j
          → j < i + n
          → is_parent me (ps j).parent ≡ true
          → is_zombie (ps j).state ≡ false)
      × (qs ≡ ps)

module _ ⦃l : Layout⦄ where
  freeproc-OnlyFreed :
      (i : ℕ) (k : Kernel) → Ensures (λ _ k'. OnlyFreed i k.proc k'.proc) (freeproc i k)
  unfolding freeproc
  freeproc-OnlyFreed i k =
      Ensures.bind
        (of_Keeps (Keeps.when-Keeps (not ((k.proc i).original_trapframe == 0)) (kfree-Keeps _)) k)
        (λ _ k1 e1.
          Ensures.bind
            (of_Keeps (Keeps.when-Keeps (not ((k.proc i).trapframe == 0)) (kfree-Keeps _)) k1)
            (λ _ k2 e2.
              Ensures.bind
                (of_Keeps
                  (Keeps.when-Keeps (not ((k.proc i).pagetable == 0))
                    (proc_freepagetable-Keeps _ _))
                  _)
                (λ _ k3 e3. ensured (
                  ap (λ (q : Proc). is_unused q.state)
                      (update-here k3.proc i (reset_proc (k3.proc i))),
                  λ j ne.
                      update-other k3.proc i _ j ne
                      ∙ ap (λ ps. ps j) e3
                      ∙ update-other k2.proc i _ j ne
                      ∙ ap (λ ps. ps j) (e2 ∙ e1),
                ))))

  -- The outcome for a zombie child.
  abbrev Reaped : ℕ → (ℕ → Proc) → Scan → (ℕ → Proc) → Type 0
  Reaped i ps (reaped pid) qs = (pid ≡ (ps i).pid) × OnlyFreed i ps qs
  Reaped i ps copy_failed qs = qs ≡ ps
  Reaped i ps (nothing kids) qs = ⊥

  reap-Reaped :
      (me addr i : ℕ) (k : Kernel) → Ensures (λ r k'. Reaped i k.proc r k'.proc) (reap me addr i k)
  unfolding reap
  reap-Reaped me addr i k =
      Ensures.bind_status _
        (of_Keeps
          (Keeps.branch-Keeps (addr == 0) (Keeps.pure-Keeps success)
            (copyout-Keeps (k.proc me).pagetable addr (int_bytes (k.proc i).xstate)))
          k)
        (λ k1 e1. Ensures.bind (freeproc-OnlyFreed i k1) (λ _ k2 f. ensured (refl, (rw (← e1) f))))
        (λ k1 e1. ensured e1)

module _ (me : ℕ) (ps : ℕ → Proc) where
  -- A process that is passed over.
  Passed : ℕ → Type 0
  Passed i = is_parent me (ps i).parent ≡ true → is_zombie (ps i).state ≡ false

  all_Passed :
      (n i : ℕ)
      → Passed i
      → ((j : ℕ) → i + 1 ≤ j → j < i + 1 + n → Passed j)
      → (j : ℕ) → i ≤ j
      → j < i + suc n
      → Passed j
  all_Passed n i here rest j lo hi = elim (Bool-cases (i == j)) [
    | inl e ↦ subst Passed (==→eq i j e) here
    | inr ne ↦ rest j (ground arith) (omega arith)
  ]

  FirstZombie-suc :
      {n i t : ℕ} → Passed i → FirstZombie me ps (i + 1) n t → FirstZombie me ps i (suc n) t
  unfolding Passed
  FirstZombie-suc {n} {i} {t} here f = record {
    lo = omega (arith, f.lo);
    hi = omega (arith, f.hi);
    child = f.child;
    zombie = f.zombie;
    passed = λ j lo hi.
        all_Passed (t - (i + 1)) i here (λ j' lo' hi'. f.passed j' lo' (omega (arith, f.lo))) j lo
          (omega (arith, f.lo));
  }

  Scanned-suc :
      (kids havekids : Bool) (n i : ℕ) (r : Scan) (qs : ℕ → Proc)
      → kids ≡ (havekids || is_parent me (ps i).parent)
      → Passed i
      → Scanned me ps kids n (i + 1) r qs
      → Scanned me ps havekids (suc n) i r qs
  unfolding Passed has_child
  Scanned-suc kids havekids n i (reaped pid) qs k here (t, f, e, freed) =
      (t, FirstZombie-suc here f, e, freed)
  Scanned-suc kids havekids n i copy_failed qs k here (t, f, same) =
      (t, FirstZombie-suc here f, same)
  Scanned-suc kids havekids n i (nothing seen) qs k here (e, passed, same) =
      (ground (arith, e, k), all_Passed n i here passed, same)

  -- A zombie child is the first one.
  FirstZombie-here :
      (n i : ℕ)
      → is_parent me (ps i).parent ≡ true
      → is_zombie (ps i).state ≡ true
      → FirstZombie me ps i (suc n) i
  FirstZombie-here n i child zombie = record {
    lo = omega arith;
    hi = omega arith;
    child = child;
    zombie = zombie;
    passed = λ j lo hi. absurd (omega arith);
  }

module _ ⦃l : Layout⦄ where
  Reaped-Scanned :
      (me : ℕ) (ps : ℕ → Proc) (havekids : Bool) (n i : ℕ) (r : Scan) (qs : ℕ → Proc)
      → FirstZombie me ps i (suc n) i
      → Reaped i ps r qs
      → Scanned me ps havekids (suc n) i r qs
  Reaped-Scanned me ps havekids n i (reaped pid) qs f (e, o) = (i, f, e, o)
  Reaped-Scanned me ps havekids n i copy_failed qs f e = (i, f, e)
  Reaped-Scanned me ps havekids n i (nothing kids) qs f e = elim e [ ]

  -- When a scan of wait over the `n` processes from `i` on returns: it has freed the first zombie
  -- among the caller's children, answers its pid, and has changed no other process; or its status
  -- could not be copied out, and no process has changed; or no child is a zombie, it says whether
  -- the caller has children, those counted before the scan included, and no process has changed.
  pub wait_scan-Scanned :
      (me addr : ℕ) (havekids : Bool) (n i : ℕ) (k : Kernel)
      → Ensures
          (λ r k'. Scanned me k.proc havekids n i r k'.proc)
          (wait_scan me addr havekids n i k)
  unfolding wait_scan has_child Passed
  wait_scan-Scanned me addr havekids zero i k =
      ensured (none_left havekids, (λ j lo hi. absurd (omega arith)), refl)
    where
      none_left : (b : Bool) → b ≡ (b || has_child me k.proc 0 i)
      none_left true = refl
      none_left false = refl
  wait_scan-Scanned me addr havekids (suc n) i k =
      elim (Bool-cases (is_parent me (k.proc i).parent)) [
        | inr stranger ↦ rw stranger (
            Ensures.weaken (wait_scan-Scanned me addr havekids n (i + 1) k) (λ r k'.
              Scanned-suc me k.proc havekids havekids n i r k'.proc (ground arith) (λ c. cc)))
        | inl child ↦ rw child (elim (Bool-cases (is_zombie (k.proc i).state)) [
          | inl zombie ↦ rw zombie (
              Ensures.weaken (reap-Reaped me addr i _) (λ r k'.
                Reaped-Scanned me k.proc havekids n i r k'.proc
                  (FirstZombie-here me k.proc n i child zombie)))
          | inr alive ↦ rw alive (
              Ensures.weaken (wait_scan-Scanned me addr true n (i + 1) _) (λ r k'.
                Scanned-suc me k.proc true havekids n i r k'.proc (ground arith) (λ c. alive)))
        ])
      ]
