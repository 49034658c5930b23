-- ===== src/Exec/Argc.antt =====
-- The number of arguments that exec's stack holds.
use learning_mits.Base.{
  ℕ, suc, ◌+◌, ◌*◌, ◌≡◌, inl, inr, Option, none, some, List, [], ◌∷◌, ◌++◌, arith, ltb, leb, ◌==◌,
  Bool-cases, length, length-append,
}
use learning_mits.Kernel.{Kernel}
use learning_mits.Kernel.Ensures
use learning_mits.Kernel.Ensures.{Ensures, ensured}
use learning_mits.Layout.{Layout}
use learning_mits.Riscv.{u64, sub64, pgsize}
use learning_mits.Vm.Map.{uvmclear}
use learning_mits.Vm.User.{uvmalloc}
use learning_mits.Vm.Copy.{copyout}
use learning_mits.Exec.{push, push_args, build_stack, make_stack}

module _ ⦃l : Layout⦄ where
  abbrev Counted : ℕ → Option (ℕ × List ℕ) → Kernel → Type 0
  Counted n none k = Unit
  Counted n (some (q, ps)) k = length ps ≡ n

  push_args-Counted :
      (pt base sp : ℕ) (us : List ℕ) (argv : List (List ℕ)) (k : Kernel)
      → Ensures (Counted (length us + length argv)) (push_args pt base sp us argv k)
  unfolding push_args
  push_args-Counted pt base sp us [] k = ensured (omega arith)
  push_args-Counted pt base sp us (s ∷ argv) k = elim (Bool-cases (leb l.maxarg (length us))) [
    | inl full ↦ rw full (ensured tt)
    | inr room ↦ rw room (elim (Bool-cases (ltb p base)) [
      | inl low ↦ rw low (ensured tt)
      | inr high ↦ rw high (
          Ensures.bind_status _ (Ensures.any (copyout pt p (s ++ (0 ∷ [])) k))
            (λ k' _. rw (← total) (push_args-Counted pt base p (us ++ (p ∷ [])) argv k'))
            (λ k' _. ensured tt))
    ])
  ]
    where
      p : ℕ
      p = push sp (length s + 1)

      total : length (us ++ (p ∷ [])) + length argv ≡ length us + suc (length argv)
      total = omega (arith, length-append us (p ∷ []))

  abbrev pub Argc : ℕ → Option (ℕ × ℕ) → Kernel → Type 0
  Argc n none k = Unit
  Argc n (some (q, argc)) k = argc ≡ n

  build_stack-Argc :
      (pt base sp : ℕ) (argv : List (List ℕ)) (k : Kernel)
      → Ensures (Argc (length argv)) (build_stack pt base sp argv k)
  unfolding build_stack
  build_stack-Argc pt base sp argv k =
      Ensures.bind_option _ (push_args-Counted pt base sp [] argv k) (λ k' _. ensured tt)
        (λ (q, ps) k' n. elim (Bool-cases (leb l.maxarg (length ps))) [
          | inl over ↦ rw over (Ensures.panicked _)
          | inr room ↦ rw room (elim (Bool-cases (ltb (push q ((length ps + 1) * 8)) base)) [
            | inl under ↦ rw under (ensured tt)
            | inr fits ↦ rw fits (
                Ensures.bind_status _ (Ensures.any (copyout pt _ _ k'))
                  (λ k'' _. ensured (omega (arith, n))) (λ k'' _. ensured tt))
          ])
        ])

  pub make_stack-Argc :
      (pt sz : ℕ) (argv : List (List ℕ)) (k : Kernel)
      → Ensures (λ r k'. Argc (length argv) r.1 k') (make_stack pt sz argv k)
  unfolding make_stack
  make_stack-Argc pt sz argv k =
      Ensures.bind (Ensures.any (uvmalloc pt sz (u64 (sz + 2 * pgsize)) k)) (λ sz1 k1 _.
        elim (Bool-cases (sz1 == 0)) [
          | inl z ↦ rw z (ensured tt)
          | inr nz ↦ rw nz (
              Ensures.bind (Ensures.any (uvmclear pt (sub64 sz1 (2 * pgsize)) k1)) (λ _ k2 _.
                Ensures.bind (build_stack-Argc pt (sub64 sz1 pgsize) sz1 argv k2)
                  (λ r k3 n. ensured n)))
        ])
