-- ===== src/Exec/Size.antt =====
-- The size that uvmalloc answers, and the size of the image that exec makes.
use learning_mits.Base.{
  ℕ, zero, suc, ◌+◌, ◌*◌, ◌≡◌, ◌≢◌, refl, inl, inr, Option, none, some, List, ltb, ◌==◌, Bool-cases,
  ==→ne, if◌then◌else◌,
}
use learning_mits.Kernel.{Kernel}
use learning_mits.Kernel.Ensures
use learning_mits.Kernel.Ensures.{Ensures, ensured, no_fuel}
use learning_mits.Kalloc.{kalloc, kfree}
use learning_mits.Layout.{Layout}
use learning_mits.Riscv.{u64, sub64, pgsize}
use learning_mits.Vm.Map.{mappages, uvmclear}
use learning_mits.Vm.User.{uvmalloc_loop, uvmalloc, uvmdealloc, flag_rwxu}
use learning_mits.Exec.{build_stack, make_stack}

module _ ⦃l : Layout⦄ where
  -- 0, which is no size, or the new size.
  abbrev Answers : ℕ → ℕ → Kernel → Type 0
  Answers newsz r k = r ≢ 0 → r ≡ newsz

  uvmalloc_loop-Answers :
      (f pt a oldsz newsz : ℕ) (k : Kernel)
      → Ensures (Answers newsz) (uvmalloc_loop f pt a oldsz newsz k)
  unfolding uvmalloc_loop
  uvmalloc_loop-Answers zero pt a oldsz newsz k = no_fuel
  uvmalloc_loop-Answers (suc f) pt a oldsz newsz k = elim (Bool-cases (ltb a newsz)) [
    | inr done ↦ rw done (ensured (λ _. refl))
    | inl more ↦ rw more (
        Ensures.bind (Ensures.any (kalloc k)) (λ page k1 _. elim (Bool-cases (page == 0)) [
          | inl z ↦ rw z (
              Ensures.bind (Ensures.any (uvmdealloc pt a oldsz k1))
                (λ _ k2 _. ensured (λ ne. absurd (ne refl))))
          | inr nz ↦ rw nz (
              Ensures.bind_status _ (Ensures.any (mappages pt a pgsize page flag_rwxu _))
                (λ k3 _. uvmalloc_loop-Answers f pt (u64 (a + pgsize)) oldsz newsz k3)
                (λ k3 _. Ensures.bind (Ensures.any (kfree page k3)) (λ _ k4 _.
                  Ensures.bind (Ensures.any (uvmdealloc pt a oldsz k4))
                    (λ _ k5 _. ensured (λ ne. absurd (ne refl))))))
        ]))
  ]

  -- The size of memory grown to `newsz`, which is never smaller than it was.
  abbrev pub grown_size : ℕ → ℕ → ℕ
  grown_size oldsz newsz = if ltb newsz oldsz then oldsz else newsz

  uvmalloc-Answers :
      (pt oldsz newsz : ℕ) (k : Kernel)
      → Ensures (Answers (grown_size oldsz newsz)) (uvmalloc pt oldsz newsz k)
  unfolding uvmalloc
  uvmalloc-Answers pt oldsz newsz k = elim (Bool-cases (ltb newsz oldsz)) [
    | inl less ↦ rw less (ensured (λ _. refl))
    | inr more ↦ rw more (uvmalloc_loop-Answers _ pt _ _ newsz k)
  ]

  -- The size of a program with a stack above its `sz` bytes.
  abbrev pub with_stack_size : ℕ → ℕ
  with_stack_size sz = grown_size sz (u64 (sz + 2 * pgsize))

  abbrev pub Sized : ℕ → ℕ × Option (ℕ × ℕ) → Kernel → Type 0
  Sized sz (sz1, none) k = Unit
  Sized sz (sz1, some _) k = sz1 ≡ with_stack_size sz

  sized :
      (sz sz1 : ℕ) (o : Option (ℕ × ℕ)) (k : Kernel)
      → sz1 ≡ with_stack_size sz
      → Sized sz (sz1, o) k
  sized sz sz1 none k e = tt
  sized sz sz1 (some _) k e = e

  pub make_stack-Sized :
      (pt sz : ℕ) (argv : List (List ℕ)) (k : Kernel) → Ensures (Sized sz) (make_stack pt sz argv k)
  unfolding make_stack
  make_stack-Sized pt sz argv k =
      Ensures.bind (uvmalloc-Answers pt sz (u64 (sz + 2 * pgsize)) k) (λ sz1 k1 answer.
        elim (Bool-cases (sz1 == 0)) [
          | inl z ↦ rw z (ensured tt)
          | inr nz ↦ rw nz (
              Ensures.bind (Ensures.any (uvmclear pt (sub64 sz1 (2 * pgsize)) k1)) (λ _ k2 _.
                Ensures.bind (Ensures.any (build_stack pt (sub64 sz1 pgsize) sz1 argv k2))
                  (λ r k3 _. ensured (sized sz sz1 r k3 (answer (==→ne sz1 0 nz))))))
        ])
