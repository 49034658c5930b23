-- ===== src/Exec/Total.antt =====
-- The building of exec's stack ends.
use learning_mits.Base.{ℕ, Option, none, some, List, [], ◌∷◌}
use learning_mits.Kernel.{Status, success, failure, M, ◌>>=◌}
use learning_mits.Kernel.Ends
use learning_mits.Kernel.Ends.{Total}
use learning_mits.Layout.{Layout}
use learning_mits.Vm.Copy.{copyout}
use learning_mits.Vm.Total.{vm-Total}
use learning_mits.Exec.{push_args, build_stack}

module _ {A : Type 0} where
  status-Total :
      {m : M Status} (f : Status → M A)
      → Total m
      → Total (f success)
      → Total (f failure)
      → Total (m >>= f)
  status-Total f t u v = Ends.bind-Total t split
    where
      split : (s : Status) → Total (f s)
      split success = u
      split failure = v

  option-Total :
      {B : Type 0} {m : M (Option B)} (f : Option B → M A)
      → Total m
      → Total (f none)
      → ((b : B) → Total (f (some b)))
      → Total (m >>= f)
  option-Total {B} f t u v = Ends.bind-Total t split
    where
      split : (o : Option B) → Total (f o)
      split none = u
      split (some b) = v b

module _ ⦃l : Layout⦄ where
  copyout-Total : (pt dstva : ℕ) (src : List ℕ) → Total (copyout pt dstva src)
  copyout-Total = vm-Total.3

  push_args-Total :
      (pt base sp : ℕ) (us : List ℕ) (argv : List (List ℕ)) → Total (push_args pt base sp us argv)
  unfolding push_args
  push_args-Total pt base sp us [] = Ends.pure-Total _
  push_args-Total pt base sp us (s ∷ argv) =
      search
        (
          status-Total,
          Ends.branch-Total,
          Ends.pure-Total,
          copyout-Total,
          λ (sp' : ℕ) (us' : List ℕ). push_args-Total pt base sp' us' argv,
        )
        depth 12

  pub build_stack-Total :
      (pt base sp : ℕ) (argv : List (List ℕ)) → Total (build_stack pt base sp argv)
  unfolding build_stack
  build_stack-Total pt base sp argv =
      search
        (
          option-Total, status-Total, Ends.branch-Total, Ends.pure-Total, Ends.fail-Total,
          copyout-Total, push_args-Total,
        )
        depth 14
