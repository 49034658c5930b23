-- ===== src/Kernel/Returns.antt =====
-- Total correctness of a run: no panic, enough fuel, and a postcondition.
use learning_mits.Base.{◌≡◌}
use learning_mits.Kernel.{Kernel, Run, ok, M, and_then}

-- A family by cases on the run, so that a run that computes shows its postcondition.
pub data Returns {A : Type 0} (P : A → Kernel → Type 0) : Run A → Type 0 where
  returns : {a : A} {k : Kernel} → P a k → Returns P (ok a k)

module _ {A : Type 0} {P : A → Kernel → Type 0} where
  pub bind :
      {B : Type 0} {Q : B → Kernel → Type 0} {r : Run A} {f : A → M B}
      → Returns P r
      → ((a : A) (k : Kernel) → P a k → Returns Q (f a k))
      → Returns Q (and_then r f)
  bind (returns {a} {k} p) next = next a k p

  pub weaken :
      {Q : A → Kernel → Type 0} {r : Run A}
      → Returns P r
      → ((a : A) (k : Kernel) → P a k → Q a k)
      → Returns Q r
  weaken (returns {a} {k} p) imp = returns (imp a k p)

  -- The postcondition at the result that a run is known to have.
  pub result : {r : Run A} {a : A} {k : Kernel} → Returns P r → r ≡ ok a k → P a k
  result {a = a} {k = k} ret e = of_ok (rw (← e) ret)
    where
      of_ok : Returns P (ok a k) → P a k
      of_ok (returns p) = p
