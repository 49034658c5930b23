-- ===== src/Kernel/Ends.antt =====
-- Code that ends from every state: it returns or panics, and its loops have fuel enough.
use learning_mits.Base.{Bool, true, false, ◌≡◌, refl, if◌then◌else◌}
use learning_mits.Kernel.{
  Kernel, Panic, Run, ok, panic, M, pure, and_then, ◌>>=◌, ◌>>◌, fail, when, modify, gets,
}

pub data Ends {A : Type 0} : Run A → Type 0 where
  ended : (a : A) (k : Kernel) → Ends (ok a k)
  panicked : (e : Panic) → Ends (panic e)

pub record Total {A : Type 0} (m : M A) : Type 0 where
  pub ends : (k : Kernel) → Ends (m k)

module _ {A B : Type 0} where
  bind_run : {r : Run A} {f : A → M B} → Ends r → ((a : A) → Total (f a)) → Ends (and_then r f)
  bind_run (ended a k) next = (next a).ends k
  bind_run (panicked e) next = panicked e

  pub bind-Total : {m : M A} {f : A → M B} → Total m → ((a : A) → Total (f a)) → Total (m >>= f)
  bind-Total t next = record { ends = λ k. bind_run (t.ends k) next }

  pub then-Total : {m : M A} {n : M B} → Total m → Total n → Total (m >> n)
  then-Total t u = record { ends = λ k. bind_run (t.ends k) (λ a. u) }

module _ {A : Type 0} where
  pub pure-Total : (a : A) → Total (pure a)
  pure-Total a = record { ends = λ k. ended a k }

  pub fail-Total : (e : Panic) → Total (fail {A = A} e)
  fail-Total e = record { ends = λ k. panicked e }

  pub gets-Total : (f : Kernel → A) → Total (gets f)
  gets-Total f = record { ends = λ k. ended (f k) k }

  pub branch-Total : (b : Bool) {m n : M A} → Total m → Total n → Total (if b then m else n)
  branch-Total true t u = t
  branch-Total false t u = u

  -- Each branch may use the value of the test.
  pub cases-Total :
      (b : Bool) {m n : M A}
      → (b ≡ true → Total m)
      → (b ≡ false → Total n)
      → Total (if b then m else n)
  cases-Total true t u = t refl
  cases-Total false t u = u refl

pub modify-Total : (f : Kernel → Kernel) → Total (modify f)
modify-Total f = record { ends = λ k. ended tt (f k) }

pub when-Total : (b : Bool) {m : M (Unit {0})} → Total m → Total (when b m)
when-Total true t = t
when-Total false t = pure-Total tt
