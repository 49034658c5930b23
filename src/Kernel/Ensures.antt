-- ===== src/Kernel/Ensures.antt =====
-- What holds when a run returns; a panic or a lack of fuel is allowed.
use learning_mits.Base.{ap, refl, ◌≡◌, Option, none, some}
use learning_mits.Kernel.{
  Kernel, Panic, Status, success, failure, Run, ok, panic, out_of_fuel, M, and_then,
}
use learning_mits.Kernel.Locks.{locks}
use learning_mits.Kernel.Keeps.{After, kept, Keeps, frame}

pub data Ensures {A : Type 0} (P : A → Kernel → Type 0) : Run A → Type 0 where
  ensured : {a : A} {k : Kernel} → P a k → Ensures P (ok a k)
  panicked : (e : Panic) → Ensures P (panic e)
  no_fuel : Ensures P out_of_fuel

module _ {A : Type 0} {P : A → Kernel → Type 0} where
  pub bind :
      {B : Type 0} {Q : B → Kernel → Type 0} {r : Run A} {f : A → M B}
      → Ensures P r
      → ((a : A) (k : Kernel) → P a k → Ensures Q (f a k))
      → Ensures Q (and_then r f)
  bind (ensured {a} {k} p) next = next a k p
  bind (panicked e) next = panicked e
  bind no_fuel next = no_fuel

  pub weaken :
      {Q : A → Kernel → Type 0} {r : Run A}
      → Ensures P r
      → ((a : A) (k : Kernel) → P a k → Q a k)
      → Ensures Q r
  weaken (ensured {a} {k} p) imp = ensured (imp a k p)
  weaken (panicked e) imp = panicked e
  weaken no_fuel imp = no_fuel

-- A bind on an answer that the rest takes apart.
module _ {A : Type 0} {Q : A → Kernel → Type 0} where
  pub bind_status :
      {P : Status → Kernel → Type 0} {r : Run Status} (f : Status → M A)
      → Ensures P r
      → ((k : Kernel) → P success k → Ensures Q (f success k))
      → ((k : Kernel) → P failure k → Ensures Q (f failure k))
      → Ensures Q (and_then r f)
  bind_status f (ensured {a = success} {k = k} p) good bad = good k p
  bind_status f (ensured {a = failure} {k = k} p) good bad = bad k p
  bind_status f (panicked e) good bad = panicked e
  bind_status f no_fuel good bad = no_fuel

  pub bind_option :
      {B : Type 0} {P : Option B → Kernel → Type 0} {r : Run (Option B)} (f : Option B → M A)
      → Ensures P r
      → ((k : Kernel) → P none k → Ensures Q (f none k))
      → ((b : B) (k : Kernel) → P (some b) k → Ensures Q (f (some b) k))
      → Ensures Q (and_then r f)
  bind_option f (ensured {a = none} {k = k} p) bad good = bad k p
  bind_option f (ensured {a = some b} {k = k} p) bad good = good b k p
  bind_option f (panicked e) bad good = panicked e
  bind_option f no_fuel bad good = no_fuel

-- The result is that of the run.
pub traced : {A : Type 0} (r : Run A) → Ensures (λ a k. r ≡ ok a k) r
traced (ok a k) = ensured refl
traced (panic e) = panicked e
traced out_of_fuel = no_fuel

-- Nothing is asked of the result.
pub any : {A : Type 0} (r : Run A) → Ensures (λ _ _. Unit {0}) r
any (ok a k) = ensured tt
any (panic e) = panicked e
any out_of_fuel = no_fuel

of_After :
    {A : Type 0} {k : Kernel} {r : Run A} → After k r → Ensures (λ _ k'. frame k' ≡ frame k) r
of_After (kept a k' e h) = ensured e
of_After (After.panicked e) = panicked e
of_After After.no_fuel = no_fuel

pub framed :
    {A : Type 0} {m : M A} → Keeps m → (k : Kernel) → Ensures (λ _ k'. frame k' ≡ frame k) (m k)
framed t k = of_After (t.after k)

-- The locks that are held are the same.
pub balanced :
    {A : Type 0} {m : M A} → Keeps m → (k : Kernel) → Ensures (λ _ k'. locks k' ≡ locks k) (m k)
balanced {A} t k = locks_of (t.after k)
  where
    locks_of : {r : Run A} → After k r → Ensures (λ _ k'. locks k' ≡ locks k) r
    locks_of (kept a k' e h) = ensured h
    locks_of (After.panicked e) = panicked e
    locks_of After.no_fuel = no_fuel

pub of_Keeps :
    {A : Type 0} {m : M A} → Keeps m → (k : Kernel) → Ensures (λ _ k'. k'.proc ≡ k.proc) (m k)
of_Keeps t k = weaken (framed t k) (λ _ k' e. ap (λ x. x.0) e)

of_ok : {A : Type 0} {P : A → Kernel → Type 0} {a : A} {k : Kernel} → Ensures P (ok a k) → P a k
of_ok (ensured p) = p

pub both :
    {A : Type 0} {P Q : A → Kernel → Type 0} {r : Run A}
    → Ensures P r
    → Ensures Q r
    → Ensures (λ a k. P a k × Q a k) r
both (ensured p) e = ensured (p, of_ok e)
both (panicked e) _ = panicked e
both no_fuel _ = no_fuel
