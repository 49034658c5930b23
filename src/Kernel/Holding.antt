-- ===== src/Kernel/Holding.antt =====
-- Which locks are held when code returns, for the locks that are held when it starts: one rule for
-- each way to build code.
use learning_mits.Base.{
  ℕ, Bool, true, false, Option, none, some, List, ◌∷◌, ◌≡◌, refl, sym, ap, ◌∙◌, if◌then◌else◌,
}
use learning_mits.Kernel.{
  Kernel, Proc, Panic, Status, success, failure, Lock, proc_lock, M, pure, ◌>>=◌, ◌>>◌, fail, when,
  modify, modify_proc, acquire, release, out_of_fuel,
}
use learning_mits.Kernel.Keeps.{Keeps}
use learning_mits.Kernel.Ensures
use learning_mits.Kernel.Ensures.{Ensures, ensured, panicked, no_fuel}
use learning_mits.Kernel.Locks.{locks, without, without_head}

pub record Holding {A : Type 0} (hs : List Lock) (m : M A) (after : A → List Lock) : Type 0 where
  pub run : (k : Kernel) → locks k ≡ hs → Ensures (λ a k'. locks k' ≡ after a) (m k)

-- The lock of the process that an answer names is held as well.
abbrev pub with_found : List Lock → Option ℕ → List Lock
with_found hs none = hs
with_found hs (some i) = proc_lock i ∷ hs

-- Code that gives back what it takes.
abbrev pub Balanced : {A : Type 0} → List Lock → M A → Type 0
Balanced hs m = Holding hs m (λ _. hs)

module _ {A : Type 0} {hs : List Lock} where
  pub Keeps-Holding : {m : M A} → Keeps m → Balanced hs m
  Keeps-Holding t = record {
    run = λ k e. Ensures.weaken (Ensures.balanced t k) (λ a k' e'. e' ∙ e);
  }

  pub pure-Holding : (a : A) {after : A → List Lock} → after a ≡ hs → Holding hs (pure a) after
  pure-Holding a h = record { run = λ k e. ensured (e ∙ sym h) }

  pub fail-Holding : (e : Panic) {after : A → List Lock} → Holding hs (fail e) after
  fail-Holding e = record { run = λ k h. panicked e }

  pub no_fuel-Holding : {after : A → List Lock} → Holding {A = A} hs (λ _. out_of_fuel) after
  no_fuel-Holding = record { run = λ k h. no_fuel }

  pub branch-Holding :
      (b : Bool) {m n : M A} {after : A → List Lock}
      → Holding hs m after
      → Holding hs n after
      → Holding hs (if b then m else n) after
  branch-Holding true t u = t
  branch-Holding false t u = u

  pub bind-Holding :
      {B : Type 0} {m : M A} {f : A → M B} {mid : A → List Lock} {after : B → List Lock}
      → Holding hs m mid
      → ((a : A) → Holding (mid a) (f a) after)
      → Holding hs (m >>= f) after
  bind-Holding t next = record {
    run = λ k e. Ensures.bind (t.run k e) (λ a k' e'. (next a).run k' e');
  }

  -- A part that gives back what it takes.
  pub part-Holding :
      {B : Type 0} {m : M A} {f : A → M B} {after : B → List Lock}
      → Balanced hs m
      → ((a : A) → Holding hs (f a) after)
      → Holding hs (m >>= f) after
  part-Holding t next = bind-Holding t next

  pub then-Holding :
      {B : Type 0} {m : M A} {n : M B} {after : B → List Lock}
      → Balanced hs m
      → Holding hs n after
      → Holding hs (m >> n) after
  then-Holding t next = bind-Holding t (λ _. next)

module _ {A : Type 0} {hs : List Lock} where
  pub status-Holding :
      {m : M Status} (f : Status → M A) {after : A → List Lock}
      → Balanced hs m
      → Holding hs (f success) after
      → Holding hs (f failure) after
      → Holding hs (m >>= f) after
  status-Holding f {after} t u v = bind-Holding t split
    where
      split : (s : Status) → Holding hs (f s) after
      split success = u
      split failure = v

  pub found-Holding :
      {m : M (Option ℕ)} (f : Option ℕ → M A) {after : A → List Lock}
      → Holding hs m (with_found hs)
      → Holding hs (f none) after
      → ((i : ℕ) → Holding (proc_lock i ∷ hs) (f (some i)) after)
      → Holding hs (m >>= f) after
  found-Holding f {after} t u v = bind-Holding t split
    where
      split : (o : Option ℕ) → Holding (with_found hs o) (f o) after
      split none = u
      split (some i) = v i

  pub acquire-Holding :
      (l : Lock) {n : M A} {after : A → List Lock}
      → Holding (l ∷ hs) n after
      → Holding hs (acquire l >> n) after
  acquire-Holding l t = record { run = λ k e. t.run _ (ap (λ hs. l ∷ hs) e) }

  -- The lock that was taken last.
  pub release-Holding :
      (l : Lock) {n : M A} {after : A → List Lock}
      → Holding hs n after
      → Holding (l ∷ hs) (release l >> n) after
  release-Holding l t = record { run = λ k e. t.run _ (ap (without l) e ∙ without_head l hs) }

module _ {hs : List Lock} where
  pub release_last-Holding : (l : Lock) → Holding (l ∷ hs) (release l) (λ _. hs)
  release_last-Holding l = record { run = λ k e. ensured (ap (without l) e ∙ without_head l hs) }

  -- A lock below the newest.
  pub release_below-Holding : (l : Lock) → Holding hs (release l) (λ _. without l hs)
  release_below-Holding l = record { run = λ k e. ensured (ap (without l) e) }

  pub when-Holding : (b : Bool) {m : M (Unit {0})} → Balanced hs m → Balanced hs (when b m)
  when-Holding true t = t
  when-Holding false t = pure-Holding tt refl

  pub modify_proc-Holding : (i : ℕ) (f : Proc → Proc) → Balanced hs (modify_proc i f)
  modify_proc-Holding i f = record { run = λ k e. ensured e }

  pub modify-Holding :
      (f : Kernel → Kernel) → ((k : Kernel) → locks (f k) ≡ locks k) → Balanced hs (modify f)
  modify-Holding f same = record { run = λ k e. ensured (same k ∙ e) }

pub ruleset holding_rules = (
  acquire-Holding, release-Holding, release_last-Holding, status-Holding, then-Holding,
  part-Holding, pure-Holding, fail-Holding, no_fuel-Holding, branch-Holding, when-Holding,
  modify_proc-Holding, refl, Keeps-Holding,
)
