-- ===== src/Kernel/Keeps.antt =====
-- Code that leaves the processes and their ids alone and gives back the locks that it takes, one rule for each way to build code.
use learning_mits.Base.{
  ℕ, Bool, true, false, Option, none, some, ◌≡◌, refl, ◌∙◌, ap, List, ◌∷◌, if◌then◌else◌,
}
use learning_mits.Kernel.{
  Kernel, Proc, Panic, Status, success, failure, Event, Run, ok, panic, out_of_fuel, M, pure,
  and_then, ◌>>=◌, ◌>>◌, fail, when, modify, gets, record_event, acquired, released, acquire,
  release, Lock,
}
use learning_mits.Kernel.Locks.{held_locks, locks, without, without_head}
use learning_mits.Kernel.Memory.{load, store, memset_page, memmove_page}

-- The processes, their trace masks and the next pid.
abbrev pub Frame : Type 0
Frame = (ℕ → Proc) × (ℕ → ℕ) × ℕ

abbrev pub frame : Kernel → Frame
frame k = (k.proc, k.trace_mask, k.nextpid)

-- What holds of the state that a run ends in, if it ends in one.
pub data After {A : Type 0} (k : Kernel) : Run A → Type 0 where
  kept : (a : A) (k' : Kernel) → frame k' ≡ frame k → locks k' ≡ locks k → After k (ok a k')
  panicked : (e : Panic) → After k (panic e)
  no_fuel : After k out_of_fuel

pub record Keeps {A : Type 0} (m : M A) : Type 0 where
  pub after : (k : Kernel) → After k (m k)

module _ {A B : Type 0} where
  run_bind :
      {k : Kernel} {r : Run A} {f : A → M B}
      → After k r
      → ((a : A) → Keeps (f a))
      → After k (and_then r f)
  run_bind {k} {f = f} (kept a k' e h) next = chain (f a k') ((next a).after k')
    where
      chain : (r : Run B) → After k' r → After k r
      chain _ (kept b k'' e' h') = kept b k'' (e' ∙ e) (h' ∙ h)
      chain _ (panicked p) = panicked p
      chain _ no_fuel = no_fuel
  run_bind (panicked e) next = panicked e
  run_bind no_fuel next = no_fuel

  pub bind-Keeps : {m : M A} {f : A → M B} → Keeps m → ((a : A) → Keeps (f a)) → Keeps (m >>= f)
  bind-Keeps t next = record { after = λ k. run_bind (t.after k) next }

  pub then-Keeps : {m : M A} {n : M B} → Keeps m → Keeps n → Keeps (m >> n)
  then-Keeps t u = record { after = λ k. run_bind (t.after k) (λ _. u) }

-- A bind on an answer that the rest takes apart.
module _ {A : Type 0} where
  pub status-Keeps :
      {m : M Status} (f : Status → M A)
      → Keeps m
      → Keeps (f success)
      → Keeps (f failure)
      → Keeps (m >>= f)
  status-Keeps f t u v = bind-Keeps t split
    where
      split : (s : Status) → Keeps (f s)
      split success = u
      split failure = v

  pub option-Keeps :
      {B : Type 0} {m : M (Option B)} (f : Option B → M A)
      → Keeps m
      → Keeps (f none)
      → ((b : B) → Keeps (f (some b)))
      → Keeps (m >>= f)
  option-Keeps {B} f t u v = bind-Keeps t split
    where
      split : (o : Option B) → Keeps (f o)
      split none = u
      split (some b) = v b

module _ {A : Type 0} where
  pub pure-Keeps : (a : A) → Keeps (pure a)
  pure-Keeps a = record { after = λ k. kept a k refl refl }

  pub fail-Keeps : (e : Panic) → Keeps (fail {A = A} e)
  fail-Keeps e = record { after = λ k. panicked e }

  pub no_fuel-Keeps : Keeps {A = A} (λ _. out_of_fuel)
  no_fuel-Keeps = record { after = λ k. no_fuel }

  pub gets-Keeps : (f : Kernel → A) → Keeps (gets f)
  gets-Keeps f = record { after = λ k. kept (f k) k refl refl }

  pub branch-Keeps : (b : Bool) {m n : M A} → Keeps m → Keeps n → Keeps (if b then m else n)
  branch-Keeps true t u = t
  branch-Keeps false t u = u

pub load-Keeps : (a : ℕ) → Keeps (load a)
load-Keeps a = record { after = λ k. kept _ k refl refl }

pub store-Keeps : (a v : ℕ) → Keeps (store a v)
store-Keeps a v = record { after = λ k. kept tt _ refl refl }

-- Calls that take and give back no lock.
abbrev pub Quiet : Event → Type 0
Quiet (acquired l) = ⊥
Quiet (released l) = ⊥
Quiet _ = Unit

held_locks-Quiet : (e : Event) (es : List Event) → Quiet e → held_locks (e ∷ es) ≡ held_locks es
held_locks-Quiet (acquired l) es q = elim q [ ]
held_locks-Quiet (released l) es q = elim q [ ]
held_locks-Quiet _ es q = refl

pub event-Keeps : (e : Event) → Quiet e → Keeps (record_event e)
event-Keeps e q = record { after = λ k. kept tt _ refl (held_locks-Quiet e k.trace q) }

-- Code between the taking of a lock and its giving back.
pub bracket-Keeps : (l : Lock) {m : M (Unit {0})} → Keeps m → Keeps (do acquire l; m; release l)
bracket-Keeps l {m} t = record {
  after = λ k.
      last k (m (record k { trace = acquired l ∷ k.trace }))
        (t.after (record k { trace = acquired l ∷ k.trace }));
}
  where
    last :
        (k : Kernel) (r : Run (Unit {0}))
        → After (record k { trace = acquired l ∷ k.trace }) r
        → After k (and_then r (λ _. release l))
    last k _ (kept a k' e h) = kept tt _ e (ap (without l) h ∙ without_head l (locks k))
    last k _ (panicked e) = panicked e
    last k _ no_fuel = no_fuel

pub modify-Keeps :
    (f : Kernel → Kernel)
    → ((k : Kernel) → (frame (f k) ≡ frame k) × (locks (f k) ≡ locks k))
    → Keeps (modify f)
modify-Keeps f same = record { after = λ k. kept tt (f k) (same k).0 (same k).1 }

pub memset-Keeps : (p c : ℕ) → Keeps (memset_page p c)
memset-Keeps p c = branch-Keeps _ (fail-Keeps _) (modify-Keeps _ (λ k. (refl, refl)))

pub memmove-Keeps : (dst src : ℕ) → Keeps (memmove_page dst src)
memmove-Keeps dst src = modify-Keeps _ (λ k. (refl, refl))

pub when-Keeps : (b : Bool) {m : M (Unit {0})} → Keeps m → Keeps (when b m)
when-Keeps true t = t
when-Keeps false t = pure-Keeps tt

pub ruleset keeps_rules = (
  status-Keeps, option-Keeps, bind-Keeps, then-Keeps, pure-Keeps, fail-Keeps, no_fuel-Keeps,
  gets-Keeps, branch-Keeps, load-Keeps, store-Keeps, event-Keeps, memset-Keeps, memmove-Keeps,
  when-Keeps,
)
