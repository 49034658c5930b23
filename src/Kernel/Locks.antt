-- ===== src/Kernel/Locks.antt =====
-- Which locks are held, from the trace of calls.
use learning_mits.Base.{ℕ, Bool, true, false, List, [], ◌∷◌, ◌==◌, if◌then◌else◌, ◌≡◌, refl, eq→==}
use learning_mits.Kernel.{
  Kernel, Event, acquired, released, Lock, proc_lock, kmem_lock, pid_lock, wait_lock, ticks_lock,
  pr_lock, other_lock,
}

-- Whether the lock of process `j` is held: the newest call on it was acquire.
abbrev pub held : ℕ → List Event → Bool
held j [] = false
held j (acquired (proc_lock i) ∷ es) = if i == j then true else held j es
held j (released (proc_lock i) ∷ es) = if i == j then false else held j es
held j (e ∷ es) = held j es

abbrev pub same_lock : Lock → Lock → Bool
same_lock kmem_lock kmem_lock = true
same_lock pid_lock pid_lock = true
same_lock wait_lock wait_lock = true
same_lock ticks_lock ticks_lock = true
same_lock pr_lock pr_lock = true
same_lock (proc_lock i) (proc_lock j) = i == j
same_lock (other_lock i) (other_lock j) = i == j
same_lock _ _ = false

-- The locks without the newest `l` among them.
abbrev pub without : Lock → List Lock → List Lock
without l [] = []
without l (h ∷ hs) = if same_lock l h then hs else h ∷ without l hs

-- The locks that are held after these calls, the newest first.
abbrev pub held_locks : List Event → List Lock
held_locks [] = []
held_locks (acquired l ∷ es) = l ∷ held_locks es
held_locks (released l ∷ es) = without l (held_locks es)
held_locks (e ∷ es) = held_locks es

abbrev pub locks : Kernel → List Lock
locks k = held_locks k.trace

pub same_lock_refl : (l : Lock) → same_lock l l ≡ true
same_lock_refl (proc_lock i) = eq→== i i refl
same_lock_refl (other_lock i) = eq→== i i refl
same_lock_refl _ = refl

-- A lock that is given back at once.
pub without_head : (l : Lock) (hs : List Lock) → without l (l ∷ hs) ≡ hs
without_head l hs = rw (same_lock_refl l) refl
