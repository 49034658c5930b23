-- ===== src/Proc/Sleep/Wakeup.antt =====
-- wakeup, kill and reparent against what they promise of every process.
use learning_mits.Base.{
  ℕ, zero, suc, ◌+◌, ◌≡◌, refl, ap, ◌∙◌, inl, inr, true, false, not, ◌&&◌, arith, ◌==◌, leb, ltb,
  Bool-cases, if◌then◌else◌, eq→==, ==→eq,
}
use learning_mits.Kernel.{
  Kernel, Proc, runnable, Chan, M, ◌>>=◌, ◌>>◌, when, gets, modify_proc, acquire, release,
  proc_lock,
}
use learning_mits.Kernel.Returns
use learning_mits.Kernel.Returns.{Returns, returns}
use learning_mits.Layout.{Layout}
use learning_mits.Proc.Sleep.{is_sleeping, same_chan, wakeup_from, wakeup}

-- What wakeup makes of process `j`.
abbrev pub woken : ℕ → Chan → ℕ → Proc → Proc
woken me chan j p =
    if not (j == me) && (is_sleeping p.state && same_chan p.chan chan)
    then record p { state = runnable }
    else p

-- The rest of the kernel is as before.
pub record SameRest (k k' : Kernel) : Type 0 where
  pub mem : k'.mem ≡ k.mem
  pub freelist : k'.freelist ≡ k.freelist
  pub nextpid : k'.nextpid ≡ k.nextpid
  pub initproc : k'.initproc ≡ k.initproc

-- Whether `j` is one of the `n` indices from `i` on.
below_none : (i j : ℕ) → (leb i j && ltb j (i + 0)) ≡ false
below_none i j = ground arith

below_here :
    (i n : ℕ)
    → ((leb (i + 1) i && ltb i (i + 1 + n)) ≡ false) × ((leb i i && ltb i (i + suc n)) ≡ true)
below_here i n = (ground arith, ground arith)

below_later :
    (i j n : ℕ)
    → (i == j) ≡ false
    → (leb (i + 1) j && ltb j (i + 1 + n)) ≡ (leb i j && ltb j (i + suc n))
below_later i j n ne = ground arith

step :
    (me : ℕ) (chan : Chan) (n i j : ℕ) (k k1 : Kernel)
    → k1.proc j ≡ (if i == j then woken me chan i (k.proc i) else k.proc j)
    → (if leb (i + 1) j && ltb j (i + 1 + n) then woken me chan j (k1.proc j) else k1.proc j)
      ≡ (if leb i j && ltb j (i + suc n) then woken me chan j (k.proc j) else k.proc j)
step me chan n i j k k1 one = elim (Bool-cases (i == j)) [
  | inl e ↦ rw (← ==→eq i j e, (below_here i n).0, (below_here i n).1) (here (==→eq i j e))
  | inr ne ↦ rw (below_later i j n ne, one, ne) refl
]
  where
    here : i ≡ j → k1.proc i ≡ woken me chan i (k.proc i)
    here e = ap k1.proc e ∙ one ∙ rw (eq→== i j e)

module _ ⦃l : Layout⦄ where
  open l use {nproc}

  abbrev Woken : ℕ → Chan → ℕ → ℕ → Kernel → Kernel → Type 0
  Woken me chan n i k k' =
      ((j : ℕ)
        → k'.proc j ≡ (if leb i j && ltb j (i + n) then woken me chan j (k.proc j) else k.proc j))
      × SameRest k k'

  -- The first round.
  wakeup_one : ℕ → Chan → ℕ → M (Unit {0})
  wakeup_one me chan i = when (not (i == me)) (do
    acquire (proc_lock i)
    p ← gets (λ k. k.proc i)
    when (is_sleeping p.state && same_chan p.chan chan)
        (modify_proc i (λ q. record q { state = runnable }))
    release (proc_lock i))

  unchanged : (k : Kernel) → SameRest k k
  unchanged k = record { mem = refl; freelist = refl; nextpid = refl; initproc = refl }

  wakeup_one-Woken :
      (me : ℕ) (chan : Chan) (i : ℕ) (k : Kernel)
      → Returns
          (λ _ k'.
            ((j : ℕ) → k'.proc j ≡ (if i == j then woken me chan i (k.proc i) else k.proc j))
            × SameRest k k')
          (wakeup_one me chan i k)
  unfolding wakeup_one
  wakeup_one-Woken me chan i k = elim (Bool-cases (i == me)) [
    | inl e ↦ rw e (returns ((λ j. same j), unchanged k))
    | inr n ↦
        rw n (elim (Bool-cases (is_sleeping (k.proc i).state && same_chan (k.proc i).chan chan)) [
          | inl s ↦ rw s (
              returns (
                (λ j. refl),
                record { mem = refl; freelist = refl; nextpid = refl; initproc = refl },
              ))
          | inr s ↦ rw s (
              returns (
                (λ j. same j),
                record { mem = refl; freelist = refl; nextpid = refl; initproc = refl },
              ))
        ])
  ]
    where
      same : (j : ℕ) → k.proc j ≡ (if i == j then k.proc i else k.proc j)
      same j = elim (Bool-cases (i == j)) [
        | inl e ↦ rw e (rw (==→eq i j e) refl)
        | inr ne ↦ rw ne refl
      ]

  wakeup_from-Woken :
      (me : ℕ) (chan : Chan) (n i : ℕ) (k : Kernel)
      → Returns (λ _ k'. Woken me chan n i k k') (wakeup_from me chan n i k)
  unfolding wakeup_from wakeup_one
  wakeup_from-Woken me chan zero i k = returns ((λ j. rw (below_none i j)), unchanged k)
  wakeup_from-Woken me chan (suc n) i k =
      Returns.bind (wakeup_one-Woken me chan i k) (λ _ k1 (one, r1).
        Returns.weaken (wakeup_from-Woken me chan n (i + 1) k1) (λ _ k2 (rest, r2). (
          (λ j. rest j ∙ step me chan n i j k k1 (one j)),
          record {
            mem = r2.mem ∙ r1.mem;
            freelist = r2.freelist ∙ r1.freelist;
            nextpid = r2.nextpid ∙ r1.nextpid;
            initproc = r2.initproc ∙ r1.initproc;
          },
        )))

  pub wakeup-Woken :
      (me : ℕ) (chan : Chan) (k : Kernel)
      → Returns
          (λ _ k'.
            ((j : ℕ) → k'.proc j ≡ (if ltb j nproc then woken me chan j (k.proc j) else k.proc j))
            × SameRest k k')
          (wakeup me chan k)
  unfolding wakeup
  wakeup-Woken me chan k =
      Returns.weaken (wakeup_from-Woken me chan nproc 0 k)
        (λ _ k' (each, r). ((λ j. each j ∙ rw (from_zero j)), r))
    where
      from_zero : (j : ℕ) → (leb 0 j && ltb j (0 + nproc)) ≡ ltb j nproc
      from_zero j = ground arith

  -- wakeup makes exactly the other processes that sleep on the channel runnable, at every index of
  -- the table, and changes no other field, no other entry and no memory.
  pub wakeup-woken :
      (me : ℕ) (chan : Chan) (k : Kernel)
      → Returns
          (λ _ k'.
            ((j : ℕ) → k'.proc j ≡ (if ltb j nproc then woken me chan j (k.proc j) else k.proc j))
            × (k'.mem ≡ k.mem)
            × (k'.freelist ≡ k.freelist)
            × (k'.nextpid ≡ k.nextpid))
          (wakeup me chan k)
  wakeup-woken me chan k =
      Returns.weaken (wakeup-Woken me chan k)
        (λ _ k' (each, r). (each, r.mem, r.freelist, r.nextpid))
