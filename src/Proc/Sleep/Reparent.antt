-- ===== src/Proc/Sleep/Reparent.antt =====
-- reparent: whose children the processes are afterwards.
use learning_mits.Base.{
  ℕ, zero, suc, ◌+◌, ◌≡◌, refl, ap, ◌∙◌, ◌⊎◌, inl, inr, Bool, true, false, not, ◌&&◌, ◌||◌, some,
  arith, ◌==◌, leb, ltb, Bool-cases, if◌then◌else◌, ==→eq, Option,
}
use learning_mits.Kernel.{
  Kernel, Proc, runnable, ProcState, proc_chan, M, ◌>>=◌, ◌>>◌, when, gets, modify_proc,
}
use learning_mits.Kernel.Returns
use learning_mits.Kernel.Returns.{Returns, returns}
use learning_mits.Layout.{Layout}
use learning_mits.Proc.Sleep.{wakeup, is_sleeping, same_chan, is_parent, reparent_from, reparent}
use learning_mits.Proc.Sleep.Wakeup.{woken, SameRest, wakeup-Woken}

-- A process that sleeps on the struct of process `init`.
abbrev pub naps_on : ℕ → Proc → Bool
naps_on init q = is_sleeping q.state && same_chan q.chan (proc_chan init)

-- `q` with another parent and another state.
abbrev pub moved : Option ℕ → ProcState → Proc → Proc
moved par st q = record q { parent = par; state = st }

-- What becomes of a process `q` of the table; `here` says whether the scan comes to it.
pub record Adopted (p init : ℕ) (here : Bool) (q q' : Proc) : Type 0 where
  pub parent : q'.parent ≡ (if here && is_parent p q.parent then some init else q.parent)
  pub state : (q'.state ≡ q.state) ⊎ ((naps_on init q ≡ true) × (q'.state ≡ runnable))
  pub rest : q' ≡ moved q'.parent q'.state q

Adopted-trans :
    {p init : ℕ} {b b' : Bool} {q q1 q2 : Proc}
    → (b && b') ≡ false
    → Adopted p init b q q1
    → Adopted p init b' q1 q2
    → Adopted p init (b || b') q q2
Adopted-trans {p} {init} {b} {b'} {q} {q1} {q2} once s t = record {
  parent = t.parent ∙ parents b b' once s.parent;
  state = elim t.state [
    | inl e ↦ elim s.state [ inl e' ↦ inl (e ∙ e') | inr (n, e') ↦ inr (n, e ∙ e') ]
    | inr (n, e) ↦ elim s.state [ inl e' ↦ inr (naps n e', e) | inr (n', _) ↦ inr (n', e) ]
  ];
  rest = t.rest ∙ ap (moved q2.parent q2.state) s.rest;
}
  where
    parents :
        (b b' : Bool)
        → (b && b') ≡ false
        → q1.parent ≡ (if b && is_parent p q.parent then some init else q.parent)
        → (if b' && is_parent p q1.parent then some init else q1.parent)
          ≡ (if (b || b') && is_parent p q.parent then some init else q.parent)
    parents false b' o e = rw e refl
    parents true false o e = e
    parents true true o e = ground (arith, o)

    naps : naps_on init q1 ≡ true → q1.state ≡ q.state → naps_on init q ≡ true
    naps n e = rw (← e, ← ap (λ r. r.chan) s.rest) n

Adopted-weaken :
    {p init : ℕ} (b : Bool) {q q1 q2 : Proc}
    → Adopted p init b q q1
    → Adopted p init false q1 q2
    → Adopted p init b q q2
Adopted-weaken true s t = Adopted-trans refl s t
Adopted-weaken false s t = Adopted-trans refl s t

Adopted-woken :
    (me p init j : ℕ) (b : Bool) (q q' : Proc)
    → q' ≡ (if b then woken me (proc_chan init) j q else q)
    → Adopted p init false q q'
Adopted-woken me p init j false q q' e =
    rw e (record { parent = refl; state = inl refl; rest = refl })
Adopted-woken me p init j true q q' e = elim (Bool-cases (not (j == me) && naps_on init q)) [
  | inl y ↦ rw (e, y) (record { parent = refl; state = inr (ground (arith, y), refl); rest = refl })
  | inr n ↦ rw (e, n) (record { parent = refl; state = inl refl; rest = refl })
]

module _ ⦃l : Layout⦄ where
  open l use {nproc}

  -- One round of the loop.
  reparent_one : ℕ → ℕ → ℕ → M (Unit {0})
  reparent_one me p i = do
    pp ← gets (λ k. k.proc i)
    init ← gets (λ k. k.initproc)
    when (is_parent p pp.parent)
        (do modify_proc i (λ q. record q { parent = some init }); wakeup me (proc_chan init))

  Each : ℕ → (ℕ → Bool) → Kernel → Kernel → Type 0
  Each p here k k' =
      ((j : ℕ) → Adopted p k.initproc (here j) (k.proc j) (k'.proc j)) × SameRest k k'

  abbrev given : ℕ → Kernel → Kernel
  given i k = record k {
    proc = λ j. if i == j then record (k.proc i) { parent = some k.initproc } else k.proc j;
  }

  given-Adopted :
      (p i j : ℕ) (k : Kernel)
      → is_parent p (k.proc i).parent ≡ true
      → Adopted p k.initproc (i == j) (k.proc j) ((given i k).proc j)
  given-Adopted p i j k y = elim (Bool-cases (i == j)) [
    | inl e ↦ rw (e, ← ==→eq i j e) (record { parent = rw y refl; state = inl refl; rest = refl })
    | inr n ↦ rw n (record { parent = refl; state = inl refl; rest = refl })
  ]

  reparent_one-Each :
      (me p i : ℕ) (k : Kernel)
      → Returns (λ _ k'. Each p (λ j. i == j) k k') (reparent_one me p i k)
  unfolding Each reparent_one
  reparent_one-Each me p i k = elim (Bool-cases (is_parent p (k.proc i).parent)) [
    | inl y ↦ rw y (
        Returns.weaken (wakeup-Woken me (proc_chan k.initproc) (given i k)) (λ _ k' (each, r). (
          (λ j.
              Adopted-weaken (i == j) (given-Adopted p i j k y)
                (Adopted-woken me p _ j _ _ _ (each j))),
          record { mem = r.mem; freelist = r.freelist; nextpid = r.nextpid; initproc = r.initproc },
        )))
    | inr n ↦ rw n (
        returns (
          (λ j. passed j n),
          record { mem = refl; freelist = refl; nextpid = refl; initproc = refl },
        ))
  ]
    where
      passed :
          (j : ℕ)
          → is_parent p (k.proc i).parent ≡ false
          → Adopted p k.initproc (i == j) (k.proc j) (k.proc j)
      passed j n = elim (Bool-cases (i == j)) [
        | inl e ↦
            rw (e, ← ==→eq i j e) (record { parent = rw n refl; state = inl refl; rest = refl })
        | inr e ↦ rw e (record { parent = refl; state = inl refl; rest = refl })
      ]

  once : (i j n : ℕ) → ((i == j) && (leb (i + 1) j && ltb j (i + 1 + n))) ≡ false
  once i j n = ground arith

  covers :
      (i j n : ℕ)
      → ((i == j) || (leb (i + 1) j && ltb j (i + 1 + n))) ≡ (leb i j && ltb j (i + suc n))
  covers i j n = ground arith

  none_here : (i j : ℕ) → (leb i j && ltb j (i + 0)) ≡ false
  none_here i j = ground arith

  reparent_from-Each :
      (me p n i : ℕ) (k : Kernel)
      → Returns (λ _ k'. Each p (λ j. leb i j && ltb j (i + n)) k k') (reparent_from me p n i k)
  unfolding Each reparent_from reparent_one
  reparent_from-Each me p zero i k = returns (
    (λ j. rw (none_here i j) (record { parent = refl; state = inl refl; rest = refl })),
    record { mem = refl; freelist = refl; nextpid = refl; initproc = refl },
  )
  reparent_from-Each me p (suc n) i k = Returns.bind (reparent_one-Each me p i k) (λ _ k1 (one, r1).
      Returns.weaken (reparent_from-Each me p n (i + 1) k1) (λ _ k2 (later, r2). (
        (λ j.
            rw (← covers i j n)
              (Adopted-trans (once i j n) (one j) (rw (← r1.initproc) (later j)))),
        record {
          mem = r2.mem ∙ r1.mem;
          freelist = r2.freelist ∙ r1.freelist;
          nextpid = r2.nextpid ∙ r1.nextpid;
          initproc = r2.initproc ∙ r1.initproc;
        },
      )))

  -- After reparent every process of the table whose parent was p has init for its parent, and every
  -- other process the parent that it had; of the other fields only the state of a process that
  -- sleeps on init's struct may have changed, to runnable; memory, the free list, the pid counter
  -- and initproc are as before.
  pub reparent-Adopted :
      (me p : ℕ) (k : Kernel)
      → Returns
          (λ _ k'.
            ((j : ℕ) → Adopted p k.initproc (ltb j nproc) (k.proc j) (k'.proc j))
            × (k'.mem ≡ k.mem)
            × (k'.freelist ≡ k.freelist)
            × (k'.nextpid ≡ k.nextpid)
            × (k'.initproc ≡ k.initproc))
          (reparent me p k)
  unfolding reparent Each
  reparent-Adopted me p k = Returns.weaken (reparent_from-Each me p nproc 0 k) (λ _ k' (each, r).
      ((λ j. rw (← from_zero j) (each j)), r.mem, r.freelist, r.nextpid, r.initproc))
    where
      from_zero : (j : ℕ) → (leb 0 j && ltb j (0 + nproc)) ≡ ltb j nproc
      from_zero j = ground arith
