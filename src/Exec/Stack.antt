-- ===== src/Exec/Stack.antt =====
-- The stack that exec builds for a program, as user code sees it.
use learning_mits.Base.{
  subst, ℕ, ◌+◌, ◌*◌, ◌%◌, ◌^◌, ◌≤◌, ◌<◌, ◌≡◌, refl, ap, inl, inr, Option, none, some, List, [],
  ◌∷◌, ◌++◌, arith, sym, ◌∙◌, append-nil, append_assoc, ltb, leb, ltb→le, leb→gt, Bool-cases,
  length, length-append, All,
}
use learning_mits.Kernel.{Kernel}
use learning_mits.Kernel.Memory.{Memory}
use learning_mits.Kernel.Ensures
use learning_mits.Kernel.Ensures.{Ensures, ensured}
use learning_mits.Layout.{Layout}
use learning_mits.Vm.Copy.Seen.{user_read}
use learning_mits.Vm.Copy.Writes.{OffTables, Stable}
use learning_mits.Vm.Copy.RoundTrip.{Unshared}
use learning_mits.Vm.Copy.Sent.{Changed, user_read-Changed, copyout-Sent}
use learning_mits.Exec.{push, push_args, ustack_bytes, build_stack}
use learning_mits.Exec.Pushed.{
  Pushed, cons, nil, length-Pushed, IsArgument, All-append, ustack_bytes-small, length-ustack_bytes,
  push_bounds, Pushed-Changed, Words, ustack_bytes-Words, Pushed-below,
}
use learning_mits.Exec.Total.{build_stack-Total}
use learning_mits.Kernel.Ends.{Ends}

-- `m` maps the stack page, which lies from `base` up to `top`.
module _ (m : Memory) (pt base top : ℕ) (apart : OffTables m pt base top)
    (unshared : Unshared m pt base top) where
  module _ ⦃l : Layout⦄ where
    open l use {maxarg}

    -- What the loop answers.
    abbrev PushedArgs : ℕ → List ℕ → List (List ℕ) → Kernel → Option (ℕ × List ℕ) → Kernel → Type 0
    PushedArgs sp us argv k none k' = Unit
    PushedArgs sp us argv k (some (q, ps)) k' =
        (new : List ℕ) × (ps ≡ us ++ new)
        × Pushed k'.mem pt base sp argv new q
        × (length ps ≤ maxarg)
        × (base ≤ q)
        × (q ≤ sp)
        × Stable m pt base top k'.mem
        × Changed m pt base sp k.mem k'.mem

    -- One string more.
    grown :
        (sp p : ℕ) (us s : List ℕ) (argv : List (List ℕ)) (k k1 : Kernel) (r : Option (ℕ × List ℕ))
        (k' : Kernel)
        → base ≤ p
        → p % 16 ≡ 0
        → p + (length s + 1) ≤ sp
        → sp ≤ top
        → Stable m pt base top k1.mem
        → Changed m pt p sp k.mem k1.mem
        → user_read k1.mem pt p (length s + 1) ≡ some (s ++ (0 ∷ []))
        → PushedArgs p (us ++ (p ∷ [])) argv k1 r k'
        → PushedArgs sp us (s ∷ argv) k r k'
    grown sp p us s argv k k1 none k' above al below high s1 ch seen h = tt
    grown sp p us s argv k k1 (some (q, ps)) k' above al below high s1 ch seen
          (new, e, strings, room, low, under, s2, ch2) =
        (
          p ∷ new,
          e ∙ append_assoc us (p ∷ []) new,
          cons above al (omega arith)
              (user_read-Changed m pt base top apart unshared (length s + 1) p base p k1.mem k'.mem
                  s1 s2 ch2 (omega arith) (omega arith) above (omega arith)
                ∙ seen)
              strings,
          room,
          low,
          omega arith,
          s2,
          λ a off.
              ch2 a (λ u lu hu. off u lu (omega arith)) ∙ ch a (λ u lu hu. off u (omega arith) hu),
        )

    push_args-Pushed :
        (sp : ℕ) (us : List ℕ) (argv : List (List ℕ)) (k : Kernel)
        → base ≤ sp
        → 4096 ≤ base
        → sp ≤ top
        → top < 2 ^ 64
        → All IsArgument argv
        → length us ≤ maxarg
        → Stable m pt base top k.mem
        → Ensures (PushedArgs sp us argv k) (push_args pt base sp us argv k)
    unfolding push_args
    push_args-Pushed sp us [] k lo big high w short few st =
        ensured ([], sym (append-nil us), nil, few, lo, omega arith, st, λ a off. refl)
    push_args-Pushed sp us (s ∷ argv) k lo big high w ((h, bytes), short) few st =
        elim (Bool-cases (leb maxarg (length us))) [
          | inl full ↦ rw full (ensured tt)
          | inr room ↦ rw room (elim (Bool-cases (ltb p base)) [
            | inl low ↦ rw low (ensured tt)
            | inr above ↦ rw above (
                Ensures.bind_status _
                  (copyout-Sent m pt base top apart unshared (s ++ (0 ∷ [])) p k (ltb→le _ _ above)
                    (omega (arith, len, below)) (All-append s (0 ∷ []) bytes (omega arith, tt)) st)
                  (λ k1 (st1, ch, seen).
                    Ensures.weaken
                      (push_args-Pushed p (us ++ (p ∷ [])) argv k1 (ltb→le _ _ above) big
                        (omega (arith, below)) w short
                        (omega (arith, leb→gt _ _ room, length-append us (p ∷ []))) st1)
                      (λ r k'.
                        grown sp p us s argv k k1 r k' (ltb→le _ _ above) aligned below high st1
                          (λ a off. ch a (λ u lu hu. off u lu (omega (arith, len, below))))
                          (ap (user_read k1.mem pt p) (sym len) ∙ seen)))
                  (λ k' _. ensured tt))
          ])
        ]
      where
        p : ℕ
        p = push sp (length s + 1)

        len : length (s ++ (0 ∷ [])) ≡ length s + 1
        len = length-append s (0 ∷ [])

        aligned : p % 16 ≡ 0
        aligned = (push_bounds base sp (length s + 1) lo big (omega arith) (omega arith)).0

        below : p + (length s + 1) ≤ sp
        below = (push_bounds base sp (length s + 1) lo big (omega arith) (omega arith)).1

-- What build_stack answers for a page table that `m` describes, started in `k`: the strings, and
-- below them at `q` the array of their addresses and a 0, as user code sees them.
abbrev pub Built :
    ⦃l : Layout⦄ → ℕ → ℕ → ℕ → List (List ℕ) → Kernel → Option (ℕ × ℕ) → Kernel → Type 0
Built pt base sp argv k none k' = Unit
Built ⦃l⦄ pt base sp argv k (some (q, argc)) k' =
    (ps : List ℕ) × (r : ℕ) × Pushed k'.mem pt base sp argv ps r
    × ((bs : List ℕ) × (user_read k'.mem pt q ((length argv + 1) * 8) ≡ some bs)
        × Words (ps ++ (0 ∷ [])) bs)
    × (q % 16 ≡ 0)
    × (base ≤ q)
    × (q + (length argv + 1) * 8 ≤ r)
    × (argc ≡ length argv)
    × (argc < l.maxarg)
    × Changed k.mem pt base sp k.mem k'.mem

module _ ⦃l : Layout⦄ where
  open l use {maxarg}

  module _ (pt base sp : ℕ) (argv : List (List ℕ)) (k : Kernel) (apart : OffTables k.mem pt base sp)
      (unshared : Unshared k.mem pt base sp) where
    built :
        base ≤ sp
        → 4096 ≤ base
        → sp < 2 ^ 64
        → All IsArgument argv
        → maxarg < 511
        → Ensures (Built pt base sp argv k) (build_stack pt base sp argv k)
    unfolding build_stack
    built lo big w short room =
        Ensures.bind_option _
          (push_args-Pushed k.mem pt base sp apart unshared sp [] argv k lo big (omega arith) w
            short (omega arith) (λ v l h. (refl, (refl, (refl, tt)))))
          (λ k1 _. ensured tt)
          (λ (q, ps) k1 (new, e, strings, few, low, high, st, ch).
            let n : length ps ≡ length argv = ap length e ∙ length-Pushed strings in
            let len : length (ustack_bytes ps) ≡ (length ps + 1) * 8 = length-ustack_bytes ps in
            elim (Bool-cases (leb maxarg (length ps))) [
              | inl over ↦ rw over (Ensures.panicked _)
              | inr left ↦ rw left (elim (Bool-cases (ltb (push q ((length ps + 1) * 8)) base)) [
                | inl under ↦ rw under (ensured tt)
                | inr fits ↦ rw fits (
                    let (al, below) =
                      push_bounds base q ((length ps + 1) * 8) low big (omega arith)
                        (omega arith) in
                    Ensures.bind_status _
                      (copyout-Sent k.mem pt base sp apart unshared (ustack_bytes ps)
                        (push q ((length ps + 1) * 8)) k1 (ltb→le _ _ fits)
                        (omega (arith, len, below)) (ustack_bytes-small ps) st)
                      (λ k2 (st2, ch2, seen). ensured (
                        ps,
                        q,
                        rw e (
                            Pushed-Changed k.mem pt base sp apart unshared st st2 ch2
                              (ltb→le _ _ fits) (omega (arith, len, below)) (omega arith) strings),
                        (
                          ustack_bytes ps,
                          ap (user_read k2.mem pt (push q ((length ps + 1) * 8)))
                                (omega (arith, len, n))
                              ∙ seen,
                          ustack_bytes-Words ps
                              (subst (All (λ p. p < 2 ^ 64)) (sym e) (Pushed-below strings w)),
                        ),
                        al,
                        ltb→le _ _ fits,
                        omega (arith, n, below),
                        n,
                        leb→gt _ _ left,
                        λ a off.
                            ch2 a (λ u lu hu.
                              off u (omega (arith, ltb→le _ _ fits)) (omega (arith, len, below)))
                            ∙ ch a off,
                      ))
                      (λ k2 _. ensured tt))
              ])
            ])

    -- For strings of bytes that are shorter than a page, a stack page that starts at 4096 or above,
    -- no byte of which stands in the page-table entries for it or twice in physical memory, and room
    -- for fewer than 511 arguments: exec's pushing of the arguments ends or panics, and when it
    -- succeeds, user code reads the strings, each with a 0 behind it, in the stack page at multiples
    -- of 16, one below the other without overlap; below them, at a multiple of 16 in the same page,
    -- it reads the array of their addresses with a 0 behind them, each in 8 bytes, the lowest first; argc is
    -- their number and less than MAXARG; and physical memory changes in the stack page alone.
    pub build_stack-Built :
        base ≤ sp
        → 4096 ≤ base
        → sp < 2 ^ 64
        → All IsArgument argv
        → maxarg < 511
        → Ends (build_stack pt base sp argv k)
          × Ensures (Built pt base sp argv k) (build_stack pt base sp argv k)
    build_stack-Built lo big w short room =
        ((build_stack-Total pt base sp argv).ends k, built lo big w short room)
