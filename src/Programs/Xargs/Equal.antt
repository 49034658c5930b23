-- ===== src/Programs/Xargs/Equal.antt =====
-- xargs runs the commands of the reference.
use learning_mits.Base.{
  subst, ℕ, ◌+◌, ◌<◌, ◌≡◌, ◌≢◌, refl, ap, sym, ◌∙◌, arith, inl, inr, Option, some, none, List, [],
  ◌∷◌, ◌++◌, length, length-append, append-nil, append_assoc, All, true, false, ◌==◌, ltb,
  Bool-cases,
}
use learning_mits.Layout.{Layout}
use learning_mits.Programs.Xargs.{
  State, argv_words, take_newline, take_space, take_other, take_char, take_chars, take_reads, start,
  xargs, ◌>>=◌,
}
use learning_mits.Programs.Xargs.Reference.{
  pieces, words, lines, commands, resumed, resumed-start, resumed-letter, resumed-space,
  resumed-end, piece_ends, piece_grows,
}
use learning_mits.Programs.Xargs.Words.{Held.nil}
use learning_mits.Programs.Xargs.Steps
use learning_mits.Programs.Xargs.Steps.{Reading}

-- All the bytes that the reads answer.
abbrev pub concat : List (List ℕ) → List ℕ
concat [] = []
concat (buf ∷ reads) = buf ++ concat reads

module _ {A B : Type 0} where
  bind-same : (o : Option A) {f g : A → Option B} → ((a : A) → f a ≡ g a) → (o >>= f) ≡ (o >>= g)
  bind-same none e = refl
  bind-same (some a) e = e a

  bind_assoc :
      {C : Type 0} (o : Option A) (f : A → Option B) (g : B → Option C)
      → (o >>= λ a. f a >>= g) ≡ ((o >>= f) >>= g)
  bind_assoc none f g = refl
  bind_assoc (some a) f g = refl

module _ ⦃lay : Layout⦄ (argv : List (List ℕ)) where
  open lay use {maxarg}

  -- The line fits into the buffer, and its words into `args` with the null pointer behind them.
  abbrev pub Fits : List ℕ → Type 0
  Fits line = (length line < 512) × (length argv + length (words line) < maxarg)

  -- What is left of a line fits.
  abbrev Room : ℕ → ℕ → List ℕ → Type 0
  Room len n l = (len + length l < 512) × (length argv + n + length (words l) < maxarg)

  abbrev RoomIn : ℕ → ℕ → List ℕ × List (List ℕ) → Type 0
  RoomIn len n q = Room len n q.0 × All Fits q.1

  abbrev Ran : List ℕ → List (List ℕ) → List ℕ → State → Type 0
  Ran cs ds w st =
      (st' : State) × (take_chars argv cs st ≡ some st')
      × (st'.ran ≡ st.ran ++ resumed argv ds w (pieces b'\n' cs).0 (pieces b'\n' cs).1)

  take_char_newline :
      (c : ℕ) (st : State) → (c == b'\n') ≡ true → take_char argv c st ≡ take_newline argv st
  unfolding take_char
  take_char_newline c st e = rw e refl

  take_char_space :
      (c : ℕ) (st : State)
      → (c == b'\n') ≡ false
      → (c == b' ') ≡ true
      → take_char argv c st ≡ take_space argv st
  unfolding take_char
  take_char_space c st e f = rw e (rw f refl)

  take_char_other :
      (c : ℕ) (st : State)
      → (c == b'\n') ≡ false
      → (c == b' ') ≡ false
      → take_char argv c st ≡ take_other argv c st
  unfolding take_char
  take_char_other c st e f = rw e (rw f refl)

  -- A character that adds the commands `xs`, and then the others.
  continued :
      (c : ℕ) (cs : List ℕ) (st st1 : State) (ds ds1 : List (List ℕ)) (w w1 : List ℕ)
      (xs : List (List (List ℕ))) (q : List ℕ × List (List ℕ))
      → pieces b'\n' (c ∷ cs) ≡ q
      → take_char argv c st ≡ some st1
      → st1.ran ≡ st.ran ++ xs
      → resumed argv ds w q.0 q.1
        ≡ xs ++ resumed argv ds1 w1 (pieces b'\n' cs).0 (pieces b'\n' cs).1
      → Ran cs ds1 w1 st1
      → Ran (c ∷ cs) ds w st
  unfolding take_chars
  continued c cs st st1 ds ds1 w w1 xs q cut step ran rest (st', e, ran') = (
    st',
    ap (λ o. o >>= λ s. take_chars argv cs s) step ∙ e,
    ran'
        ∙ ap (λ (x : List (List (List ℕ))). x ++ left) ran
        ∙ append_assoc st.ran xs left
        ∙ ap (λ (x : List (List (List ℕ))). st.ran ++ x)
            (sym rest ∙ ap (λ (p : List ℕ × List (List ℕ)). resumed argv ds w p.0 p.1) (sym cut)),
  )
    where
      left : List (List (List ℕ))
      left = resumed argv ds1 w1 (pieces b'\n' cs).0 (pieces b'\n' cs).1

  simulated :
      (cs : List ℕ) (st : State) (ds : List (List ℕ)) (w : List ℕ)
      → Reading argv ds w st
      → All (λ c. c ≢ 0) cs
      → RoomIn st.len (length ds) (pieces b'\n' cs)
      → Ran cs ds w st
  unfolding take_chars
  simulated [] st ds w r nz room = (st, refl, sym (append-nil st.ran))
  simulated (c ∷ cs) st ds w r (c≢0, nz) room = elim (Bool-cases (c == b'\n')) [
    | inl nl ↦
        let cut = piece_ends b'\n' c cs nl in
        let (now, later) = subst (RoomIn st.len (length ds)) cut room in
        let (st1, step, ran, r1, at_start) =
          Steps.newline argv ds w st r (omega (arith, now)) (omega (arith, now)) in
        continued c cs st st1 ds [] w [] _ _ cut (take_char_newline c st nl ∙ step) ran
          (resumed-end argv ds w _ _)
          (simulated cs st1 [] [] r1 nz
            ((omega (arith, at_start, later.0), omega (arith, later.0)), later.1))
    | inr no_nl ↦
        let cut = piece_grows b'\n' c cs no_nl in
        let (now, later) = subst (RoomIn st.len (length ds)) cut room in
        elim (Bool-cases (c == b' ')) [
          | inl sp ↦
              let n =
                ap (λ (q : List ℕ × List (List ℕ)). length q.1)
                  (piece_ends b' ' c (pieces b'\n' cs).0 sp) in
              let (st1, step, ran, r1, more) =
                Steps.space argv ds w st r (omega (arith, now)) (omega (arith, now)) in
              continued c cs st st1 ds (ds ++ (w ∷ [])) w [] [] _ cut
                (take_char_space c st no_nl sp ∙ step) (ran ∙ sym (append-nil _))
                (resumed-space argv ds w c (pieces b'\n' cs).0 _ sp)
                (simulated cs st1 (ds ++ (w ∷ [])) [] r1 nz (
                  (omega (arith, more, now), omega (arith, n, now, length-append ds (w ∷ []))),
                  later,
                ))
          | inr no_sp ↦
              let n =
                ap (λ (q : List ℕ × List (List ℕ)). length q.1)
                  (piece_grows b' ' c (pieces b'\n' cs).0 no_sp) in
              let (st1, step, ran, r1, more) =
                Steps.other argv ds w st r c c≢0 (omega (arith, now)) in
              continued c cs st st1 ds ds w (w ++ (c ∷ [])) [] _ cut
                (take_char_other c st no_nl no_sp ∙ step) (ran ∙ sym (append-nil _))
                (resumed-letter argv ds w c (pieces b'\n' cs).0 _ no_sp)
                (simulated cs st1 ds (w ++ (c ∷ [])) r1 nz
                  ((omega (arith, more, now), omega (arith, n, now)), later))
        ]
  ]

  -- The input comes in one piece as well as in many.
  take_chars-append :
      (front bs : List ℕ) (st : State)
      → take_chars argv (front ++ bs) st ≡ (take_chars argv front st >>= λ s. take_chars argv bs s)
  unfolding take_chars
  take_chars-append [] bs st = refl
  take_chars-append (c ∷ front) bs st =
      bind-same (take_char argv c st) (λ s. take_chars-append front bs s)
      ∙ bind_assoc (take_char argv c st) (take_chars argv front) (take_chars argv bs)

  take_reads-concat :
      (reads : List (List ℕ)) (st : State)
      → take_reads argv reads st ≡ take_chars argv (concat reads) st
  unfolding take_reads take_chars
  take_reads-concat [] st = refl
  take_reads-concat (buf ∷ reads) st =
      bind-same (take_chars argv buf st) (λ s. take_reads-concat reads s)
      ∙ sym (take_chars-append buf (concat reads) st)

  -- When no byte of the input is 0 and each of its lines, the unfinished one at its end too, has
  -- fewer than 512 characters and no more words than args has places for behind the arguments of
  -- xargs and before the null pointer, then xargs writes within its arrays and runs, in order, one
  -- command for each line that ends with a newline: its own arguments and the words of the line,
  -- which single spaces separate. How the input is cut into reads makes no difference.
  pub xargs-commands :
      (token : ℕ → ℕ) (reads : List (List ℕ))
      → All (λ c. c ≢ 0) (concat reads)
      → Fits (pieces b'\n' (concat reads)).0
      → All Fits (pieces b'\n' (concat reads)).1
      → xargs argv token reads ≡ some (commands argv (lines (concat reads)))
  unfolding xargs
  xargs-commands token reads nz fits others =
      let (st, run, ran) =
        simulated (concat reads) (start argv token) [] [] initial nz
          ((omega (arith, fits), omega (arith, fits)), others) in
      rw (few (length argv) (omega (arith, fits))) (
        ap (λ o. o >>= λ (s : State). some s.ran) (take_reads-concat reads (start argv token) ∙ run)
        ∙ ap some (
            ran
            ∙ resumed-start argv (pieces b'\n' (concat reads)).0 (pieces b'\n' (concat reads)).1))
    where
      initial : Reading argv [] [] (start argv token)
      initial = record {
        os = [];
        args_are = sym (append-nil (argv_words argv));
        held = nil;
        letters = tt;
        len_is = refl;
      }

      few : (n : ℕ) → n < maxarg → ltb maxarg n ≡ false
      few n h = ground arith
