-- ===== src/Programs/Xargs/Steps.antt =====
-- The state of xargs within a line, and what a character makes of it.
use learning_mits.Base.{
  ℕ, suc, ◌+◌, ◌<◌, ◌≡◌, ◌≢◌, refl, ap, sym, ◌∙◌, arith, some, List, [], ◌∷◌, ◌++◌, length,
  length-append, append-nil, append_assoc, lt→ltb, update, update-here,
}
use learning_mits.Layout.{Layout}
use learning_mits.Programs.Xargs.{
  State, Word, at, argv_words, strings, take_newline, take_space, take_other,
}
use learning_mits.Programs.Xargs.Words.{
  Chars, Chars-update, Chars-append, Held, Held.nil, Held.cons, Held-update, Held-append, places,
  strings-Held,
}

-- The words `ds` of the line and the letters `w` of the next one are read.
pub record Reading (argv ds : List (List ℕ)) (w : List ℕ) (st : State) : Type 0 where
  pub os : List ℕ
  pub args_are : st.args ≡ argv_words argv ++ places os
  pub held : Held st.token st.p os ds
  pub letters : Chars st.token st.p w
  pub len_is : st.len ≡ st.p + length w

length-argv_words : (argv : List (List ℕ)) → length (argv_words argv) ≡ length argv
length-argv_words [] = refl
length-argv_words (s ∷ argv) = ap suc (length-argv_words argv)

length-Held :
    {token : ℕ → ℕ} {top : ℕ} {os : List ℕ} {ds : List (List ℕ)}
    → Held token top os ds
    → length (places os) ≡ length ds
length-Held nil = refl
length-Held (cons _ _ _ t) = ap suc (length-Held t)

places-append : (os : List ℕ) (o : ℕ) → places (os ++ (o ∷ [])) ≡ places os ++ (at o ∷ [])
places-append [] o = refl
places-append (p ∷ os) o = ap (λ (x : List Word). at p ∷ x) (places-append os o)

module _ (argv ds : List (List ℕ)) (w : List ℕ) (st : State) (r : Reading argv ds w st) where
  length-args : length st.args ≡ length argv + length ds
  length-args =
      ap length r.args_are
      ∙ length-append (argv_words argv) (places r.os)
      ∙ omega (arith, length-argv_words argv, length-Held r.held)

  -- The word that ends here.
  ended_args : st.args ++ (at st.p ∷ []) ≡ argv_words argv ++ places (r.os ++ (st.p ∷ []))
  ended_args = rw r.args_are (
      append_assoc (argv_words argv) (places r.os) (at st.p ∷ [])
      ∙ ap (λ (x : List Word). argv_words argv ++ x) (sym (places-append r.os st.p)))

  ended_Held : Held (update st.token st.len 0) (st.len + 1) (r.os ++ (st.p ∷ [])) (ds ++ (w ∷ []))
  ended_Held =
      Held-append st.p w
        (Held-update st.len 0 (st.len + 1) (omega (arith, r.len_is)) (omega (arith, r.len_is))
          r.held)
        (Chars-update st.token st.len 0 st.p w (omega (arith, r.len_is)) r.letters)
        (rw (← r.len_is) (update-here st.token st.len 0)) (omega (arith, r.len_is))

  module _ ⦃l : Layout⦄ where
    open l use {maxarg}

    pub newline :
        st.len < 512
        → length argv + length ds + 1 < maxarg
        → (st1 : State) × (take_newline argv st ≡ some st1)
          × (st1.ran ≡ st.ran ++ ((argv ++ (ds ++ (w ∷ []))) ∷ []))
          × Reading argv [] [] st1
          × (st1.len ≡ 0)
    unfolding take_newline
    newline short few = (
      next_line,
      rw (lt→ltb st.len 512 short)
          (rw (lt→ltb (length st.args + 1) maxarg (omega (arith, length-args))) refl),
      ap (λ (x : List (List ℕ)). st.ran ++ (x ∷ []))
          (ap (strings (update st.token st.len 0)) ended_args
            ∙ strings-Held argv (omega arith) ended_Held),
      record {
        os = [];
        args_are = sym (append-nil (argv_words argv));
        held = nil;
        letters = tt;
        len_is = refl;
      },
      refl,
    )
      where
        next_line : State
        next_line = record {
          args = argv_words argv;
          token = update st.token st.len 0;
          p = 0;
          len = 0;
          ran = st.ran ++ (strings (update st.token st.len 0) (st.args ++ (at st.p ∷ [])) ∷ []);
        }

    pub space :
        st.len < 512
        → length argv + length ds < maxarg
        → (st1 : State) × (take_space argv st ≡ some st1)
          × (st1.ran ≡ st.ran)
          × Reading argv (ds ++ (w ∷ [])) [] st1
          × (st1.len ≡ st.len + 1)
    unfolding take_space
    space short few = (
      next_word,
      rw (lt→ltb st.len 512 short)
          (rw (lt→ltb (length st.args) maxarg (omega (arith, length-args))) refl),
      refl,
      record {
        os = r.os ++ (st.p ∷ []);
        args_are = ended_args;
        held = ended_Held;
        letters = tt;
        len_is = omega arith;
      },
      refl,
    )
      where
        next_word : State
        next_word = record st {
          token = update st.token st.len 0;
          args = st.args ++ (at st.p ∷ []);
          len = st.len + 1;
          p = st.len + 1;
        }

    pub other :
        (c : ℕ)
        → c ≢ 0
        → st.len < 512
        → (st1 : State) × (take_other argv c st ≡ some st1)
          × (st1.ran ≡ st.ran)
          × Reading argv ds (w ++ (c ∷ [])) st1
          × (st1.len ≡ st.len + 1)
    unfolding take_other
    other c ne short = (
      longer,
      rw (lt→ltb st.len 512 short) refl,
      refl,
      record {
        os = r.os;
        args_are = r.args_are;
        held = Held-update st.len c st.p (omega (arith, r.len_is)) (omega arith) r.held;
        letters = Chars-append st.token st.len st.p c w r.len_is ne r.letters;
        len_is = omega (arith, r.len_is, length-append w (c ∷ []));
      },
      refl,
    )
      where
        longer : State
        longer = record st { token = update st.token st.len c; len = st.len + 1 }
