-- ===== src/Programs/Xargs.antt =====
-- Lab_util/xargs.c. The buffer `token` is a function from offsets to characters, and `none` a write
-- beyond `token` or `args`. fork, exec and wait are taken to succeed: a command that is run is the
-- name of the program and its arguments.
pub mod Reference
pub mod Words
pub mod Steps
pub mod Equal
use learning_mits.Base.{
  ℕ, zero, suc, ◌+◌, ◌-◌, Bool, true, false, not, Option, none, some, List, [], ◌∷◌, ◌++◌, ◌==◌,
  ltb, leb, if◌then◌else◌, length, update,
}
use learning_mits.Layout.{Layout}

-- An entry of `args`: a string of argv, or a place in `token`.
pub data Word : Type 0 where
  given : List ℕ → Word
  at : ℕ → Word

-- `args` up to `size`; `p` and `len` are offsets in `token`; `ran` are the commands run so far.
pub record State : Type 0 where
  pub args : List Word
  pub token : ℕ → ℕ
  pub p : ℕ
  pub len : ℕ
  pub ran : List (List (List ℕ))

abbrev pub max_buffer_size : ℕ
max_buffer_size = 512

-- The string at an offset, of `f` characters at most.
unfoldable pub string_at : ℕ → (ℕ → ℕ) → ℕ → List ℕ
string_at zero token off = []
string_at (suc f) token off =
    let rest = string_at f token (off + 1) in if token off == 0 then [] else token off ∷ rest

-- The strings that exec finds in `args`.
unfoldable pub strings : (ℕ → ℕ) → List Word → List (List ℕ)
unfolding string_at
strings token [] = []
strings token (given s ∷ ws) = s ∷ strings token ws
strings token (at off ∷ ws) = string_at max_buffer_size token off ∷ strings token ws

abbrev pub argv_words : List (List ℕ) → List Word
argv_words [] = []
argv_words (s ∷ argv) = given s ∷ argv_words argv

infixl 5 ◌>>=◌
abbrev pub ◌>>=◌ : {A B : Type 0} → Option A → (A → Option B) → Option B
none >>= f = none
some a >>= f = f a

module _ ⦃l : Layout⦄ (argv : List (List ℕ)) where
  open l use {maxarg}

  -- The three branches for a character; `argv` are the arguments of xargs from argv[1] on.
  unfoldable pub take_newline : State → Option State
  unfolding strings
  take_newline st =
      if not (ltb st.len max_buffer_size)
      then none
      else if not (ltb (length st.args + 1) maxarg)
      then none
      else (let token = update st.token st.len 0 in
          some record {
            args = argv_words argv;
            token = token;
            p = 0;
            len = 0;
            ran = st.ran ++ (strings token (st.args ++ (at st.p ∷ [])) ∷ []);
          })

  unfoldable pub take_space : State → Option State
  take_space st =
      if not (ltb st.len max_buffer_size)
      then none
      else if not (ltb (length st.args) maxarg)
      then none
      else some record st {
        token = update st.token st.len 0;
        args = st.args ++ (at st.p ∷ []);
        len = st.len + 1;
        p = st.len + 1;
      }

  unfoldable pub take_other : ℕ → State → Option State
  take_other c st =
      if not (ltb st.len max_buffer_size)
      then none
      else some record st { token = update st.token st.len c; len = st.len + 1 }

  unfoldable pub take_char : ℕ → State → Option State
  unfolding take_newline take_space take_other
  take_char c st =
      if c == b'\n' then take_newline st else if c == b' ' then take_space st else take_other c st

  -- The loop over what one read has put into `buf`.
  unfoldable pub take_chars : List ℕ → State → Option State
  unfolding take_char
  take_chars [] st = some st
  take_chars (c ∷ buf) st = do st' ← take_char c st; take_chars buf st'

  -- The loop of reads, each of a byte at least, up to the one that answers 0 or less.
  unfoldable pub take_reads : List (List ℕ) → State → Option State
  unfolding take_chars
  take_reads [] st = some st
  take_reads (buf ∷ reads) st = do st' ← take_chars buf st; take_reads reads st'

  -- `token` is not initialized.
  abbrev pub start : (ℕ → ℕ) → State
  start token = record { args = argv_words argv; token = token; p = 0; len = 0; ran = [] }

  -- The commands that main runs.
  unfoldable pub xargs : (ℕ → ℕ) → List (List ℕ) → Option (List (List (List ℕ)))
  unfolding take_reads
  xargs token reads =
      if ltb maxarg (length argv)
      then none
      else (do st ← take_reads reads (start token); some st.ran)
