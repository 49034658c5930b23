-- ===== src/Tests/Xargs.antt =====
-- xargs on an input that comes in two reads.
use learning_mits.Base.{ℕ, ◌≡◌, some, List, [], ◌∷◌, arith}
use learning_mits.Layout.{qemu}
use learning_mits.Programs.Xargs.{xargs}
use learning_mits.Programs.Xargs.Equal.{xargs-commands}

-- echo
abbrev command : List (List ℕ)
command = (101 ∷ 99 ∷ 104 ∷ 111 ∷ []) ∷ []

-- "a b", and the rest of the line with the beginning of another one
abbrev input : List (List ℕ)
input = (97 ∷ 32 ∷ 98 ∷ []) ∷ (10 ∷ 99 ∷ []) ∷ []

xargs-commands_example :
    xargs command (λ _. 7) input
    ≡ some (((101 ∷ 99 ∷ 104 ∷ 111 ∷ []) ∷ (97 ∷ []) ∷ (98 ∷ []) ∷ []) ∷ [])
xargs-commands_example =
    xargs-commands command (λ _. 7) input
      (
        (λ e. omega arith),
        ((λ e. omega arith), ((λ e. omega arith), ((λ e. omega arith), ((λ e. omega arith), tt)))),
      )
      (omega arith, omega arith) ((omega arith, omega arith), tt)
