-- ===== src/Programs/Xargs/Reference.antt =====
-- What xargs is to run: its input cut into lines and the lines into words, as lists.
use learning_mits.Base.{
  ℕ, ◌≡◌, refl, ap, sym, ◌∙◌, true, false, append-nil, append_assoc, List, [], ◌∷◌, ◌++◌, ◌==◌,
  if◌then◌else◌,
}

-- The pieces between separators: the first one and the others. There is one more than separators.
abbrev pub pieces : ℕ → List ℕ → List ℕ × List (List ℕ)
pieces sep [] = ([], [])
pieces sep (c ∷ cs) =
    let rest = pieces sep cs in if c == sep then ([], rest.0 ∷ rest.1) else (c ∷ rest.0, rest.1)

abbrev pub words : List ℕ → List (List ℕ)
words line = (pieces b' ' line).0 ∷ (pieces b' ' line).1

-- The lines that end with a newline: all pieces but the last.
abbrev pub ended : List ℕ → List (List ℕ) → List (List ℕ)
ended line [] = []
ended line (next ∷ lines) = line ∷ ended next lines

abbrev pub lines : List ℕ → List (List ℕ)
lines input = ended (pieces b'\n' input).0 (pieces b'\n' input).1

abbrev pub commands : List (List ℕ) → List (List ℕ) → List (List (List ℕ))
commands argv [] = []
commands argv (line ∷ ls) = (argv ++ words line) ∷ commands argv ls

-- The words of a line whose first word begins with `w`.
abbrev pub behind : List ℕ → List (List ℕ) → List (List ℕ)
behind w [] = []
behind w (x ∷ xs) = (w ++ x) ∷ xs

-- The commands that are left when the words `ds` and the letters `w` of the next one are read: of
-- the rest `l` of the line and the pieces behind it.
abbrev pub resumed :
    List (List ℕ) → List (List ℕ) → List ℕ → List ℕ → List (List ℕ) → List (List (List ℕ))
resumed argv ds w l [] = []
resumed argv ds w l (m ∷ ms) = (argv ++ (ds ++ behind w (words l))) ∷ commands argv (ended m ms)

pub resumed-start :
    (argv : List (List ℕ)) (l : List ℕ) (ls : List (List ℕ))
    → resumed argv [] [] l ls ≡ commands argv (ended l ls)
resumed-start argv l [] = refl
resumed-start argv l (m ∷ ms) = refl

-- How `resumed` goes on at a letter and at a space.
pub resumed-letter :
    (argv ds : List (List ℕ)) (w : List ℕ) (c : ℕ) (l : List ℕ) (ls : List (List ℕ))
    → (c == b' ') ≡ false
    → resumed argv ds w (c ∷ l) ls ≡ resumed argv ds (w ++ (c ∷ [])) l ls
resumed-letter argv ds w c l [] e = refl
resumed-letter argv ds w c l (m ∷ ms) e = rw e (
    ap (λ (x : List ℕ). (argv ++ (ds ++ (x ∷ (pieces b' ' l).1))) ∷ commands argv (ended m ms))
      (sym (append_assoc w (c ∷ []) (pieces b' ' l).0)))

pub resumed-space :
    (argv ds : List (List ℕ)) (w : List ℕ) (c : ℕ) (l : List ℕ) (ls : List (List ℕ))
    → (c == b' ') ≡ true
    → resumed argv ds w (c ∷ l) ls ≡ resumed argv (ds ++ (w ∷ [])) [] l ls
resumed-space argv ds w c l [] e = refl
resumed-space argv ds w c l (m ∷ ms) e = rw e (
    ap (λ (x : List (List ℕ)). (argv ++ x) ∷ commands argv (ended m ms))
      (ap (λ (x : List ℕ). ds ++ (x ∷ words l)) (append-nil w)
        ∙ sym (append_assoc ds (w ∷ []) (words l))))

pub resumed-end :
    (argv ds : List (List ℕ)) (w l : List ℕ) (ls : List (List ℕ))
    → resumed argv ds w [] (l ∷ ls) ≡ ((argv ++ (ds ++ (w ∷ []))) ∷ []) ++ resumed argv [] [] l ls
resumed-end argv ds w l ls =
    rw (resumed-start argv l ls)
      (ap (λ (x : List ℕ). (argv ++ (ds ++ (x ∷ []))) ∷ commands argv (ended l ls)) (append-nil w))

pub piece_ends :
    (sep c : ℕ) (cs : List ℕ)
    → (c == sep) ≡ true
    → pieces sep (c ∷ cs) ≡ ([], (pieces sep cs).0 ∷ (pieces sep cs).1)
piece_ends sep c cs e = rw e refl

pub piece_grows :
    (sep c : ℕ) (cs : List ℕ)
    → (c == sep) ≡ false
    → pieces sep (c ∷ cs) ≡ (c ∷ (pieces sep cs).0, (pieces sep cs).1)
piece_grows sep c cs e = rw e refl
