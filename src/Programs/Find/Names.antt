-- ===== src/Programs/Find/Names.antt =====
-- fmtname of find.c and the loop of exec.c that looks for the last '/'.
use learning_mits.Base.{
  ℕ, zero, suc, ◌≤◌, ◌<◌, ◌≡◌, refl, ap, sym, ◌∙◌, arith, Bool, true, false, some, List, [], ◌∷◌,
  ◌==◌, if◌then◌else◌, length, drop, get_elem?,
}
use learning_mits.Exec.{base_name}
use learning_mits.Programs.Find.{behind_slash, after_slash, fmtname}

drop-get_elem? :
    (s : List ℕ) (n : ℕ)
    → n < length s
    → (c : ℕ) × (get_elem? s n ≡ some c) × (drop n s ≡ c ∷ drop (suc n) s)
drop-get_elem? [] n h = absurd (omega arith)
drop-get_elem? (c ∷ s) zero h = (c, refl, refl)
drop-get_elem? (c ∷ s) (suc n) h = drop-get_elem? s n (omega arith)

drop-length : (s : List ℕ) → drop (length s) s ≡ []
drop-length [] = refl
drop-length (c ∷ s) = drop-length s

drop-choice :
    (b : Bool) (m n : ℕ) (s : List ℕ)
    → drop (if b then m else n) s ≡ (if b then drop m s else drop n s)
drop-choice true m n s = refl
drop-choice false m n s = refl

-- exec's loop goes on from the place that fmtname's loop finds in what is before it.
base_name-drop :
    (path : List ℕ) (n : ℕ)
    → n ≤ length path
    → base_name (drop (after_slash path n) path) (drop n path) ≡ base_name path path
unfolding base_name after_slash
base_name-drop path zero h = refl
base_name-drop path (suc n) h =
    let (c, get, split) = drop-get_elem? path n (omega arith) in
    same c get split ∙ base_name-drop path n (omega arith)
  where
    same :
        (c : ℕ)
        → get_elem? path n ≡ some c
        → drop n path ≡ c ∷ drop (suc n) path
        → base_name (drop (after_slash path (suc n)) path) (drop (suc n) path)
          ≡ base_name (drop (after_slash path n) path) (drop n path)
    same c get split = rw split (
        ap (λ (x : List ℕ). base_name x (drop (suc n) path))
          (ap (λ o. drop (behind_slash o (suc n) (after_slash path n)) path) get
            ∙ drop-choice (c == b'/') (suc n) (after_slash path n) path))

-- fmtname of a path is the last part of the path as exec computes it for a process's name: what
-- follows the last '/', and the whole path if there is none.
pub fmtname-base_name : (path : List ℕ) → fmtname path ≡ base_name path path
unfolding fmtname base_name
fmtname-base_name path =
    sym (
      ap (λ (s : List ℕ). base_name (drop (after_slash path (length path)) path) s)
        (drop-length path))
    ∙ base_name-drop path (length path) (omega arith)
