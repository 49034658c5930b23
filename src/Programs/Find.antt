-- ===== src/Programs/Find.antt =====
-- Lab_util/find.c. The calls of the file system are parameters (`Disk`), and so is DIRSIZ. A string
-- is the list of its bytes up to the '\0'. What find writes to the standard output is the list of
-- its lines; its error messages are left out.
pub mod Names
pub mod Strings
pub mod Reached
pub mod Searched
use learning_mits.Base.{
  ℕ, zero, suc, ◌+◌, ◌-◌, Bool, true, false, not, ◌||◌, Option, none, some, List, [], ◌∷◌, ◌++◌,
  ◌==◌, ltb, leb, if◌then◌else◌, length, drop, get_elem?,
}

pub data FileType : Type 0 where
  t_dir t_file t_device : FileType

pub record Dirent : Type 0 where
  pub inum : ℕ
  pub name : List ℕ

-- open with fstat, stat, and the entries of a directory; `none` is a call that fails. A name that
-- is read from a directory ends at its '\0' or after dirsiz bytes.
pub record Disk : Type 0 where
  pub open_type : List ℕ → Option FileType
  pub stat : List ℕ → Bool
  pub entries : List ℕ → List Dirent
  pub dirsiz : ℕ

-- What find writes to the standard output.
pub data Line : Type 0 where
  found : List ℕ → Line
  path_too_long : Line

-- The place behind the character before `p` if it is a '/'.
abbrev pub behind_slash : Option ℕ → ℕ → ℕ → ℕ
behind_slash none p before = before
behind_slash (some c) p before = if c == b'/' then p else before

-- The loop of fmtname on `p`, the number of characters before it: it stops behind the last '/'.
unfoldable pub after_slash : List ℕ → ℕ → ℕ
after_slash path zero = zero
after_slash path (suc p) =
    let before = after_slash path p in behind_slash (get_elem? path p) (suc p) before

-- The buffer that fmtname answers is filled up with '\0': as a string it is the name.
unfoldable pub fmtname : List ℕ → List ℕ
unfolding after_slash
fmtname path = drop (after_slash path (length path)) path

-- strcmp(s, t) == 0
unfoldable pub same_string : List ℕ → List ℕ → Bool
same_string [] [] = true
same_string [] (d ∷ t) = false
same_string (c ∷ s) [] = false
same_string (c ∷ s) (d ∷ t) = let rest = same_string s t in if c == d then rest else false

abbrev pub dot : List ℕ
dot = b'.' ∷ []

abbrev pub dot_dot : List ℕ
dot_dot = b'.' ∷ b'.' ∷ []

unfoldable pub both : Option (List Line) → Option (List Line) → Option (List Line)
both none o = none
both (some out) none = none
both (some out) (some more) = some (out ++ more)

-- Whether find calls itself on the path of an entry: its inode number and the success of stat.
unfoldable pub goes_on : ℕ → Bool → List ℕ → Bool
unfolding fmtname same_string
goes_on inum stat_ok path =
    if inum == 0
    then false
    else if not stat_ok
    then false
    else not (same_string (fmtname path) dot || same_string (fmtname path) dot_dot)

module _ (disk : Disk) where
  open disk use {open_type, stat, entries, dirsiz}

  -- The loop over the entries of a directory; `prefix` is `buf` up to `p`, and `inside` the call of
  -- find on what is in `buf`. `none` is a search that is deeper than the fuel.
  unfoldable pub find_entries :
      (List ℕ → Option (List Line)) → List ℕ → List Dirent → Option (List Line)
  unfolding goes_on both
  find_entries inside prefix [] = some []
  find_entries inside prefix (de ∷ des) =
      let rest = find_entries inside prefix des in
      if goes_on de.inum (stat (prefix ++ de.name)) (prefix ++ de.name)
      then both (inside (prefix ++ de.name)) rest
      else rest

  -- `buf` has 512 bytes.
  unfoldable pub find : ℕ → List ℕ → List ℕ → Option (List Line)
  unfolding find_entries fmtname same_string
  find zero path target = none
  find (suc f) path target =
      let inside = λ (p : List ℕ). find f p target in
      elim (open_type path) [
        | none ↦ some []
        | some t_file ↦
            if same_string (fmtname path) target then some (found path ∷ []) else some []
        | some t_dir ↦
            if ltb 512 (length path + 1 + dirsiz + 1)
            then some (path_too_long ∷ [])
            else find_entries inside (path ++ (b'/' ∷ [])) (entries path)
        | some t_device ↦ some []
      ]

  -- main with two arguments. Each call is on a path that is longer, and none of 512 bytes or more
  -- has its entries searched.
  unfoldable pub find_main : List ℕ → List ℕ → Option (List Line)
  unfolding find
  find_main path target = find 513 path target
