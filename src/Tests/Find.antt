-- ===== src/Tests/Find.antt =====
-- find on a directory with one file.
use learning_mits.Base.{ℕ, ◌≡◌, true, none, some, List, [], ◌∷◌, if◌then◌else◌}
use learning_mits.Exec.{base_name}
use learning_mits.Programs.Find.{Disk, Line, fmtname, same_string, find_main, t_dir, t_file, dot}
use learning_mits.Programs.Find.Names.{fmtname-base_name}
use learning_mits.Programs.Find.Reached.{Lists}
use learning_mits.Programs.Find.Searched.{find_main-Lists}

abbrev root : List ℕ
root = b'a' ∷ []

-- a/b
abbrev file : List ℕ
file = b'a' ∷ b'/' ∷ b'b' ∷ []

-- The directory a holds itself, the file b and an unused entry.
abbrev small_disk : Disk
unfolding same_string
small_disk = record {
  open_type = λ p.
      if same_string p root then some t_dir else if same_string p file then some t_file else none;
  stat = λ p. true;
  entries = λ p.
      record { inum = 1; name = dot }
      ∷ record { inum = 2; name = b'b' ∷ [] }
      ∷ record { inum = 0; name = b'c' ∷ [] }
      ∷ [];
  dirsiz = 14;
}

find_main-Lists_example :
    (out : List Line) × (find_main small_disk root (b'b' ∷ []) ≡ some out)
    × Lists small_disk (b'b' ∷ []) root out
find_main-Lists_example = find_main-Lists small_disk (b'b' ∷ []) root

fmtname-base_name_example : fmtname file ≡ base_name file file
fmtname-base_name_example = fmtname-base_name file
