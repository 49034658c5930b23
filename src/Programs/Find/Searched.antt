-- ===== src/Programs/Find/Searched.antt =====
-- What find prints.
use learning_mits.Base.{
  subst, ℕ, zero, suc, ◌+◌, ◌<◌, ◌≡◌, refl, ap, sym, ◌∙◌, ◌↔◌, inl, inr, arith, true, false, Option,
  none, some, List, [], ◌∷◌, ◌++◌, ltb, ltb→le, Bool-cases, if◌then◌else◌, length, length-append,
}
use learning_mits.Programs.Find.{
  FileType, t_dir, t_file, t_device, Dirent, Disk, Line, found, path_too_long, fmtname, same_string,
  both, goes_on, find_entries, find, find_main,
}
use learning_mits.Programs.Find.Strings.{
  Among, Among-left, Among-right, Among-append, goes_on-Enters,
}
use learning_mits.Programs.Find.Reached.{
  Reaches, Lists, Within, file_Lists, other_file_Lists, empty_Lists, long_Lists, dir_Lists,
}

module _ (disk : Disk) (target : List ℕ) where
  open disk use {open_type, stat, entries, dirsiz}

  abbrev Searched : List ℕ → Option (List Line) → Type 0
  Searched path r = (out : List Line) × (r ≡ some out) × Lists disk target path out

  abbrev AllSearched : List ℕ → List Dirent → Option (List Line) → Type 0
  AllSearched prefix des r =
      (out : List Line) × (r ≡ some out)
      × ((p : List ℕ) → Among (found p) out ↔ Within disk target prefix des p)

  later :
      (prefix : List ℕ) (de : Dirent) (des : List Dirent) (p : List ℕ)
      → Within disk target prefix des p
      → Within disk target prefix (de ∷ des) p
  later prefix de des p (d, among, go, reach, name) = (d, inr among, go, reach, name)

  not_first :
      (prefix : List ℕ) (de : Dirent) (des : List Dirent) (p : List ℕ)
      → goes_on de.inum (stat (prefix ++ de.name)) (prefix ++ de.name) ≡ false
      → Within disk target prefix (de ∷ des) p
      → Within disk target prefix des p
  not_first prefix de des p skip (d, inl e, go, reach, name) = absurd (
      cc (
        ap (λ (x : Dirent). goes_on x.inum (stat (prefix ++ x.name)) (prefix ++ x.name)) e,
        (goes_on-Enters d.inum (stat (prefix ++ d.name)) (prefix ++ d.name)).1 go,
        skip,
      ))
  not_first prefix de des p skip (d, inr among, go, reach, name) = (d, among, go, reach, name)

  module _ (prefix : List ℕ) (de : Dirent) (des : List Dirent) (out1 out : List Line)
      (first : Lists disk target (prefix ++ de.name) out1)
      (others : (p : List ℕ) → Among (found p) out ↔ Within disk target prefix des p) where
    joined_sound :
        goes_on de.inum (stat (prefix ++ de.name)) (prefix ++ de.name) ≡ true
        → (p : List ℕ) → Among (found p) (out1 ++ out)
        → Within disk target prefix (de ∷ des) p
    joined_sound enter p h = elim (Among-append (found p) out1 out h) [
      | inl l ↦
          let (reach, name) = (first p).0 l in
          (de, inl refl, (goes_on-Enters _ _ _).0 enter, reach, name)
      | inr r ↦ later prefix de des p ((others p).0 r)
    ]

    joined_complete :
        (p : List ℕ) → Within disk target prefix (de ∷ des) p → Among (found p) (out1 ++ out)
    joined_complete p (d, inl e, go, reach, name) = Among-left (found p) out1 out (
        (first p).1 (subst (λ (x : Dirent). Reaches disk (prefix ++ x.name) p) (sym e) reach, name))
    joined_complete p (d, inr among, go, reach, name) =
        Among-right (found p) out1 out ((others p).1 (d, among, go, reach, name))

  entries-Searched :
      (inside : List ℕ → Option (List Line)) (prefix : List ℕ) (des : List Dirent)
      → ((name : List ℕ) → Searched (prefix ++ name) (inside (prefix ++ name)))
      → AllSearched prefix des (find_entries disk inside prefix des)
  unfolding find_entries both
  entries-Searched inside prefix [] each =
      ([], refl, (λ p. ((λ h. elim h [ ]), (λ (de, h, go, reach, name). elim h [ ]))))
  entries-Searched inside prefix (de ∷ des) each =
      let (out, e, spec) = entries-Searched inside prefix des each in
      elim (Bool-cases (goes_on de.inum (stat (prefix ++ de.name)) (prefix ++ de.name))) [
        | inr skip ↦ rw skip (
          out,
          e,
          (λ p. (
            (λ h. later prefix de des p ((spec p).0 h)),
            (λ w. (spec p).1 (not_first prefix de des p skip w)),
          )),
        )
        | inl enter ↦
            let (out1, e1, spec1) = each de.name in
            rw enter (
              out1 ++ out,
              rw e1 (rw e refl),
              (λ p. (
                joined_sound prefix de des out1 out spec1 spec enter p,
                joined_complete prefix de des out1 out spec1 spec p,
              )),
            )
      ]

  length-inside :
      (path name : List ℕ) → length ((path ++ (b'/' ∷ [])) ++ name) ≡ length path + 1 + length name
  length-inside path name =
      length-append (path ++ (b'/' ∷ [])) name
      ∙ ap (λ (n : ℕ). n + length name) (length-append path (b'/' ∷ []))

  by_type :
      (inside : List ℕ → Option (List Line)) (path : List ℕ) (o : Option FileType)
      → open_type path ≡ o
      → (ltb 512 (length path + 1 + dirsiz + 1) ≡ false
          → (name : List ℕ)
          → Searched ((path ++ (b'/' ∷ [])) ++ name) (inside ((path ++ (b'/' ∷ [])) ++ name)))
      → Searched path (elim o [
        | none ↦ some []
        | some t_file ↦
            if same_string (fmtname path) target then some (found path ∷ []) else some []
        | some t_dir ↦
            if ltb 512 (length path + 1 + dirsiz + 1)
            then some (path_too_long ∷ [])
            else find_entries disk inside (path ++ (b'/' ∷ [])) (entries path)
        | some t_device ↦ some []
      ])
  by_type inside path none e each =
      ([], refl, empty_Lists disk target path none e (λ h. cc h) (λ h. cc h))
  by_type inside path (some t_device) e each =
      ([], refl, empty_Lists disk target path (some t_device) e (λ h. cc h) (λ h. cc h))
  by_type inside path (some t_file) e each = elim (Bool-cases (same_string (fmtname path) target)) [
    | inl named ↦ rw named (found path ∷ [], refl, file_Lists disk target path e named)
    | inr unnamed ↦ rw unnamed ([], refl, other_file_Lists disk target path e unnamed)
  ]
  by_type inside path (some t_dir) e each =
      elim (Bool-cases (ltb 512 (length path + 1 + dirsiz + 1))) [
        | inl long ↦ rw long (path_too_long ∷ [], refl, long_Lists disk target path e long)
        | inr room ↦
            let (out, run, spec) =
              entries-Searched inside (path ++ (b'/' ∷ [])) (entries path) (each room) in
            rw room (out, run, dir_Lists disk target path out e room spec)
      ]

  find-Searched :
      (f : ℕ) (path : List ℕ)
      → 0 < f
      → 512 < f + length path
      → Searched path (find disk f path target)
  unfolding find
  find-Searched zero path pos fuel = absurd (omega arith)
  find-Searched (suc f) path pos fuel =
      by_type (λ p. find disk f p target) path (open_type path) refl
        (λ room name.
          find-Searched f ((path ++ (b'/' ∷ [])) ++ name) (omega (arith, ltb→le _ _ room))
            (omega (arith, length-inside path name)))

  -- find ends, and the paths that it prints are those of the files that it reaches whose last part
  -- is the target: the path itself if it is a file, and what find reaches, through directories
  -- whose path leaves room for an entry in buf, from an entry in use that stat finds and that is
  -- neither . nor ..
  pub find_main-Lists :
      (path : List ℕ)
      → (out : List Line) × (find_main disk path target ≡ some out) × Lists disk target path out
  unfolding find_main
  find_main-Lists path = find-Searched 513 path (omega arith) (omega arith)
