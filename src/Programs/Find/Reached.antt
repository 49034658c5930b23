-- ===== src/Programs/Find/Reached.antt =====
-- The files that find reaches, and what each kind of file gives.
use learning_mits.Base.{
  subst, ℕ, ◌+◌, ◌≡◌, refl, ap, sym, ◌∙◌, ◌↔◌, ◌≢◌, inl, inr, true, false, Option, some, List, [],
  ◌∷◌, ◌++◌, ltb, length,
}
use learning_mits.Programs.Find.{
  FileType, t_dir, t_file, Dirent, Disk, Line, found, path_too_long, fmtname, same_string,
}
use learning_mits.Programs.Find.Strings.{Among, same_string_eq, same_string_refl, Enters}

module _ (disk : Disk) where
  open disk use {open_type, stat, entries, dirsiz}

  -- find goes from `path` on to the file `p`: through directories whose path leaves room for a name
  -- in `buf`, and entries that are in use, that stat finds, and that are neither . nor ..
  pub data Reaches : List ℕ → List ℕ → Type 0 where
    at_file : {path : List ℕ} → open_type path ≡ some t_file → Reaches path path
    below :
        {path p : List ℕ} (de : Dirent)
        → open_type path ≡ some t_dir
        → ltb 512 (length path + 1 + dirsiz + 1) ≡ false
        → Among de (entries path)
        → Enters de.inum
            (stat ((path ++ (b'/' ∷ [])) ++ de.name))
            ((path ++ (b'/' ∷ [])) ++ de.name)
        → Reaches ((path ++ (b'/' ∷ [])) ++ de.name) p
        → Reaches path p

  module _ (target : List ℕ) where
    -- The output is that of a search from `path`.
    abbrev pub Lists : List ℕ → List Line → Type 0
    Lists path out = (p : List ℕ) → Among (found p) out ↔ (Reaches path p × (fmtname p ≡ target))

    -- Below one of the entries.
    abbrev pub Within : List ℕ → List Dirent → List ℕ → Type 0
    Within prefix des p =
        (de : Dirent) × Among de des
        × Enters de.inum (stat (prefix ++ de.name)) (prefix ++ de.name)
        × Reaches (prefix ++ de.name) p
        × (fmtname p ≡ target)

    -- The last step of a search, from what `path` is.
    to_file : (path p : List ℕ) → open_type path ≡ some t_file → Reaches path p → path ≡ p
    to_file path p is_file (at_file _) = refl
    to_file path p is_file (below de is_dir _ _ _ _) = absurd (cc (is_file, is_dir))

    to_entry :
        (path p : List ℕ)
        → open_type path ≡ some t_dir
        → Reaches path p
        → fmtname p ≡ target
        → Within (path ++ (b'/' ∷ [])) (entries path) p
          × (ltb 512 (length path + 1 + dirsiz + 1) ≡ false)
    to_entry path p is_dir (at_file is_file) name = absurd (cc (is_file, is_dir))
    to_entry path p is_dir (below de _ room among go reach) name =
        ((de, among, go, reach, name), room)

    nowhere :
        (path p : List ℕ) (o : Option FileType)
        → open_type path ≡ o
        → o ≢ some t_file
        → o ≢ some t_dir
        → Reaches path p
        → ⊥
    nowhere path p o e no_file no_dir (at_file h) = no_file (sym e ∙ h)
    nowhere path p o e no_file no_dir (below de h _ _ _ _) = no_dir (sym e ∙ h)

    -- What a file gives, and what is neither file nor directory.
    pub file_Lists :
        (path : List ℕ)
        → open_type path ≡ some t_file
        → same_string (fmtname path) target ≡ true
        → Lists path (found path ∷ [])
    file_Lists path is_file named p = (
      (λ h. elim h [
        | inl e ↦
            let same = found_path path p e in
            (
              subst (λ (x : List ℕ). Reaches path x) same (at_file is_file),
              ap fmtname (sym same) ∙ same_string_eq (fmtname path) target named,
            )
        | inr nothing ↦ elim nothing [ ]
      ]),
      (λ (reach, name). inl (ap found (to_file path p is_file reach))),
    )
      where
        found_path : (path p : List ℕ) → found path ≡ found p → path ≡ p
        found_path path p e = cc e

    pub other_file_Lists :
        (path : List ℕ)
        → open_type path ≡ some t_file
        → same_string (fmtname path) target ≡ false
        → Lists path []
    other_file_Lists path is_file unnamed p = (
      (λ h. elim h [ ]),
      (λ (reach, name). absurd (
          cc (ap fmtname (to_file path p is_file reach) ∙ name, unnamed, same_string_refl target))),
    )

    pub empty_Lists :
        (path : List ℕ) (o : Option FileType)
        → open_type path ≡ o
        → o ≢ some t_file
        → o ≢ some t_dir
        → Lists path []
    empty_Lists path o e no_file no_dir p =
        ((λ h. elim h [ ]), (λ (reach, name). nowhere path p o e no_file no_dir reach))

    pub long_Lists :
        (path : List ℕ)
        → open_type path ≡ some t_dir
        → ltb 512 (length path + 1 + dirsiz + 1) ≡ true
        → Lists path (path_too_long ∷ [])
    long_Lists path is_dir long p = (
      (λ h. elim h [ inl e ↦ absurd (cc e) | inr nothing ↦ elim nothing [ ] ]),
      (λ (reach, name). absurd (cc ((to_entry path p is_dir reach name).1, long))),
    )

    pub dir_Lists :
        (path : List ℕ) (out : List Line)
        → open_type path ≡ some t_dir
        → ltb 512 (length path + 1 + dirsiz + 1) ≡ false
        → ((p : List ℕ) → Among (found p) out ↔ Within (path ++ (b'/' ∷ [])) (entries path) p)
        → Lists path out
    dir_Lists path out is_dir room spec p = (
      (λ h.
          let (de, among, go, reach, name) = (spec p).0 h in
          (below de is_dir room among go reach, name)),
      (λ (reach, name). (spec p).1 (to_entry path p is_dir reach name).0),
    )
