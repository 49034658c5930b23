-- ===== src/Programs/Find/Strings.antt =====
-- Lists and strings of find.
use learning_mits.Base.{
  ℕ, ◌≡◌, refl, ap, sym, ◌∙◌, ◌⊎◌, ◌↔◌, ◌≢◌, inl, inr, Bool, true, false, not, ◌||◌, List, [], ◌∷◌,
  ◌++◌, ◌==◌, Bool-cases, ==→eq, eq→==, ne→==, if◌then◌else◌,
}
use learning_mits.Programs.Find.{fmtname, same_string, dot, dot_dot, goes_on}

abbrev pub Among : {A : Type 0} → A → List A → Type 0
Among x [] = ⊥
Among x (y ∷ ys) = (y ≡ x) ⊎ Among x ys

module _ {A : Type 0} (x : A) where
  pub Among-left : (xs ys : List A) → Among x xs → Among x (xs ++ ys)
  Among-left [] ys h = elim h [ ]
  Among-left (z ∷ xs) ys (inl e) = inl e
  Among-left (z ∷ xs) ys (inr h) = inr (Among-left xs ys h)

  pub Among-right : (xs ys : List A) → Among x ys → Among x (xs ++ ys)
  Among-right [] ys h = h
  Among-right (z ∷ xs) ys h = inr (Among-right xs ys h)

  pub Among-append : (xs ys : List A) → Among x (xs ++ ys) → Among x xs ⊎ Among x ys
  Among-append [] ys h = inr h
  Among-append (z ∷ xs) ys (inl e) = inl (inl e)
  Among-append (z ∷ xs) ys (inr h) = elim (Among-append xs ys h) [
    | inl l ↦ inl (inr l)
    | inr r ↦ inr r
  ]

pub same_string_eq : (s t : List ℕ) → same_string s t ≡ true → s ≡ t
unfolding same_string
same_string_eq [] [] h = refl
same_string_eq [] (d ∷ t) h = absurd (cc h)
same_string_eq (c ∷ s) [] h = absurd (cc h)
same_string_eq (c ∷ s) (d ∷ t) h = elim (Bool-cases (c == d)) [
  | inl e ↦ rw (==→eq c d e) (ap (λ (x : List ℕ). d ∷ x) (same_string_eq s t (sym (chosen e) ∙ h)))
  | inr ne ↦ absurd (cc (unlike ne, h))
]
  where
    chosen : (c == d) ≡ true → (if c == d then same_string s t else false) ≡ same_string s t
    chosen e = rw e refl

    unlike : (c == d) ≡ false → (if c == d then same_string s t else false) ≡ false
    unlike ne = rw ne refl

pub same_string_refl : (s : List ℕ) → same_string s s ≡ true
unfolding same_string
same_string_refl [] = refl
same_string_refl (c ∷ s) = rw (eq→== c c refl) (same_string_refl s)

-- An entry that is in use and that stat finds, and is neither . nor ..
abbrev pub Enters : ℕ → Bool → List ℕ → Type 0
Enters inum stat_ok path =
    (inum ≢ 0) × (stat_ok ≡ true) × (fmtname path ≢ dot) × (fmtname path ≢ dot_dot)

different : (s t : List ℕ) → s ≢ t → same_string s t ≡ false
different s t ne = elim (Bool-cases (same_string s t)) [
  | inl same ↦ absurd (ne (same_string_eq s t same))
  | inr other ↦ other
]

not_equal : (s t : List ℕ) → same_string s t ≡ false → s ≢ t
not_equal s t other e = cc (same_string_refl t, ap (λ x. same_string x t) e, other)

pub goes_on-Enters :
    (inum : ℕ) (stat_ok : Bool) (path : List ℕ)
    → (goes_on inum stat_ok path ≡ true) ↔ Enters inum stat_ok path
unfolding goes_on
goes_on-Enters inum stat_ok path = (
  (λ h.
      let (used, ok, plain) =
        guards (inum == 0) stat_ok (same_string (fmtname path) dot)
          (same_string (fmtname path) dot_dot) h in
      ((λ e. cc (eq→== inum 0 e, used)), ok, not_equal _ _ plain.0, not_equal _ _ plain.1)),
  (λ (used, ok, no_dot, no_dot_dot). rw (ne→== inum 0 used) (
      rw ok (
        rw (different (fmtname path) dot no_dot)
          (rw (different (fmtname path) dot_dot no_dot_dot) refl)))),
)
  where
    guards :
        (free ok one two : Bool)
        → (if free then false else if not ok then false else not (one || two)) ≡ true
        → (free ≡ false) × (ok ≡ true) × ((one ≡ false) × (two ≡ false))
    guards true ok one two h = absurd (cc h)
    guards false false one two h = absurd (cc h)
    guards false true true two h = absurd (cc h)
    guards false true false true h = absurd (cc h)
    guards false true false false h = (refl, refl, (refl, refl))
