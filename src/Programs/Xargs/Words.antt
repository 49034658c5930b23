-- ===== src/Programs/Xargs/Words.antt =====
-- Strings in the buffer `token` of xargs.
use learning_mits.Base.{
  ℕ, zero, suc, ◌+◌, ◌≤◌, ◌<◌, ◌≡◌, ◌≢◌, refl, ap, ◌∙◌, arith, List, [], ◌∷◌, ◌++◌, length, ne→==,
  update, update-other,
}
use learning_mits.Programs.Xargs.{Word, at, argv_words, string_at, strings}

-- From `off` on stand the characters of `w`, none of them '\0'.
abbrev pub Chars : (ℕ → ℕ) → ℕ → List ℕ → Type 0
Chars token off [] = Unit
Chars token off (c ∷ w) = (token off ≡ c) × (c ≢ 0) × Chars token (off + 1) w

pub Chars-update :
    (token : ℕ → ℕ) (i v off : ℕ) (w : List ℕ)
    → off + length w ≤ i
    → Chars token off w
    → Chars (update token i v) off w
Chars-update token i v off [] h t = tt
Chars-update token i v off (c ∷ w) h (here, ne, t) = (
  update-other token i v off (λ e. omega arith) ∙ here,
  ne,
  Chars-update token i v (off + 1) w (omega arith) t,
)

pub Chars-append :
    (token : ℕ → ℕ) (i off c : ℕ) (w : List ℕ)
    → i ≡ off + length w
    → c ≢ 0
    → Chars token off w
    → Chars (update token i c) off (w ++ (c ∷ []))
Chars-append token i off c [] e ne t = (at_end off (omega arith), ne, tt)
  where
    at_end : (a : ℕ) → i ≡ a → update token i c a ≡ c
    at_end a same = ground arith
Chars-append token i off c (d ∷ w) e ne (here, ne', t) = (
  update-other token i c off (λ e'. omega arith) ∙ here,
  ne',
  Chars-append token i (off + 1) c w (omega arith) ne t,
)

-- A string with its end.
string_at-Chars :
    (f : ℕ) (token : ℕ → ℕ) (off : ℕ) (w : List ℕ)
    → Chars token off w
    → token (off + length w) ≡ 0
    → length w < f
    → string_at f token off ≡ w
unfolding string_at
string_at-Chars zero token off w t e h = absurd (omega arith)
string_at-Chars (suc f) token off [] t e h = rw (ends (off + 0) (omega arith) e) refl
  where
    ends : (a : ℕ) → a ≡ off → token a ≡ 0 → token off ≡ 0
    ends a same z = rw (← same) z
string_at-Chars (suc f) token off (c ∷ w) (here, ne, t) e h = rw here (
    rw (ne→== c 0 ne) (
      ap (λ (s : List ℕ). c ∷ s)
        (string_at-Chars f token (off + 1) w t (moved (off + suc (length w)) (omega arith) e)
          (omega arith))))
  where
    moved : (a : ℕ) → a ≡ off + 1 + length w → token a ≡ 0 → token (off + 1 + length w) ≡ 0
    moved a same z = rw (← same) z

-- At the offsets stand the words, each with its '\0' below `top`.
pub data Held (token : ℕ → ℕ) (top : ℕ) : List ℕ → List (List ℕ) → Type 0 where
  nil : Held token top [] []
  cons :
      {o : ℕ} {d : List ℕ} {os : List ℕ} {ds : List (List ℕ)}
      → Chars token o d
      → token (o + length d) ≡ 0
      → o + length d < top
      → Held token top os ds
      → Held token top (o ∷ os) (d ∷ ds)

pub Held-update :
    {token : ℕ → ℕ} {top : ℕ} {os : List ℕ} {ds : List (List ℕ)} (i v top' : ℕ)
    → top ≤ i
    → top ≤ top'
    → Held token top os ds
    → Held (update token i v) top' os ds
Held-update i v top' h h' nil = nil
Held-update {token} i v top' h h' (cons {o} {d} chars nul below t) =
    cons (Chars-update token i v o d (omega arith) chars)
      (update-other token i v (o + length d) (λ e. omega arith) ∙ nul) (omega arith)
      (Held-update i v top' h h' t)

-- One word more.
pub Held-append :
    {token : ℕ → ℕ} {top : ℕ} {os : List ℕ} {ds : List (List ℕ)} (o : ℕ) (d : List ℕ)
    → Held token top os ds
    → Chars token o d
    → token (o + length d) ≡ 0
    → o + length d < top
    → Held token top (os ++ (o ∷ [])) (ds ++ (d ∷ []))
Held-append o d nil chars nul below = cons chars nul below nil
Held-append o d (cons ce ne be t) chars nul below =
    cons ce ne be (Held-append o d t chars nul below)

abbrev pub places : List ℕ → List Word
places [] = []
places (o ∷ os) = at o ∷ places os

places-strings :
    {token : ℕ → ℕ} {top : ℕ} {os : List ℕ} {ds : List (List ℕ)}
    → top ≤ 512
    → Held token top os ds
    → strings token (places os) ≡ ds
unfolding strings
places-strings h nil = refl
places-strings {token} h (cons {o} {d} {os} {ds} chars nul below t) =
    rw (string_at-Chars 512 token o d chars nul (omega arith))
      (ap (λ (x : List (List ℕ)). d ∷ x) (places-strings h t))

pub strings-Held :
    (argv : List (List ℕ)) {token : ℕ → ℕ} {top : ℕ} {os : List ℕ} {ds : List (List ℕ)}
    → top ≤ 512
    → Held token top os ds
    → strings token (argv_words argv ++ places os) ≡ argv ++ ds
unfolding strings
strings-Held [] {os = os} h t = rw (none_before os) (places-strings h t)
  where
    none_before : (os : List ℕ) → [] ++ places os ≡ places os
    none_before os = refl
strings-Held (s ∷ argv) h t = ap (λ (x : List (List ℕ)). s ∷ x) (strings-Held argv h t)
