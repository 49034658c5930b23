-- ===== src/Vm/Walk/Entries.antt =====
-- The words of the page tables that a walk goes through, apart from the entries on its way.
use learning_mits.Base.{
  ℕ, zero, suc, arith, ◌≡◌, ◌≢◌, refl, ◌∙◌, Bool, true, false, ◌||◌, List, [], ◌∷◌, if◌then◌else◌,
  has,
}
use learning_mits.Kernel.Memory.{Memory, in_page}
use learning_mits.Vm.Walk.{pte_addr}

-- The tables `ts` from `level` on: every word of one, but its entry for `va` above level 0, is what
-- `value` gives.
abbrev pub Entries : (ℕ → ℕ → ℕ) → Memory → ℕ → ℕ → List ℕ → Type 0
Entries value m va level [] = Unit
Entries value m va zero (t ∷ ts) =
    ((a : ℕ) → in_page t a ≡ true → m a ≡ value t a) × Entries value m va zero ts
Entries value m va (suc level) (t ∷ ts) =
    ((a : ℕ) → in_page t a ≡ true → pte_addr t (suc level) va ≢ a → m a ≡ value t a)
    × Entries value m va level ts

-- A page that was free is zeroed for a table, and the other tables stay as they were.
abbrev pub before : Memory → List ℕ → ℕ → ℕ → ℕ
before m ps t a = if has t ps then 0 else m a

pub Entries-map :
    (value value' : ℕ → ℕ → ℕ) (m : Memory) (va level : ℕ) (ts : List ℕ)
    → ((t : ℕ) → has t ts ≡ true → (a : ℕ) → in_page t a ≡ true → value t a ≡ value' t a)
    → Entries value m va level ts
    → Entries value' m va level ts
Entries-map value value' m va level [] same e = tt
Entries-map value value' m va zero (t ∷ ts) same e = (
  λ a i. e.0 a i ∙ same t (ground arith) a i,
  Entries-map value value' m va zero ts (λ t' h. same t' (ground (arith, h))) e.1,
)
Entries-map value value' m va (suc level) (t ∷ ts) same e = (
  λ a i ne. e.0 a i ne ∙ same t (ground arith) a i,
  Entries-map value value' m va level ts (λ t' h. same t' (ground (arith, h))) e.1,
)

-- The value in a page that is new (`p`), or was free (`f`).
pub value_new :
    (p f : Bool) (x y : ℕ)
    → (p || f) ≡ true
    → (p ≡ true → x ≡ 0)
    → (if f then 0 else x) ≡ (if p || f then 0 else y)
value_new true true x y h z = refl
value_new true false x y h z = z refl
value_new false true x y h z = refl
value_new false false x y h z = absurd (cc h)
