-- ===== src/Vm/Walk/Words.antt =====
-- The words that a translation reads.
use learning_mits.Base.{ℕ, ◌≡◌, refl, All, List, [], ◌∷◌, Bool-cases, inl, inr}
use learning_mits.Kernel.Memory.{Memory}
use learning_mits.Riscv.{pte_v, pte2pa}
use learning_mits.Vm.Walk.{pte_addr}
use learning_mits.Vm.Walk.Lookup.{user_page}

-- The entries for `va` at the three levels.
abbrev pub walk_words : Memory → ℕ → ℕ → List ℕ
walk_words m pagetable va =
    let top = pte_addr pagetable 2 va in
    let middle = pte_addr (pte2pa (m top)) 1 va in
    top ∷ middle ∷ pte_addr (pte2pa (m middle)) 0 va ∷ []

-- Memories that agree there translate alike.
pub user_page-eq :
    (m m' : Memory) (pt va : ℕ)
    → All (λ a. m' a ≡ m a) (walk_words m pt va)
    → user_page m' pt va ≡ user_page m pt va
unfolding user_page
user_page-eq m m' pt va same = rw same.0 (elim (Bool-cases (pte_v (m (pte_addr pt 2 va)))) [
  | inr n ↦ rw n refl
  | inl e ↦
      rw (e, same.1.0)
        (elim (Bool-cases (pte_v (m (pte_addr (pte2pa (m (pte_addr pt 2 va))) 1 va)))) [
          | inr n ↦ rw n refl
          | inl e' ↦ rw (e', same.1.1.0) refl
        ])
])
