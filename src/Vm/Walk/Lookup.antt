-- ===== src/Vm/Walk/Lookup.antt =====
-- walk without allocation and walkaddr against the translation that the hardware makes.
use learning_mits.Base.{
  ℕ, ◌≤◌, ◌<◌, ◌≡◌, refl, inl, inr, Bool, false, ◌&&◌, Option, none, some, arith, ◌==◌, leb, lt→leb,
  le→leb, Bool-cases, if◌then◌else◌,
}
use learning_mits.Kernel.{Kernel, ok, panic, walk_panic}
use learning_mits.Kernel.Memory.{Memory}
use learning_mits.Layout.{Layout}
use learning_mits.Riscv.{pte_v, pte_u, pte2pa, maxva}
use learning_mits.Vm.Walk.{pte_addr, walk, entry_page, walkaddr}

abbrev pub on_some : {A : Type 0} → Option ℕ → (ℕ → Option A) → Option A
on_some none f = none
on_some (some a) f = f a

-- The table below an entry, if the entry is valid.
abbrev pub next_table : Memory → ℕ → Option ℕ
next_table m a = if pte_v (m a) then some (pte2pa (m a)) else none

-- The address of the entry for `va`, if both tables above it are there.
unfoldable pub leaf_entry : Memory → ℕ → ℕ → Option ℕ
leaf_entry m pagetable va =
    on_some (next_table m (pte_addr pagetable 2 va))
      λ middle. on_some (next_table m (pte_addr middle 1 va)) λ low. some (pte_addr low 0 va)

-- The page that user code sees at `va`: its entry is there, valid, and open to user code. An entry
-- at address 0 is the null pointer.
unfoldable pub user_page : Memory → ℕ → ℕ → Option ℕ
unfolding leaf_entry
user_page m pagetable va =
    if leb maxva va
    then none
    else on_some (leaf_entry m pagetable va) λ a.
      if a == 0 then none else if pte_v (m a) && pte_u (m a) then some (pte2pa (m a)) else none

-- A page or 0, as walkaddr answers.
abbrev pub or_zero : Option ℕ → ℕ
or_zero none = 0
or_zero (some a) = a

page_of_entry : Memory → ℕ → Option ℕ
page_of_entry m a =
    if a == 0 then none else if pte_v (m a) && pte_u (m a) then some (pte2pa (m a)) else none

entry_page_lem : (k : Kernel) (a : ℕ) → entry_page a k ≡ ok (or_zero (page_of_entry k.mem a)) k
unfolding entry_page page_of_entry
entry_page_lem k a = elim (Bool-cases (a == 0)) [
  | inl z ↦ rw z refl
  | inr nz ↦ rw nz (elim (Bool-cases (pte_v (k.mem a))) [
    | inr n ↦ rw n refl
    | inl v ↦ rw v (elim (Bool-cases (pte_u (k.mem a))) [ inr n ↦ rw n refl | inl u ↦ rw u refl ])
  ])
]

from_entry :
    (k : Kernel) (e : Option ℕ)
    → entry_page (or_zero e) k ≡ ok (or_zero (on_some e (page_of_entry k.mem))) k
unfolding entry_page
from_entry k none = refl
from_entry k (some a) = entry_page_lem k a

module _ ⦃l : Layout⦄ where
  -- walk with alloc = 0 finds the entry of a three-level walk, or 0, and changes nothing.
  pub walk-leaf_entry :
      (k : Kernel) (pagetable va : ℕ)
      → va < maxva
      → walk pagetable va false k ≡ ok (or_zero (leaf_entry k.mem pagetable va)) k
  unfolding walk leaf_entry
  walk-leaf_entry k pagetable va small = rw (lt→leb va maxva small) (elim (Bool-cases (pte_v top)) [
    | inr n ↦ rw n refl
    | inl e ↦ rw e (elim (Bool-cases (pte_v (k.mem (pte_addr (pte2pa top) 1 va)))) [
      | inr n ↦ rw n refl
      | inl e' ↦ rw e' refl
    ])
  ])
    where
      top : ℕ
      top = k.mem (pte_addr pagetable 2 va)

  pub walk_beyond :
      (k : Kernel) (pagetable va : ℕ) (alloc : Bool)
      → maxva ≤ va
      → walk pagetable va alloc k ≡ panic walk_panic
  unfolding walk
  walk_beyond k pagetable va alloc big = rw (le→leb va maxva big)

  -- walkaddr is the translation of user addresses, and changes nothing: 0 at or above MAXVA, where
  -- an entry on the way is missing, and where the last one is not valid or not for user code.
  pub walkaddr-user_page :
      (k : Kernel) (pagetable va : ℕ)
      → walkaddr pagetable va k ≡ ok (or_zero (user_page k.mem pagetable va)) k
  unfolding walkaddr user_page page_of_entry
  walkaddr-user_page k pagetable va = elim (Bool-cases (leb maxva va)) [
    | inl big ↦ rw big refl
    | inr small ↦ rw small (
        rw (walk-leaf_entry k pagetable va (ground arith))
          (from_entry k (leaf_entry k.mem pagetable va)))
  ]
