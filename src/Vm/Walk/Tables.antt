-- ===== src/Vm/Walk/Tables.antt =====
-- The page tables on the way to the entry for an address.
use learning_mits.Base.{
  ℕ, suc, ◌%◌, ◌^◌, ◌<◌, ◌≡◌, inl, inr, true, false, List, [], ◌∷◌, arith, ◌==◌, ==→eq, Bool-cases,
  has,
}
use learning_mits.Kernel.Memory.{Memory, in_page}
use learning_mits.Riscv.{pte_v, pa2pte, pte2pa, or_v}
use learning_mits.Kalloc.Chain.{ne_of_has}
use learning_mits.Vm.Walk.{pte_addr}
use learning_mits.Vm.Walk.Route.{Away, pte_addr-in_page}

-- The tables for `va` as far as they are there: distinct pages, none at address 0.
pub data Tables (m : Memory) (va : ℕ) : ℕ → ℕ → List ℕ → Type 0 where
  bottom : {pt : ℕ} → pt % 4096 ≡ 0 → 0 < pt → Tables m va 0 pt (pt ∷ [])
  cut :
      {level pt : ℕ}
      → pt % 4096 ≡ 0
      → 0 < pt
      → pte_v (m (pte_addr pt (suc level) va)) ≡ false
      → Tables m va (suc level) pt (pt ∷ [])
  more :
      {level pt : ℕ} {ts : List ℕ}
      → pt % 4096 ≡ 0
      → 0 < pt
      → has pt ts ≡ false
      → pte_v (m (pte_addr pt (suc level) va)) ≡ true
      → Tables m va level (pte2pa (m (pte_addr pt (suc level) va))) ts
      → Tables m va (suc level) pt (pt ∷ ts)

abbrev pub Apart : List ℕ → List ℕ → Type 0
Apart ts ps = (t : ℕ) → has t ts ≡ true → has t ps ≡ false

pub has-aligned :
    {m : Memory} {va level pt : ℕ} {ts : List ℕ} (t : ℕ)
    → Tables m va level pt ts
    → has t ts ≡ true
    → t % 4096 ≡ 0
has-aligned t (bottom al pos) i = ground arith
has-aligned t (cut al pos n) i = ground arith
has-aligned t (more {pt} al pos out v tb) i = elim (Bool-cases (t == pt)) [
  | inl e ↦ rw (==→eq t pt e) al
  | inr n ↦ has-aligned t tb (ground arith)
]

-- What lies in a page lies away from other pages.
pub inside-Away :
    (pt a : ℕ) (ts : List ℕ)
    → pt % 4096 ≡ 0
    → in_page pt a ≡ true
    → has pt ts ≡ false
    → ((t : ℕ) → has t ts ≡ true → t % 4096 ≡ 0)
    → Away a ts
inside-Away pt a ts al inside out all t i = elim (Bool-cases (in_page t a)) [
  | inr n ↦ n
  | inl p ↦ absurd (ne_of_has t pt ts i out (ground (arith, inside, all t i)))
]

-- An entry of a table.
pub entry-Away :
    (pt level va : ℕ) (ts : List ℕ)
    → pt % 4096 ≡ 0
    → has pt ts ≡ false
    → ((t : ℕ) → has t ts ≡ true → t % 4096 ≡ 0)
    → Away (pte_addr pt level va) ts
entry-Away pt level va ts al =
    inside-Away pt (pte_addr pt level va) ts al (pte_addr-in_page pt level va)

-- A table entry that walk makes: valid, with the address of the new page.
pub table_entry :
    (pa : ℕ)
    → pa % 4096 ≡ 0
    → pa < 2 ^ 56
    → (pte_v (or_v (pa2pte pa)) ≡ true) × (pte2pa (or_v (pa2pte pa)) ≡ pa)
unfolding or_v pa2pte pte2pa
table_entry pa al small = (ground arith, omega arith)
