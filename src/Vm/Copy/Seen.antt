-- ===== src/Vm/Copy/Seen.antt =====
-- User memory as user code sees it: the address that the page table gives to each virtual address,
-- and reads and writes byte by byte through it.
use learning_mits.Base.{
  ℕ, zero, suc, ◌+◌, ◌-◌, ◌*◌, ◌/◌, ◌≤◌, ◌<◌, ◌≡◌, ◌≢◌, refl, arith, Option, none, some, List, [],
  ◌∷◌, ◌++◌, ◌==◌, if◌then◌else◌, ne→==, ap, sym, ◌∙◌, le→leb, length,
}
use mathlib.Core.Option
use learning_mits.Kernel.Memory.{Memory, load_byte, store_byte, load_bytes, store_bytes}
use learning_mits.Riscv.{pgrounddown, maxva}
use learning_mits.Vm.Walk.Lookup.{on_some, or_zero, user_page}

-- The page that holds the byte at `va`; 0 for none.
abbrev pub page_at : Memory → ℕ → ℕ → ℕ
page_at m pagetable va = or_zero (user_page m pagetable (pgrounddown va))

-- The physical address of the byte that user code sees at `va`. A page at address 0 counts as none.
unfoldable pub user_addr : Memory → ℕ → ℕ → Option ℕ
user_addr m pagetable va =
    if page_at m pagetable va == 0
    then none
    else some (page_at m pagetable va + (va - pgrounddown va))

-- The bytes at `va`, `va + 1` and so on, if all of them are mapped.
unfoldable pub user_read : Memory → ℕ → ℕ → ℕ → Option (List ℕ)
unfolding user_addr
user_read m pagetable va zero = some []
user_read m pagetable va (suc n) =
    let rest = user_read m pagetable (va + 1) n in
    on_some (user_addr m pagetable va) λ a. Option.map (λ bs. load_byte m a ∷ bs) rest

-- The memory after the bytes are written at `va`, `va + 1` and so on, translated by the page tables
-- in `m`, if all of these addresses are mapped.
unfoldable pub user_write : Memory → ℕ → ℕ → List ℕ → Memory → Option Memory
unfolding user_addr
user_write m pagetable va [] now = some now
user_write m pagetable va (b ∷ bs) now =
    on_some (user_addr m pagetable va) λ a. user_write m pagetable (va + 1) bs (store_byte a b now)

-- Inside a page the address of a byte is that of the page and the place in it.
page_at-add :
    (m : Memory) (pt va i : ℕ)
    → (va - pgrounddown va) + i < 4096
    → page_at m pt (va + i) ≡ page_at m pt va
unfolding pgrounddown
page_at-add m pt va i h = ap (λ a. or_zero (user_page m pt a)) (omega arith)

-- Pages for user code lie below MAXVA.
pub page_at_beyond : (m : Memory) (pt va : ℕ) → maxva ≤ va → page_at m pt va ≡ 0
unfolding user_page pgrounddown
page_at_beyond m pt va big = rw (le→leb (va / 4096 * 4096) maxva (omega arith)) refl

pub user_addr_unmapped : (m : Memory) (pt va : ℕ) → page_at m pt va ≡ 0 → user_addr m pt va ≡ none
unfolding user_addr
user_addr_unmapped m pt va e = rw e refl

pub user_addr_mapped :
    (m : Memory) (pt va : ℕ)
    → page_at m pt va ≢ 0
    → user_addr m pt va ≡ some (page_at m pt va + (va - pgrounddown va))
unfolding user_addr
user_addr_mapped m pt va ne = rw (ne→== _ 0 ne) refl

-- From `va` on, `n` addresses stand side by side in physical memory, from `p` on.
abbrev pub Block : Memory → ℕ → ℕ → ℕ → ℕ → Type 0
Block m pt va p n = (i : ℕ) → i < n → user_addr m pt (va + i) ≡ some (p + i)

pub page-Block :
    (m : Memory) (pt va n : ℕ)
    → (va - pgrounddown va) + n ≤ 4096
    → page_at m pt va ≢ 0
    → Block m pt va (page_at m pt va + (va - pgrounddown va)) n
unfolding pgrounddown
page-Block m pt va n h ne i lt =
    let same : page_at m pt (va + i) ≡ page_at m pt va = page_at-add m pt va i (omega arith) in
    user_addr_mapped m pt (va + i) (rw same ne) ∙ rw same (ap some (place va i (omega arith)))
  where
    place :
        (va i : ℕ)
        → (va - pgrounddown va) + i < 4096
        → page_at m pt va + (va + i - pgrounddown (va + i))
          ≡ page_at m pt va + (va - pgrounddown va) + i
    place va i h = omega arith

module _ (m : Memory) (pt : ℕ) where
  pub Block-head : (va p n : ℕ) → Block m pt va p (suc n) → user_addr m pt va ≡ some p
  Block-head va p n h =
      ap (user_addr m pt) (omega arith) ∙ h 0 (omega arith) ∙ ap some (omega arith)

  pub Block-tail : (va p n : ℕ) → Block m pt va p (suc n) → Block m pt (va + 1) (p + 1) n
  Block-tail va p n h i lt =
      ap (user_addr m pt) (omega arith) ∙ h (suc i) (omega arith) ∙ ap some (omega arith)

  -- Reading a block and `r` bytes more.
  pub user_read-Block :
      (n r va p : ℕ)
      → Block m pt va p n
      → user_read m pt va (n + r)
        ≡ Option.map (λ bs. load_bytes m p n ++ bs) (user_read m pt (va + n) r)
  unfolding user_read load_bytes
  user_read-Block zero r va p h =
      let e : 0 + r ≡ r = omega arith in
      let e' : va + 0 ≡ va = omega arith in
      rw (e, e') (sym (ap (λ g. g (user_read m pt va r)) Option.map-id))
  user_read-Block (suc n) r va p h =
      let e : suc n + r ≡ suc (n + r) = omega arith in
      let e' : va + suc n ≡ va + 1 + n = omega arith in
      rw (e, e', Block-head va p n h, user_read-Block n r (va + 1) (p + 1) (Block-tail va p n h))
        (Option.map-map _ _ _)

  -- Writing a block and more bytes.
  pub user_write-Block :
      (xs ys : List ℕ) (now : Memory) (va p : ℕ)
      → Block m pt va p (length xs)
      → user_write m pt va (xs ++ ys) now
        ≡ user_write m pt (va + length xs) ys (store_bytes p xs now)
  unfolding user_write store_bytes
  user_write-Block [] ys now va p h = let e : va + 0 ≡ va = omega arith in rw e refl
  user_write-Block (x ∷ xs) ys now va p h =
      let e : va + suc (length xs) ≡ va + 1 + length xs = omega arith in
      rw (e, Block-head va p (length xs) h)
        (user_write-Block xs ys (store_byte p x now) (va + 1) (p + 1)
          (Block-tail va p (length xs) h))
