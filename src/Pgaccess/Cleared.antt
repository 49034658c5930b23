-- ===== src/Pgaccess/Cleared.antt =====
-- Which pages sys_pgaccess reports, and what it leaves of their access bits.
use learning_mits.Base.{
  ℕ, ◌-◌, ◌*◌, ◌/◌, ◌%◌, ◌^◌, ◌<◌, ◌≡◌, ◌≢◌, refl, ap, sym, ◌∙◌, ◌⊎◌, inl, inr, arith, Bool, true,
  false, not, Option, none, some, ◌==◌, ltb, lt→ltb, Bool-cases, ==→eq, eq→==, if◌then◌else◌,
  update, update-here, update-other,
}
use learning_mits.Kernel.{Kernel, pure, fail, when, ◌>>=◌, ◌>>◌, bitmap_overrun}
use learning_mits.Kernel.Memory.{Memory, load, store}
use learning_mits.Kernel.Returns.{Returns, returns}
use learning_mits.Layout.{Layout}
use learning_mits.Riscv.{maxva, pte_v, pte2pa, clear_bit}
use learning_mits.Vm.Walk.Lookup.{on_some, next_table, leaf_entry, or_zero, walk-leaf_entry}
use learning_mits.Pgaccess.{pte_a, take_access}

-- Some access bits are cleared.
abbrev pub Cleaned : Memory → Memory → Type 0
Cleaned m m' = (x : ℕ) → (m' x ≡ m x) ⊎ (m' x ≡ clear_bit 6 (m x))

clear_twice : (y : ℕ) → clear_bit 6 (clear_bit 6 y) ≡ clear_bit 6 y
clear_twice y = ground arith

clear-pte_a : (y : ℕ) → pte_a (clear_bit 6 y) ≡ false
clear-pte_a y = ground arith

clear-pte_v : (y : ℕ) → pte_v (clear_bit 6 y) ≡ pte_v y
clear-pte_v y = ground arith

clear-pte2pa : (y : ℕ) → pte2pa (clear_bit 6 y) ≡ pte2pa y
unfolding pte2pa
clear-pte2pa y = ap (λ (x : ℕ). x * 2 ^ 12 % 2 ^ 64) (page y)
  where
    page : (y : ℕ) → clear_bit 6 y / 2 ^ 10 ≡ y / 2 ^ 10
    page y = ground arith

pub Cleaned-trans : {m m' m'' : Memory} → Cleaned m m' → Cleaned m' m'' → Cleaned m m''
Cleaned-trans {m = m} c d x = elim (c x) [
  | inl e ↦ elim (d x) [ inl e' ↦ inl (e' ∙ e) | inr e' ↦ inr (e' ∙ ap (clear_bit 6) e) ]
  | inr e ↦ elim (d x) [
    | inl e' ↦ inr (e' ∙ e)
    | inr e' ↦ inr (e' ∙ ap (clear_bit 6) e ∙ clear_twice (m x))
  ]
]

next_table-Cleaned : {m m' : Memory} → Cleaned m m' → (a : ℕ) → next_table m' a ≡ next_table m a
next_table-Cleaned {m} {m'} c a = elim (c a) [
  | inl e ↦ rw e refl
  | inr e ↦ rw e (rw (clear-pte_v (m a)) (rw (clear-pte2pa (m a)) refl))
]

on_some-same :
    (o o' : Option ℕ) (f g : ℕ → Option ℕ)
    → o ≡ o'
    → ((a : ℕ) → f a ≡ g a)
    → on_some o f ≡ on_some o' g
on_some-same o o' f g e h = ap (λ x. on_some x f) e ∙ inside o'
  where
    inside : (x : Option ℕ) → on_some x f ≡ on_some x g
    inside none = refl
    inside (some a) = h a

-- The tables above stay as they are.
pub leaf_entry-Cleaned :
    {m m' : Memory} → Cleaned m m' → (pt va : ℕ) → leaf_entry m' pt va ≡ leaf_entry m pt va
unfolding leaf_entry
leaf_entry-Cleaned {m} {m'} c pt va =
    on_some-same _ _ _ _ (next_table-Cleaned c _)
      (λ middle. on_some-same _ _ _ _ (next_table-Cleaned c _) (λ low. refl))

-- The address of the entry for `va`, or 0.
abbrev pub entry_at : Memory → ℕ → ℕ → ℕ
entry_at m pt va = or_zero (leaf_entry m pt va)

-- The access bit of a page that has an entry.
abbrev pub accessed_in : Memory → ℕ → Bool
accessed_in m a = if a == 0 then false else pte_a (m a)

accessed-null : (m : Memory) (a : ℕ) → (a == 0) ≡ true → accessed_in m a ≡ false
accessed-null m a z = rw z refl

accessed-entry : (m : Memory) (a : ℕ) → (a == 0) ≡ false → accessed_in m a ≡ pte_a (m a)
accessed-entry m a nz = rw nz refl

pub accessed-Cleaned :
    {m m' : Memory} → Cleaned m m' → (a : ℕ) → accessed_in m' a ≡ true → accessed_in m a ≡ true
accessed-Cleaned {m} {m'} c a h = elim (Bool-cases (a == 0)) [
  | inl z ↦ absurd (cc (accessed-null m' a z, h))
  | inr nz ↦ accessed-entry m a nz ∙ kept (sym (accessed-entry m' a nz) ∙ h) (c a)
]
  where
    kept : pte_a (m' a) ≡ true → (m' a ≡ m a) ⊎ (m' a ≡ clear_bit 6 (m a)) → pte_a (m a) ≡ true
    kept h (inl e) = ap pte_a (sym e) ∙ h
    kept h (inr e) = absurd (cc (ap pte_a e, clear-pte_a (m a), h))

-- One page: its bit is reported and cleared.
abbrev pub Taken : ℕ → Kernel → Bool → Kernel → Type 0
Taken a k r k' =
    (r ≡ accessed_in k.mem a)
    × (k' ≡ record k { mem = k'.mem })
    × Cleaned k.mem k'.mem
    × (accessed_in k'.mem a ≡ false)
    × ((x : ℕ) → a ≢ x → k'.mem x ≡ k.mem x)

module _ ⦃l : Layout⦄ where
  pub take_access-Taken :
      (pt va i : ℕ) (k : Kernel)
      → va < maxva
      → i < 512
      → Returns (Taken (entry_at k.mem pt va) k) (take_access pt va i k)
  unfolding take_access
  take_access-Taken pt va i k small few =
      rw (walk-leaf_entry k pt va small) (at_entry (entry_at k.mem pt va))
    where
      at_entry :
          (a : ℕ)
          → Returns (Taken a k) (
              (if a == 0 then pure false else do
                entry ← load a
                if not (pte_a entry) then pure false else do
                  when (not (ltb i 512)) (fail bitmap_overrun)
                  store a (clear_bit 6 entry)
                  pure true)
                k)
      at_entry a = elim (Bool-cases (a == 0)) [
        | inl z ↦ rw z (
            returns (
              sym (accessed-null k.mem a z),
              refl,
              (λ x. inl refl),
              accessed-null k.mem a z,
              (λ x ne. refl),
            ))
        | inr nz ↦ rw nz (elim (Bool-cases (pte_a (k.mem a))) [
          | inr idle ↦ rw idle (
              returns (
                sym (accessed-entry k.mem a nz ∙ idle),
                refl,
                (λ x. inl refl),
                accessed-entry k.mem a nz ∙ idle,
                (λ x ne. refl),
              ))
          | inl used ↦ rw used (
              rw (lt→ltb i 512 few) (
                returns (
                  sym (accessed-entry k.mem a nz ∙ used),
                  refl,
                  cleared used,
                  accessed-entry (update k.mem a (k.mem a - 64)) a nz ∙ gone used,
                  (λ x ne. update-other k.mem a (k.mem a - 64) x ne),
                )))
        ])
      ]
        where
          less : pte_a (k.mem a) ≡ true → k.mem a - 64 ≡ clear_bit 6 (k.mem a)
          less used = rw used refl

          cleared : pte_a (k.mem a) ≡ true → Cleaned k.mem (update k.mem a (k.mem a - 64))
          cleared used x = elim (Bool-cases (a == x)) [
            | inl e ↦ inr (rw (← ==→eq a x e) (update-here k.mem a _ ∙ less used))
            | inr ne ↦ inl (update-other k.mem a _ x (λ e. cc (eq→== a x e, ne)))
          ]

          gone : pte_a (k.mem a) ≡ true → pte_a (update k.mem a (k.mem a - 64) a) ≡ false
          gone used = ap pte_a (update-here k.mem a _ ∙ less used) ∙ clear-pte_a (k.mem a)
