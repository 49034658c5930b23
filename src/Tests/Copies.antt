-- ===== src/Tests/Copies.antt =====
-- Copies across a page boundary.
use mathlib.Core.Option.{some-injective}
use learning_mits.Base.{
  ℕ, ◌*◌, ◌/◌, ◌≤◌, ◌<◌, ◌≡◌, ◌≢◌, refl, arith, sym, ◌∙◌, All, some, List, [], ◌∷◌, update, ◌==◌,
  Bool-cases, inl, inr, ==→eq, ==→ne, subst,
}
use learning_mits.Kernel.{Kernel, success}
use learning_mits.Kernel.Memory.{Memory, load_byte}
use learning_mits.Kernel.Returns.{Returns}
use learning_mits.Layout.{qemu}
use learning_mits.Riscv.{pgrounddown, px, pte2pa}
use learning_mits.Vm.Walk.Lookup.{user_page}
use learning_mits.Vm.Walk.Words.{walk_words}
use learning_mits.Vm.Copy.{copyin, copyinstr, copyout}
use learning_mits.Vm.Copy.Seen.{user_addr, user_read, user_write}
use learning_mits.Vm.Copy.Reads.{Copied, copyin-user_read}
use learning_mits.Vm.Copy.Strings.{user_string, CopiedString, copyinstr-user_string}
use learning_mits.Vm.Copy.Writes.{OffTables, Wrote, copyout-user_write}
use learning_mits.Vm.Copy.RoundTrip.{Unshared, ReadsBack, copyout-copyin}
use learning_mits.Tests.State.{machine, root_table}

-- The first two pages of a process, at 0x80300000 and 0x80302000, for user code to read and write.
abbrev two_pages : Memory
two_pages =
    update
      (update
        (update (update (λ _. 0x0807_0605_0403_0201) 0x80200000 0x20080401) 0x80201000 0x20080801)
        0x80202000 0x200c0017)
      0x80202008 0x200c0817

abbrev mapped : Kernel
mapped = record machine { mem = two_pages }

abbrev letters : List ℕ
letters = 0x41 ∷ 0x42 ∷ []

-- What holds at both addresses holds in the range.
two_addresses : (P : ℕ → Type 0) → P 0xfff → P 0x1000 → (u : ℕ) → 0xfff ≤ u → u < 0x1001 → P u
two_addresses P p q u l h = elim (Bool-cases (u == 0xfff)) [
  | inl e ↦ subst P (sym (==→eq u 0xfff e)) p
  | inr ne ↦ subst P (omega (arith, ==→ne u 0xfff ne)) q
]

letters_seen : user_read two_pages root_table 0xfff 2 ≡ some (8 ∷ 1 ∷ [])
unfolding user_read load_byte user_page pgrounddown px pte2pa
letters_seen = refl

first_addr : user_addr two_pages root_table 0xfff ≡ some 0x80300fff
unfolding user_addr user_page pgrounddown px pte2pa
first_addr = refl

second_addr : user_addr two_pages root_table 0x1000 ≡ some 0x80302000
unfolding user_addr user_page pgrounddown px pte2pa
second_addr = refl

-- A word that holds none of the five entries.
AwayFrom : ℕ → ℕ → Type 0
AwayFrom a v = All (λ w. a / 8 * 8 ≢ w) (walk_words two_pages root_table (pgrounddown v))

first_away : (v : ℕ) → 0xfff ≤ v → v < 0x1001 → AwayFrom 0x80300fff v
unfolding AwayFrom pgrounddown px pte2pa
first_away = two_addresses _ (omega arith) (omega arith)

second_away : (v : ℕ) → 0xfff ≤ v → v < 0x1001 → AwayFrom 0x80302000 v
unfolding AwayFrom pgrounddown px pte2pa
second_away = two_addresses _ (omega arith) (omega arith)

mapped-OffTables : OffTables two_pages root_table 0xfff 0x1001
unfolding AwayFrom
mapped-OffTables u v a lu hu lv hv =
    two_addresses (λ x. user_addr two_pages root_table x ≡ some a → AwayFrom a v)
      (λ e.
        subst (λ b. AwayFrom b v) (some-injective _ _ (sym first_addr ∙ e)) (first_away v lv hv))
      (λ e.
        subst (λ b. AwayFrom b v) (some-injective _ _ (sym second_addr ∙ e)) (second_away v lv hv))
      u lu hu

mapped-Unshared : Unshared two_pages root_table 0xfff 0x1001
mapped-Unshared u v a lu hu lv hv =
    two_addresses
      (λ x.
        user_addr two_pages root_table x ≡ some a
        → user_addr two_pages root_table v ≡ some a
        → x ≡ v)
      (λ e.
        two_addresses (λ y. user_addr two_pages root_table y ≡ some a → 0xfff ≡ y) (λ e'. refl)
          (λ e'. absurd (differs a e e')) v lv hv)
      (λ e.
        two_addresses (λ y. user_addr two_pages root_table y ≡ some a → 0x1000 ≡ y)
          (λ e'. absurd (differs a e' e)) (λ e'. refl) v lv hv)
      u lu hu
  where
    differs :
        (a : ℕ)
        → user_addr two_pages root_table 0xfff ≡ some a
        → user_addr two_pages root_table 0x1000 ≡ some a
        → ⊥
    differs a e e' =
        omega (
          arith,
          some-injective _ _ (sym first_addr ∙ e),
          some-injective _ _ (sym second_addr ∙ e'),
        )

copyin-user_read_example :
    Copied mapped (user_read two_pages root_table 0xfff 2) (copyin root_table 0xfff 2 mapped)
copyin-user_read_example = copyin-user_read ⦃l = qemu⦄ mapped root_table 0xfff 2

copyout-user_write_example :
    Wrote mapped
      (user_write two_pages root_table 0xfff letters two_pages)
      (copyout root_table 0xfff letters mapped)
copyout-user_write_example =
    copyout-user_write ⦃l = qemu⦄ mapped root_table 0xfff letters mapped-OffTables

copyout-copyin_example :
    Returns
      (λ s k'. (s ≡ success) × ReadsBack mapped root_table 0xfff letters k')
      (copyout root_table 0xfff letters mapped)
copyout-copyin_example =
    copyout-copyin ⦃l = qemu⦄ mapped root_table 0xfff letters (omega arith) (λ e. cc letters_seen)
      mapped-OffTables mapped-Unshared

-- The same pages with a text that ends in the second one.
abbrev with_text : Kernel
with_text = record machine { mem = update two_pages 0x80302000 0x42 }

text_seen : user_string with_text.mem root_table 0xfff 16 ≡ some (8 ∷ 0x42 ∷ 0 ∷ [])
unfolding user_string load_byte user_page pgrounddown px pte2pa
text_seen = refl

copyinstr-user_string_example :
    CopiedString with_text
      (user_string with_text.mem root_table 0xfff 16)
      (copyinstr root_table 0xfff 16 with_text)
copyinstr-user_string_example = copyinstr-user_string with_text root_table 0xfff 16
