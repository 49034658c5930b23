-- ===== src/Tests/Exec.antt =====
-- exec on a small program.
use mathlib.Core.Option.{some-injective}
use learning_mits.Base.{
  ◌-◌, ◌/◌, ◌≤◌, ◌<◌, ◌≡◌, ◌≢◌, refl, sym, ap, ◌∙◌, subst, some, All, ℕ, ◌+◌, ◌*◌, List, [], ◌∷◌,
  ◌++◌, arith, take, drop, update,
}
use learning_mits.Kernel.{Kernel}
use learning_mits.Kernel.Ends.{Ends}
use learning_mits.Kernel.Ensures.{Ensures}
use learning_mits.Layout.{qemu}
use learning_mits.Riscv.{pgrounddown, px, pte2pa}
use learning_mits.Vm.Walk.Lookup.{user_page}
use learning_mits.Vm.Walk.Words.{walk_words}
use learning_mits.Vm.Copy.Seen.{page_at, user_addr, Block, page-Block}
use learning_mits.Vm.Copy.Writes.{OffTables}
use learning_mits.Vm.Copy.RoundTrip.{Unshared}
use learning_mits.Exec.{Files, ElfFormat, word_bytes, build_stack, exec}
use learning_mits.Exec.Stack.{Built, build_stack-Built}
use learning_mits.Exec.Outcome.{Outcome, exec-Outcome}
use learning_mits.Tests.State.{root_table, machine}

-- Three tables that map virtual page 2, the stack, to the page in use.
abbrev with_stack : Kernel
with_stack = record machine {
  mem =
      update (update (update (λ _. 0) root_table 0x20080401) 0x80201000 0x20080801) 0x80202010
        0x200c0017;
}

-- echo hi
abbrev command : List (List ℕ)
command = (101 ∷ 99 ∷ 104 ∷ 111 ∷ []) ∷ (104 ∷ 105 ∷ []) ∷ []

page_seen : page_at with_stack.mem root_table 0x2000 ≡ 0x80300000
unfolding user_page pgrounddown px pte2pa
page_seen = refl

stack_addr :
    (u a : ℕ)
    → 0x2000 ≤ u
    → u < 0x3000
    → user_addr with_stack.mem root_table u ≡ some a
    → 0x80300000 + (u - 0x2000) ≡ a
unfolding pgrounddown
stack_addr u a lo hi e =
    let block : Block with_stack.mem root_table 0x2000 _ 0x1000 =
      page-Block with_stack.mem root_table 0x2000 0x1000 (omega arith)
        (λ z. omega (arith, page_seen, z)) in
    let at : 0x2000 + (u - 0x2000) ≡ u = omega arith in
    omega (
      arith,
      page_seen,
      some-injective _ _ (
          sym (block (u - 0x2000) (omega arith)) ∙ ap (user_addr with_stack.mem root_table) at ∙ e),
    )

-- The entries for the stack page.
StackAway : ℕ → ℕ → Type 0
StackAway a page = All (λ e. a / 8 * 8 ≢ e) (walk_words with_stack.mem root_table page)

page_away : (a : ℕ) → 0x80300000 ≤ a → StackAway a 0x2000
unfolding StackAway px pte2pa
page_away a lo = omega arith

stack-OffTables : OffTables with_stack.mem root_table 0x2000 0x3000
unfolding StackAway pgrounddown
stack-OffTables u v a lu hu lv hv e =
    let page : 0x2000 ≡ pgrounddown v = omega arith in
    subst (StackAway a) page (page_away a (omega (arith, stack_addr u a lu hu e)))

stack-Unshared : Unshared with_stack.mem root_table 0x2000 0x3000
stack-Unshared u v a lu hu lv hv e e' =
    omega (arith, stack_addr u a lu hu e, stack_addr v a lv hv e')

build_stack-Built_example :
    Ends (build_stack root_table 0x2000 0x3000 command with_stack)
    × Ensures
        (Built root_table 0x2000 0x3000 command with_stack)
        (build_stack root_table 0x2000 0x3000 command with_stack)
build_stack-Built_example =
    build_stack-Built root_table 0x2000 0x3000 command with_stack stack-OffTables stack-Unshared
      (omega arith) (omega arith) (omega arith)
      ((omega arith, omega arith), ((omega arith, omega arith), tt)) (omega arith)

-- The number that the first n bytes from the given one on make.
abbrev field : ℕ → ℕ → List ℕ → ℕ
field at n bytes = number (take n (drop at bytes))
  where
    number : List ℕ → ℕ
    number [] = 0
    number (b ∷ bs) = b + 256 * number bs

-- A 64-bit ELF file with one segment: four bytes at address 0 of a page.
abbrev program : List ℕ
unfolding word_bytes
program =
    word_bytes 24 0x464c457f
    ++ word_bytes 8 0
    ++ word_bytes 24 64
    ++ word_bytes 8 1
    ++ word_bytes 8 1
    ++ word_bytes 24 120
    ++ word_bytes 8 4
    ++ word_bytes 8 4096
    ++ word_bytes 8 4096
    ++ word_bytes 4 0x00000073

abbrev elf64 : ElfFormat
elf64 = record {
  elfhdr_size = 64;
  proghdr_size = 56;
  elfhdr = λ b. record {
    magic = field 0 4 b;
    phoff = field 32 8 b;
    phnum = field 56 2 b;
    entry = field 24 8 b;
  };
  proghdr = λ b. record {
    type = field 0 4 b;
    off = field 8 8 b;
    vaddr = field 16 8 b;
    filesz = field 32 8 b;
    memsz = field 40 8 b;
  };
  elf_magic = 0x464c457f;
  elf_prog_load = 1;
}

-- Every path names the program.
abbrev one_file : Files
one_file = record {
  namei = λ _. 1;
  readi = λ _ off n. take n (drop off program);
  safestrcpy = λ old src n. take n src;
}

exec-Outcome_example :
    Ensures
      (Outcome one_file elf64 0 (47 ∷ 101 ∷ []) command machine)
      (exec one_file elf64 0 (47 ∷ 101 ∷ []) command machine)
exec-Outcome_example = exec-Outcome one_file elf64 0 (47 ∷ 101 ∷ []) command machine
