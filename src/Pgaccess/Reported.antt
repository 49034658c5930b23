-- ===== src/Pgaccess/Reported.antt =====
-- The loop of sys_pgaccess.
use learning_mits.Base.{
  ℕ, zero, suc, ◌+◌, ◌*◌, ◌^◌, ◌≤◌, ◌<◌, ◌≡◌, ◌≢◌, refl, ap, sym, ◌∙◌, inl, inr, arith, Bool, true,
  false, ◌==◌, ltb, ltb→lt, Bool-cases, ==→eq, eq→==, if◌then◌else◌, update, update-here,
  update-other,
}
use learning_mits.Kernel.{Kernel, page_fuel, ◌>>◌}
use learning_mits.Kernel.Memory.{Memory}
use learning_mits.Kernel.Returns
use learning_mits.Kernel.Returns.{Returns, returns}
use learning_mits.Layout.{Layout}
use learning_mits.Riscv.{u64, pgsize}
use learning_mits.Vm.Walk.Lookup.{or_zero}
use learning_mits.Pgaccess.{pte_a, pgaccess_loop}
use learning_mits.Pgaccess.Cleared.{
  Cleaned, Cleaned-trans, leaf_entry-Cleaned, entry_at, accessed_in, accessed-Cleaned, Taken,
  take_access-Taken,
}

module _ (pt start : ℕ) where
  -- The entry of page j.
  abbrev pub page_entry : Memory → ℕ → ℕ
  page_entry m j = entry_at m pt (start + j * pgsize)

  -- The bits of the pages from i on, below n.
  pub record Reported (n i : ℕ) (k : Kernel) (bits bits' : ℕ → Bool) (k' : Kernel) : Type 0 where
    pub same : k' ≡ record k { mem = k'.mem }
    pub cleaned : Cleaned k.mem k'.mem
    pub frame : (a : ℕ) → ((j : ℕ) → i ≤ j → j < n → page_entry k.mem j ≢ a) → k'.mem a ≡ k.mem a
    pub gone : (j : ℕ) → i ≤ j → j < n → accessed_in k'.mem (page_entry k.mem j) ≡ false
    pub before : (j : ℕ) → j < i → bits' j ≡ bits j
    pub only :
        (j : ℕ) → i ≤ j → j < n → bits' j ≡ true → accessed_in k.mem (page_entry k.mem j) ≡ true
    pub every :
        (j : ℕ)
        → i ≤ j
        → j < n
        → accessed_in k.mem (page_entry k.mem j) ≡ true
        → (t : ℕ) × (i ≤ t) × (t < n) × (page_entry k.mem t ≡ page_entry k.mem j) × (bits' t ≡ true)

  page_entry-Cleaned : {m m' : Memory} → Cleaned m m' → (j : ℕ) → page_entry m' j ≡ page_entry m j
  page_entry-Cleaned c j = ap or_zero (leaf_entry-Cleaned c pt (start + j * pgsize))

  -- The bits with that of page i.
  abbrev with_bit : Bool → ℕ → (ℕ → Bool) → ℕ → Bool
  with_bit accessed i bits = if accessed then update bits i true else bits

  with_bit-here : (r : Bool) (i : ℕ) (bits : ℕ → Bool) → bits i ≡ false → with_bit r i bits i ≡ r
  with_bit-here true i bits e = update-here bits i true
  with_bit-here false i bits e = e

  with_bit-other :
      (r : Bool) (i : ℕ) (bits : ℕ → Bool) (j : ℕ) → i ≢ j → with_bit r i bits j ≡ bits j
  with_bit-other true i bits j ne = update-other bits i true j ne
  with_bit-other false i bits j ne = refl

  module _ (n i : ℕ) (k k1 k' : Kernel) (bits bits' : ℕ → Bool) (r : Bool)
      (t : Taken (page_entry k.mem i) k r k1) (empty : bits i ≡ false)
      (rest : Reported n (i + 1) k1 (with_bit r i bits) bits' k') where
    bit_is : bits' i ≡ accessed_in k.mem (page_entry k.mem i)
    bit_is = rest.before i (omega arith) ∙ with_bit-here r i bits empty ∙ t.0

    still_clear : accessed_in k'.mem (page_entry k.mem i) ≡ false
    still_clear = elim (Bool-cases (accessed_in k'.mem (page_entry k.mem i))) [
      | inl h ↦ absurd (cc (accessed-Cleaned rest.cleaned (page_entry k.mem i) h, t.3))
      | inr h ↦ h
    ]

    unlike :
        (j : ℕ)
        → page_entry k.mem i ≢ page_entry k.mem j
        → accessed_in k.mem (page_entry k.mem j) ≡ true
        → accessed_in k1.mem (page_entry k1.mem j) ≡ true
    unlike j ne h =
        rw (page_entry-Cleaned t.2 j)
          (ap (λ (v : ℕ). if page_entry k.mem j == 0 then false else pte_a v) (t.4 _ ne) ∙ h)

    moved :
        (j : ℕ)
        → ((t' : ℕ) × (i + 1 ≤ t')
            × (t' < n)
            × (page_entry k1.mem t' ≡ page_entry k1.mem j)
            × (bits' t' ≡ true))
        → (t' : ℕ) × (i ≤ t')
          × (t' < n)
          × (page_entry k.mem t' ≡ page_entry k.mem j)
          × (bits' t' ≡ true)
    moved j (t', lo, hi, e, b) =
        (t', omega arith, hi, sym (page_entry-Cleaned t.2 t') ∙ e ∙ page_entry-Cleaned t.2 j, b)

    page_more : i < n → Reported n i k bits bits' k'
    page_more small = record {
      same = rest.same ∙ ap (λ (s : Kernel). record s { mem = k'.mem }) t.1;
      cleaned = Cleaned-trans t.2 rest.cleaned;
      frame = λ a off.
          rest.frame a (λ j lo hi e. off j (omega arith) hi (sym (page_entry-Cleaned t.2 j) ∙ e))
          ∙ t.4 a (off i (omega arith) small);
      gone = λ j lo hi. elim (Bool-cases (i == j)) [
        | inl e ↦ rw (← ==→eq i j e) still_clear
        | inr ne ↦
            ap (accessed_in k'.mem) (sym (page_entry-Cleaned t.2 j)) ∙ rest.gone j (ground arith) hi
      ];
      before = λ j lo. rest.before j (omega arith) ∙ with_bit-other r i bits j (λ e. omega arith);
      only = λ j lo hi h. elim (Bool-cases (i == j)) [
        | inl e ↦ rw (← ==→eq i j e) (sym bit_is ∙ ap bits' (==→eq i j e) ∙ h)
        | inr ne ↦ accessed-Cleaned t.2 _ (
            ap (accessed_in k1.mem) (sym (page_entry-Cleaned t.2 j))
            ∙ rest.only j (ground arith) hi h)
      ];
      every = λ j lo hi h. elim (Bool-cases (page_entry k.mem i == page_entry k.mem j)) [
        | inl e ↦
            (i, omega arith, small, ==→eq _ _ e, bit_is ∙ ap (accessed_in k.mem) (==→eq _ _ e) ∙ h)
        | inr ne ↦ elim (Bool-cases (i == j)) [
          | inl e ↦ absurd (cc (eq→== _ _ (ap (page_entry k.mem) (==→eq i j e)), ne))
          | inr ne' ↦
              moved j (rest.every j (ground arith) hi (unlike j (λ e. cc (eq→== _ _ e, ne)) h))
        ]
      ];
    }

  module _ ⦃l : Layout⦄ where
    no_wrap :
        (n i : ℕ) → i < n → start + n * 4096 ≤ 2 ^ 38 → u64 (start + i * 4096) ≡ start + i * 4096
    no_wrap n i h fits = omega arith

    nothing_left : (n i : ℕ) (bits : ℕ → Bool) (k : Kernel) → n ≤ i → Reported n i k bits bits k
    nothing_left n i bits k h = record {
      same = refl;
      cleaned = λ x. inl refl;
      frame = λ a off. refl;
      gone = λ j lo hi. absurd (omega arith);
      before = λ j lo. refl;
      only = λ j lo hi. absurd (omega arith);
      every = λ j lo hi. absurd (omega arith);
    }

    pages_scanned :
        (f n i : ℕ) (bits : ℕ → Bool) (k : Kernel)
        → n < f + i
        → i ≤ n
        → n ≤ 512
        → start + n * 4096 ≤ 2 ^ 38
        → ((j : ℕ) → i ≤ j → bits j ≡ false)
        → Returns (Reported n i k bits) (pgaccess_loop f pt start n i bits k)
    unfolding pgaccess_loop
    pages_scanned zero n i bits k fuel le few fits empty = absurd (omega arith)
    pages_scanned (suc f) n i bits k fuel le few fits empty = elim (Bool-cases (ltb i n)) [
      | inr done ↦ rw done (returns (nothing_left n i bits k (ground arith)))
      | inl more ↦ rw more (
          rw (no_wrap n i (ltb→lt i n more) fits) (
            Returns.bind
              (take_access-Taken pt (start + i * 4096) i k (omega (arith, ltb→lt i n more))
                (omega (arith, ltb→lt i n more)))
              (λ r k1 t.
                Returns.weaken
                  (pages_scanned f n (i + 1) (with_bit r i bits) k1 (omega arith)
                    (omega (arith, ltb→lt i n more)) few fits
                    (λ j lo. with_bit-other r i bits j (λ e. omega arith) ∙ empty j (omega arith)))
                  (λ bits' k' rest.
                    page_more n i k k1 k' bits bits' r t (empty i (omega arith)) rest
                      (ltb→lt i n more)))))
    ]

    -- The loop of sys_pgaccess over at most 512 pages that end at or below MAXVA returns and changes
    -- nothing but access bits, which it only clears, and only in words of memory that are the
    -- page-table entries of pages of the range: no page of the range has its access bit any more, a page that is reported had it, and for every page that had it there is one with the
    -- same page-table entry that is reported, the page itself where the entries differ.
    pub pgaccess_loop-Reported :
        (n : ℕ) (k : Kernel)
        → n ≤ 512
        → start + n * 4096 ≤ 2 ^ 38
        → Returns
            (Reported n 0 k (λ _. false))
            (pgaccess_loop page_fuel pt start n 0 (λ _. false) k)
    unfolding page_fuel
    pgaccess_loop-Reported n k few fits =
        pages_scanned (2 ^ 26 + 1) n 0 (λ _. false) k (omega arith) (omega arith) few fits
          (λ j lo. refl)

    -- A second run of the loop over the same pages, with no access in between, reports none of them.
    pub pgaccess_loop_once :
        (n : ℕ) (k : Kernel)
        → n ≤ 512
        → start + n * 4096 ≤ 2 ^ 38
        → Returns
            (λ bits k'. (j : ℕ) → j < n → bits j ≡ false)
            ((do
              pgaccess_loop page_fuel pt start n 0 (λ _. false)
              pgaccess_loop page_fuel pt start n 0 (λ _. false))
              k)
    pgaccess_loop_once n k few fits =
        Returns.bind (pgaccess_loop-Reported n k few fits) (λ bits1 k1 first.
          Returns.weaken (pgaccess_loop-Reported n k1 few fits) (λ bits2 k2 second j hi.
            elim (Bool-cases (bits2 j)) [
              | inr h ↦ h
              | inl h ↦ absurd (
                  cc (
                    second.only j (omega arith) hi h,
                    first.gone j (omega arith) hi,
                    page_entry-Cleaned first.cleaned j,
                  ))
            ]))
