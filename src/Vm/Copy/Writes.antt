-- ===== src/Vm/Copy/Writes.antt =====
-- copyout against writing user memory byte by byte.
use learning_mits.Base.{
  ℕ, zero, suc, ◌+◌, ◌-◌, ◌*◌, ◌/◌, ◌≤◌, ◌<◌, ◌≡◌, ◌≢◌, ◌⊎◌, refl, arith, sym, ap, ◌∙◌, inl, inr,
  All, Option, none, some, List, [], ◌∷◌, ◌==◌, Bool-cases, ==→eq, ==→ne, leb→le, leb→gt, leb,
  length, take, drop, length-take, length-drop, take-append-drop,
}
use learning_mits.Kernel.{Kernel, Run, ok, Status, success, failure}
use learning_mits.Kernel.Memory.{Memory, store_byte, store_bytes}
use learning_mits.Kernel.Memory.Bytes.{store_byte_elsewhere}
use learning_mits.Layout.{Layout}
use learning_mits.Riscv.{u64, pgrounddown, pgsize, maxva}
use learning_mits.Vm.Walk.Lookup.{or_zero, walkaddr-user_page}
use learning_mits.Vm.Walk.Words.{walk_words, user_page-eq}
use learning_mits.Vm.Copy.{chunk, copyout_loop, copyout}
use learning_mits.Vm.Copy.Chunk.{chunk_fits, chunk_ends, chunk_bounds}
use learning_mits.Vm.Copy.Seen.{
  page_at, user_addr, user_write, user_addr_unmapped, page_at_beyond, user_write-Block, page-Block,
  Block, Block-head, Block-tail,
}

-- What copyout does when writing byte by byte gives `written`: that memory; or failure, with a part
-- of the bytes written. Of the state only memory changes.
abbrev pub Wrote : Kernel → Option Memory → Run Status → Type 0
Wrote k (some m) r = r ≡ ok success (record k { mem = m })
Wrote k none r = (m : Memory) × (r ≡ ok failure (record k { mem = m }))

-- No byte of the addresses from `lo` up to `hi` stands in a page-table entry for one of them.
abbrev pub OffTables : Memory → ℕ → ℕ → ℕ → Type 0
OffTables m pt lo hi =
    (u v a : ℕ)
    → lo ≤ u
    → u < hi
    → lo ≤ v
    → v < hi
    → user_addr m pt u ≡ some a
    → All (λ e. a / 8 * 8 ≢ e) (walk_words m pt (pgrounddown v))

Wrote-record :
    (k : Kernel) (now : Memory) (o : Option Memory) (r : Run Status)
    → Wrote (record k { mem = now }) o r
    → Wrote k o r
Wrote-record k now (some m) r w = w
Wrote-record k now none r w = w

module _ (m : Memory) (pt lo hi : ℕ) where
  -- The entries for the range are as at first.
  abbrev pub Stable : Memory → Type 0
  Stable now = (v : ℕ) → lo ≤ v → v < hi → All (λ e. now e ≡ m e) (walk_words m pt (pgrounddown v))

  pub page_at-Stable :
      (now : Memory) (va : ℕ) → Stable now → lo ≤ va → va < hi → page_at now pt va ≡ page_at m pt va
  page_at-Stable now va s l h = ap or_zero (user_page-eq m now pt (pgrounddown va) (s va l h))

module _ (m : Memory) (pt lo hi : ℕ) (apart : OffTables m pt lo hi) where
  -- A byte that the page table puts at an address of the range.
  pub store_byte-Stable :
      (x u p : ℕ) (now : Memory)
      → lo ≤ u
      → u < hi
      → user_addr m pt u ≡ some p
      → Stable m pt lo hi now
      → Stable m pt lo hi (store_byte p x now)
  store_byte-Stable x u p now l h e s v lv vh = kept (s v lv vh) (apart u v p l h lv vh e)
    where
      kept :
          All (λ e. now e ≡ m e) (walk_words m pt (pgrounddown v))
          → All (λ e. p / 8 * 8 ≢ e) (walk_words m pt (pgrounddown v))
          → All (λ e. store_byte p x now e ≡ m e) (walk_words m pt (pgrounddown v))
      kept old ne = (
        store_byte_elsewhere p x _ now ne.0 ∙ old.0,
        (
          store_byte_elsewhere p x _ now ne.1.0 ∙ old.1.0,
          (store_byte_elsewhere p x _ now ne.1.1.0 ∙ old.1.1.0, tt),
        ),
      )

  store_bytes-Stable :
      (xs : List ℕ) (now : Memory) (va p : ℕ)
      → lo ≤ va
      → va + length xs ≤ hi
      → Block m pt va p (length xs)
      → Stable m pt lo hi now
      → Stable m pt lo hi (store_bytes p xs now)
  unfolding store_bytes
  store_bytes-Stable [] now va p l h b s = s
  store_bytes-Stable (x ∷ xs) now va p l h b s =
      store_bytes-Stable xs (store_byte p x now) (va + 1) (p + 1) (omega arith) (omega arith)
        (Block-tail m pt va p (length xs) b)
        (store_byte-Stable x va p now l (omega arith) (Block-head m pt va p (length xs) b) s)

  -- A byte that no page holds stops the writing.
  user_write_unmapped :
      (va : ℕ) (src : List ℕ) (now : Memory)
      → length src ≢ 0
      → page_at m pt va ≡ 0
      → user_write m pt va src now ≡ none
  unfolding user_write
  user_write_unmapped va [] now ne e = absurd (ne refl)
  user_write_unmapped va (b ∷ src) now ne e = rw (user_addr_unmapped m pt va e) refl

  user_write_empty :
      (va : ℕ) (src : List ℕ) (k : Kernel)
      → length src ≡ 0
      → Wrote k (user_write m pt va src k.mem) (ok success k)
  unfolding user_write
  user_write_empty va [] k z = refl
  user_write_empty va (b ∷ src) k z = absurd (omega arith)

  -- Where the next round goes on, if bytes are left.
  next :
      (va va' : ℕ) (ys : List ℕ) (now : Memory)
      → (length ys ≡ 0) ⊎ (va ≡ va')
      → user_write m pt va ys now ≡ user_write m pt va' ys now
  unfolding user_write
  next va va' [] now e = refl
  next va va' (y ∷ ys) now (inl z) = absurd (omega arith)
  next va va' (y ∷ ys) now (inr e) = rw e refl

  chunk_rest :
      (va : ℕ) (src : List ℕ)
      → va < maxva
      → (length (drop (chunk va (length src)) src) ≡ 0)
        ⊎ (va + chunk va (length src) ≡ u64 (pgrounddown va + pgsize))
  chunk_rest va src small =
      rw (length-drop (chunk va (length src)) src) (chunk_ends va (length src) small)

  below_maxva : (va : ℕ) → page_at m pt va ≢ 0 → va < maxva
  below_maxva va ne = elim (Bool-cases (leb maxva va)) [
    | inl big ↦ absurd (ne (page_at_beyond m pt va (leb→le _ _ big)))
    | inr small ↦ leb→gt _ _ small
  ]

  -- What is left to write after the bytes of one page.
  after_chunk :
      (va : ℕ) (src : List ℕ) (now : Memory)
      → length src ≢ 0
      → page_at m pt va ≢ 0
      → user_write m pt va src now
        ≡ user_write m pt (u64 (pgrounddown va + pgsize)) (drop (chunk va (length src)) src) (
            store_bytes
              (page_at m pt va + (va - pgrounddown va))
              (take (chunk va (length src)) src)
              now)
  after_chunk va src now full ne =
      let n = chunk va (length src) in
      let fits : n ≤ length src = (chunk_bounds va (length src) (omega arith)).1 in
      ap (λ xs. user_write m pt va xs now) (sym (take-append-drop n src))
      ∙ user_write-Block m pt (take n src) (drop n src) now va _
          (rw (length-take n src fits) (page-Block m pt va n (chunk_fits va (length src)) ne))
      ∙ next _ _ (drop n src) _
          (rw (length-take n src fits) (chunk_rest va src (below_maxva va ne)))

  -- The addresses left lie in the range.
  abbrev InRange : ℕ → List ℕ → Type 0
  InRange va src = (length src ≡ 0) ⊎ ((lo ≤ va) × (va + length src ≤ hi))

  chunk-InRange :
      (va : ℕ) (src : List ℕ)
      → length src ≢ 0
      → page_at m pt va ≢ 0
      → InRange va src
      → InRange (u64 (pgrounddown va + pgsize)) (drop (chunk va (length src)) src)
  chunk-InRange va src full ne range = elim (chunk_rest va src (below_maxva va ne)) [
    | inl z ↦ inl z
    | inr e ↦
        inr (ground (arith, chunk_bounds va (length src), length-drop (chunk va (length src)) src))
  ]

  chunk-Stable :
      (va : ℕ) (src : List ℕ) (now : Memory)
      → length src ≢ 0
      → page_at m pt va ≢ 0
      → InRange va src
      → Stable m pt lo hi now
      → Stable m pt lo hi (
          store_bytes
            (page_at m pt va + (va - pgrounddown va))
            (take (chunk va (length src)) src)
            now)
  chunk-Stable va src now full ne (inl z) s = absurd (full z)
  chunk-Stable va src now full ne (inr (l, h)) s =
      let fits : chunk va (length src) ≤ length src =
        (chunk_bounds va (length src) (omega arith)).1 in
      let len : length (take (chunk va (length src)) src) ≡ chunk va (length src) =
        length-take _ src fits in
      store_bytes-Stable (take (chunk va (length src)) src) now va _ l (omega arith)
        (rw len (page-Block m pt va _ (chunk_fits va (length src)) ne)) s

  module _ ⦃l : Layout⦄ where
    copyout_loop-Wrote :
        (f : ℕ) (src : List ℕ) (va : ℕ) (k : Kernel)
        → length src < f
        → InRange va src
        → Stable m pt lo hi k.mem
        → Wrote k (user_write m pt va src k.mem) (copyout_loop f pt va src k)
    unfolding copyout_loop
    copyout_loop-Wrote zero src va k h range s = absurd (omega arith)
    copyout_loop-Wrote (suc f) src va k h range s = elim (Bool-cases (length src == 0)) [
      | inl z ↦ rw z (user_write_empty va src k (==→eq _ 0 z))
      | inr nz ↦
          rw
            (
              nz,
              walkaddr-user_page k pt (pgrounddown va),
              page_at-Stable m pt lo hi k.mem va s (ground arith) (ground arith),
            )
            (elim (Bool-cases (page_at m pt va == 0)) [
              | inl e ↦
                  rw (e, user_write_unmapped va src k.mem (==→ne _ 0 nz) (==→eq _ 0 e))
                    (k.mem, refl)
              | inr ne ↦
                  rw (ne, after_chunk va src k.mem (==→ne _ 0 nz) (==→ne _ 0 ne))
                    (Wrote-record k
                      (store_bytes (page_at m pt va + (va - pgrounddown va))
                        (take (chunk va (length src)) src) k.mem)
                      _ _
                      (copyout_loop-Wrote f (drop (chunk va (length src)) src)
                        (u64 (pgrounddown va + pgsize))
                        (record k {
                          mem =
                              store_bytes (page_at m pt va + (va - pgrounddown va))
                                (take (chunk va (length src)) src) k.mem;
                        })
                        (ground (
                          arith,
                          chunk_bounds va (length src),
                          length-drop (chunk va (length src)) src,
                        ))
                        (chunk-InRange va src (==→ne _ 0 nz) (==→ne _ 0 ne) range)
                        (chunk-Stable va src k.mem (==→ne _ 0 nz) (==→ne _ 0 ne) range s)))
            ])
    ]

module _ ⦃l : Layout⦄ where
  -- copyout into a range, in a memory that has the range's entries of `m`.
  pub copyout-Wrote :
      (m : Memory) (pt lo hi : ℕ)
      → OffTables m pt lo hi
      → (src : List ℕ) (va : ℕ) (k : Kernel) → lo ≤ va
      → va + length src ≤ hi
      → Stable m pt lo hi k.mem
      → Wrote k (user_write m pt va src k.mem) (copyout pt va src k)
  unfolding copyout
  copyout-Wrote m pt lo hi apart src va k low high s =
      copyout_loop-Wrote m pt lo hi apart (length src + 1) src va k (omega arith) (inr (low, high))
        s

  -- copyout to addresses whose bytes are apart from the page-table entries for them: it answers 0
  -- and has written the bytes where the page table puts them, and nothing else, if all of the
  -- addresses are mapped; and it answers -1, with changes in memory alone, if one is not.
  pub copyout-user_write :
      (k : Kernel) (pt dstva : ℕ) (src : List ℕ)
      → OffTables k.mem pt dstva (dstva + length src)
      → Wrote k (user_write k.mem pt dstva src k.mem) (copyout pt dstva src k)
  copyout-user_write k pt dstva src apart =
      copyout-Wrote k.mem pt dstva (dstva + length src) apart src dstva k (omega arith)
        (omega arith) (λ v lo hi. (refl, (refl, (refl, tt))))
