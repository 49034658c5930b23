-- ===== src/Vm/Copy/Reads.antt =====
-- copyin against reading user memory byte by byte.
use mathlib.Core.Option
use learning_mits.Base.{
  ℕ, zero, suc, ◌+◌, ◌-◌, ◌<◌, ◌≡◌, ◌≢◌, refl, arith, ap, subst, ◌∙◌, inl, inr, Option, none, some,
  List, [], ◌++◌, ◌==◌, Bool-cases, ==→eq, ==→ne, leb→le, leb→gt, leb, append_assoc, append-nil,
}
use learning_mits.Kernel.{Kernel, Run, ok, Status, success, failure}
use learning_mits.Kernel.Memory.{load_bytes}
use learning_mits.Layout.{Layout}
use learning_mits.Riscv.{u64, pgrounddown, pgsize, maxva}
use learning_mits.Vm.Walk.Lookup.{walkaddr-user_page}
use learning_mits.Vm.Copy.{chunk, copyin_loop, copyin}
use learning_mits.Vm.Copy.Chunk.{chunk_sum, chunk_fits, chunk_ends, chunk_bounds}
use learning_mits.Vm.Copy.Seen.{
  page_at_beyond, page_at, user_read, user_addr_unmapped, user_read-Block, page-Block,
}

-- What copyin answers when user code reads `seen`: the bytes; or failure, with what it has copied
-- before the page that is missing. The state stays.
abbrev pub Copied : Kernel → Option (List ℕ) → Run (Status × List ℕ) → Type 0
Copied k (some bytes) r = r ≡ ok (success, bytes) k
Copied k none r = (copied : List ℕ) × (r ≡ ok (failure, copied) k)

-- A byte that no page holds stops the reading.
user_read_unmapped :
    (k : Kernel) (pt va len : ℕ)
    → len ≢ 0
    → page_at k.mem pt va ≡ 0
    → user_read k.mem pt va len ≡ none
unfolding user_read
user_read_unmapped k pt va zero ne e = absurd (ne refl)
user_read_unmapped k pt va (suc len) ne e = rw (user_addr_unmapped k.mem pt va e) refl

-- Where the next round goes on.
next_page :
    (k : Kernel) (pt va len : ℕ)
    → page_at k.mem pt va ≢ 0
    → user_read k.mem pt (va + chunk va len) (len - chunk va len)
      ≡ user_read k.mem pt (u64 (pgrounddown va + pgsize)) (len - chunk va len)
unfolding user_read
next_page k pt va len ne = elim (Bool-cases (leb maxva va)) [
  | inl big ↦ absurd (ne (page_at_beyond k.mem pt va (leb→le _ _ big)))
  | inr small ↦ elim (chunk_ends va len (leb→gt _ _ small)) [
    | inl z ↦ rw z refl
    | inr e ↦ rw e refl
  ]
]

empty-Copied :
    (k : Kernel) (pt : ℕ) (dst : List ℕ) (va : ℕ)
    → Copied k (Option.map (λ bs. dst ++ bs) (user_read k.mem pt va 0)) (ok (success, dst) k)
unfolding user_read
empty-Copied k pt dst va = rw (append-nil dst) refl

module _ ⦃l : Layout⦄ where
  -- The rest of a read after the bytes of one page.
  rest-Copied :
      (k : Kernel) (dst bytes : List ℕ) (o : Option (List ℕ)) (r : Run (Status × List ℕ))
      → Copied k (Option.map (λ bs. (dst ++ bytes) ++ bs) o) r
      → Copied k (Option.map (λ bs. dst ++ bs) (Option.map (λ bs. bytes ++ bs) o)) r
  rest-Copied k dst bytes none r c = c
  rest-Copied k dst bytes (some bs) r c = rw (← append_assoc dst bytes bs) c

  -- What is left to read after the bytes of one page.
  after_chunk :
      (k : Kernel) (pt va len : ℕ)
      → page_at k.mem pt va ≢ 0
      → user_read k.mem pt va len
        ≡ Option.map
            (λ bs.
              load_bytes k.mem (page_at k.mem pt va + (va - pgrounddown va)) (chunk va len) ++ bs)
            (user_read k.mem pt (u64 (pgrounddown va + pgsize)) (len - chunk va len))
  after_chunk k pt va len ne =
      ap (user_read k.mem pt va) (chunk_sum va len)
      ∙ user_read-Block k.mem pt (chunk va len) (len - chunk va len) va _
          (page-Block k.mem pt va (chunk va len) (chunk_fits va len) ne)
      ∙ ap (Option.map _) (next_page k pt va len ne)

  copyin_loop-Copied :
      (f pt : ℕ) (dst : List ℕ) (va len : ℕ) (k : Kernel)
      → len < f
      → Copied k
          (Option.map (λ bs. dst ++ bs) (user_read k.mem pt va len))
          (copyin_loop f pt dst va len k)
  unfolding copyin_loop
  copyin_loop-Copied zero pt dst va len k h = absurd (omega arith)
  copyin_loop-Copied (suc f) pt dst va len k h = elim (Bool-cases (len == 0)) [
    | inl z ↦ rw (z, ==→eq len 0 z) (empty-Copied k pt dst va)
    | inr nz ↦
        rw (nz, walkaddr-user_page k pt (pgrounddown va))
          (elim (Bool-cases (page_at k.mem pt va == 0)) [
            | inl e ↦
                rw (e, user_read_unmapped k pt va len (==→ne len 0 nz) (==→eq _ 0 e)) (dst, refl)
            | inr ne ↦
                rw (ne, after_chunk k pt va len (==→ne _ 0 ne))
                  (rest-Copied k dst _ _ _
                    (copyin_loop-Copied f pt _ _ _ k (ground (arith, chunk_bounds va len))))
          ])
  ]

  -- copyin answers 0 with the bytes that user code sees from srcva on, if the page table maps all of
  -- them, and -1 if one of them is not mapped; it changes nothing.
  pub copyin-user_read :
      (k : Kernel) (pt srcva len : ℕ)
      → Copied k (user_read k.mem pt srcva len) (copyin pt srcva len k)
  unfolding copyin
  copyin-user_read k pt srcva len =
      subst (λ o. Copied k o (copyin pt srcva len k)) (same (user_read k.mem pt srcva len))
        (copyin_loop-Copied (len + 1) pt [] srcva len k (omega arith))
    where
      same : (o : Option (List ℕ)) → Option.map (λ bs. [] ++ bs) o ≡ o
      same none = refl
      same (some bs) = refl
