-- ===== src/Vm/Copy/Strings.antt =====
-- copyinstr against reading user memory byte by byte.
use mathlib.Core.Option
use learning_mits.Base.{
  ℕ, zero, suc, ◌+◌, ◌-◌, ◌<◌, ◌≡◌, ◌≢◌, refl, arith, ap, sym, ◌∙◌, inl, inr, Option, none, some,
  List, [], ◌∷◌, ◌++◌, ◌==◌, Bool-cases, ==→eq, ==→ne, leb→le, leb→gt, leb, append_assoc, subst,
  Bool, true, false, if◌then◌else◌,
}
use learning_mits.Kernel.{Kernel, M, pure, Run, ok, Status, success, failure}
use learning_mits.Kernel.Memory.{Memory, load_byte}
use learning_mits.Layout.{Layout}
use learning_mits.Riscv.{u64, pgrounddown, pgsize, maxva}
use learning_mits.Vm.Walk.Lookup.{walkaddr-user_page, on_some}
use learning_mits.Vm.Copy.{chunk, scan_string, copyinstr_loop, copyinstr}
use learning_mits.Vm.Copy.Chunk.{chunk_sum, chunk_fits, chunk_ends, chunk_bounds}
use learning_mits.Vm.Copy.Seen.{
  page_at, user_addr, page_at_beyond, user_addr_unmapped, page-Block, Block, Block-head, Block-tail,
}

-- The bytes at `va` up to the first 0, that one included, if it stands among `max` mapped bytes.
unfoldable pub user_string : Memory → ℕ → ℕ → ℕ → Option (List ℕ)
unfolding user_addr
user_string m pagetable va zero = none
user_string m pagetable va (suc n) =
    let rest = user_string m pagetable (va + 1) n in
    on_some (user_addr m pagetable va)
      λ a. if load_byte m a == 0 then some (0 ∷ []) else Option.map (λ bs. load_byte m a ∷ bs) rest

-- What copyinstr answers when user code sees the string `seen`: the string; or failure, with what it
-- has copied. The state stays.
abbrev pub CopiedString : Kernel → Option (List ℕ) → Run (Status × List ℕ) → Type 0
CopiedString k (some bytes) r = r ≡ ok (success, bytes) k
CopiedString k none r = (copied : List ℕ) × (r ≡ ok (failure, copied) k)

-- A string that ends in the bytes of one page, or goes on behind them.
abbrev after_scan : List ℕ × Bool → Option (List ℕ) → Option (List ℕ)
after_scan (bytes, true) rest = some bytes
after_scan (bytes, false) rest = Option.map (λ bs. bytes ++ bs) rest

module _ (m : Memory) (pt : ℕ) where
  user_string-Block :
      (n r va p : ℕ)
      → Block m pt va p n
      → user_string m pt va (n + r) ≡ after_scan (scan_string m p n) (user_string m pt (va + n) r)
  unfolding user_string scan_string
  user_string-Block zero r va p h =
      let e : 0 + r ≡ r = omega arith in
      let e' : va + 0 ≡ va = omega arith in
      rw (e, e') (sym (ap (λ g. g (user_string m pt va r)) Option.map-id))
  user_string-Block (suc n) r va p h =
      let e : suc n + r ≡ suc (n + r) = omega arith in
      let e' : va + suc n ≡ va + 1 + n = omega arith in
      rw (e, e', Block-head m pt va p n h)
        (elim (Bool-cases (load_byte m p == 0)) [
          | inl z ↦ rw z refl
          | inr nz ↦
              rw (nz, user_string-Block n r (va + 1) (p + 1) (Block-tail m pt va p n h))
                (longer (scan_string m (p + 1) n) (user_string m pt (va + 1 + n) r))
        ])
    where
      longer :
          (s : List ℕ × Bool) (rest : Option (List ℕ))
          → Option.map (λ bs. load_byte m p ∷ bs) (after_scan s rest)
            ≡ after_scan (load_byte m p ∷ s.0, s.1) rest
      longer (bytes, true) rest = refl
      longer (bytes, false) none = refl
      longer (bytes, false) (some bs) = refl

user_string_unmapped :
    (m : Memory) (pt va max : ℕ) → page_at m pt va ≡ 0 → user_string m pt va max ≡ none
unfolding user_string
user_string_unmapped m pt va zero e = refl
user_string_unmapped m pt va (suc max) e = rw (user_addr_unmapped m pt va e) refl

-- Where the next round goes on.
next_page :
    (m : Memory) (pt va max : ℕ)
    → page_at m pt va ≢ 0
    → user_string m pt (va + chunk va max) (max - chunk va max)
      ≡ user_string m pt (u64 (pgrounddown va + pgsize)) (max - chunk va max)
unfolding user_string
next_page m pt va max ne = elim (Bool-cases (leb maxva va)) [
  | inl big ↦ absurd (ne (page_at_beyond m pt va (leb→le _ _ big)))
  | inr small ↦ elim (chunk_ends va max (leb→gt _ _ small)) [
    | inl z ↦ rw z refl
    | inr e ↦ rw e refl
  ]
]

after_chunk :
    (m : Memory) (pt va max : ℕ)
    → page_at m pt va ≢ 0
    → user_string m pt va max
      ≡ after_scan
          (scan_string m (page_at m pt va + (va - pgrounddown va)) (chunk va max))
          (user_string m pt (u64 (pgrounddown va + pgsize)) (max - chunk va max))
after_chunk m pt va max ne =
    ap (user_string m pt va) (chunk_sum va max)
    ∙ user_string-Block m pt (chunk va max) (max - chunk va max) va _
        (page-Block m pt va (chunk va max) (chunk_fits va max) ne)
    ∙ ap (after_scan _) (next_page m pt va max ne)

empty-CopiedString :
    (k : Kernel) (pt : ℕ) (dst : List ℕ) (va : ℕ)
    → CopiedString k
        (Option.map (λ bs. dst ++ bs) (user_string k.mem pt va 0))
        (ok (failure, dst) k)
unfolding user_string
empty-CopiedString k pt dst va = (dst, refl)

-- What has been copied before a string.
abbrev behind : List ℕ → Option (List ℕ) → Option (List ℕ)
behind dst o = Option.map (λ bs. dst ++ bs) o

module _ ⦃l : Layout⦄ where
  scanned-CopiedString :
      (k : Kernel) (dst : List ℕ) (s : List ℕ × Bool) (rest : Option (List ℕ))
      (next : M (Status × List ℕ))
      → CopiedString k (behind (dst ++ s.0) rest) (next k)
      → CopiedString k
          (behind dst (after_scan s rest))
          ((if s.1 then pure (success, dst ++ s.0) else next) k)
  scanned-CopiedString k dst (bytes, true) rest next c = refl
  scanned-CopiedString k dst (bytes, false) none next c = c
  scanned-CopiedString k dst (bytes, false) (some bs) next c = rw (← append_assoc dst bytes bs) c

  copyinstr_loop-CopiedString :
      (f pt : ℕ) (dst : List ℕ) (va max : ℕ) (k : Kernel)
      → max < f
      → CopiedString k (behind dst (user_string k.mem pt va max)) (copyinstr_loop f pt dst va max k)
  unfolding copyinstr_loop
  copyinstr_loop-CopiedString zero pt dst va max k h = absurd (omega arith)
  copyinstr_loop-CopiedString (suc f) pt dst va max k h = elim (Bool-cases (max == 0)) [
    | inl z ↦ rw (z, ==→eq max 0 z) (empty-CopiedString k pt dst va)
    | inr nz ↦
        rw (nz, walkaddr-user_page k pt (pgrounddown va))
          (elim (Bool-cases (page_at k.mem pt va == 0)) [
            | inl e ↦ rw (e, user_string_unmapped k.mem pt va max (==→eq _ 0 e)) (dst, refl)
            | inr ne ↦
                rw (ne, after_chunk k.mem pt va max (==→ne _ 0 ne))
                  (scanned-CopiedString k dst
                    (scan_string k.mem (page_at k.mem pt va + (va - pgrounddown va)) (chunk va max))
                    _ _
                    (copyinstr_loop-CopiedString f pt _ _ _ k
                      (ground (arith, chunk_bounds va max))))
          ])
  ]

  -- copyinstr answers 0 with the string that user code sees at srcva, its 0 included, if a 0 stands
  -- among the first max bytes and the page table maps the bytes up to it; else -1, when a page is
  -- missing before a 0 is found or when there is none among max bytes. It changes nothing.
  pub copyinstr-user_string :
      (k : Kernel) (pt srcva max : ℕ)
      → CopiedString k (user_string k.mem pt srcva max) (copyinstr pt srcva max k)
  unfolding copyinstr
  copyinstr-user_string k pt srcva max =
      subst (λ o. CopiedString k o (copyinstr pt srcva max k))
        (same (user_string k.mem pt srcva max))
        (copyinstr_loop-CopiedString (max + 1) pt [] srcva max k (omega arith))
    where
      same : (o : Option (List ℕ)) → Option.map (λ bs. [] ++ bs) o ≡ o
      same none = refl
      same (some bs) = refl
