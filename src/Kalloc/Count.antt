-- ===== src/Kalloc/Count.antt =====
-- freemem counts the free pages. A list of distinct pages is no longer than memory has pages, so
-- the walk of the list ends and the 64-bit sum does not wrap.
use learning_mits.Base.{
  ℕ, zero, suc, ◌+◌, ◌*◌, ◌/◌, ◌%◌, ◌^◌, ◌≤◌, ◌<◌, ◌≡◌, refl, ap, ◌∙◌, true, false, List, [], ◌∷◌,
  arith, ◌==◌, ne→==, ==→eq, if◌then◌else◌, Bool-cases, inl, inr, length, has,
}
use learning_mits.Kernel.{Kernel, ok, acquired, kmem_lock}
use learning_mits.Kernel.Returns.{Returns, returns}
use learning_mits.Layout.{Layout, IsSane}
use learning_mits.Riscv.{u64}
use learning_mits.Kalloc.{freemem_loop, freemem}
use learning_mits.Kalloc.Chain.{IsPage, Chain, Chain.nil, Chain.cons, Free}
use learning_mits.Kalloc.Pages.{SameElse}

abbrev Distinct : List ℕ → Type 0
Distinct [] = Unit
Distinct (p ∷ ps) = (has p ps ≡ false) × Distinct ps

without : ℕ → List ℕ → List ℕ
without q [] = []
without q (p ∷ ps) = if q == p then ps else p ∷ without q ps

length-without : (q : ℕ) (ps : List ℕ) → length ps ≤ suc (length (without q ps))
unfolding without
length-without q [] = omega arith
length-without q (p ∷ ps) = ground (arith, length-without q ps)

has-without : (a q : ℕ) (ps : List ℕ) → has a (without q ps) ≡ true → has a ps ≡ true
unfolding without
has-without a q [] h = h
has-without a q (p ∷ ps) h = ground (arith, has-without a q ps)

without-Distinct :
    (q : ℕ) (ps : List ℕ) → Distinct ps → Distinct (without q ps) × (has q (without q ps) ≡ false)
unfolding without
without-Distinct q [] d = (tt, refl)
without-Distinct q (p ∷ ps) d = elim (Bool-cases (q == p)) [
  | inl e ↦ rw e (d.1, rw (==→eq q p e) d.0)
  | inr n ↦ rw n (let ih = without-Distinct q ps d.1 in ((out d.0, ih.0), rw (n, ih.1)))
]
  where
    out : has p ps ≡ false → has p (without q ps) ≡ false
    out h = elim (Bool-cases (has p (without q ps))) [
      | inl i ↦ cc (has-without p q ps i)
      | inr o ↦ o
    ]

length_le :
    (n : ℕ) (ps : List ℕ)
    → Distinct ps
    → ((a : ℕ) → has a ps ≡ true → (a % 4096 ≡ 0) × (a < n * 4096))
    → length ps ≤ n
length_le zero [] d all = omega arith
length_le zero (p ∷ ps) d all = absurd (ground (arith, all p))
length_le (suc n) ps d all =
    let rest = without-Distinct (n * 4096) ps d in
    omega (
      arith,
      length-without (n * 4096) ps,
      length_le n (without (n * 4096) ps) rest.0
          (λ a i. ground (arith, all a, has-without a (n * 4096) ps i)),
    )

module _ ⦃l : Layout⦄ where
  open l use {end, phystop}

  Chain-Distinct : {m : ℕ → ℕ} {p : ℕ} {ps : List ℕ} → Chain m p ps → Distinct ps
  Chain-Distinct nil = tt
  Chain-Distinct (cons ne pg out c) = (out, Chain-Distinct c)

  -- A free page is a page that kfree accepts.
  pub has-IsPage :
      {m : ℕ → ℕ} {p : ℕ} {ps : List ℕ} (a : ℕ) → Chain m p ps → has a ps ≡ true → IsPage a
  has-IsPage a nil i = cc
  has-IsPage a (cons {p = p} ne pg out c) i = elim (Bool-cases (a == p)) [
    | inl e ↦ rw (==→eq a p e) pg
    | inr n ↦ has-IsPage a c (ground arith)
  ]

  -- The free list never holds more pages than physical memory has.
  pub length-le-pages :
      {m : ℕ → ℕ} {p : ℕ} (ps : List ℕ)
      → phystop % 4096 ≡ 0
      → Chain m p ps
      → length ps ≤ phystop / 4096
  length-le-pages ps al c =
      length_le (phystop / 4096) ps (Chain-Distinct c)
        (λ a i. let pg = has-IsPage a c i in (pg.aligned, omega (arith, pg.below)))

  freemem_loop-length :
      (f count : ℕ) {p : ℕ} (k : Kernel) (ps : List ℕ)
      → Chain k.mem p ps
      → length ps < f
      → count + length ps * 4096 < 2 ^ 64
      → freemem_loop f p count k ≡ ok (count + length ps * 4096) k
  unfolding freemem_loop
  freemem_loop-length zero count k ps c fuel small = absurd (omega arith)
  freemem_loop-length (suc f) count k [] nil fuel small = ap (λ n. ok n k) (omega arith)
  freemem_loop-length (suc f) count k (p ∷ ps) (cons ne pg out c) fuel small =
      rw (ne→== p 0 ne, fits)
        (freemem_loop-length f (count + 4096) k ps c (omega arith) (omega arith)
          ∙ ap (λ n. ok n k) (omega arith))
    where
      fits : u64 (count + 4096) ≡ count + 4096
      fits = omega arith

  -- For a sane layout and a well-formed free list, freemem returns 4096 times the number of free pages, and leaves memory and the list alone.
  pub freemem-length :
      (k : Kernel) (ps : List ℕ)
      → IsSane l
      → Free k ps
      → Returns
          (λ n k'. (n ≡ length ps * 4096) × Free k' ps × (k'.mem ≡ k.mem) × SameElse k k')
          (freemem k)
  unfolding freemem
  freemem-length k ps sane free = rw walk (returns (omega arith, free, refl, (refl, refl, refl)))
    where
      k' : Kernel
      k' = record k { trace = acquired kmem_lock ∷ k.trace }

      walk : freemem_loop (phystop / 4096 + 1) k.freelist 0 k' ≡ ok (0 + length ps * 4096) k'
      walk =
          freemem_loop-length (phystop / 4096 + 1) 0 k' ps free
            (omega (arith, length-le-pages ps sane.stop_aligned free))
            (omega (arith, length-le-pages ps sane.stop_aligned free, sane.stop_small))
