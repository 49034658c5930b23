-- ===== src/Kalloc/Pages.antt =====
-- kalloc and kfree against the list of free pages.
use learning_mits.Base.{
  ℕ, ◌*◌, ◌%◌, ◌<◌, ◌≡◌, refl, ◌≢◌, ◌||◌, true, false, not, List, [], ◌∷◌, arith, ◌==◌, ltb, leb,
  ne→==, eq→==, update, has,
}
use learning_mits.Kernel.{Kernel}
use learning_mits.Kernel.Memory.{in_page, fill}
use learning_mits.Kernel.Returns.{Returns, returns}
use learning_mits.Layout.{Layout}
use learning_mits.Kalloc.{kfree, kalloc}
use learning_mits.Kalloc.Chain.{
  IsPage, Chain, Chain.nil, Chain.cons, Chain-frame, Chain-fill, Free, SameOutside, ne_of_has,
}

-- What the allocator never touches.
abbrev pub SameElse : Kernel → Kernel → Type 0
SameElse k k' = (k'.proc ≡ k.proc) × (k'.nextpid ≡ k.nextpid) × (k'.ticks ≡ k.ticks)

module _ ⦃l : Layout⦄ where
  open l use {end, phystop}

  -- The guard of kfree, on a page that it accepts.
  guard-IsPage :
      (pa : ℕ) → IsPage pa → (not (pa % 4096 == 0) || (ltb pa end || leb phystop pa)) ≡ false
  guard-IsPage pa pg = ground arith

  -- kfree of a page that it accepts and that is not on the well-formed free list, with `end` not 0,
  -- puts it at the head of the list, and changes no memory outside that page.
  pub kfree-Free :
      (k : Kernel) {ps : List ℕ} (pa : ℕ)
      → 0 < end
      → Free k ps
      → IsPage pa
      → has pa ps ≡ false
      → Returns
          (λ _ k'. Free k' (pa ∷ ps) × SameOutside pa k.mem k'.mem × SameElse k k')
          (kfree pa k)
  unfolding kfree fill
  kfree-Free k {ps} pa pos free pg out =
      rw (guard-IsPage pa pg, ne→== pa 0 (omega arith))
        (returns (
          cons (omega arith) pg out (rw (eq→== pa pa refl) chain),
          (λ a h. ground arith),
          (refl, refl, refl),
        ))
    where
      chain : Chain (update (fill pa 1 k.mem) pa k.freelist) k.freelist ps
      chain =
          Chain-frame (Chain-fill pa 1 pg.aligned out free)
            (λ a i al. rw (ne→== pa a (ne_of_has a pa ps i out)))

  -- What kalloc answers, from the list of free pages: its head, or 0 if there is none.
  abbrev pub Popped : Kernel → List ℕ → ℕ → Kernel → Type 0
  Popped k [] r k' = (r ≡ 0) × Free k' [] × (k'.mem ≡ k.mem) × SameElse k k'
  Popped k (p ∷ ps) r k' =
      (r ≡ p)
      × (r ≢ 0)
      × IsPage r
      × (has r ps ≡ false)
      × Free k' ps
      × SameOutside p k.mem k'.mem
      × ((a : ℕ) → in_page p a ≡ true → k'.mem a ≡ 5 * 0x0101010101010101)
      × SameElse k k'

  -- kalloc, on a well-formed free list, takes the first page off it, fills it with 5s and changes no
  -- other memory; with no free page it returns 0 and changes no memory.
  pub kalloc-Popped : (k : Kernel) (ps : List ℕ) → Free k ps → Returns (Popped k ps) (kalloc k)
  unfolding kalloc fill
  kalloc-Popped k [] nil = returns (refl, nil, refl, (refl, refl, refl))
  kalloc-Popped k (p ∷ ps) (cons ne pg out c) = rw (ne→== k.freelist 0 ne) (
      returns (
        refl,
        ne,
        pg,
        out,
        Chain-fill k.freelist 5 pg.aligned out c,
        (λ a h. ground arith),
        (λ a h. rw h refl),
        (refl, refl, refl),
      ))
