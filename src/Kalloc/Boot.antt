-- ===== src/Kalloc/Boot.antt =====
-- kinit and freerange: which pages are free after boot.
use learning_mits.Base.{
  ℕ, zero, suc, ◌+◌, ◌-◌, ◌/◌, ◌%◌, ◌≤◌, ◌<◌, ◌≡◌, inl, inr, true, false, List, [], ◌∷◌, arith,
  ◌==◌, leb, Bool-cases, length, has,
}
use learning_mits.Kernel.{Kernel}
use learning_mits.Kernel.Returns
use learning_mits.Kernel.Returns.{Returns, returns}
use learning_mits.Layout.{Layout, IsSane}
use learning_mits.Kalloc.{freerange_loop, freerange, kinit}
use learning_mits.Kalloc.Chain.{IsPage, Chain.nil, Free}
use learning_mits.Kalloc.Pages.{kfree-Free}
use learning_mits.Riscv.{pgroundup}
use learning_mits.Riscv.Rounding.{pgroundup_least}

abbrev AllBelow : ℕ → List ℕ → Type 0
AllBelow p ps = (a : ℕ) → has a ps ≡ true → a < p

not-has_of_below : (p : ℕ) (ps : List ℕ) → AllBelow p ps → has p ps ≡ false
not-has_of_below p ps below = elim (Bool-cases (has p ps)) [
  | inl i ↦ absurd (omega (arith, below p i))
  | inr out ↦ out
]

below-cons : (p : ℕ) (ps : List ℕ) → AllBelow p ps → AllBelow (p + 4096) (p ∷ ps)
below-cons p ps below a i = ground (arith, below a)

module _ ⦃l : Layout⦄ where
  open l use {end, phystop}

  -- The pages `qs` are those of `ps` and every whole page from `p` up to `pa_end`.
  record Freed (p pa_end : ℕ) (ps qs : List ℕ) : Type 0 where
    kept : (a : ℕ) → has a ps ≡ true → has a qs ≡ true
    freed : (a : ℕ) → a % 4096 ≡ 0 → p ≤ a → a + 4096 ≤ pa_end → has a qs ≡ true
    counted : length qs ≡ length ps + (pa_end - p) / 4096

  abbrev FreedIn : ℕ → ℕ → List ℕ → Kernel → Type 0
  FreedIn p pa_end ps k = (qs : List ℕ) × Free k qs × Freed p pa_end ps qs

  Freed-step :
      (p pa_end : ℕ) (ps qs : List ℕ)
      → p % 4096 ≡ 0
      → p + 4096 ≤ pa_end
      → Freed (p + 4096) pa_end (p ∷ ps) qs
      → Freed p pa_end ps qs
  Freed-step p pa_end ps qs al room f = record {
    kept = λ a i. f.kept a (ground arith);
    freed = λ a ha lo hi. elim (Bool-cases (a == p)) [
      | inl e ↦ f.kept a (rw e)
      | inr n ↦ f.freed a ha (ground arith) hi
    ];
    counted = omega (arith, f.counted);
  }

  freerange_loop-Freed :
      (f p pa_end : ℕ) (k : Kernel) (ps : List ℕ)
      → 0 < end
      → pa_end ≤ phystop
      → p % 4096 ≡ 0
      → end ≤ p
      → (pa_end - p) / 4096 < f
      → AllBelow p ps
      → Free k ps
      → Returns (λ _ k'. FreedIn p pa_end ps k') (freerange_loop f pa_end p k)
  unfolding freerange_loop
  freerange_loop-Freed zero p pa_end k ps pos top al lo fuel below free = absurd (omega arith)
  freerange_loop-Freed (suc f) p pa_end k ps pos top al lo fuel below free =
      elim (Bool-cases (leb (p + 4096) pa_end)) [
        | inl room ↦ rw room (
            Returns.bind
              (kfree-Free k p pos free (record { aligned = al; above = lo; below = ground arith })
                (not-has_of_below p ps below))
              (λ _ k' (free', _, _).
                Returns.weaken
                  (freerange_loop-Freed f (p + 4096) pa_end k' (p ∷ ps) pos top (omega arith)
                    (omega arith) (ground arith) (below-cons p ps below) free')
                  (λ _ k'' (qs, fr, all).
                    (qs, fr, Freed-step p pa_end ps qs al (ground arith) all))))
        | inr full ↦ rw full (
            returns (
              ps,
              free,
              record {
                kept = λ a i. i;
                freed = λ a ha h1 h2. absurd (ground arith);
                counted = ground arith;
              },
            ))
      ]

  -- For a sane layout, after kinit on an empty list the free pages are exactly the pages that kfree accepts and that
  -- lie whole below PHYSTOP, each once, and their number is that of the pages above `end`.
  pub kinit-Free :
      (k : Kernel)
      → IsSane l
      → k.freelist ≡ 0
      → Returns
          (λ _ k'.
            (qs : List ℕ) × Free k' qs
            × ((a : ℕ) → IsPage a → has a qs ≡ true)
            × (length qs ≡ (phystop - pgroundup end) / 4096))
          (kinit k)
  unfolding kinit freerange pgroundup
  kinit-Free k sane empty =
      Returns.weaken
        (freerange_loop-Freed (phystop / 4096 + 1) (pgroundup end) phystop _ [] sane.end_pos
          (omega arith) up.0 up.1 (ground arith) (λ a i. cc) (rw empty nil))
        (λ _ k' (qs, free, all). (
          qs,
          free,
          (λ a pg.
              all.freed a pg.aligned (omega (arith, pg.aligned, pg.above))
                (omega (arith, pg.aligned, pg.below))),
          omega (arith, all.counted),
        ))
    where
      up : (pgroundup end % 4096 ≡ 0) × (end ≤ pgroundup end) × (pgroundup end < end + 4096)
      up =
          let (a, b, c, d, e, f) =
            pgroundup_least end (omega (arith, sane.end_le, sane.stop_small)) in
          (a, b, c)
