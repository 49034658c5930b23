-- ===== src/Kalloc/Chain.antt =====
-- The free list of a memory as a list of pages, and what leaves it alone.
use learning_mits.Base.{ℕ, ◌%◌, ◌≤◌, ◌<◌, ◌≡◌, ◌≢◌, true, false, List, [], ◌∷◌, ap, arith, has}
use learning_mits.Kernel.{Kernel}
use learning_mits.Kernel.Memory.{Memory, in_page, fill}
use learning_mits.Layout.{Layout}

pub ne_of_has : (a q : ℕ) (ps : List ℕ) → has a ps ≡ true → has q ps ≡ false → q ≢ a
ne_of_has a q ps i out e = cc (ap (λ x. has x ps) e)

-- At most the page at `p` differs.
abbrev pub SameOutside : ℕ → Memory → Memory → Type 0
SameOutside p m m' = (a : ℕ) → in_page p a ≡ false → m' a ≡ m a

module _ ⦃l : Layout⦄ where
  open l use {end, phystop}

  -- A page that kfree accepts.
  pub record IsPage (p : ℕ) : Type 0 where
    pub aligned : p % 4096 ≡ 0
    pub above : end ≤ p
    pub below : p < phystop

  -- From `p` the `next` words lead through the distinct pages `ps` to 0.
  pub data Chain (m : Memory) : ℕ → List ℕ → Type 0 where
    nil : Chain m 0 []
    cons :
        {p : ℕ} {ps : List ℕ}
        → p ≢ 0
        → IsPage p
        → has p ps ≡ false
        → Chain m (m p) ps
        → Chain m p (p ∷ ps)

  pub ne-in_page : (p q : ℕ) → p % 4096 ≡ 0 → q % 4096 ≡ 0 → p ≢ q → in_page p q ≡ false
  ne-in_page p q hp hq ne = ground arith

  -- A chain survives a change that spares the first words of its pages.
  pub Chain-frame :
      {m m' : Memory} {p : ℕ} {ps : List ℕ}
      → Chain m p ps
      → ((a : ℕ) → has a ps ≡ true → a % 4096 ≡ 0 → m' a ≡ m a)
      → Chain m' p ps
  Chain-frame nil same = nil
  Chain-frame {m' = m'} (cons {p = p} {ps = ps} ne pg out c) same =
      cons ne pg out
        (rw (same p (ground arith) pg.aligned) (Chain-frame c (λ a i al. same a (ground arith) al)))

  -- Filling a page that is not on the list spares it.
  pub Chain-fill :
      {m : Memory} {p : ℕ} {ps : List ℕ} (q c : ℕ)
      → q % 4096 ≡ 0
      → has q ps ≡ false
      → Chain m p ps
      → Chain (fill q c m) p ps
  unfolding fill
  Chain-fill {ps = ps} q c al out ch =
      Chain-frame ch (λ a i ha. rw (ne-in_page q a al ha (ne_of_has a q ps i out)))

  -- `ps` are the free pages of the kernel, in the order in which kalloc gives them out.
  abbrev pub Free : Kernel → List ℕ → Type 0
  Free k ps = Chain k.mem k.freelist ps
