-- ===== src/Vm/Walk/Grow.antt =====
-- walk with alloc = 1: it extends the tables with free pages, and leaves a route to the entry.
use learning_mits.Base.{
  ℕ, zero, suc, ◌%◌, ◌<◌, ◌≡◌, refl, ap, ◌∙◌, ◌≢◌, ◌⊎◌, inl, inr, true, false, ◌||◌, List, [], ◌∷◌,
  arith, has-cons, ◌==◌, ne→==, eq→==, ==→eq, update, has,
}
use learning_mits.Kernel.{Kernel}
use learning_mits.Kernel.Memory.{Memory, in_page, fill}
use learning_mits.Kernel.Returns
use learning_mits.Kernel.Returns.{Returns, returns}
use learning_mits.Layout.{Layout, IsSane}
use learning_mits.Riscv.{pte_v, pa2pte, pte2pa, or_v}
use learning_mits.Kalloc.Chain.{IsPage, Chain-frame, Free, SameOutside, ne-in_page, ne_of_has}
use learning_mits.Kalloc.Count.{has-IsPage}
use learning_mits.Kalloc.Pages.{kalloc-Popped}
use learning_mits.Vm.Walk.{pte_addr, walk_down}
use learning_mits.Vm.Walk.Tables.{
  Tables, bottom, cut, more, Apart, has-aligned, inside-Away, entry-Away, table_entry,
}
use learning_mits.Vm.Walk.Entries.{Entries, before, Entries-map, value_new}
use learning_mits.Vm.Walk.Route.{Route, last, down, Away, page_of_Route, pte_addr-in_page}

module _ ⦃l : Layout⦄ where
  -- A walk that came to the entry at `r`, with the tables `ts'` and the free pages `ps'` after it.
  pub record Grown (k : Kernel) (va level pt : ℕ) (ts ps : List ℕ) (r : ℕ) (k' : Kernel)
      (ts' ps' : List ℕ) : Type 0 where
    pub route : Route k'.mem va level pt r ts'
    pub pos : 0 < r
    pub free : Free k' ps'
    pub apart : Apart ts' ps'
    pub kept : (t : ℕ) → has t ps' ≡ true → has t ps ≡ true
    pub tables : (t : ℕ) → has t ts' ≡ true → (has t ts || has t ps) ≡ true
    pub same : (a : ℕ) → Away a ts → Away a ps → k'.mem a ≡ k.mem a
    pub others : Entries (before k.mem ps) k'.mem va level ts'
    pub entry : (k'.mem r ≡ 0) ⊎ ((k'.mem r ≡ k.mem r) × Route k.mem va level pt r ts)

  abbrev pub Grows : Kernel → ℕ → ℕ → ℕ → List ℕ → List ℕ → ℕ → Kernel → Type 0
  Grows k va level pt ts ps r k' =
      ((r ≡ 0) × Free k' [])
      ⊎ ((ts' : List ℕ) × (ps' : List ℕ) × Grown k va level pt ts ps r k' ts' ps')

  module _ (sane : IsSane l) (va : ℕ) where
    more-Grows :
        (k : Kernel) (level pt : ℕ) (ts ps : List ℕ)
        → pt % 4096 ≡ 0
        → has pt ts ≡ false
        → has pt ps ≡ false
        → pte_v (k.mem (pte_addr pt (suc level) va)) ≡ true
        → ((t : ℕ) → has t ts ≡ true → t % 4096 ≡ 0)
        → ((t : ℕ) → has t ps ≡ true → t % 4096 ≡ 0)
        → (r : ℕ) (k' : Kernel)
        → Grows k va level (pte2pa (k.mem (pte_addr pt (suc level) va))) ts ps r k'
        → Grows k va (suc level) pt (pt ∷ ts) ps r k'
    more-Grows k level pt ts ps al out fr v tal pal r k' (inl none) = inl none
    more-Grows k level pt ts ps al out fr v tal pal r k' (inr (ts', ps', g)) = inr (
      pt ∷ ts',
      ps',
      record {
        route = down al out' (rw keep v) (rw keep g.route);
        pos = g.pos;
        free = g.free;
        apart = λ t i. ground (arith, g.apart t, g.kept t);
        kept = g.kept;
        tables = λ t i. ground (arith, g.tables t);
        same = λ a at ap'. g.same a (λ t i. at t (ground arith)) ap';
        others = (
          λ a i ne.
              rw fr (g.same a (inside-Away pt a ts al i out tal) (inside-Away pt a ps al i fr pal)),
          g.others,
        );
        entry = elim g.entry [ inl z ↦ inl z | inr (e, rt) ↦ inr (e, down al out v rt) ];
      },
    )
      where
        keep : k'.mem (pte_addr pt (suc level) va) ≡ k.mem (pte_addr pt (suc level) va)
        keep =
            g.same _ (entry-Away pt (suc level) va ts al out tal)
              (entry-Away pt (suc level) va ps al fr pal)

        out' : has pt ts' ≡ false
        out' = ground (arith, g.tables pt)

    -- The state of the memory when an entry for the new, zeroed page `p` has been made.
    abbrev linked : Memory → ℕ → ℕ → Memory
    linked m a p = update (fill p 0 m) a (or_v (pa2pte p))

    -- A page that has just been zeroed holds no valid entry.
    zeroed-Tables :
        (level pt a p : ℕ) (m : Memory)
        → p % 4096 ≡ 0
        → 0 < p
        → in_page p a ≡ false
        → Tables (linked m a p) va level p (p ∷ [])
    unfolding fill
    zeroed-Tables zero pt a p m al pos out = bottom al pos
    zeroed-Tables (suc level) pt a p m al pos out = cut al pos (ap pte_v zero_entry)
      where
        zero_entry : linked m a p (pte_addr p (suc level) va) ≡ 0
        zero_entry = ground (arith, pte_addr-in_page p (suc level) va)

    -- The entry at the end of a route through the new page alone is zero.
    zeroed_entry :
        (level p a r : ℕ) (m m' : Memory)
        → in_page p a ≡ false
        → Route m' va level p r (p ∷ [])
        → linked m a p r ≡ 0
    unfolding fill
    zeroed_entry level p a r m m' out rt =
        let (t, i, al, inside) = page_of_Route rt in
        let e : t ≡ p = ==→eq t p (ground arith) in
        let inside' : in_page p r ≡ true = rw (← e) inside in ground arith

    cut-Grows :
        (k k1 : Kernel) (level pt p : ℕ) (ps : List ℕ)
        → pt % 4096 ≡ 0
        → IsPage p
        → 0 < pt
        → has pt (p ∷ ps) ≡ false
        → ((t : ℕ) → has t ps ≡ true → t % 4096 ≡ 0)
        → ((a : ℕ) → in_page p a ≡ false → k1.mem a ≡ k.mem a)
        → (r : ℕ) (k' : Kernel)
        → Grows
            (record k1 { mem = linked k1.mem (pte_addr pt (suc level) va) p })
            va
            level
            p
            (p ∷ [])
            ps
            r
            k'
        → Grows k va (suc level) pt (pt ∷ []) (p ∷ ps) r k'
    unfolding fill
    cut-Grows k k1 level pt p ps al pg pos fr pal old r k' (inl none) = inl none
    cut-Grows k k1 level pt p ps al pg pos fr pal old r k' (inr (ts', ps', g)) = inr (
      pt ∷ ts',
      ps',
      record {
        route =
            down al (ground (arith, g.tables pt)) (rw entry made.0) (rw (entry, made.1) g.route);
        pos = g.pos;
        free = g.free;
        apart = λ t i. ground (arith, g.apart t, g.kept t);
        kept = λ t i. ground (arith, g.kept t);
        tables = λ t i. ground (arith, g.tables t);
        same = λ a at ap'. spared a (differs a at) ap';
        others = (
          λ a i ne. rw fr (spared a ne (inside-Away pt a (p ∷ ps) al i fr aligned)),
          Entries-map _ _ _ _ _ _
              (λ t h a i.
                value_new (t == p) (has t ps) _ (k.mem a) (ground (arith, g.tables t h))
                  (λ e. new_word a (rw (← ==→eq t p e) i)))
              g.others,
        );
        entry = inl (elim g.entry [ inl z ↦ z | inr (e, rt) ↦ e ∙ new_entry rt ]);
      },
    )
      where
        far : in_page p (pte_addr pt (suc level) va) ≡ false
        far =
            entry-Away pt (suc level) va (p ∷ []) al (ground arith)
              (λ t i. ground (arith, pg.aligned)) p (ground arith)

        new_entry :
            Route (linked k1.mem (pte_addr pt (suc level) va) p) va level p r (p ∷ [])
            → linked k1.mem (pte_addr pt (suc level) va) p r ≡ 0
        new_entry rt = zeroed_entry level p (pte_addr pt (suc level) va) r k1.mem _ far rt

        made : (pte_v (or_v (pa2pte p)) ≡ true) × (pte2pa (or_v (pa2pte p)) ≡ p)
        made = table_entry p pg.aligned (omega (arith, pg.below, sane.stop_small))

        entry : k'.mem (pte_addr pt (suc level) va) ≡ or_v (pa2pte p)
        entry =
            g.same _
              (entry-Away pt (suc level) va (p ∷ []) al (ground arith)
                (λ t i. ground (arith, pg.aligned)))
              (entry-Away pt (suc level) va ps al (ground arith) pal)
            ∙ rw (eq→== (pte_addr pt (suc level) va) _ refl)

        aligned : (t : ℕ) → has t (p ∷ ps) ≡ true → t % 4096 ≡ 0
        aligned t h = elim (has-cons t p ps h) [ inl e ↦ rw e pg.aligned | inr i ↦ pal t i ]

        -- A word of the new page.
        new_word : (a : ℕ) → in_page p a ≡ true → linked k1.mem (pte_addr pt (suc level) va) p a ≡ 0
        new_word a inside =
            rw (ne→== (pte_addr pt (suc level) va) a (λ e. cc (ap (in_page p) e, far, inside)))
              (rw inside refl)

        spared : (a : ℕ) → pte_addr pt (suc level) va ≢ a → Away a (p ∷ ps) → k'.mem a ≡ k.mem a
        spared a ne ap' =
            g.same a (λ t i. ap' t (ground arith)) (λ t i. ap' t (ground arith))
            ∙ rw (ne→== (pte_addr pt (suc level) va) a ne)
                (rw (ap' p (ground arith)) (old a (ap' p (ground arith))))

        differs : (a : ℕ) → Away a (pt ∷ []) → pte_addr pt (suc level) va ≢ a
        differs a at e =
            cc (ap (in_page pt) e, pte_addr-in_page pt (suc level) va, at pt (ground arith))

    -- After the store of a new table the rest of the free list is still there.
    linked-Free :
        (k1 : Kernel) (level pt p : ℕ) (ps : List ℕ)
        → pt % 4096 ≡ 0
        → p % 4096 ≡ 0
        → has pt (p ∷ ps) ≡ false
        → has p ps ≡ false
        → Free k1 ps
        → Free (record k1 { mem = linked k1.mem (pte_addr pt (suc level) va) p }) ps
    unfolding fill
    linked-Free k1 level pt p ps al pal fr out free = Chain-frame free (λ a i ha.
        rw (ne→== (pte_addr pt (suc level) va) a (differs a i ha))
          (rw (ne-in_page p a pal ha (ne_of_has a p ps i out)) refl))
      where
        differs : (a : ℕ) → has a ps ≡ true → a % 4096 ≡ 0 → pte_addr pt (suc level) va ≢ a
        differs a i ha e = cc (
          ap (in_page pt) e,
          pte_addr-in_page pt (suc level) va,
          ne-in_page pt a al ha (ne_of_has a pt ps i (ground arith)),
        )

    -- walk with alloc = 1 from any level, for a sane layout and tables for va that are apart from
    -- the free pages: it finds a route to the entry, whose new tables come from the free list, and
    -- changes memory only in the tables and in the free pages; in a table of the route only the
    -- entry on the way differs from what the table held before or, in a new table, from 0; the
    -- entry at the end is 0 or was on the route before; or no page is left, and it answers 0.
    pub walk_down-Grows :
        (level : ℕ) {pt : ℕ} {ts : List ℕ} (ps : List ℕ) (k : Kernel)
        → Tables k.mem va level pt ts
        → Free k ps
        → Apart ts ps
        → Returns (Grows k va level pt ts ps) (walk_down level pt va true k)
    unfolding walk_down
    walk_down-Grows zero ps k (bottom {pt} al pos) free apart = returns (
        inr (
          pt ∷ [],
          ps,
          record {
            route = last al;
            pos = omega arith;
            free = free;
            apart = apart;
            kept = λ t i. i;
            tables = λ t i. ground arith;
            same = λ a at ap'. refl;
            others = ((λ a i. rw (apart pt (ground arith)) refl), tt);
            entry = inr (refl, last al);
          },
        ))
    walk_down-Grows (suc level) ps k (more {pt} {ts} al pos out v tb) free apart = rw v (
        Returns.weaken (walk_down-Grows level ps k tb free (λ t i. apart t (ground arith))) (
          more-Grows k level pt ts ps al out (apart pt (ground arith)) v (λ t i. has-aligned t tb i)
            (λ t i. (has-IsPage t free i).aligned)))
    walk_down-Grows (suc level) [] k (cut {pt} al pos n) free apart = rw n (
        Returns.bind (kalloc-Popped k [] free)
          (λ p k1 (zero_page, free1, _, _). rw zero_page (returns (inl (refl, free1)))))
    walk_down-Grows (suc level) (p0 ∷ ps) k (cut {pt} al pos n) free apart = rw n (
        Returns.bind (kalloc-Popped k (p0 ∷ ps) free) (λ p k1 (is_p, nz, pg, out, free1, old, _, _).
          let fr : has pt (p ∷ ps) ≡ false = rw is_p (apart pt (ground arith)) in
          let old' : SameOutside p k.mem k1.mem = rw is_p old in
          let far : in_page p (pte_addr pt (suc level) va) ≡ false =
            entry-Away pt (suc level) va (p ∷ []) al (ground arith)
              (λ t i. ground (arith, pg.aligned)) p (ground arith) in
          rw (ne→== p 0 nz, ← is_p)
            (Returns.weaken
              (walk_down-Grows level ps _
                (zeroed-Tables level pt (pte_addr pt (suc level) va) p k1.mem pg.aligned
                  (omega arith) far)
                (linked-Free k1 level pt p ps al pg.aligned fr out free1)
                (λ t i. ground (arith, out)))
              (cut-Grows k k1 level pt p ps al pg pos fr (λ t i. (has-IsPage t free1 i).aligned)
                old'))))
