-- ===== src/Vm/Map/RoundTrip.antt =====
-- mappages of one page, and the translation that walkaddr then finds.
use learning_mits.Base.{
  ℕ, suc, ◌+◌, ◌*◌, ◌/◌, ◌%◌, ◌^◌, ◌<◌, ◌≡◌, refl, ap, ◌≢◌, ◌⊎◌, inl, inr, true, false, none, some,
  List, [], arith, ◌==◌, ne→==, eq→==, lt→leb, if◌then◌else◌, update, has,
}
use learning_mits.Kernel.{Kernel, M, Status, success, failure, page_fuel}
use learning_mits.Kernel.Memory.{Memory, in_page}
use learning_mits.Kernel.Returns
use learning_mits.Kernel.Returns.{Returns, returns}
use learning_mits.Layout.{Layout, IsSane}
use learning_mits.Riscv.{u64, sub64, pgsize, pgrounddown, bit, pte_v, pa2pte, or_v, maxva}
use learning_mits.Riscv.Entries.{entry_fields}
use learning_mits.Kalloc.Chain.{Chain-frame, Free, ne-in_page, ne_of_has}
use learning_mits.Vm.Walk.{walk}
use learning_mits.Vm.Walk.Lookup.{leaf_entry, user_page}
use learning_mits.Vm.Walk.Route.{Route, last, down, Route-store, Away, page_of_Route}
use learning_mits.Vm.Walk.Tables.{Tables, Apart}
use learning_mits.Vm.Walk.Grow.{Grown, walk_down-Grows}
use learning_mits.Vm.Map.{after_page, map_page, mappages_loop, mappages}

-- A route from the root is what walk without allocation finds.
pub Route-leaf_entry :
    {m : Memory} {va pt r : ℕ} {ts : List ℕ} → Route m va 2 pt r ts → leaf_entry m pt va ≡ some r
unfolding leaf_entry
Route-leaf_entry (down al out v (down al' out' v' (last al''))) = rw (v, v')

-- The translation after the entry at the end of a route has been written.
Route-user_page :
    (m : Memory) (va pt r pa perm : ℕ) {ts : List ℕ}
    → va < maxva
    → 0 < r
    → pa % 4096 ≡ 0
    → pa < 2 ^ 56
    → perm < 2 ^ 10
    → Route m va 2 pt r ts
    → user_page (update m r (or_v (pa2pte pa + perm))) pt va
      ≡ (if bit 4 perm then some pa else none)
unfolding user_page
Route-user_page m va pt r pa perm small pos al hi few rt =
    let (v, a, _, u) = entry_fields pa perm al hi few in
    rw (
      lt→leb va maxva small,
      Route-leaf_entry (Route-store (or_v (pa2pte pa + perm)) rt),
      ne→== r 0 (omega arith),
      eq→== r r refl,
      v,
      a,
      u,
    )

page_fuel_lem : page_fuel ≡ suc (2 ^ 26)
unfolding page_fuel
page_fuel_lem = refl

module _ ⦃l : Layout⦄ where
  -- What one call of mappages for one page leaves.
  abbrev pub Mapped : Kernel → (pt va pa perm : ℕ) → (ts ps : List ℕ) → Status → Kernel → Type 0
  Mapped k pt va pa perm ts ps success k' =
      (user_page k'.mem pt va ≡ (if bit 4 perm then some pa else none))
      × ((a : ℕ) → Away a ts → Away a ps → k'.mem a ≡ k.mem a)
      × ((ps' : List ℕ) × Free k' ps')
  Mapped k pt va pa perm ts ps failure k' = Free k' []

  module _ (sane : IsSane l) (k : Kernel) (pt va pa perm : ℕ) {ts : List ℕ} (ps : List ℕ)
      (small : va < maxva) (al : pa % 4096 ≡ 0) (hi : pa < 2 ^ 56) (few : perm < 2 ^ 10)
      (tb : Tables k.mem va 2 pt ts) (free : Free k ps) (apart : Apart ts ps)
      (new : (r : ℕ) → leaf_entry k.mem pt va ≡ some r → pte_v (k.mem r) ≡ false) where
    invalid :
        (r : ℕ) (k' : Kernel)
        → (k'.mem r ≡ 0) ⊎ ((k'.mem r ≡ k.mem r) × Route k.mem va 2 pt r ts)
        → pte_v (k'.mem r) ≡ false
    invalid r k' (inl z) = ap pte_v z
    invalid r k' (inr (e, rt)) = rw e (new r (Route-leaf_entry rt))

    stored :
        (r : ℕ) (k' : Kernel) (ts' ps' : List ℕ)
        → Grown k va 2 pt ts ps r k' ts' ps'
        → Mapped k pt va pa perm ts ps success
            (record k' { mem = update k'.mem r (or_v (pa2pte pa + perm)) })
    stored r k' ts' ps' g = (
      Route-user_page k'.mem va pt r pa perm small g.pos al hi few g.route,
      (λ a at ap'. rw (ne→== r a (away_ne a at ap')) (g.same a at ap')),
      (ps', Chain-frame g.free (λ a i ha. rw (ne→== r a (free_ne a i ha)) refl)),
    )
      where
        page : (t : ℕ) × (has t ts' ≡ true) × (t % 4096 ≡ 0) × (in_page t r ≡ true)
        page = page_of_Route g.route

        away_ne : (a : ℕ) → Away a ts → Away a ps → r ≢ a
        away_ne a at ap' e = let (t, i, _, inside) = page in ground (arith, g.tables t, at t, ap' t)

        free_ne : (a : ℕ) → has a ps' ≡ true → a % 4096 ≡ 0 → r ≢ a
        free_ne a i ha e =
            let (t, it, al', inside) = page in
            cc
              (ap (in_page t) e, inside, ne-in_page t a al' ha (ne_of_has a t ps' i (g.apart t it)))

    pub map_page-Mapped : Returns (Mapped k pt va pa perm ts ps) (map_page pt va pa perm k)
    unfolding map_page walk
    map_page-Mapped = rw (lt→leb va maxva small) (
        Returns.bind (walk_down-Grows sane va 2 ps k tb free apart) λ r k' g. elim g [
          | inl (z, none_left) ↦ rw z (returns none_left)
          | inr (ts', ps', grown) ↦
              rw (ne→== r 0 (omega (arith, grown.pos)), invalid r k' grown.entry)
                (returns (stored r k' ts' ps' grown))
        ])

    one_round :
        (f : ℕ) → Returns (Mapped k pt va pa perm ts ps) (mappages_loop (suc f) pt va va pa perm k)
    unfolding mappages_loop
    one_round f = Returns.bind map_page-Mapped (finish _)
      where
        finish :
            (rest : M Status) (s : Status) (k' : Kernel)
            → Mapped k pt va pa perm ts ps s k'
            → Returns (Mapped k pt va pa perm ts ps) (after_page s (va == va) rest k')
        finish rest failure k' m = returns m
        finish rest success k' m = rw (eq→== va va refl) (returns m)

    -- mappages of one page, for a page-aligned va below MAXVA, a page-aligned pa below 2 ^ 56,
    -- permissions below 2 ^ 10, a sane layout, page tables for va that are apart from the free
    -- pages, and no valid entry for va: either no page was left for a table, and it answers -1 with
    -- the free list empty; or it answers 0, the page table then translates va to pa if perm has
    -- PTE_U and to nothing if not, memory outside the tables for va and the free pages is as
    -- before, and the free list is again a list of free pages.
    pub mappages-user_page :
        va % 4096 ≡ 0 → Returns (Mapped k pt va pa perm ts ps) (mappages pt va pgsize pa perm k)
    unfolding mappages pgrounddown
    mappages-user_page aligned = rw (page_fuel_lem, here, back) (one_round (2 ^ 26))
      where
        here : va / 4096 * 4096 ≡ va
        here = omega arith

        back : sub64 (u64 (va + 4096)) 1 / 4096 * 4096 ≡ va
        back = omega arith
