-- ===== src/Vm/Walk/Route.antt =====
-- The tables that a walk visits, and what walk does when it may allocate.
use learning_mits.Base.{
  ℕ, suc, ◌%◌, ◌<◌, ◌≡◌, refl, ap, ◌≢◌, Bool, true, false, List, [], ◌∷◌, arith, ne→==, update, has,
}
use learning_mits.Kernel.{Kernel, ok}
use learning_mits.Kernel.Memory.{Memory, in_page}
use learning_mits.Layout.{Layout}
use learning_mits.Riscv.{px, pte_v, pte2pa}
use learning_mits.Vm.Walk.{pte_addr, walk_down}

-- From the table `pt` at `level` the valid entries for `va` lead through the distinct pages `ts` to
-- the entry at `r`, in the last of them.
pub data Route (m : Memory) (va : ℕ) : ℕ → ℕ → ℕ → List ℕ → Type 0 where
  last : {pt : ℕ} → pt % 4096 ≡ 0 → Route m va 0 pt (pte_addr pt 0 va) (pt ∷ [])
  down :
      {level pt r : ℕ} {ts : List ℕ}
      → pt % 4096 ≡ 0
      → has pt ts ≡ false
      → pte_v (m (pte_addr pt (suc level) va)) ≡ true
      → Route m va level (pte2pa (m (pte_addr pt (suc level) va))) r ts
      → Route m va (suc level) pt r (pt ∷ ts)

px-lt : (level va : ℕ) → px level va < 512
unfolding px
px-lt level va = omega arith

-- An entry lies in the page of its table.
pub pte_addr-in_page : (pt level va : ℕ) → in_page pt (pte_addr pt level va) ≡ true
pte_addr-in_page pt level va = ground (arith, px-lt level va)

-- `a` lies in none of the pages.
abbrev pub Away : ℕ → List ℕ → Type 0
Away a ts = (t : ℕ) → has t ts ≡ true → in_page t a ≡ false

-- The last page of a route holds the entry at its end.
pub page_of_Route :
    {m : Memory} {va level pt r : ℕ} {ts : List ℕ}
    → Route m va level pt r ts
    → (t : ℕ) × (has t ts ≡ true) × (t % 4096 ≡ 0) × (in_page t r ≡ true)
page_of_Route {va} (last {pt} al) = (pt, ground arith, al, pte_addr-in_page pt 0 va)
page_of_Route (down al out v rt) =
    let (t, i, ha, inside) = page_of_Route rt in (t, ground (arith, i), ha, inside)

pages_meet :
    (p q a : ℕ) → p % 4096 ≡ 0 → q % 4096 ≡ 0 → in_page p a ≡ true → in_page q a ≡ true → p ≡ q
pages_meet p q a hp hq ip iq = ground arith

-- The entry at the end lies outside every page that is not on the route.
entry_ne :
    {m : Memory} {va level child r : ℕ} {ts : List ℕ} (pt a : ℕ)
    → Route m va level child r ts
    → pt % 4096 ≡ 0
    → has pt ts ≡ false
    → in_page pt a ≡ true
    → r ≢ a
entry_ne {r} {ts} pt a rt al out inside e =
    let (t, i, ht, ir) = page_of_Route rt in
    let same : t ≡ pt = pages_meet t pt a ht al (rw (← e) ir) inside in cc (ap (λ x. has x ts) same)

-- A write to the entry at the end leaves the route.
pub Route-store :
    {m : Memory} {va level pt r : ℕ} {ts : List ℕ} (v : ℕ)
    → Route m va level pt r ts
    → Route (update m r v) va level pt r ts
Route-store v (last al) = last al
Route-store {m} {va} v (down {level} {pt} {r} al out ok' rt) =
    down al out (rw keep ok') (rw keep (Route-store v rt))
  where
    keep : update m r v (pte_addr pt (suc level) va) ≡ m (pte_addr pt (suc level) va)
    keep = rw (ne→== _ _ (entry_ne pt _ rt al out (pte_addr-in_page pt (suc level) va)))

-- A change away from the pages of a route leaves it.
pub Route-frame :
    {m m' : Memory} {va level pt r : ℕ} {ts : List ℕ}
    → ((a : ℕ) (t : ℕ) → has t ts ≡ true → in_page t a ≡ true → m' a ≡ m a)
    → Route m va level pt r ts
    → Route m' va level pt r ts
Route-frame same (last al) = last al
Route-frame {m} {m'} {va} same (down {level} {pt} al out ok' rt) =
    down al out (rw keep ok') (rw keep (Route-frame (λ a t i h. same a t (ground arith) h) rt))
  where
    keep : m' (pte_addr pt (suc level) va) ≡ m (pte_addr pt (suc level) va)
    keep = same _ pt (ground arith) (pte_addr-in_page pt (suc level) va)

module _ ⦃l : Layout⦄ where
  -- A walk along a route finds its end, and changes nothing.
  pub walk_down-Route :
      (k : Kernel) {va level pt r : ℕ} {ts : List ℕ} (alloc : Bool)
      → Route k.mem va level pt r ts
      → walk_down level pt va alloc k ≡ ok r k
  unfolding walk_down
  walk_down-Route k alloc (last al) = refl
  walk_down-Route k alloc (down al out v rt) = rw v (walk_down-Route k alloc rt)
