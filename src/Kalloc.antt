-- ===== src/Kalloc.antt =====
-- Lab_syscall/kalloc.c: the allocator of 4096-byte pages. The free list is threaded through the
-- first word of each free page (`struct run`).
pub mod Chain
pub mod Pages
pub mod Boot
pub mod Count
use learning_mits.Base.{
  ℕ, zero, suc, ◌+◌, ◌-◌, ◌/◌, ◌%◌, ◌<◌, Bool, not, ◌||◌, ◌==◌, ltb, leb, if◌then◌else◌,
}
use learning_mits.Kernel.{
  Kernel, M, ok, out_of_fuel, pure, ◌>>=◌, ◌>>◌, fail, when, modify, gets, acquire, release,
  record_event, initialized, kmem_lock, kfree_panic,
}
use learning_mits.Kernel.Memory.{load, store, memset_page}
use learning_mits.Layout.{Layout}
use learning_mits.Riscv.{pgroundup, u64}

module _ ⦃l : Layout⦄ where
  open l use {end, phystop}

  unfoldable pub kfree : ℕ → M (Unit {0})
  kfree pa =
      if not (pa % 4096 == 0) || (ltb pa end || leb phystop pa) then fail kfree_panic else (do
        memset_page pa 1
        acquire kmem_lock
        r ← gets (λ k. k.freelist)
        store pa r
        modify (λ k. record k { freelist = pa })
        release kmem_lock)

  unfoldable pub kalloc : M ℕ
  kalloc = do
    acquire kmem_lock
    r ← gets (λ k. k.freelist)
    when (not (r == 0)) (do next ← load r; modify (λ k. record k { freelist = next }))
    release kmem_lock
    when (not (r == 0)) (memset_page r 5)
    pure r

  -- The body runs while `p + PGSIZE <= pa_end`.
  unfoldable pub freerange_loop : ℕ → ℕ → ℕ → M (Unit {0})
  freerange_loop zero pa_end p = λ _. out_of_fuel
  freerange_loop (suc f) pa_end p =
      let rest = freerange_loop f pa_end (p + 4096) in
      if leb (p + 4096) pa_end then kfree p >> rest else pure tt

  unfoldable pub freerange : ℕ → ℕ → M (Unit {0})
  unfolding freerange_loop
  freerange pa_start pa_end = freerange_loop (pa_end / 4096 + 1) pa_end (pgroundup pa_start)

  unfoldable pub kinit : M (Unit {0})
  kinit = do record_event (initialized kmem_lock); freerange end phystop

  unfoldable pub freemem_loop : ℕ → ℕ → ℕ → M ℕ
  freemem_loop zero r count = λ _. out_of_fuel
  freemem_loop (suc f) r count =
      if r == 0 then pure count else (do next ← load r; freemem_loop f next (u64 (count + 4096)))

  -- No list of distinct pages is longer than physical memory has pages.
  unfoldable pub freemem : M ℕ
  unfolding freemem_loop
  freemem = do
    acquire kmem_lock
    r ← gets (λ k. k.freelist)
    count ← freemem_loop (phystop / 4096 + 1) r 0
    release kmem_lock
    pure count
