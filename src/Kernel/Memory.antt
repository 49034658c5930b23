-- ===== src/Kernel/Memory.antt =====
-- Physical memory: words, bytes and pages. The bytes of a word stand in it little-endian.
pub mod Bytes
use learning_mits.Base.{
  ℕ, zero, suc, ◌+◌, ◌-◌, ◌*◌, ◌/◌, ◌%◌, ◌^◌, Bool, ◌&&◌, List, [], ◌∷◌, ◌==◌, ltb, leb,
  if◌then◌else◌, update,
}
use learning_mits.Kernel.{M, ok, fail, modify, null_pointer}

abbrev pub Memory : Type 0
Memory = ℕ → ℕ

-- `*(uint64 *) a`
abbrev pub load : ℕ → M ℕ
load a k = ok (k.mem a) k

-- `*(uint64 *) a = v`
abbrev pub store : ℕ → ℕ → M (Unit {0})
store a v k = ok tt (record k { mem = update k.mem a v })

abbrev pub in_page : ℕ → ℕ → Bool
in_page p a = leb p a && ltb a (p + 4096)

-- `memset(p, c, PGSIZE)` on the words of the page.
unfoldable pub fill : ℕ → ℕ → Memory → Memory
fill p c m a = if in_page p a then c * 0x0101010101010101 else m a

-- `memmove(dst, src, PGSIZE)` between whole pages.
unfoldable pub copy_page : ℕ → ℕ → Memory → Memory
copy_page dst src m a = if in_page dst a then m (src + (a - dst)) else m a

abbrev pub memset_page : ℕ → ℕ → M (Unit {0})
memset_page p c =
    if p == 0 then fail null_pointer else modify (λ k. record k { mem = fill p c k.mem })

abbrev pub memmove_page : ℕ → ℕ → M (Unit {0})
memmove_page dst src = modify (λ k. record k { mem = copy_page dst src k.mem })

unfoldable pub load_byte : Memory → ℕ → ℕ
load_byte m a = m (a / 8 * 8) / 256 ^ (a % 8) % 256

unfoldable pub store_byte : ℕ → ℕ → Memory → Memory
store_byte a b m =
    let w = m (a / 8 * 8) in
    let s = 256 ^ (a % 8) in update m (a / 8 * 8) (w / (s * 256) * (s * 256) + b % 256 * s + w % s)

unfoldable pub load_bytes : Memory → ℕ → ℕ → List ℕ
unfolding load_byte
load_bytes m a zero = []
load_bytes m a (suc n) = load_byte m a ∷ load_bytes m (a + 1) n

unfoldable pub store_bytes : ℕ → List ℕ → Memory → Memory
unfolding store_byte
store_bytes a [] m = m
store_bytes a (b ∷ bs) m = store_bytes (a + 1) bs (store_byte a b m)
