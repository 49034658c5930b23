-- ===== src/Kernel/Memory/Bytes.antt =====
-- Bytes of words: a byte that is written reads back, and no other byte changes.
use learning_mits.Base.{
  ℕ, zero, suc, ◌+◌, ◌*◌, ◌/◌, ◌%◌, ◌^◌, ◌<◌, ◌≡◌, ◌≢◌, refl, arith, eq→==, inl, inr, ==→eq, ◌==◌,
  Bool-cases, update-other,
}
use learning_mits.Kernel.Memory.{Memory, load_byte, store_byte}

-- A word with the byte of weight 256 ^ i replaced.
abbrev put_byte : ℕ → ℕ → ℕ → ℕ
put_byte w i b = w / (256 ^ i * 256) * (256 ^ i * 256) + b % 256 * 256 ^ i + w % 256 ^ i

byte_cases :
    (P : ℕ → Type 0) → P 0 × P 1 × P 2 × P 3 × P 4 × P 5 × P 6 × P 7 → (i : ℕ) → i < 8 → P i
byte_cases P p zero h = p.0
byte_cases P p (suc zero) h = p.1
byte_cases P p (suc (suc zero)) h = p.2
byte_cases P p (suc (suc (suc zero))) h = p.3
byte_cases P p (suc (suc (suc (suc zero)))) h = p.4
byte_cases P p (suc (suc (suc (suc (suc zero))))) h = p.5
byte_cases P p (suc (suc (suc (suc (suc (suc zero)))))) h = p.6
byte_cases P p (suc (suc (suc (suc (suc (suc (suc zero))))))) h = p.7
byte_cases P p (suc (suc (suc (suc (suc (suc (suc (suc n)))))))) h = absurd (omega arith)

put_byte_self : (w b i : ℕ) → i < 8 → put_byte w i b / 256 ^ i % 256 ≡ b % 256
put_byte_self w b = byte_cases _ (omega arith)

-- What the other bytes keep, for the byte of weight 256 ^ i.
abbrev Others : ℕ → ℕ → ℕ → Type 0
Others w b i = (j : ℕ) → j < 8 → i ≢ j → put_byte w i b / 256 ^ j % 256 ≡ w / 256 ^ j % 256

put_byte_other : (w b i : ℕ) → i < 8 → Others w b i
put_byte_other w b = byte_cases (Others w b) (
  byte_cases _ (ground arith),
  byte_cases _ (ground arith),
  byte_cases _ (ground arith),
  byte_cases _ (ground arith),
  byte_cases _ (ground arith),
  byte_cases _ (ground arith),
  byte_cases _ (ground arith),
  byte_cases _ (ground arith),
)

-- The word of a byte, and its place there.
pub load_byte-store_byte_self : (a b : ℕ) (m : Memory) → load_byte (store_byte a b m) a ≡ b % 256
unfolding load_byte store_byte
load_byte-store_byte_self a b m =
    rw (eq→== (a / 8 * 8) _ refl) (put_byte_self (m (a / 8 * 8)) b (a % 8) (omega arith))

pub load_byte-store_byte_ne :
    (a a' b : ℕ) (m : Memory) → a ≢ a' → load_byte (store_byte a b m) a' ≡ load_byte m a'
unfolding load_byte store_byte
load_byte-store_byte_ne a a' b m ne = elim (Bool-cases ((a / 8 * 8) == (a' / 8 * 8))) [
  | inl e ↦ rw e (
      let same : a / 8 * 8 ≡ a' / 8 * 8 = ==→eq _ _ e in
      rw same (
        put_byte_other (m (a' / 8 * 8)) b (a % 8) (omega arith) (a' % 8) (omega arith)
          (omega arith)))
  | inr n ↦ rw n refl
]

-- A write changes one word.
pub store_byte_elsewhere : (a b w : ℕ) (m : Memory) → a / 8 * 8 ≢ w → store_byte a b m w ≡ m w
unfolding store_byte
store_byte_elsewhere a b w m ne = update-other m (a / 8 * 8) _ w ne
