-- ===== src/Exec/Pushed.antt =====
-- The strings and words that exec puts into a stack page, as user code sees them.
use learning_mits.Base.{
  take, drop, ℕ, zero, suc, ◌+◌, ◌*◌, ◌/◌, ◌%◌, ◌^◌, ◌≤◌, ◌<◌, ◌≡◌, refl, ap, some, List, [], ◌∷◌,
  ◌++◌, arith, ◌∙◌, length, length-append, All,
}
use learning_mits.Kernel.Memory.{Memory}
use learning_mits.Vm.Copy.Seen.{user_read}
use learning_mits.Vm.Copy.Writes.{OffTables, Stable}
use learning_mits.Vm.Copy.RoundTrip.{Unshared}
use learning_mits.Vm.Copy.Sent.{Changed, user_read-Changed}
use learning_mits.Exec.{push, word_bytes, ustack_bytes}

-- User code sees the strings of `argv`, each with a 0 behind it, below `sp` at the addresses `ps`:
-- aligned, one below the other without overlap, none below `base`; the last of them, or `sp`, is
-- `q`.
pub data Pushed (m : Memory) (pt base : ℕ) : ℕ → List (List ℕ) → List ℕ → ℕ → Type 0 where
  nil : {sp : ℕ} → Pushed m pt base sp [] [] sp
  cons :
      {sp p q : ℕ} {s : List ℕ} {argv : List (List ℕ)} {ps : List ℕ}
      → base ≤ p
      → p % 16 ≡ 0
      → p + length s + 1 ≤ sp
      → user_read m pt p (length s + 1) ≡ some (s ++ (0 ∷ []))
      → Pushed m pt base p argv ps q
      → Pushed m pt base sp (s ∷ argv) (p ∷ ps) q

pub length-Pushed :
    {m : Memory} {pt base sp q : ℕ} {argv : List (List ℕ)} {ps : List ℕ}
    → Pushed m pt base sp argv ps q
    → length ps ≡ length argv
length-Pushed nil = refl
length-Pushed (cons _ _ _ _ t) = ap suc (length-Pushed t)

Pushed-le :
    {m : Memory} {pt base sp q : ℕ} {argv : List (List ℕ)} {ps : List ℕ}
    → Pushed m pt base sp argv ps q
    → q ≤ sp
Pushed-le nil = omega arith
Pushed-le (cons _ _ below _ t) = omega (arith, below, Pushed-le t)

-- A string as the bytes that user code may hold.
abbrev pub IsArgument : List ℕ → Type 0
IsArgument s = (length s < 4096) × All (λ b. b < 256) s

pub All-append :
    (xs ys : List ℕ) → All (λ b. b < 256) xs → All (λ b. b < 256) ys → All (λ b. b < 256) (xs ++ ys)
All-append [] ys t u = u
All-append (x ∷ xs) ys (h, t) u = (h, All-append xs ys t u)

word_bytes-small : (n w : ℕ) → All (λ b. b < 256) (word_bytes n w)
unfolding word_bytes
word_bytes-small zero w = tt
word_bytes-small (suc n) w = (omega arith, word_bytes-small n (w / 256))

length-word_bytes : (n w : ℕ) → length (word_bytes n w) ≡ n
unfolding word_bytes
length-word_bytes zero w = refl
length-word_bytes (suc n) w = ap suc (length-word_bytes n (w / 256))

pub ustack_bytes-small : (ps : List ℕ) → All (λ b. b < 256) (ustack_bytes ps)
unfolding ustack_bytes
ustack_bytes-small [] = word_bytes-small 8 0
ustack_bytes-small (p ∷ ps) =
    All-append (word_bytes 8 p) (ustack_bytes ps) (word_bytes-small 8 p) (ustack_bytes-small ps)

pub length-ustack_bytes : (ps : List ℕ) → length (ustack_bytes ps) ≡ (length ps + 1) * 8
unfolding ustack_bytes
length-ustack_bytes [] = length-word_bytes 8 0
length-ustack_bytes (p ∷ ps) = omega (
  arith,
  length-append (word_bytes 8 p) (ustack_bytes ps),
  length-word_bytes 8 p,
  length-ustack_bytes ps,
)

-- The number that the bytes make, the lowest first.
abbrev pub little_endian : List ℕ → ℕ
little_endian [] = 0
little_endian (b ∷ bs) = b + 256 * little_endian bs

-- The bytes are those of the words, one after the other.
abbrev pub Words : List ℕ → List ℕ → Type 0
Words [] bs = bs ≡ []
Words (w ∷ ws) bs = (little_endian (take 8 bs) ≡ w) × Words ws (drop 8 bs)

-- 256 ^ n
abbrev values : ℕ → ℕ
values zero = 1
values (suc n) = 256 * values n

little_endian-word_bytes : (n w : ℕ) → w < values n → little_endian (word_bytes n w) ≡ w
unfolding word_bytes
little_endian-word_bytes zero w h = omega arith
little_endian-word_bytes (suc n) w h =
    omega (arith, little_endian-word_bytes n (w / 256) (omega arith))

pub ustack_bytes-Words :
    (ps : List ℕ) → All (λ p. p < 2 ^ 64) ps → Words (ps ++ (0 ∷ [])) (ustack_bytes ps)
unfolding ustack_bytes word_bytes
ustack_bytes-Words [] h = (refl, refl)
ustack_bytes-Words (p ∷ ps) (h, t) =
    (little_endian-word_bytes 8 p (omega arith), ustack_bytes-Words ps t)

pub Pushed-below :
    {m : Memory} {pt base sp q : ℕ} {argv : List (List ℕ)} {ps : List ℕ}
    → Pushed m pt base sp argv ps q
    → sp < 2 ^ 64
    → All (λ p. p < 2 ^ 64) ps
Pushed-below nil h = tt
Pushed-below (cons _ _ below _ t) h = (omega arith, Pushed-below t (omega arith))

pub push_bounds :
    (base sp n : ℕ)
    → base ≤ sp
    → 4096 ≤ base
    → n ≤ 4096
    → sp < 2 ^ 64
    → (push sp n % 16 ≡ 0) × (push sp n + n ≤ sp)
unfolding push
push_bounds base sp n lo big small w = (omega arith, omega arith)

-- `m` maps the stack page, which lies from `base` up to `top`.
module _ (m : Memory) (pt base top : ℕ) (apart : OffTables m pt base top)
    (unshared : Unshared m pt base top) where
  -- Strings stay when memory changes below them.
  pub Pushed-Changed :
      {m1 m2 : Memory} {sp q from to : ℕ} {argv : List (List ℕ)} {ps : List ℕ}
      → Stable m pt base top m1
      → Stable m pt base top m2
      → Changed m pt from to m1 m2
      → base ≤ from
      → to ≤ q
      → sp ≤ top
      → Pushed m1 pt base sp argv ps q
      → Pushed m2 pt base sp argv ps q
  Pushed-Changed s1 s2 ch low below high nil = nil
  Pushed-Changed {m1} {m2} {from = from} {to = to} s1 s2 ch low below high
        (cons {p = p} {s = s} above al fits seen t) =
      cons above al fits
        (user_read-Changed m pt base top apart unshared (length s + 1) p from to m1 m2 s1 s2 ch low
            (omega (arith, Pushed-le t)) above (omega arith)
          ∙ seen)
        (Pushed-Changed s1 s2 ch low below (omega arith) t)
