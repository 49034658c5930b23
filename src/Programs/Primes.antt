-- ===== src/Programs/Primes.antt =====
-- Lab_util/primes.c: the sieve, a chain of processes that are joined by pipes. A pipe is the list of
-- the numbers that are written to it before its write end is closed; every process prints before
-- the one behind it reads its first number, so that the lines come in one order. The calls of pipe
-- and fork are taken to succeed.
pub mod Sieved
use learning_mits.Base.{
  ℕ, zero, suc, ◌+◌, ◌%◌, Option, none, some, List, [], ◌∷◌, ◌==◌, if◌then◌else◌,
}

-- The while loop of the parent: what it writes to the next process.
unfoldable pub filter_multiples : ℕ → List ℕ → List ℕ
filter_multiples prime [] = []
filter_multiples prime (num ∷ nums) =
    let rest = filter_multiples prime nums in if num % prime == 0 then rest else num ∷ rest

abbrev pub printed_before : ℕ → Option (List ℕ) → Option (List ℕ)
printed_before prime none = none
printed_before prime (some ps) = some (prime ∷ ps)

-- The numbers that a process and those behind it print; the fuel bounds the processes of the chain.
unfoldable pub sieve : ℕ → List ℕ → Option (List ℕ)
unfolding filter_multiples
sieve zero nums = none
sieve (suc f) [] = some []
sieve (suc f) (prime ∷ nums) = printed_before prime (sieve f (filter_multiples prime nums))

-- The for loop of main: `count` numbers from `num` on.
unfoldable pub numbers : ℕ → ℕ → List ℕ
numbers zero num = []
numbers (suc count) num = num ∷ numbers count (num + 1)

-- main: 2 to 35. No more processes than numbers, and one for the end, are in the chain.
unfoldable pub primes_main : Option (List ℕ)
unfolding sieve numbers
primes_main = sieve 35 (numbers 34 2)
