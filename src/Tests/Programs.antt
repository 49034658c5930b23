-- ===== src/Tests/Programs.antt =====
-- The user programs.
use learning_mits.Base.{ℕ, ◌<◌, ◌≡◌, ◌↔◌, true, some, List, arith, has, Ascending}
use learning_mits.Programs.Primes.{primes_main}
use learning_mits.Programs.Primes.Sieved.{IsPrime, sieve-IsPrime}

sieve-IsPrime_example :
    (out : List ℕ) × (primes_main ≡ some out)
    × Ascending out
    × ((x : ℕ) → (has x out ≡ true) ↔ ((x < 36) × IsPrime x))
unfolding primes_main
sieve-IsPrime_example = sieve-IsPrime 35 34 (omega arith)
