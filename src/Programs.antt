-- ===== src/Programs.antt =====
-- The user programs of Lab_util.
pub mod Primes
pub mod Find
pub mod Xargs
