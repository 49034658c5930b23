-- ===== src/Tests.antt =====
-- Runs of the model on small states, and the theorems at inputs where their hypotheses hold.
mod State
mod Memory
mod Process
mod Programs
mod Console
mod Exec
mod Tracing
mod Xargs
mod Pgaccess
mod Find
mod Copies
mod Locked
mod Wait
