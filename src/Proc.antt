-- ===== src/Proc.antt =====
-- Lab_traps/proc.c: the process table. A process is its index in `proc`; the functions that start
-- with `myproc()` take the index `me` of the running process.
pub mod Table
pub mod Life
pub mod Switch
pub mod Sleep
pub mod Wait
pub mod Locked
pub mod Print
pub mod Usyscall
pub mod Count
pub mod Current
