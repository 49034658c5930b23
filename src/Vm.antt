-- ===== src/Vm.antt =====
-- Lab_page_tables/vm.c: page tables and user memory.
pub mod Walk
pub mod Map
pub mod User
pub mod Copy
pub mod Total
pub mod Keeps
pub mod Boot
pub mod Print
