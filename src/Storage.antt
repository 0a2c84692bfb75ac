-- ===== src/Storage.antt =====
-- kernel/arch/x86_64: what is kept on disks and which packages are installed.
pub mod Journal
pub mod Packages
pub mod Repo
pub mod Depsolve
