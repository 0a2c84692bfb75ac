-- ===== src/Memory.antt =====
-- kernel/memory: physical frames and what is handed out of them.
pub mod Pmm
pub mod Heap
pub mod Slab
pub mod Buddy
