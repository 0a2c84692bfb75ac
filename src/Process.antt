-- ===== src/Process.antt =====
-- kernel/process: channels and locks between tasks, and what a task may do.
pub mod Task
pub mod Wait
pub mod Signals
pub mod Pipe
pub mod PipeBuf
pub mod Pty
pub mod Semaphore
pub mod Futex
pub mod Scheduler
pub mod Cap
pub mod Sandbox
pub mod Contracts
