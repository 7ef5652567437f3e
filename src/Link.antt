-- ===== src/Link.antt =====
-- The link emulator of the laboratories, `labs/Sliding Window-lab3/link_emulator`.
pub mod Queue
pub mod Scheduler
pub mod Param
mod Examples
