-- ===== src/Broker.antt =====
-- The publish/subscribe server of `tcp & udp communication`: its data, its operations, and what
-- they guarantee.
pub mod Types
pub mod Registry
pub mod Delivery
pub mod WellFormed
pub mod Publish
pub mod Session
pub mod StoreForward
pub mod Preserve
pub mod Topics
pub mod Convert
pub mod Server
mod Examples
