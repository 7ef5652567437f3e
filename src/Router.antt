-- ===== src/Router.antt =====
-- The software router of `router/`.
pub mod Queue
pub mod Route
pub mod Table
pub mod Frame
pub mod Forward
pub mod Loop
pub mod Address
mod Examples
