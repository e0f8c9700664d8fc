-- ===== src/Tests.antt =====
-- A small device, and each theorem of the library applied to it.
pub mod Device
pub mod Machine
pub mod Monitor
pub mod Rules
pub mod Safety
pub mod Control
pub mod Apply
pub mod Config
