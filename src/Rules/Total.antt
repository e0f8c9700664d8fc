-- ===== src/Rules/Total.antt =====
-- The parts of the rule code that return no `Result` in the source: probes, deletions and the
-- taking down of a mode.
pub mod Manager
pub mod Command
pub mod Chain
pub mod Capabilities
pub mod Dns
pub mod Routing
pub mod Redirect
pub mod Tun
pub mod Tproxy
pub mod Modes
