-- ===== src/Rules.antt =====
-- boxctl/src/rules.rs and boxctl/src/rules/: the iptables rules.
pub mod Names
pub mod Batch
pub mod Manager
pub mod Command
pub mod Chain
pub mod Flush
pub mod Ops
pub mod Capabilities
pub mod Vendor
pub mod Outside
pub mod Snapshot
pub mod Ipset
pub mod Matcher
pub mod Apply
pub mod Util
pub mod Cnip
pub mod Dispatch
pub mod External
pub mod LocalProxy
pub mod Dns
pub mod LocalIp
pub mod Performance
pub mod Context
pub mod Routing
pub mod Tun
pub mod Redirect
pub mod PerfChains
pub mod Tproxy
pub mod Modes
pub mod Ipv6
pub mod DualStack
pub mod Cleanup
pub mod Frame
pub mod Safety
pub mod Total
pub mod Rollback
pub mod DryRun
