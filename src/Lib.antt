-- ===== src/Lib.antt =====
-- boxctl (boxctl/src): the program that runs a transparent proxy on an Android device.
--
-- This library models its rule manager, the code that puts iptables rules, ip rules and routes
-- in place for the redirect, tproxy, mixed, enhance and tun modes, and takes them down; the
-- commands that start and stop the proxy's core together with the rules; the start and the stop of
-- the core's process; the network monitor, which starts and stops both by the state of the Wi-Fi
-- link; and the validation of settings.
--
-- Parts and files
-- - boxctl/src/exec.rs, `Runner` and `Output`: Exec, Exec/Shell. The device is the record
--   `Host`, a parameter of every definition: it starts programs and reads and writes files, over
--   a state of its own about which nothing is assumed. A theorem that needs more of the device
--   says so among its hypotheses.
-- - boxctl/src/config.rs and boxctl/src/config/types.rs: Config, the settings that the modelled
--   code reads, and Config/Modes. validation.rs beside it: Config/Validation; the values of
--   core_values.rs: Config/Values.
-- - boxctl/src/rules/model.rs: Rules/Names (families, capabilities, chain names) and
--   Rules/Manager. `RuleManager` borrows an `Env`, an instance argument, and its cells together
--   with the device are a `World`, which every function passes on.
-- - boxctl/src/rules/batch.rs: Rules/Batch (pending chains and rules) and Rules/Flush. A function
--   of the source that returns `Result` is an action of Act, which keeps what was changed before
--   an error.
-- - boxctl/src/rules/exec.rs: Rules/Command (iptables and ip) and Rules/Chain (chains and rules).
--   They flush the open batch first, and a flush uses them, so they take the flush as a
--   parameter; Rules/Ops gives them the flush of boxctl/src/rules/batch.rs.
-- - boxctl/src/rules/capabilities.rs: Rules/Capabilities; cnip.rs beside it: Rules/Cnip (which
--   matcher is used); context.rs: Rules/Context; dns.rs: Rules/Dns; external.rs: Rules/External;
--   local_proxy.rs: Rules/LocalProxy and Rules/Dispatch; local_ip.rs: Rules/LocalIp and
--   Rules/Ipv6; performance.rs: Rules/Performance and Rules/PerfChains; routing.rs:
--   Rules/Routing; tun.rs: Rules/Tun; util.rs: Rules/Util, Rules/Names and Rules/LocalIp/Parse;
--   cleanup.rs and the reading side of runtime.rs: Rules/Cleanup; its writing side:
--   Rules/Snapshot; vendor_firewall.rs: Rules/Vendor. The refresh of local_ip.rs is
--   Rules/LocalIp/Refresh, the sets of cnip.rs are Rules/Ipset, and its eBPF matcher is
--   Rules/Matcher and Rules/Matcher/Ensure. `Outside` (Rules/Outside) is what these use of JSON
--   and of file times.
-- - boxctl/src/rules.rs: Rules/Redirect, Rules/Tproxy and Rules/Tun (start and stop), Rules/Modes
--   (one family of a mode, with its rollback), Rules/DualStack (both families under a batch) and
--   Rules/Apply (apply, clear, renew, refresh and reload).
-- - boxctl/src/monitor.rs and the files of boxctl/src/monitor: Monitor, Monitor/Parse and
--   Monitor/Observe (what is seen of the link), Monitor/Policy, Monitor/State, Monitor/Lock (the
--   identity in the lock file) and Monitor/Worker (watcher.rs). What the monitor calls of the
--   commands is the interface `ServiceControl`, which `service_control` of Control fills.
-- - boxctl/src/control.rs: Control, with `Parts` for what the commands call: each part is a task of
--   steps (Control/Thread), and the two tasks of a `thread::scope` alternate in an order that is a
--   parameter, so that a theorem speaks of all of them and of all parts. Control/Program fills
--   `Parts` with the rules, the service and the monitor of this library, each as one step,
--   Control/Started says how a start ends, and Control/DryRun what a dry run of the commands does.
-- - boxctl/src/service.rs: Service and Service/Start; the files of boxctl/src/service:
--   Service/Process, Service/Stamp, Service/Permissions, Service/Check (config_check.rs) and
--   Service/Command. `System` is what they ask of the kernel, `Processes` (Monitor/Lock) holds the
--   signals and the file locks.
-- - Proofs about many functions at once: Act/Keeps and Rules/Frame (invariants of the device),
--   Act/Total and Rules/Total (functions that return no error), Act/Agree and Rules/Flush/Depth
--   (nested flushes), Act/Returns, Act/Ends and Act/Reaches (results and last states),
--   Rules/Flush/Sweep (what a flush leaves), Rules/Safety,
--   Rules/Rollback (how TPROXY is taken down), Rules/DryRun. Tests has a small device and runs of
--   the theorems.
--
-- Bounds
-- - A command flushes the open batch, and the flush may run commands. `flush_at` bounds how deep
--   this nests. A flush takes the batch away before it runs anything, so the commands inside it
--   find none: two levels are enough, and `flush_batch` is `flush_at 2`.
-- - Loops over lists are structural. The wait for the TUN device makes twelve tries, as the
--   source does.
-- - The wait for the processes of the core has 151 rounds: its shortest pause is 10 of the 1500
--   milliseconds. The waits for the monitor and for an address have the rounds of the source.
-- - Numbers that are read from text keep the bound of their Rust type.
--
-- Not modelled
-- - Log and terminal output: nothing else depends on it. The two cells that silence a second log
--   line are left out with it.
-- - Parsing and printing of IPv6 addresses and of JSON, the times of files: parameters.
-- - Of the monitor: netlink events, their debounce, the worker's endless loop, its cache of the
--   settings, taking the lock and starting the worker: sockets, channels, entropy and a clock.
-- - Of the commands: the file behind the operation lock, a panic of the calling thread, `status`.
-- - The rest of boxctl/src: core_config, db, logger, cli, platform, resource. boxbpf is C.
-- - `fs::read_to_string` is `read_file` of the device. The command lines under /proc, which the source
--   reads as bytes with the parts that are no UTF-8 replaced, are read through it too: the model
--   finds no text in such a file.
-- - Lower case is that of ASCII letters also where the source has the one of Unicode.
-- - A path is joined by "/" as for a relative second part.
pub mod Prelude
pub mod Act
pub mod Config
pub mod Exec
pub mod Rules
pub mod Monitor
pub mod Control
pub mod Service
pub mod Tests
