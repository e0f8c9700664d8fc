-- ===== src/Monitor.antt =====
-- boxctl/src/monitor.rs: the network monitor, which starts and stops the core by the state of
-- the Wi-Fi link. `ServiceControl` is what it calls of boxctl/src/control.rs and boxctl/src/service.rs.
pub mod Parse
pub mod Observe
pub mod Policy
pub mod State
pub mod Lock
pub mod Worker
use boxproxy.Prelude.{String, Bool, Option}
use boxproxy.Act.{Act}

pub record WifiObservation : Type 0 where
  pub connected : Bool
  pub ssid : String
  pub bssid : String
  pub iface : String
  pub ip : Option String

pub data ServiceAction : Type 0 where
  already_running : ServiceAction
  started : ServiceAction
  already_stopped : ServiceAction
  stopped : ServiceAction

pub record NetworkPolicyResult : Type 0 where
  pub observation : WifiObservation
  pub handled : Bool

pub record ServiceControl (S : Type 0) : Type 0 where
  -- `service::is_running`, which returns no `Err` but may delete a pid file
  pub is_running : S → Bool × S
  pub up_from_monitor : Act S Unit
  pub down_from_monitor : Act S Unit
  -- `control::with_operation_lock` around a body
  pub with_operation_lock : Act S Unit → Act S Unit
  pub refresh_local_ip_rules : Act S Unit
