-- ===== src/Monitor/Worker/Verified.antt =====
-- To which processes boxctl/src/monitor/watcher.rs sends signals.
use boxproxy.Prelude.{some, ◌≡◌}
use boxproxy.Act.{Act}
use boxproxy.Act.Keeps.{Keeps}
use boxproxy.Rules.Manager.{Env}
use boxproxy.Monitor.Lock.{
  MonitorIdentity, Signal, process, group, Processes, monitor_lock_path, process_start_time,
  process_environment_value,
}

-- What each effect of the stop keeps. Of the signals only this pair is one: to the process group of
-- the identity and then to its process, in a state in which `/proc` shows the start time and the
-- token of the identity for that process.
pub record Harmless {S : Type 0} ⦃E : Env S⦄ ⦃P : Processes S⦄ (Q : S → Type 0) : Type 0 where
  pub removes : Keeps Q (E.host.remove_file (monitor_lock_path E.config))
  pub sleeps : Keeps Q (E.host.sleep "0.1")
  pub signals :
      (identity : MonitorIdentity) (sig : Signal) (s : S)
      → process_start_time identity.pid s ≡ some identity.start_time
      → process_environment_value identity.pid "BOXCTL_MONITOR_TOKEN" s ≡ some identity.token
      → Q s
      → Q (P.send_signal (process identity.pid) sig (P.send_signal (group identity.pid) sig s))
