-- ===== src/Monitor/Worker.antt =====
-- boxctl/src/monitor/watcher.rs and the entry points of boxctl/src/monitor.rs: starting and
-- stopping the process that watches the network. Log lines are left out.
pub mod Verified
use boxproxy.Prelude.{
  String, ℕ, zero, suc, Bool, true, false, not, ◌&&◌, Option, none, some, if◌then◌else◌, leb, ◌^◌,
  ◌-◌,
}
use boxproxy.Act.{Act, pure, fail, gets, modify, ignore, on_option, ◌>>=◌, ◌>>◌}
use boxproxy.Config.{Config}
use boxproxy.Config.Modes.{NetworkMode, tun}
use boxproxy.Rules.Manager.{Env}
use boxproxy.Monitor.{ServiceControl}
use boxproxy.Monitor.Policy.{is_running}
use boxproxy.Monitor.Lock.{
  MonitorIdentity, Signal, sigterm, sigkill, Target, group, process, Processes, monitor_lock_path,
  read_monitor_identity, monitor_identity_matches, monitor_lock_is_held,
}

module _ {S : Type 0} ⦃E : Env S⦄ ⦃P : Processes S⦄ where
  -- `Runner::signal`
  unfoldable pub signal : Target → Signal → S → S
  signal target sig s = if E.runner.dry_run then s else P.send_signal target sig s

  -- A pid that is no `i32` gets no signal.
  unfoldable pub signal_monitor_process_group : ℕ → Signal → S → S
  unfolding signal
  signal_monitor_process_group pid sig s =
      if leb pid (2 ^ 31 - 1) then signal (process pid) sig (signal (group pid) sig s) else s

  -- The monitor is not there: its file goes, unless the lock is held.
  unfoldable pub release : String → Act S Unit
  unfolding ◌>>=◌ ignore monitor_lock_is_held
  release message = gets (monitor_lock_is_held (monitor_lock_path E.config)) >>= λ held.
      if held then fail message else ignore (E.host.remove_file (monitor_lock_path E.config))

  -- `for _ in 0..n`, waiting for the process to go
  unfoldable pub await_exit : MonitorIdentity → String → ℕ → Act S Unit → Act S Unit
  unfolding ◌>>=◌ ignore release monitor_identity_matches
  await_exit identity message zero next = next
  await_exit identity message (suc n) next =
      let later = await_exit identity message n next in
      gets (monitor_identity_matches identity) >>= λ alive.
      if alive then ignore (E.host.sleep "0.1") >> later else release message

  unfoldable pub kill_monitor : MonitorIdentity → Act S Unit
  unfolding ◌>>=◌ await_exit signal_monitor_process_group monitor_identity_matches
  kill_monitor identity = gets (monitor_identity_matches identity) >>= λ alive.
      if alive
      then modify (signal_monitor_process_group identity.pid sigkill)
        >> await_exit identity "monitor identity cannot be verified after SIGKILL; retaining lock"
            10 (fail "monitor remains alive after SIGKILL; retaining lock")
      else fail "monitor identity changed before SIGKILL; refusing to signal it"

  unfoldable pub end_monitor : MonitorIdentity → Act S Unit
  unfolding ◌>>=◌ release await_exit kill_monitor signal_monitor_process_group
      monitor_identity_matches
  end_monitor identity = gets (monitor_identity_matches identity) >>= λ alive.
      if alive
      then modify (signal_monitor_process_group identity.pid sigterm)
        >> await_exit identity "monitor identity cannot be verified after SIGTERM; refusing SIGKILL"
            20 (kill_monitor identity)
      else release "monitor identity cannot be verified; refusing to signal an unverified process"

  unfoldable pub stop_monitor_worker : Act S Unit
  unfolding ◌>>=◌ on_option release end_monitor read_monitor_identity
  stop_monitor_worker = gets (read_monitor_identity (monitor_lock_path E.config)) >>= λ found.
      on_option found
        (release
          "monitor lock identity is missing or invalid; refusing to signal an unverified process")
        end_monitor

  -- whether the process that the file names is the monitor, or else somebody holds the lock
  named_alive : Option MonitorIdentity → S → Bool
  unfolding monitor_identity_matches
  named_alive none s = false
  named_alive (some identity) s = monitor_identity_matches identity s

  unfoldable pub monitor_worker_running : Act S Bool
  unfolding ◌>>=◌ ignore monitor_lock_is_held read_monitor_identity named_alive
  monitor_worker_running =
      gets (λ s. named_alive (read_monitor_identity (monitor_lock_path E.config) s) s) >>= λ alive.
      if alive
      then pure true
      else (gets (monitor_lock_is_held (monitor_lock_path E.config)) >>= λ held.
          if held
          then pure true
          else ignore (E.host.remove_file (monitor_lock_path E.config)) >> pure false)

abbrev is_tun : NetworkMode → Bool
is_tun tun = true
is_tun _ = false

module _ {S : Type 0} ⦃E : Env S⦄ ⦃C : ServiceControl S⦄ where
  unfoldable pub monitor_required : Act S Bool
  unfolding ◌>>=◌ is_running
  monitor_required =
      if E.config.wifi_network_control_enabled
      then pure true
      else (is_running >>= λ running. pure (running && not (is_tun E.config.network_mode)))

module _ {S : Type 0} ⦃E : Env S⦄ ⦃C : ServiceControl S⦄ ⦃P : Processes S⦄ (requested : Bool)
    (worker spawn_worker : Act S Unit) where
  -- `requested` is whether this process is to be the worker; the worker itself and its start are
  -- arguments.
  unfoldable pub run_monitor : Act S Unit
  unfolding ◌>>=◌ monitor_required monitor_worker_running stop_monitor_worker
  run_monitor = monitor_required >>= λ required.
      if requested
      then (if required then worker else pure tt)
      else if not required
      then stop_monitor_worker
      else (monitor_worker_running >>= λ running. if running then pure tt else spawn_worker)

  unfoldable pub stop_monitor : Act S Unit
  unfolding ◌>>=◌ monitor_required stop_monitor_worker
  stop_monitor = monitor_required >>= λ required.
      if required then pure tt else if requested then pure tt else stop_monitor_worker
