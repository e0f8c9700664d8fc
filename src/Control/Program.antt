-- ===== src/Control/Program.antt =====
-- The parts that the commands of boxctl/src/control.rs call, filled with the rules, the service and
-- the monitor of this library. A part that runs in a thread is one step here.
use boxproxy.Prelude.{ℕ, Bool, true, false, Option, none, some, List}
use boxproxy.Act.{Result, ok, err, Act, pure}
use boxproxy.Rules.Manager.{Env}
use boxproxy.Rules.Outside.{Outside}
use boxproxy.Rules.Apply.{apply, clear, refresh_local_ip_rules}
use boxproxy.Monitor.Lock.{Processes}
use boxproxy.Monitor.Worker.{run_monitor}
use boxproxy.Service.{CoreFiles, System}
use boxproxy.Service.Process.{current_core_pid, stop_service}
use boxproxy.Service.Start.{start_service}
use boxproxy.Control.{Parts, Scope, service_control}
use boxproxy.Control.Thread.{Task, finished, step, Outcome, returned}

-- What is neither of this library nor of `Env`, `Outside`, `Processes` and `System`: the writing of
-- the core's configuration, the lock of the commands, the limits of the core's process, and the
-- monitor's worker and its start.
pub record Rest (S : Type 0) : Type 0 where
  pub files : CoreFiles
  pub cpu_count : Option ℕ
  pub sync : Act S Unit
  pub limits : ℕ → Act S Unit
  pub acquire : Act S Unit
  pub release : S → S
  pub order : Scope → List Bool
  pub requested : Bool
  pub worker : Act S Unit
  pub spawn_worker : Act S Unit

is_some : Result {0} (Option ℕ) → Bool
is_some (ok (some pid)) = true
is_some (ok none) = false
is_some (err e) = false

module _ {S : Type 0} where
  abbrev pub in_one_step : Act S Unit → Task S (Result {0} Unit)
  in_one_step m = step (λ s. (m s).1) (λ s. finished (m s).0)

  abbrev pub in_thread : Act S Unit → Task S Outcome
  in_thread m = step (λ s. (m s).1) (λ s. finished (returned (m s).0))

module _ {S : Type 0} ⦃E : Env S⦄ ⦃O : Outside S⦄ ⦃P : Processes S⦄ ⦃Y : System S⦄
    (rest : Rest S) where
  service_running : S → Bool × S
  unfolding is_some
  service_running s = let (found, s') = current_core_pid s in (is_some found, s')

  unfoldable parts_with : Act S Unit → Parts S
  unfolding service_running start_service stop_service apply clear refresh_local_ip_rules
  parts_with monitor =
      let start = start_service rest.files rest.cpu_count O.mode_supported rest.limits in
      record {
        sync = rest.sync;
        start_service = in_one_step start;
        stop_service = in_one_step (stop_service rest.files);
        clear_rules = in_one_step clear;
        apply_rules_thread = in_thread apply;
        clear_rules_thread = in_thread clear;
        stop_service_thread = in_thread (stop_service rest.files);
        run_monitor = monitor;
        refresh_local_ip_rules = refresh_local_ip_rules;
        is_running = service_running;
        acquire = rest.acquire;
        release = rest.release;
        order = rest.order;
      }

  -- The calls of the monitor never run the monitor again.
  unfoldable pub program : Parts S
  unfolding parts_with service_running start_service stop_service apply clear refresh_local_ip_rules
      run_monitor service_control
  program = parts_with (
      run_monitor ⦃C = service_control ⦃P = parts_with (pure tt)⦄⦄ rest.requested rest.worker
        rest.spawn_worker)
