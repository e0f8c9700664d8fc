-- ===== src/Control.antt =====
-- boxctl/src/control.rs: starting and stopping the core together with its rules. `Parts` holds what
-- it calls of the other files; log lines are left out.
pub mod Thread
pub mod Started
pub mod Program
pub mod DryRun
use boxproxy.Prelude.{
  String, Bool, true, false, not, ◌&&◌, List, [], ◌∷◌, ◌++◌, ◌<>◌, if◌then◌else◌, is_empty,
}
use boxproxy.Prelude.Text.{join}
use boxproxy.Act.{Result, ok, err, is_ok, Act, pure, fail, lift, attempt, ◌>>=◌, ◌>>◌, when}
use boxproxy.Rules.Manager.{Env}
use boxproxy.Monitor.{ServiceControl}
use boxproxy.Monitor.State.{apply_wifi_policy}
use boxproxy.Control.Thread.{Task, Outcome, returned, panicked, both}

-- The scopes in which two threads run.
pub data Scope : Type 0 where
  starting : Scope
  rolling_back : Scope
  stopping : Scope

pub record Parts (S : Type 0) : Type 0 where
  -- `core_config::sync`
  pub sync : Act S Unit
  -- `service::start`, `service::stop` and `rules::clear` where they run in the calling thread
  pub start_service : Task S (Result {0} Unit)
  pub stop_service : Task S (Result {0} Unit)
  pub clear_rules : Task S (Result {0} Unit)
  -- `rules::apply`, `rules::clear` and `service::stop` where they run in a thread of their own
  pub apply_rules_thread : Task S Outcome
  pub clear_rules_thread : Task S Outcome
  pub stop_service_thread : Task S Outcome
  -- `monitor::run`, `rules::refresh_local_ip_rules`, `service::is_running`
  pub run_monitor : Act S Unit
  pub refresh_local_ip_rules : Act S Unit
  pub is_running : S → Bool × S
  -- `OperationLock::acquire`, and the drop of the lock
  pub acquire : Act S Unit
  pub release : S → S
  -- the order in which the steps of the two threads of a scope alternate
  pub order : Scope → List Bool

-- `join_result`
abbrev pub join_result : String → Outcome → Result {0} Unit
join_result message (returned result) = result
join_result message panicked = err message

-- A failure with its label, for the list that is joined.
abbrev pub failure : String → Result {0} Unit → List String
failure label (ok _) = []
failure label (err e) = (label <> e) ∷ []

unfoldable pub startup_failure_with_rollback : String → List String → String
unfolding join
startup_failure_with_rollback primary [] = primary
startup_failure_with_rollback primary (f ∷ fs) =
    primary <> ("; rollback failed: " <> join "; " (f ∷ fs))

module _ {S : Type 0} ⦃P : Parts S⦄ where
  unfoldable pub with_operation_lock : Act S Unit → Act S Unit
  unfolding ◌>>=◌
  with_operation_lock operation =
      P.acquire >>= λ _. λ s. let (r, s') = operation s in (r, P.release s')

  -- The two threads of `up_inner`: the service and then the rules.
  unfoldable pub start_both : S → (Result {0} Unit × Result {0} Unit) × S
  unfolding both
  start_both s =
      let ((service, rules), s') = both (P.order starting) P.start_service P.apply_rules_thread s in
      ((service, join_result "inbound rules thread panicked" rules), s')

  unfoldable pub stop_both_back : S → (Result {0} Unit × Result {0} Unit) × S
  unfolding both
  stop_both_back s =
      let ((service, rules), s') =
        both (P.order rolling_back) P.stop_service P.clear_rules_thread s in
      ((service, join_result "rules rollback thread panicked" rules), s')

  unfoldable pub stop_both : S → (Result {0} Unit × Result {0} Unit) × S
  unfolding both
  stop_both s =
      let ((rules, service), s') = both (P.order stopping) P.clear_rules P.stop_service_thread s in
      ((rules, join_result "service stop thread panicked" service), s')

  -- The error of a start that is taken back.
  unfoldable pub rollback_startup : String → Act S Unit
  unfolding stop_both_back startup_failure_with_rollback
  rollback_startup primary s =
      let ((service, rules), s') = stop_both_back s in
      (
        err (
            startup_failure_with_rollback primary
              (failure "stop core: " service ++ failure "clear rules: " rules)),
        s',
      )

  after_monitor : Result {0} Unit → Act S Unit
  unfolding rollback_startup
  after_monitor (ok _) = pure tt
  after_monitor (err e) = rollback_startup ("start monitor failed: " <> e)

  monitor_or_rollback : Act S Unit
  unfolding after_monitor
  monitor_or_rollback s = let (r, s') = P.run_monitor s in after_monitor r s'

  -- What follows the two threads of a start.
  unfoldable pub after_start : Bool → List String → Act S Unit
  unfolding rollback_startup monitor_or_rollback join
  after_start manage_monitor [] = when manage_monitor monitor_or_rollback
  after_start manage_monitor (f ∷ fs) = rollback_startup (join "; " (f ∷ fs))

  start_threads : Bool → Act S Unit
  unfolding start_both after_start
  start_threads manage_monitor s =
      let ((service, rules), s') = start_both s in
      after_start manage_monitor
        (failure "start core failed: " service ++ failure "apply rules failed: " rules) s'

  unfoldable pub up_inner : Bool → Act S Unit
  unfolding ◌>>=◌ start_threads
  up_inner manage_monitor = P.sync >> start_threads manage_monitor

  unfoldable pub down_inner : Bool → Act S Unit
  unfolding ◌>>=◌ stop_both
  down_inner manage_monitor s =
      let ((rules, service), s') = stop_both s in
      (lift rules >> lift service >> when manage_monitor P.run_monitor) s'

  unfoldable pub up : Act S Unit
  unfolding with_operation_lock up_inner
  up = with_operation_lock (up_inner true)

  unfoldable pub up_from_monitor : Act S Unit
  unfolding with_operation_lock up_inner
  up_from_monitor = with_operation_lock (up_inner false)

  unfoldable pub down : Act S Unit
  unfolding with_operation_lock down_inner
  down = with_operation_lock (down_inner true)

  unfoldable pub down_from_monitor : Act S Unit
  unfolding with_operation_lock down_inner
  down_from_monitor = with_operation_lock (down_inner false)

  unfoldable pub restart : Act S Unit
  unfolding ◌>>=◌ with_operation_lock down_inner up_inner
  restart = with_operation_lock (down_inner false >> up_inner true)

  -- What the monitor calls.
  unfoldable pub service_control : ServiceControl S
  unfolding up_from_monitor down_from_monitor with_operation_lock
  service_control = record {
    is_running = P.is_running;
    up_from_monitor = up_from_monitor;
    down_from_monitor = down_from_monitor;
    with_operation_lock = with_operation_lock;
    refresh_local_ip_rules = P.refresh_local_ip_rules;
  }

module _ {S : Type 0} ⦃E : Env S⦄ ⦃P : Parts S⦄ where
  unfoldable pub boot : Act S Unit
  unfolding ◌>>=◌ up apply_wifi_policy
  boot =
      if E.config.wifi_network_control_enabled
      then apply_wifi_policy ⦃C = service_control⦄ >> P.run_monitor
      else up
