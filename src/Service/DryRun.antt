-- ===== src/Service/DryRun.antt =====
-- What a dry run of boxctl/src/service.rs leaves alone.
use boxproxy.Prelude.{
  String, ℕ, zero, suc, Bool, true, false, Option, none, some, List, if◌then◌else◌, ◌≡◌, refl,
  arith,
}
use boxproxy.Act.{Result, ok, err, Act, pure, modify, on_option, ◌>>=◌}
use mathlib.Core.Path.{subst, sym}
use boxproxy.Act.Keeps.{Keeps, Keeps-if, Keeps-modify, Keeps-pure, keeps_rules}
use boxproxy.Exec
use boxproxy.Rules.Manager.{Env}
use boxproxy.Monitor.Lock.{Signal, Target, Processes}
use boxproxy.Monitor.Worker.{signal}
use boxproxy.Service.{CoreFiles, System}
use boxproxy.Service.Process.{
  deleted, remove_pid, pid_from_file_if_core, running_core_pids, signal_pid, await_stop, kill_alive,
  after_wait, stop_pids, stop_service, current_core_pid,
}
use boxproxy.Service.Permissions.{prepare_permissions}
use boxproxy.Service.Check.{run_config_check}
use boxproxy.Service.Start.{
  labelled, ensure_dirs, clear_run_log, validate_core, stop_old, spawn_core, after_spawn, launch,
  start_service,
}

-- What a dry run may still do: directories and files of its own, and waiting. Nothing is said of
-- programs, of the core or of signals.
pub record OwnFiles {S : Type 0} ⦃E : Env S⦄ ⦃Y : System S⦄ (Q : S → Type 0) : Type 0 where
  pub writes : (path text : String) → Keeps Q (E.host.write_file path text)
  pub makes_dirs : (path : String) → Keeps Q (E.host.create_dir_all path)
  pub removes : (path : String) → Keeps Q (E.host.remove_file path)
  pub pauses : (ms : ℕ) (s : S) → Q s → Q (Y.pause ms s)

if_true : {A : Type 0} (b : Bool) (x y : A) → b ≡ true → (if b then x else y) ≡ x
if_true true x y h = refl
if_true false x y h = grind arith

module _ {S : Type 0} ⦃E : Env S⦄ ⦃P : Processes S⦄ ⦃Y : System S⦄ (Q : S → Type 0)
    (own : OwnFiles Q) (dry : E.runner.dry_run ≡ true) where
  write_file-Keeps : (path text : String) → Keeps Q (E.host.write_file path text)
  write_file-Keeps = own.writes

  create_dir_all-Keeps : (path : String) → Keeps Q (E.host.create_dir_all path)
  create_dir_all-Keeps = own.makes_dirs

  remove_file-Keeps : (path : String) → Keeps Q (E.host.remove_file path)
  remove_file-Keeps = own.removes

  pause-Keeps : (ms : ℕ) → Keeps Q (modify (Y.pause ms))
  pause-Keeps ms = Keeps-modify _ (own.pauses ms)

  -- The tests of a dry run.
  dry-Keeps :
      {A : Type 0} (m other : Act S A) → Keeps Q m → Keeps Q (if E.runner.dry_run then m else other)
  dry-Keeps m other kept =
      Keeps-if E.runner.dry_run m other (λ _. kept) (λ live. grind (arith, dry, live))

  signal-Keeps : (target : Target) (sig : Signal) → Keeps Q (modify (signal target sig))
  unfolding signal
  signal-Keeps target sig =
      Keeps-modify _
        (λ s h. subst Q (sym (if_true E.runner.dry_run s (P.send_signal target sig s) dry)) h)

  run_status-Keeps :
      (program : String) (args : List String)
      → Keeps Q (Exec.run_status E.host E.runner program args)
  unfolding Exec.run_status
  run_status-Keeps program args = dry-Keeps _ _ (Keeps-pure false)

  run_ignore-Keeps :
      (program : String) (args : List String)
      → Keeps Q (Exec.run_ignore E.host E.runner program args)
  unfolding Exec.run_ignore
  run_ignore-Keeps program args = search (keeps_rules, run_status-Keeps)

  deleted-Keeps : (r : Result {0} Unit) → Keeps Q (deleted r)
  unfolding deleted
  deleted-Keeps (ok _) = search keeps_rules
  deleted-Keeps (err e) = search keeps_rules

  labelled-Keeps : (message : String) (r : Result {0} Unit) → Keeps Q (labelled message r)
  unfolding labelled
  labelled-Keeps message (ok _) = search keeps_rules
  labelled-Keeps message (err e) = search keeps_rules

  remove_pid-Keeps : Keeps Q remove_pid
  unfolding remove_pid
  remove_pid-Keeps = search (keeps_rules, remove_file-Keeps, deleted-Keeps) depth 9

  pid_from_file-Keeps : Keeps Q pid_from_file_if_core
  unfolding pid_from_file_if_core
  pid_from_file-Keeps = search (keeps_rules, remove_pid-Keeps) depth 9

  running_core_pids-Keeps : (names : List String) → Keeps Q (running_core_pids names)
  unfolding running_core_pids
  running_core_pids-Keeps names = search (keeps_rules, pid_from_file-Keeps)

  signal_pid-Keeps : (sig : Signal) (pid : String × String) → Keeps Q (signal_pid sig pid)
  unfolding signal_pid
  signal_pid-Keeps sig pid = search (keeps_rules, signal-Keeps)

  await_stop-Keeps :
      (files : CoreFiles) (fuel deadline interval : ℕ)
      → Keeps Q (await_stop files fuel deadline interval)
  unfolding await_stop
  await_stop-Keeps files zero deadline interval = search keeps_rules
  await_stop-Keeps files (suc fuel) deadline interval =
      search (keeps_rules, running_core_pids-Keeps, pause-Keeps, await_stop-Keeps files fuel) depth
        12

  after_wait-Keeps : (files : CoreFiles) (gone : Option Bool) → Keeps Q (after_wait files gone)
  unfolding after_wait kill_alive
  after_wait-Keeps files (some true) = remove_pid-Keeps
  after_wait-Keeps files (some false) =
      search (keeps_rules, running_core_pids-Keeps, signal_pid-Keeps, remove_pid-Keeps) depth 12
  after_wait-Keeps files none =
      search (keeps_rules, running_core_pids-Keeps, signal_pid-Keeps, remove_pid-Keeps) depth 12

  stop_pids-Keeps :
      (files : CoreFiles) (pids : List (String × String)) → Keeps Q (stop_pids files pids)
  unfolding stop_pids
  stop_pids-Keeps files pids =
      search (keeps_rules, signal_pid-Keeps, await_stop-Keeps, after_wait-Keeps) depth 12

  pub stop_service-Keeps : (files : CoreFiles) → Keeps Q (stop_service files)
  unfolding stop_service
  stop_service-Keeps files =
      search (keeps_rules, running_core_pids-Keeps, remove_pid-Keeps, stop_pids-Keeps) depth 12

  pub current_core_pid-Keeps : Keeps Q current_core_pid
  unfolding current_core_pid
  current_core_pid-Keeps = search (keeps_rules, pid_from_file-Keeps) depth 12

  prepare_permissions-Keeps : (files : CoreFiles) → Keeps Q (prepare_permissions files)
  unfolding prepare_permissions
  prepare_permissions-Keeps files = search (keeps_rules, dry-Keeps, run_ignore-Keeps) depth 12

  run_config_check-Keeps : (files : CoreFiles) → Keeps Q (run_config_check files)
  unfolding run_config_check
  run_config_check-Keeps files = search (keeps_rules, dry-Keeps) depth 12

  module _ (files : CoreFiles) (cpu_count : Option ℕ) (mode_supported : Act S Unit)
      (apply_limits : ℕ → Act S Unit) (supported : Keeps Q mode_supported) where
    ensure_dirs-Keeps : Keeps Q (ensure_dirs files cpu_count mode_supported apply_limits)
    unfolding ensure_dirs
    ensure_dirs-Keeps = search (keeps_rules, create_dir_all-Keeps, labelled-Keeps)

    clear_run_log-Keeps : Keeps Q (clear_run_log files cpu_count mode_supported apply_limits)
    unfolding clear_run_log
    clear_run_log-Keeps = search (keeps_rules, write_file-Keeps, labelled-Keeps)

    validate_core-Keeps : Keeps Q (validate_core files cpu_count mode_supported apply_limits)
    unfolding validate_core
    validate_core-Keeps = search keeps_rules

    stop_old-Keeps : Keeps Q (stop_old files cpu_count mode_supported apply_limits)
    unfolding stop_old
    stop_old-Keeps = search (keeps_rules, running_core_pids-Keeps, stop_pids-Keeps)

    -- No pid, nothing to do.
    no_core-Keeps :
        (command : String × List String) (ids : ℕ × ℕ)
        → Keeps Q (
            spawn_core files cpu_count mode_supported apply_limits command ids
            >>= after_spawn files cpu_count mode_supported apply_limits)
    unfolding spawn_core after_spawn ◌>>=◌ on_option
    no_core-Keeps command ids =
        subst (λ m. Keeps Q (m >>= after_spawn files cpu_count mode_supported apply_limits))
          (sym (if_true E.runner.dry_run (pure none) _ dry)) (record { at = λ s h. h })

    launch-Keeps : Keeps Q (launch files cpu_count mode_supported apply_limits)
    unfolding launch
    launch-Keeps = search (keeps_rules, no_core-Keeps)

    -- A dry run of the start keeps whatever is kept by writing and deleting files, by making
    -- directories and by waiting: it starts no core, runs no program and sends no signal.
    pub start_service-Keeps : Keeps Q (start_service files cpu_count mode_supported apply_limits)
    unfolding start_service
    start_service-Keeps =
        search
          (
            keeps_rules, ensure_dirs-Keeps, clear_run_log-Keeps, validate_core-Keeps,
            stop_old-Keeps, prepare_permissions-Keeps, run_config_check-Keeps, launch-Keeps,
          )
          depth 12
