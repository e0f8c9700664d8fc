-- ===== src/Service/Start.antt =====
-- boxctl/src/service.rs: starting the core. Log lines are left out; `sync_support` and `apply_limits`
-- stand for what it calls of core_config.rs and resource.rs.
use boxproxy.Prelude.{
  String, ℕ, Bool, not, ◌&&◌, ◌||◌, Option, none, some, List, [], ◌∷◌, ◌==◌, ◌<>◌, if◌then◌else◌,
  is_empty,
}
use boxproxy.Prelude.Text.{trim, is_blank}
use boxproxy.Prelude.Number.{show}
use boxproxy.Act.{
  Result, ok, err, Act, pure, fail, lift, gets, modify, attempt, ignore, for_each, on_option, ◌>>=◌,
  ◌>>◌, when,
}
use boxproxy.Rules.Manager.{Env}
use boxproxy.Monitor.Lock.{Processes}
use boxproxy.Service.{CoreFiles, System}
use boxproxy.Service.Process.{running_core_pids, stop_pids, remove_pid, pid_matches_bin}
use boxproxy.Service.Permissions.{prepare_permissions, parse_user_group}
use boxproxy.Service.Check.{run_config_check}
use boxproxy.Service.Command.{core_run_command, core_env}

module _ {S : Type 0} where
  -- `map_err` with a text in front
  unfoldable pub labelled : String → Result {0} Unit → Act S Unit
  labelled message (ok _) = pure tt
  labelled message (err e) = fail (message <> e)

abbrev is_core : String → Bool
is_core name =
    name == "mihomo"
    || name == "sing-box"
    || name == "xray"
    || name == "v2fly"
    || name == "hysteria"

module _ {S : Type 0} ⦃E : Env S⦄ ⦃P : Processes S⦄ ⦃Y : System S⦄ (files : CoreFiles)
    (cpu_count : Option ℕ) (mode_supported : Act S Unit) (apply_limits : ℕ → Act S Unit) where
  unfoldable pub ensure_dirs : Act S Unit
  unfolding ◌>>=◌ for_each labelled
  ensure_dirs = for_each (files.run_dir ∷ E.config.state_dir ∷ []) (λ path.
      attempt (E.host.create_dir_all path)
      >>= labelled ("create directory " <> (path <> " failed: ")))

  unfoldable pub clear_run_log : Act S Unit
  unfolding ◌>>=◌ for_each labelled
  clear_run_log = for_each files.log_paths (λ path.
      attempt (E.host.write_file path "") >>= labelled ("clear log " <> (path <> " failed: ")))

  -- the tests of the files, in their order
  files_error : S → Option String
  unfolding trim
  files_error s =
      if not (is_core E.config.bin_name)
      then some ("unknown core: " <> E.config.bin_name)
      else if not (E.host.exists files.bin_path s)
      then some ("core not detected: " <> files.bin_path)
      else if is_blank (trim files.config_name)
      then some "config file not selected"
      else if not (E.host.is_file files.source_config_path s)
      then some ("source config file not detected: " <> files.source_config_path)
      else if files.uses_runtime_config && not (E.host.is_file files.launch_config_path s)
      then some ("runtime startup config not prepared: " <> files.launch_config_path)
      else none

  unfoldable pub validate_core : Act S Unit
  unfolding ◌>>=◌ on_option files_error
  validate_core = mode_supported >> (gets files_error >>= λ e. on_option e (pure tt) fail)

  -- `spawn_to_file_with_env_as`, which starts nothing in a dry run
  unfoldable pub spawn_core : String × List String → ℕ × ℕ → Act S (Option ℕ)
  unfolding ◌>>=◌ core_env
  spawn_core (program, args) (uid, gid) =
      if E.runner.dry_run
      then pure none
      else (Y.spawn_core program args files.bin_log (core_env E.config.bin_name files) uid gid
          >>= λ pid. pure (some pid))

  -- The core that was started, unless it is gone again after a moment.
  unfoldable pub probe_start : ℕ → Act S Unit
  unfolding ◌>>=◌ labelled ignore remove_pid pid_matches_bin show
  probe_start pid =
      attempt (E.host.write_file E.config.box_pid (show pid))
      >>= labelled ("write PID " <> (E.config.box_pid <> " failed: "))
      >> modify (Y.pause 300)
      >> (gets (pid_matches_bin E.config.bin_name (show pid)) >>= λ alive.
          if alive
          then pure tt
          else ignore remove_pid
            >> fail ("core " <> (E.config.bin_name <> " exited immediately after start")))

  -- In a dry run no pid is there.
  unfoldable pub after_spawn : Option ℕ → Act S Unit
  unfolding ◌>>=◌ on_option probe_start
  after_spawn pid =
      on_option pid (pure tt) (λ n. when (not E.runner.dry_run) (probe_start n) >> apply_limits n)

  -- An older core is stopped first.
  unfoldable pub stop_old : Act S Unit
  unfolding ◌>>=◌ running_core_pids stop_pids
  stop_old = running_core_pids files.bin_list >>= λ running.
      if is_empty running then pure tt else stop_pids files running

  unfoldable pub launch : Act S Unit
  unfolding ◌>>=◌ core_run_command parse_user_group spawn_core after_spawn
  launch = do
    command ← gets (core_run_command cpu_count files)
    ids ← lift (parse_user_group E.config.box_user_group)
    pid ← spawn_core command ids
    after_spawn pid

  -- `start`: its `match` only adds a log line
  unfoldable pub start_service : Act S Unit
  unfolding ◌>>=◌ ensure_dirs validate_core clear_run_log stop_old prepare_permissions
      run_config_check launch
  start_service =
      ensure_dirs
      >> validate_core
      >> clear_run_log
      >> stop_old
      >> prepare_permissions files
      >> run_config_check files
      >> launch
