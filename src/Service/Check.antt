-- ===== src/Service/Check.antt =====
-- boxctl/src/service/config_check.rs: the core checks its own configuration, once for each state of
-- the files. Log lines are left out.
use boxproxy.Prelude.{String, Bool, Option, none, some, ◌<>◌, if◌then◌else◌}
use boxproxy.Prelude.Text.{is_blank}
use boxproxy.Act.{Result, ok, err, Act, pure, fail, gets, attempt, ◌>>=◌, ◌>>◌}
use boxproxy.Exec
use boxproxy.Exec.{Output}
use boxproxy.Config.{Config}
use boxproxy.Config.Modes.{network_mode_str}
use boxproxy.Rules.Manager.{Env}
use boxproxy.Service.{CoreFiles, System}
use boxproxy.Service.Stamp.{file_stamp}
use boxproxy.Service.Command.{core_check_command}
use boxproxy.Service.Permissions.{stamp_path, stamp_is_saved, save_stamp}

abbrev line_of : String → String
line_of text = if is_blank text then "" else text <> "\n"

abbrev pub check_stamp_path : Config → String
check_stamp_path config = stamp_path config ".config-check.stamp"

abbrev both_stamps : String → Option String → Option String → Option String
both_stamps mode (some core) (some file) =
    some ("core=" <> (core <> ("\nconfig=" <> (file <> ("\nmode=" <> (mode <> "\n"))))))
both_stamps mode _ _ = none

module _ {S : Type 0} ⦃E : Env S⦄ where
  unfoldable pub logged : Result {0} Unit → String → Act S Unit
  logged (ok _) path = pure tt
  logged (err e) path = fail ("write log " <> (path <> (" failed: " <> e)))

module _ {S : Type 0} ⦃E : Env S⦄ ⦃Y : System S⦄ (files : CoreFiles) where
  unfoldable pub config_check_stamp : S → Option String
  unfolding file_stamp
  config_check_stamp s =
      both_stamps (network_mode_str E.config.network_mode) (file_stamp files.bin_path s)
        (file_stamp files.launch_config_path s)

  unfoldable pub config_check_stamp_matches : S → Bool
  unfolding config_check_stamp stamp_is_saved
  config_check_stamp_matches s = stamp_is_saved (check_stamp_path E.config) (config_check_stamp s) s

  unfoldable pub save_config_check_stamp : Act S Unit
  unfolding ◌>>=◌ config_check_stamp save_stamp
  save_config_check_stamp =
      gets config_check_stamp
      >>= save_stamp (check_stamp_path E.config) "write config check stamp failed: "

  -- What the check printed is kept, and its verdict is followed.
  unfoldable pub checked : Output → Act S Unit
  unfolding ◌>>=◌ logged save_config_check_stamp
  checked output =
      attempt (E.host.write_file files.bin_log (line_of output.stdout <> line_of output.stderr))
      >>= (λ r. logged r files.bin_log)
      >> (if output.success
          then save_config_check_stamp
          else fail (E.config.bin_name <> (" config check failed, see " <> files.bin_log)))

  unfoldable pub run_config_check : Act S Unit
  unfolding ◌>>=◌ config_check_stamp_matches checked core_check_command Exec.run
  run_config_check =
      let (program, args) = core_check_command E.config.bin_name files in
      if is_blank program
      then pure tt
      else (gets config_check_stamp_matches >>= λ fresh.
          if fresh
          then pure tt
          else if E.runner.dry_run
          then pure tt
          else Exec.run E.host E.runner program args >>= checked)
