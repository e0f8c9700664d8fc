-- ===== src/Rules/Snapshot.antt =====
-- boxctl/src/rules/runtime.rs: the record of the run, written when the rules are in place.
pub mod Recorded
use boxproxy.Prelude.{String, List, [], ◌∷◌, ◌<>◌, if◌then◌else◌}
use boxproxy.Act.{Result, ok, err, Act, pure, fail, lift, attempt, map_err, ◌>>=◌, ◌>>◌}
use boxproxy.Config.{Config}
use boxproxy.Config.Modes.{network_mode_str}
use boxproxy.Rules.Manager.{Env, World, on_host}
use boxproxy.Rules.Outside.{JsonValue, text, Outside}

abbrev pub snapshot_fields : Config → List (String × JsonValue)
snapshot_fields config =
    ("network_mode", text (network_mode_str config.network_mode))
    ∷ ("bin_name", text config.bin_name)
    ∷ ("ipv6_mode", text config.ipv6_mode)
    ∷ ("dns_hijack_mode", text config.dns_hijack_mode)
    ∷ ("tproxy_port", text config.tproxy_port)
    ∷ ("redir_port", text config.redir_port)
    ∷ ("tun_device", text config.tun_device)
    ∷ []

abbrev pub runtime_snapshot_path : Config → String
runtime_snapshot_path config = config.state_dir <> "/runtime.iptables.json"

module _ {S : Type 0} ⦃E : Env S⦄ ⦃O : Outside S⦄ where
  unfoldable pub runtime_snapshot_text : Act (World S) String
  unfolding map_err
  runtime_snapshot_text =
      map_err "serialize runtime snapshot failed: " (lift (O.to_json (snapshot_fields E.config)))

  unfoldable pub write_runtime_snapshot : String → Act (World S) Unit
  unfolding map_err
  write_runtime_snapshot snapshot =
      map_err ("write runtime snapshot " <> (runtime_snapshot_path E.config <> " failed: "))
        (on_host (E.host.write_atomic (runtime_snapshot_path E.config) snapshot))

  unfoldable pub runtime_save : Act (World S) Unit
  unfolding ◌>>=◌ map_err runtime_snapshot_text write_runtime_snapshot
  runtime_save =
      map_err "create state directory failed: " (on_host (E.host.create_dir_all E.config.state_dir))
      >> (runtime_snapshot_text >>= write_runtime_snapshot)

  -- What `remove_file` answered: a file that was not there is as good as removed.
  unfoldable pub removed : String → Result {0} Unit → Act (World S) Unit
  removed path (ok _) = pure tt
  removed path (err e) =
      if O.is_not_found e
      then pure tt
      else fail ("remove runtime state " <> (path <> (" failed: " <> e)))

  unfoldable pub remove_runtime_file : String → Act (World S) Unit
  unfolding ◌>>=◌ removed
  remove_runtime_file path = attempt (on_host (E.host.remove_file path)) >>= removed path

  unfoldable pub runtime_clear : Act (World S) Unit
  unfolding ◌>>=◌ remove_runtime_file
  runtime_clear =
      remove_runtime_file (runtime_snapshot_path E.config)
      >> remove_runtime_file (E.config.state_dir <> "/runtime.iptables.env")
