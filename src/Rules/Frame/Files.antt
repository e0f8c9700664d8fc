-- ===== src/Rules/Frame/Files.antt =====
-- boxctl/src/rules/runtime.rs, the refresh of boxctl/src/rules/local_ip.rs and the sets of
-- boxctl/src/rules/cnip.rs, with a framed predicate that the program's own files keep.
use boxproxy.Prelude.{String, Bool, List, ◌<>◌}
use boxproxy.Act.{Result, ok, err}
use boxproxy.Act.Keeps.{Keeps}
use boxproxy.Config.{Config}
use boxproxy.Rules.Names.{Family, Capabilities}
use boxproxy.Rules.Manager.{Env, World}
use boxproxy.Rules.Outside.{Outside}
use boxproxy.Rules.Snapshot.{
  runtime_snapshot_path, runtime_snapshot_text, write_runtime_snapshot, runtime_save, removed,
  remove_runtime_file, runtime_clear,
}
use boxproxy.Rules.Ipset.{
  ipset_stamp_dir, ipset_stamp_path, ipset_has_entries, ipset_should_reload, write_ipset_stamp,
  import_ipset, restore_ipset, setup_cn_ipset_if_needed,
}
use boxproxy.Rules.LocalIp.Refresh.{
  local_ip_refresh_key_path, save_local_ip_refresh_key, rebuilt, rebuild_chains,
  refresh_local_ip_rules,
}
use boxproxy.Rules.Frame.{Frame, OfDevice}
use boxproxy.Rules.Frame.Cleanup.{cleanup_rules}
use boxproxy.Rules.Frame.Own.{
  Owned, Owns, state_dir, named, write_file-Owns, write_atomic-Owns, create_dir_all-Owns,
  remove_file-Owns,
}

module _ (config : Config) where
  snapshot_path-Owned : Owned config (runtime_snapshot_path config)
  snapshot_path-Owned = named _ "runtime.iptables.json" state_dir

  old_path-Owned : Owned config (config.state_dir <> "/runtime.iptables.env")
  old_path-Owned = named _ "runtime.iptables.env" state_dir

  key_path-Owned : Owned config (local_ip_refresh_key_path config)
  key_path-Owned = named _ "local_ip_refresh.key" state_dir

  stamp_dir-Owned : Owned config (ipset_stamp_dir config)
  stamp_dir-Owned = named _ "ipset.stamp" state_dir

  stamp_path-Owned : (name : String) → Owned config (ipset_stamp_path config name)
  stamp_path-Owned name = named _ (name <> ".stamp") (named _ "ipset.stamp" state_dir)

ruleset path_rules = (
  state_dir, snapshot_path-Owned, old_path-Owned, key_path-Owned, stamp_dir-Owned, stamp_path-Owned,
)

ruleset file_rules = (
  cleanup_rules, path_rules, write_file-Owns, write_atomic-Owns, create_dir_all-Owns,
  remove_file-Owns,
)

module _ {S : Type 0} ⦃E : Env S⦄ ⦃O : Outside S⦄ {Q : S → Type 0} (frame : Frame Q)
    (owns : Owns Q) where
  removed-Frame :
      (path : String) (r : Result {0} Unit) → Keeps {W = World S} (OfDevice Q) (removed path r)
  unfolding removed
  removed-Frame path (ok _) = search file_rules
  removed-Frame path (err e) = search file_rules

  pub runtime_save-Frame : Keeps {W = World S} (OfDevice Q) runtime_save
  unfolding runtime_save runtime_snapshot_text write_runtime_snapshot
  runtime_save-Frame = search file_rules depth 16

  pub runtime_clear-Frame : Keeps {W = World S} (OfDevice Q) runtime_clear
  unfolding runtime_clear remove_runtime_file
  runtime_clear-Frame = search (file_rules, removed-Frame) depth 16

  ipset_has_entries-Frame :
      (name : String) → Keeps {W = World S} (OfDevice Q) (ipset_has_entries name)
  unfolding ipset_has_entries
  ipset_has_entries-Frame name = search file_rules depth 16

  ipset_should_reload-Frame :
      (name source : String) → Keeps {W = World S} (OfDevice Q) (ipset_should_reload name source)
  unfolding ipset_should_reload
  ipset_should_reload-Frame name source = search (file_rules, ipset_has_entries-Frame) depth 16

  write_ipset_stamp-Frame :
      (name source : String) → Keeps {W = World S} (OfDevice Q) (write_ipset_stamp name source)
  unfolding write_ipset_stamp
  write_ipset_stamp-Frame name source = search file_rules depth 16

  import_ipset-Frame :
      (name family : String) (entries : List String)
      → Keeps {W = World S} (OfDevice Q) (import_ipset name family entries)
  unfolding import_ipset
  import_ipset-Frame name family entries = search file_rules depth 16

  restore_ipset-Frame :
      (name family source : String)
      → Keeps {W = World S} (OfDevice Q) (restore_ipset name family source)
  unfolding restore_ipset
  restore_ipset-Frame name family source =
      search (file_rules, ipset_should_reload-Frame, write_ipset_stamp-Frame, import_ipset-Frame)
        depth 16

  pub setup_cn_ipset_if_needed-Frame :
      (capabilities : Capabilities)
      → Keeps {W = World S} (OfDevice Q) (setup_cn_ipset_if_needed capabilities)
  unfolding setup_cn_ipset_if_needed
  setup_cn_ipset_if_needed-Frame capabilities = search (file_rules, restore_ipset-Frame) depth 16

  rebuilt-Frame :
      (family : Family) (table : String) (cidrs : List String)
      → Keeps {W = World S} (OfDevice Q) (rebuilt family table cidrs)
  unfolding rebuilt
  rebuilt-Frame family table cidrs = search file_rules depth 16

  rebuild_chains-Frame :
      (mangle nat : Bool) (ipv4 ipv6 : List String)
      → Keeps {W = World S} (OfDevice Q) (rebuild_chains mangle nat ipv4 ipv6)
  unfolding rebuild_chains
  rebuild_chains-Frame mangle nat ipv4 ipv6 = search (file_rules, rebuilt-Frame) depth 16

  save_key-Frame : (key : String) → Keeps {W = World S} (OfDevice Q) (save_local_ip_refresh_key key)
  unfolding save_local_ip_refresh_key
  save_key-Frame key = search file_rules depth 16

  pub refresh_local_ip_rules-Frame : Keeps {W = World S} (OfDevice Q) refresh_local_ip_rules
  unfolding refresh_local_ip_rules
  refresh_local_ip_rules-Frame = search (file_rules, rebuild_chains-Frame, save_key-Frame) depth 16
