-- ===== src/Rules/Frame/Matcher.antt =====
-- The eBPF matcher of boxctl/src/rules/cnip.rs, with a framed predicate that the program's own files
-- and the matcher's programs keep.
use boxproxy.Prelude.{String, Bool, Option, List, [], ◌∷◌, ◌<>◌, All, refl}
use boxproxy.Act.{Result, ok, err}
use boxproxy.Act.Keeps.{Keeps}
use boxproxy.Config.{Config}
use boxproxy.Rules.Names.{RuleContext, Capabilities}
use boxproxy.Rules.Manager.{Env, World}
use boxproxy.Rules.Outside.{Outside}
use boxproxy.Rules.Matcher.{
  EbpfApplyMode, start, update_then_start, EbpfConfigFile, ebpf_dir, rule_ebpf_config_path,
  ebpf_reload_stamp_path, written_in, ensure_empty_file, write_lines_file, require_file, first_tool,
  apply_ebpf_selinux_policy, run_ebpf_matcher, cleanup_rule_ebpf, save_ebpf_reload_fingerprint,
  write_uid_files, cidr_files, write_if_new, write_rule_ebpf_config,
}
use boxproxy.Rules.Matcher.Ensure.{
  start_matcher, after_update, update_matcher, run_in_mode, configure_matcher,
  ensure_rule_ebpf_if_needed,
}
use boxproxy.Rules.Frame.{OfDevice}
use boxproxy.Rules.Frame.Exec.{exec_rules}
use boxproxy.Rules.Frame.Own.{
  Owned, Owns, state_dir, named, IsTool, matcher, listed, Tools, run-Tools, run_ok-Tools,
  run_ignore-Tools, write_file-Owns, write_atomic-Owns, create_dir_all-Owns,
}

module _ (config : Config) where
  dir-Owned : Owned config (ebpf_dir config)
  dir-Owned = named _ "ebpf" state_dir

  config_path-Owned : Owned config (rule_ebpf_config_path config)
  config_path-Owned = named _ "rule-config.json" (named _ "ebpf" state_dir)

  stamp_path-Owned : Owned config (ebpf_reload_stamp_path config)
  stamp_path-Owned = named _ "rule-config.fingerprint" (named _ "ebpf" state_dir)

  empty_v4-Owned : Owned config (ebpf_dir config <> "/empty-v4.txt")
  empty_v4-Owned = named _ "empty-v4.txt" (named _ "ebpf" state_dir)

  empty_v6-Owned : Owned config (ebpf_dir config <> "/empty-v6.txt")
  empty_v6-Owned = named _ "empty-v6.txt" (named _ "ebpf" state_dir)

  force_uids-Owned : Owned config (ebpf_dir config <> "/force-uids.txt")
  force_uids-Owned = named _ "force-uids.txt" (named _ "ebpf" state_dir)

  app_uids-Owned : Owned config (ebpf_dir config <> "/app-uids.txt")
  app_uids-Owned = named _ "app-uids.txt" (named _ "ebpf" state_dir)

  rm-IsTool : IsTool config "rm"
  rm-IsTool = listed "rm" refl

  rmdir-IsTool : IsTool config "rmdir"
  rmdir-IsTool = listed "rmdir" refl

  chmod-IsTool : IsTool config "chmod"
  chmod-IsTool = listed "chmod" refl

  policy-IsTool : All (IsTool config) (
      "magiskpolicy" ∷ "/data/adb/magisk/magiskpolicy" ∷ "supolicy" ∷ "/system/xbin/supolicy"
      ∷ "/system/bin/supolicy" ∷ [])
  policy-IsTool =
      (listed _ refl, (listed _ refl, (listed _ refl, (listed _ refl, (listed _ refl, tt)))))

  patch-IsTool : All (IsTool config) ("ksud" ∷ "/data/adb/ksud" ∷ "/data/adb/ksu/bin/ksud" ∷ [])
  patch-IsTool = (listed _ refl, (listed _ refl, (listed _ refl, tt)))

ruleset matcher_rules = (
  exec_rules, dir-Owned, config_path-Owned, stamp_path-Owned, empty_v4-Owned, empty_v6-Owned,
  force_uids-Owned, app_uids-Owned, matcher, rm-IsTool, rmdir-IsTool, chmod-IsTool, run-Tools,
  run_ok-Tools, run_ignore-Tools, write_file-Owns, write_atomic-Owns, create_dir_all-Owns,
)

module _ {S : Type 0} ⦃E : Env S⦄ {Q : S → Type 0} (owns : Owns Q) (tools : Tools Q) where
  run_matcher-Frame :
      (action : String) (path : Option String) (required : Bool)
      → Keeps {W = World S} (OfDevice Q) (run_ebpf_matcher action path required)
  unfolding run_ebpf_matcher
  run_matcher-Frame action path required = search matcher_rules depth 16

  pub cleanup_rule_ebpf-Frame : Keeps {W = World S} (OfDevice Q) cleanup_rule_ebpf
  unfolding cleanup_rule_ebpf
  cleanup_rule_ebpf-Frame = search (matcher_rules, run_matcher-Frame) depth 16

  first_tool-Frame :
      (programs args : List String)
      → All (IsTool E.config) programs
      → Keeps {W = World S} (OfDevice Q) (first_tool programs args)
  unfolding first_tool
  first_tool-Frame [] args ours = search matcher_rules
  first_tool-Frame (tool ∷ programs) args (first, ours) =
      let later = first_tool-Frame programs args ours in search matcher_rules depth 16

  policy-Frame : Keeps {W = World S} (OfDevice Q) apply_ebpf_selinux_policy
  unfolding apply_ebpf_selinux_policy
  policy-Frame = search (matcher_rules, first_tool-Frame, policy-IsTool, patch-IsTool) depth 16

  save-Frame :
      (fingerprint : String)
      → Keeps {W = World S} (OfDevice Q) (save_ebpf_reload_fingerprint fingerprint)
  unfolding save_ebpf_reload_fingerprint
  save-Frame fingerprint = search matcher_rules depth 16

  start_matcher-Frame :
      (config : EbpfConfigFile) (required : Bool)
      → Keeps {W = World S} (OfDevice Q) (start_matcher config required)
  unfolding start_matcher
  start_matcher-Frame config required =
      search (matcher_rules, run_matcher-Frame, save-Frame) depth 16

  after_update-Frame :
      (config : EbpfConfigFile) (required : Bool) (r : Result {0} Unit)
      → Keeps {W = World S} (OfDevice Q) (after_update config required r)
  unfolding after_update
  after_update-Frame config required (ok _) = search save-Frame
  after_update-Frame config required (err e) =
      search (matcher_rules, run_matcher-Frame, save-Frame) depth 16

  run_in_mode-Frame :
      (mode : EbpfApplyMode) (config : EbpfConfigFile) (required : Bool)
      → Keeps {W = World S} (OfDevice Q) (run_in_mode mode config required)
  unfolding run_in_mode update_matcher
  run_in_mode-Frame start config required = start_matcher-Frame config required
  run_in_mode-Frame update_then_start config required =
      search (matcher_rules, run_matcher-Frame, after_update-Frame) depth 16

  written_in-Frame :
      (dir path label content : String)
      → Owned E.config dir
      → Owned E.config path
      → Keeps {W = World S} (OfDevice Q) (written_in dir path label content)
  unfolding written_in
  written_in-Frame dir path label content in_dir in_path = search matcher_rules depth 16

  write_uid_files-Frame :
      (context : RuleContext) → Keeps {W = World S} (OfDevice Q) (write_uid_files context)
  unfolding write_uid_files ensure_empty_file write_lines_file
  write_uid_files-Frame context = search (matcher_rules, written_in-Frame) depth 16

  cidr_files-Frame : Keeps {W = World S} (OfDevice Q) cidr_files
  unfolding cidr_files require_file
  cidr_files-Frame = search matcher_rules depth 16

  write_if_new-Frame :
      (path content : String)
      → Owned E.config path
      → Keeps {W = World S} (OfDevice Q) (write_if_new path content)
  unfolding write_if_new
  write_if_new-Frame path content ours = search matcher_rules depth 16

  module _ ⦃O : Outside S⦄ where
    write_config-Frame :
        (context : RuleContext) → Keeps {W = World S} (OfDevice Q) (write_rule_ebpf_config context)
    unfolding write_rule_ebpf_config
    write_config-Frame context =
        search (matcher_rules, write_uid_files-Frame, cidr_files-Frame, write_if_new-Frame) depth 16

    configure-Frame :
        (context : RuleContext) (mode : EbpfApplyMode)
        → Keeps {W = World S} (OfDevice Q) (configure_matcher context mode)
    unfolding configure_matcher
    configure-Frame context mode =
        search (matcher_rules, write_config-Frame, policy-Frame, run_in_mode-Frame) depth 16

    pub ensure_rule_ebpf_if_needed-Frame :
        (capabilities : Capabilities) (context : RuleContext) (mode : EbpfApplyMode)
        → Keeps {W = World S} (OfDevice Q) (ensure_rule_ebpf_if_needed capabilities context mode)
    unfolding ensure_rule_ebpf_if_needed
    ensure_rule_ebpf_if_needed-Frame capabilities context mode =
        search (matcher_rules, configure-Frame) depth 16
