-- ===== src/Rules/Matcher.antt =====
-- boxctl/src/rules/cnip.rs: the eBPF matcher, a program that is run with a configuration file, and
-- boxctl/src/rules/util.rs: the files that it reads. Log lines are left out.
pub mod Ensure
use boxproxy.Prelude.{
  String, Bool, true, false, not, ◌&&◌, ◌||◌, Option, none, some, List, [], ◌∷◌, ◌==◌, ◌<>◌,
  if◌then◌else◌,
}
use boxproxy.Prelude.Text.{trim, is_blank, join}
use boxproxy.Act.{Act, pure, fail, lift, gets, ignore, map_err, when, ◌>>=◌, ◌>>◌}
use boxproxy.Config.{Config}
use boxproxy.Rules.Names.{RuleContext}
use boxproxy.Rules.Util.{normalized_list}
use boxproxy.Rules.Manager.{Env, World, on_host, run, run_ok, run_ignore}
use boxproxy.Rules.Command.{command_failure_message}
use boxproxy.Rules.Cnip.{cnip_ebpf_requested, app_uid_ebpf_requested}
use boxproxy.Rules.Outside.{JsonValue, flag, text, Outside}
use boxproxy.Rules.Ipset.{ipset_source_stamp}

pub data EbpfApplyMode : Type 0 where
  start : EbpfApplyMode
  update_then_start : EbpfApplyMode

pub record EbpfConfigFile : Type 0 where
  pub path : String
  pub fingerprint : String

abbrev ebpf_pin_dir : String
ebpf_pin_dir = "/sys/fs/bpf/box"

-- The files that the matcher pins, each with its key in the configuration.
abbrev pub pinned : List (String × String)
pinned =
    ("pinCidrOut4", "/sys/fs/bpf/box/box_cidr_out4")
    ∷ ("pinCidrOut6", "/sys/fs/bpf/box/box_cidr_out6")
    ∷ ("pinCidrPre4", "/sys/fs/bpf/box/box_cidr_pre4")
    ∷ ("pinCidrPre6", "/sys/fs/bpf/box/box_cidr_pre6")
    ∷ ("pinForceOut4", "/sys/fs/bpf/box/box_force_out4")
    ∷ ("pinForceOut6", "/sys/fs/bpf/box/box_force_out6")
    ∷ ("pinAppOut4", "/sys/fs/bpf/box/box_uid_out4")
    ∷ ("pinAppOut6", "/sys/fs/bpf/box/box_uid_out6")
    ∷ ("mapRuntime", "/sys/fs/bpf/box/box_runtime_cfg")
    ∷ ("mapCidr4", "/sys/fs/bpf/box/box_cidr4_lpm")
    ∷ ("mapCidr6", "/sys/fs/bpf/box/box_cidr6_lpm")
    ∷ ("mapForceUid", "/sys/fs/bpf/box/box_force_uid_set")
    ∷ ("mapAppUid", "/sys/fs/bpf/box/box_app_uid_set")
    ∷ []

abbrev paths_of : List (String × String) → List String
paths_of [] = []
paths_of ((_, path) ∷ rest) = path ∷ paths_of rest

abbrev pin_fields : List (String × String) → List (String × JsonValue)
pin_fields [] = []
pin_fields ((key, path) ∷ rest) = (key, text path) ∷ pin_fields rest

abbrev pub ebpf_dir : Config → String
ebpf_dir config = config.state_dir <> "/ebpf"

abbrev pub rule_ebpf_config_path : Config → String
rule_ebpf_config_path config = ebpf_dir config <> "/rule-config.json"

abbrev pub ebpf_reload_stamp_path : Config → String
ebpf_reload_stamp_path config = ebpf_dir config <> "/rule-config.fingerprint"

abbrev pub config_fields : Config → String → String × String → List (String × JsonValue)
config_fields config app_uids (cidr4, cidr6) =
    ("ipv6", flag config.ipv6)
    ∷ ("cidrHitIsMatch", flag true)
    ∷ ("cidr4", text cidr4)
    ∷ ("cidr6", text cidr6)
    ∷ ("forceUids", text (ebpf_dir config <> "/force-uids.txt"))
    ∷ ("appUids", text app_uids)
    ∷ pin_fields pinned

abbrev is_text : Option String → String → Bool
is_text none t = false
is_text (some s) t = s == t

abbrev or_missing : Option String → String
or_missing none = "missing"
or_missing (some stamp) = stamp

-- The text of `write_lines_file`.
unfoldable pub lines_text : List String → String
unfolding trim
lines_text [] = ""
lines_text (line ∷ rest) =
    let later = lines_text rest in
    if is_blank (trim line) then later else trim line <> ("\n" <> later)

abbrev with_config : String → Option String → List String
with_config action none = action ∷ []
with_config action (some path) = action ∷ "--config" ∷ path ∷ []

abbrev policy_rule : String
policy_rule = "allow netd * bpf { prog_run map_read map_write }"

abbrev policy_tools : List String
policy_tools =
    "magiskpolicy" ∷ "/data/adb/magisk/magiskpolicy" ∷ "supolicy" ∷ "/system/xbin/supolicy"
    ∷ "/system/bin/supolicy" ∷ []

module _ {S : Type 0} ⦃E : Env S⦄ where
  -- The files stand in a directory that is made first.
  unfoldable pub written_in : String → String → String → String → Act (World S) Unit
  unfolding ◌>>=◌ map_err
  written_in dir path label content =
      map_err ("create directory " <> (dir <> " failed: ")) (on_host (E.host.create_dir_all dir))
      >> map_err (label <> (path <> " failed: ")) (on_host (E.host.write_file path content))

  unfoldable pub ensure_empty_file : String → String → Act (World S) Unit
  unfolding written_in
  ensure_empty_file dir path = written_in dir path "create empty file " ""

  unfoldable pub write_lines_file : String → String → List String → Act (World S) Unit
  unfolding written_in lines_text
  write_lines_file dir path lines = written_in dir path "write file " (lines_text lines)

  unfoldable pub require_file : String → String → Act (World S) String
  unfolding ◌>>=◌
  require_file path label = gets (λ w. E.host.is_file path w.sys) >>= λ present.
      if present then pure path else fail (label <> (" file not found: " <> path))

  -- The first tool that succeeds ends the search.
  unfoldable pub first_tool : List String → List String → Act (World S) Bool
  unfolding ◌>>=◌
  first_tool [] args = pure false
  first_tool (tool ∷ tools) args =
      let later = first_tool tools args in
      run_ok tool args >>= λ done. if done then pure true else later

  unfoldable pub apply_ebpf_selinux_policy : Act (World S) Unit
  unfolding ◌>>=◌ first_tool
  apply_ebpf_selinux_policy = first_tool policy_tools ("--live" ∷ policy_rule ∷ []) >>= λ done.
      if done
      then pure tt
      else (first_tool ("ksud" ∷ "/data/adb/ksud" ∷ "/data/adb/ksu/bin/ksud" ∷ [])
            ("sepolicy" ∷ "patch" ∷ policy_rule ∷ [])
          >>= λ _. pure tt)

  unfoldable pub run_ebpf_matcher : String → Option String → Bool → Act (World S) Unit
  unfolding ◌>>=◌ command_failure_message
  run_ebpf_matcher action config_path required =
      run E.config.bpf_matcher_path (with_config action config_path) >>= λ output.
      if output.success || not required
      then pure tt
      else fail (
          command_failure_message E.config.bpf_matcher_path (with_config action config_path) output)

  unfoldable pub cleanup_rule_ebpf : Act (World S) Unit
  unfolding ◌>>=◌ ignore run_ebpf_matcher
  cleanup_rule_ebpf =
      (gets (λ w. E.host.exists E.config.bpf_matcher_path w.sys || E.runner.dry_run) >>= λ there.
      when there (ignore (run_ebpf_matcher "--clear" none false)))
      >> run_ignore "rm" ("-f" ∷ paths_of pinned)
      >> run_ignore "rmdir" (ebpf_pin_dir ∷ [])

  unfoldable pub ebpf_reload_is_current : String → Act (World S) Bool
  ebpf_reload_is_current fingerprint =
      gets (λ w. is_text (E.host.read_file (ebpf_reload_stamp_path E.config) w.sys) fingerprint)

  unfoldable pub save_ebpf_reload_fingerprint : String → Act (World S) Unit
  unfolding map_err
  save_ebpf_reload_fingerprint fingerprint =
      map_err ("save eBPF reload fingerprint " <> (ebpf_reload_stamp_path E.config <> " failed: "))
        (on_host (E.host.write_atomic (ebpf_reload_stamp_path E.config) fingerprint))

  -- The lists of users, and the path of the second one if it was asked for.
  unfoldable pub write_uid_files : RuleContext → Act (World S) String
  unfolding ◌>>=◌ ensure_empty_file write_lines_file normalized_list
  write_uid_files context =
      let dir = ebpf_dir E.config in
      map_err "create eBPF state directory failed: " (on_host (E.host.create_dir_all dir))
      >> ensure_empty_file dir (dir <> "/empty-v4.txt")
      >> ensure_empty_file dir (dir <> "/empty-v6.txt")
      >> write_lines_file dir (dir <> "/force-uids.txt") (normalized_list E.config.cnip_force_uids)
      >> (if app_uid_ebpf_requested E.config context
          then write_lines_file dir (dir <> "/app-uids.txt") context.selected_uids
            >> pure (dir <> "/app-uids.txt")
          else pure "")

  unfoldable pub cidr_files : Act (World S) (String × String)
  unfolding ◌>>=◌ require_file
  cidr_files = do
    let requested = cnip_ebpf_requested E.config
    cidr4 ←
        if requested && E.config.bypass_cn_ip_v4
        then require_file E.config.cn_ip_file "CNIP IPv4"
        else pure (ebpf_dir E.config <> "/empty-v4.txt")
    cidr6 ←
        if requested && E.config.ipv6 && E.config.bypass_cn_ip_v6
        then require_file E.config.cn_ipv6_file "CNIP IPv6"
        else pure (ebpf_dir E.config <> "/empty-v6.txt")
    pure (cidr4, cidr6)

  -- A file that has the text already stays.
  unfoldable pub write_if_new : String → String → Act (World S) Unit
  unfolding ◌>>=◌ map_err
  write_if_new path content = gets (λ w. is_text (E.host.read_file path w.sys) content) >>= λ same.
      if same
      then pure tt
      else map_err ("write eBPF config " <> (path <> " failed: "))
          (on_host (E.host.write_file path content))

module _ {S : Type 0} ⦃E : Env S⦄ ⦃O : Outside S⦄ where
  abbrev fingerprint_of : RuleContext → String → String × String → S → String
  unfolding ipset_source_stamp normalized_list join
  fingerprint_of context content (cidr4, cidr6) s =
      content
      <> ("cidr4="
          <> (or_missing (ipset_source_stamp cidr4 s)
              <> ("\ncidr6="
                  <> (or_missing (ipset_source_stamp cidr6 s)
                      <> ("\nforce_uids="
                          <> (join "," (normalized_list E.config.cnip_force_uids)
                              <> ("\napp_uids="
                                  <> (if app_uid_ebpf_requested E.config context
                                      then join "," context.selected_uids
                                      else ""))))))))

  unfoldable pub write_rule_ebpf_config : RuleContext → Act (World S) EbpfConfigFile
  unfolding ◌>>=◌ map_err write_uid_files cidr_files write_if_new ipset_source_stamp normalized_list
      join
  write_rule_ebpf_config context = do
    app_uids ← write_uid_files context
    cidrs ← cidr_files
    json ←
        map_err "serialize eBPF config failed: "
          (lift (O.to_json_pretty (config_fields E.config app_uids cidrs)))
    write_if_new (rule_ebpf_config_path E.config) (json <> "\n")
    gets (λ w. record {
      path = rule_ebpf_config_path E.config;
      fingerprint = fingerprint_of context (json <> "\n") cidrs w.sys;
    })
