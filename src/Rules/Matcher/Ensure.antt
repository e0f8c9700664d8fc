-- ===== src/Rules/Matcher/Ensure.antt =====
-- `ensure_rule_ebpf_if_needed` of boxctl/src/rules/cnip.rs: the matcher is started or updated.
use boxproxy.Prelude.{
  String, Bool, true, false, not, ◌||◌, some, none, [], ◌∷◌, ◌<>◌, if◌then◌else◌,
}
use boxproxy.Act.{Result, ok, err, Act, pure, fail, gets, attempt, ◌>>=◌, ◌>>◌}
use boxproxy.Rules.Names.{RuleContext, Capabilities}
use boxproxy.Rules.Manager.{Env, World, run_ignore}
use boxproxy.Rules.Cnip.{cnip_ebpf_requested, app_uid_ebpf_requested}
use boxproxy.Rules.Outside.{Outside}
use boxproxy.Rules.Matcher.{
  EbpfApplyMode, start, update_then_start, EbpfConfigFile, run_ebpf_matcher,
  apply_ebpf_selinux_policy, write_rule_ebpf_config, ebpf_reload_is_current,
  save_ebpf_reload_fingerprint,
}

abbrev action_name : EbpfApplyMode → String
action_name start = "enable"
action_name update_then_start = "refresh"

module _ {S : Type 0} ⦃E : Env S⦄ where
  unfoldable pub start_matcher : EbpfConfigFile → Bool → Act (World S) Unit
  unfolding ◌>>=◌ run_ebpf_matcher save_ebpf_reload_fingerprint
  start_matcher config cnip_required =
      run_ebpf_matcher "--clear" none false
      >> run_ebpf_matcher "--apply" (some config.path) cnip_required
      >> save_ebpf_reload_fingerprint config.fingerprint

  -- What the update answered: the matcher is started where it could not be updated.
  unfoldable pub after_update : EbpfConfigFile → Bool → Result {0} Unit → Act (World S) Unit
  unfolding ◌>>=◌ run_ebpf_matcher save_ebpf_reload_fingerprint
  after_update config cnip_required (ok _) = save_ebpf_reload_fingerprint config.fingerprint
  after_update config cnip_required (err e) =
      run_ebpf_matcher "--apply" (some config.path) cnip_required
      >> save_ebpf_reload_fingerprint config.fingerprint

  unfoldable pub update_matcher : EbpfConfigFile → Bool → Act (World S) Unit
  unfolding ◌>>=◌ ebpf_reload_is_current run_ebpf_matcher after_update
  update_matcher config cnip_required = ebpf_reload_is_current config.fingerprint >>= λ current.
      if current
      then pure tt
      else (attempt (run_ebpf_matcher "--update" (some config.path) true)
          >>= after_update config cnip_required)

  unfoldable pub run_in_mode : EbpfApplyMode → EbpfConfigFile → Bool → Act (World S) Unit
  unfolding start_matcher update_matcher
  run_in_mode start = start_matcher
  run_in_mode update_then_start = update_matcher

module _ {S : Type 0} ⦃E : Env S⦄ ⦃O : Outside S⦄ where
  unfoldable pub configure_matcher : RuleContext → EbpfApplyMode → Act (World S) Unit
  unfolding ◌>>=◌ write_rule_ebpf_config apply_ebpf_selinux_policy run_in_mode
  configure_matcher context mode = write_rule_ebpf_config context >>= λ config.
      apply_ebpf_selinux_policy
      >> run_ignore "chmod" ("755" ∷ E.config.bpf_matcher_path ∷ [])
      >> run_in_mode mode config (cnip_ebpf_requested E.config)

  -- What misses is an error only where the addresses need the matcher.
  unfoldable pub ensure_rule_ebpf_if_needed :
      Capabilities → RuleContext → EbpfApplyMode → Act (World S) Unit
  unfolding ◌>>=◌ configure_matcher
  ensure_rule_ebpf_if_needed capabilities context mode =
      let cnip_required = cnip_ebpf_requested E.config in
      if not (cnip_required || app_uid_ebpf_requested E.config context)
      then pure tt
      else if not capabilities.bpf_match
      then (if cnip_required
          then fail (
              "iptables bpf match unavailable, cannot "
              <> (action_name mode <> " eBPF rule matcher"))
          else pure tt)
      else (gets (λ w. E.host.is_file E.config.bpf_matcher_path w.sys) >>= λ present.
          if present
          then configure_matcher context mode
          else if cnip_required
          then fail ("eBPF matcher not found: " <> E.config.bpf_matcher_path)
          else pure tt)
