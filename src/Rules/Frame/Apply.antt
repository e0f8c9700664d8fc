-- ===== src/Rules/Frame/Apply.antt =====
-- `apply`, `clear` and the reload of boxctl/src/rules.rs and boxctl/src/rules/vendor_firewall.rs, with
-- a framed predicate that the program's own files and the matcher's programs keep.
use boxproxy.Prelude.{ℕ, String, List, [], ◌∷◌}
use boxproxy.Act.Keeps.{Keeps}
use boxproxy.Config.Modes.{NetworkMode, redirect, tproxy, mixed, enhance, tun}
use boxproxy.Rules.Names.{Family, RuleContext, Capabilities}
use boxproxy.Rules.Manager.{Env, World}
use boxproxy.Rules.Outside.{Outside}
use boxproxy.Rules.Context.{prepare_context}
use boxproxy.Rules.Vendor.{
  VendorFirewallStats, filter_chain_exists, reject_rule_lines, delete_rules, remove_reject_rules,
  clean_chains, cleanup_coloros_firewall, flush_zte, cleanup_zte_firewall,
  cleanup_vendor_firewall_if_needed,
}
use boxproxy.Rules.Apply.{
  apply_mode_rules, apply_ebpf, replace_rules, apply_iptables, apply_rules, clear_mode_rules,
  clear_rules, reload_cn_ipset,
}
use boxproxy.Rules.Frame.{Frame, OfDevice}
use boxproxy.Rules.Frame.Cleanup.{cleanup_rules}
use boxproxy.Rules.Frame.Own.{Owns, Tools, state_dir, create_dir_all-Owns}
use boxproxy.Rules.Frame.Files.{
  runtime_save-Frame, runtime_clear-Frame, setup_cn_ipset_if_needed-Frame,
}
use boxproxy.Rules.Frame.Matcher.{cleanup_rule_ebpf-Frame, ensure_rule_ebpf_if_needed-Frame}

module _ {S : Type 0} ⦃E : Env S⦄ {Q : S → Type 0} (frame : Frame Q) where
  chain_exists-Frame :
      (family : Family) (chain : String)
      → Keeps {W = World S} (OfDevice Q) (filter_chain_exists family chain)
  unfolding filter_chain_exists
  chain_exists-Frame family chain = search cleanup_rules depth 16

  reject_lines-Frame :
      (family : Family) (chain : String)
      → Keeps {W = World S} (OfDevice Q) (reject_rule_lines family chain)
  unfolding reject_rule_lines
  reject_lines-Frame family chain = search (cleanup_rules, chain_exists-Frame) depth 16

  delete_rules-Frame :
      (family : Family) (chain : String) (numbers : List ℕ) (stats : VendorFirewallStats)
      → Keeps {W = World S} (OfDevice Q) (delete_rules family chain numbers stats)
  unfolding delete_rules
  delete_rules-Frame family chain [] stats = search cleanup_rules
  delete_rules-Frame family chain (n ∷ numbers) stats =
      let later = delete_rules-Frame family chain numbers in search cleanup_rules depth 16

  remove_reject-Frame :
      (family : Family) (chain : String)
      → Keeps {W = World S} (OfDevice Q) (remove_reject_rules family chain)
  unfolding remove_reject_rules
  remove_reject-Frame family chain =
      search (cleanup_rules, reject_lines-Frame, delete_rules-Frame) depth 16

  clean_chains-Frame :
      (chains : List String) (stats : VendorFirewallStats)
      → Keeps {W = World S} (OfDevice Q) (clean_chains chains stats)
  unfolding clean_chains
  clean_chains-Frame [] stats = search cleanup_rules
  clean_chains-Frame (chain ∷ chains) stats =
      let later = clean_chains-Frame chains in search (cleanup_rules, remove_reject-Frame) depth 16

  flush_zte-Frame :
      (family : Family) (stats : VendorFirewallStats)
      → Keeps {W = World S} (OfDevice Q) (flush_zte family stats)
  unfolding flush_zte
  flush_zte-Frame family stats = search (cleanup_rules, chain_exists-Frame) depth 16

  vendor-Frame : Keeps {W = World S} (OfDevice Q) cleanup_vendor_firewall_if_needed
  unfolding cleanup_vendor_firewall_if_needed cleanup_coloros_firewall cleanup_zte_firewall
  vendor-Frame =
      search (cleanup_rules, chain_exists-Frame, clean_chains-Frame, flush_zte-Frame) depth 16

  prepare_context-Frame : Keeps {W = World S} (OfDevice Q) prepare_context
  unfolding prepare_context
  prepare_context-Frame = search cleanup_rules depth 16

  mode_rules-Frame :
      (mode : NetworkMode) (context : RuleContext) (capabilities : Capabilities)
      → Keeps {W = World S} (OfDevice Q) (apply_mode_rules mode context capabilities)
  unfolding apply_mode_rules
  mode_rules-Frame redirect context capabilities = search cleanup_rules
  mode_rules-Frame tproxy context capabilities = search cleanup_rules
  mode_rules-Frame mixed context capabilities = search cleanup_rules
  mode_rules-Frame enhance context capabilities = search cleanup_rules
  mode_rules-Frame tun context capabilities = search cleanup_rules
  mode_rules-Frame NetworkMode.ebpf context capabilities = search cleanup_rules

ruleset apply_parts = (
  cleanup_rules, vendor-Frame, prepare_context-Frame, mode_rules-Frame, runtime_save-Frame,
  runtime_clear-Frame, setup_cn_ipset_if_needed-Frame, cleanup_rule_ebpf-Frame,
  ensure_rule_ebpf_if_needed-Frame, create_dir_all-Owns, state_dir,
)

module _ {S : Type 0} ⦃E : Env S⦄ ⦃O : Outside S⦄ {Q : S → Type 0} (frame : Frame Q) (owns : Owns Q)
    (tools : Tools Q) where
  apply_ebpf-Frame : Keeps {W = World S} (OfDevice Q) apply_ebpf
  unfolding apply_ebpf
  apply_ebpf-Frame = search apply_parts depth 16

  replace_rules-Frame :
      (context : RuleContext) (capabilities : Capabilities)
      → Keeps {W = World S} (OfDevice Q) (replace_rules context capabilities)
  unfolding replace_rules
  replace_rules-Frame context capabilities = search apply_parts depth 16

  apply_iptables-Frame : Keeps {W = World S} (OfDevice Q) apply_iptables
  unfolding apply_iptables
  apply_iptables-Frame = search (apply_parts, replace_rules-Frame) depth 16

  pub apply_rules-Frame : Keeps {W = World S} (OfDevice Q) apply_rules
  unfolding apply_rules
  apply_rules-Frame = search (apply_parts, apply_ebpf-Frame, apply_iptables-Frame) depth 16

  pub clear_rules-Frame : Keeps {W = World S} (OfDevice Q) clear_rules
  unfolding clear_rules clear_mode_rules
  clear_rules-Frame = search apply_parts depth 16

  pub reload_cn_ipset-Frame : Keeps {W = World S} (OfDevice Q) reload_cn_ipset
  unfolding reload_cn_ipset
  reload_cn_ipset-Frame = search apply_parts depth 16
