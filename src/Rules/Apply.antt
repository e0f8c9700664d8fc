-- ===== src/Rules/Apply.antt =====
-- The outer operations of boxctl/src/rules.rs: `apply`, `clear`, `renew`, and what the monitor and
-- the command line ask of the rules while they are in place. Log lines are left out.
pub mod Repeated
use boxproxy.Prelude.{String, Bool, true, false, not, ◌&&◌, ◌==◌, if◌then◌else◌}
use boxproxy.Act.{Act, fail, map_err, when, ◌>>=◌, ◌>>◌}
use boxproxy.Config.Modes.{NetworkMode, tun, tproxy, redirect, mixed, enhance}
use boxproxy.Rules.Names.{RuleContext, Capabilities}
use boxproxy.Rules.Manager.{Env, World, new_manager, on_host}
use boxproxy.Rules.Capabilities.{probe_capabilities}
use boxproxy.Rules.Context.{prepare_context}
use boxproxy.Rules.Vendor.{cleanup_vendor_firewall_if_needed}
use boxproxy.Rules.Modes.{cleanup_iptables_for_mode}
use boxproxy.Rules.Ipv6.{ipv6_enable}
use boxproxy.Rules.Cleanup.{cleanup_mode_for_apply, cleanup_mode_for_clear}
use boxproxy.Rules.DualStack.{apply_redirect, apply_tproxy, apply_mixed, apply_enhance, apply_tun}
use boxproxy.Rules.Outside.{Outside}
use boxproxy.Rules.Snapshot.{runtime_save, runtime_clear}
use boxproxy.Rules.Ipset.{setup_cn_ipset_if_needed}
use boxproxy.Rules.Matcher.{start, update_then_start, cleanup_rule_ebpf}
use boxproxy.Rules.Matcher.Ensure.{ensure_rule_ebpf_if_needed}
use boxproxy.Rules.LocalIp.Refresh

abbrev is_ebpf : NetworkMode → Bool
is_ebpf NetworkMode.ebpf = true
is_ebpf _ = false

module _ {S : Type 0} ⦃E : Env S⦄ where
  -- the `match` on the mode
  unfoldable pub apply_mode_rules : NetworkMode → RuleContext → Capabilities → Act (World S) Unit
  unfolding apply_redirect apply_tproxy apply_mixed apply_enhance apply_tun
  apply_mode_rules redirect context capabilities = apply_redirect context
  apply_mode_rules tproxy context capabilities = apply_tproxy context capabilities
  apply_mode_rules mixed context capabilities = apply_mixed context
  apply_mode_rules enhance context capabilities = apply_enhance context capabilities
  apply_mode_rules tun context capabilities = apply_tun context
  apply_mode_rules NetworkMode.ebpf context capabilities = fail "unknown network mode: ebpf"

module _ {S : Type 0} ⦃E : Env S⦄ ⦃O : Outside S⦄ where
  unfoldable pub apply_ebpf : Act (World S) Unit
  unfolding ◌>>=◌ cleanup_mode_for_apply cleanup_iptables_for_mode cleanup_rule_ebpf runtime_save
  apply_ebpf = cleanup_mode_for_apply O.text_field >>= λ mode.
      cleanup_iptables_for_mode mode
      >> when (not (mode == "none") && not (mode == "ebpf")) cleanup_rule_ebpf
      >> runtime_save

  -- What the last run left is taken down, and the rules of the mode are put in place.
  unfoldable pub replace_rules : RuleContext → Capabilities → Act (World S) Unit
  unfolding ◌>>=◌ cleanup_vendor_firewall_if_needed cleanup_mode_for_apply cleanup_iptables_for_mode
      cleanup_rule_ebpf setup_cn_ipset_if_needed ensure_rule_ebpf_if_needed apply_mode_rules
  replace_rules context capabilities =
      cleanup_vendor_firewall_if_needed
      >> (cleanup_mode_for_apply O.text_field >>= cleanup_iptables_for_mode)
      >> cleanup_rule_ebpf
      >> setup_cn_ipset_if_needed capabilities
      >> ensure_rule_ebpf_if_needed capabilities context start
      >> apply_mode_rules E.config.network_mode context capabilities

  unfoldable pub apply_iptables : Act (World S) Unit
  unfolding ◌>>=◌ prepare_context probe_capabilities replace_rules runtime_save
  apply_iptables = prepare_context >>= λ context.
      probe_capabilities >>= λ capabilities. replace_rules context capabilities >> runtime_save

  -- `RuleManager::apply`
  unfoldable pub apply_rules : Act (World S) Unit
  unfolding ◌>>=◌ map_err apply_ebpf apply_iptables
  apply_rules =
      map_err "create state directory failed: " (on_host (E.host.create_dir_all E.config.state_dir))
      >> (if is_ebpf E.config.network_mode then apply_ebpf else apply_iptables)

  unfoldable pub clear_mode_rules : String → Act (World S) Unit
  unfolding ◌>>=◌ ipv6_enable cleanup_iptables_for_mode cleanup_rule_ebpf
  clear_mode_rules mode = ipv6_enable >> cleanup_iptables_for_mode mode >> cleanup_rule_ebpf

  -- `RuleManager::clear`
  unfoldable pub clear_rules : Act (World S) Unit
  unfolding ◌>>=◌ cleanup_mode_for_clear clear_mode_rules runtime_clear
  clear_rules = cleanup_mode_for_clear O.text_field >>= λ mode.
      when (not (mode == "ebpf")) (clear_mode_rules mode) >> runtime_clear

  unfoldable pub reload_cn_ipset : Act (World S) Unit
  unfolding ◌>>=◌ probe_capabilities prepare_context setup_cn_ipset_if_needed
      ensure_rule_ebpf_if_needed
  reload_cn_ipset = probe_capabilities >>= λ capabilities. prepare_context >>= λ context.
      setup_cn_ipset_if_needed capabilities
      >> ensure_rule_ebpf_if_needed capabilities context update_then_start

  -- An action of a manager of its own.
  abbrev pub managed : Act (World S) Unit → Act S Unit
  managed m s = let (r, w) = m (new_manager s) in (r, w.sys)

  unfoldable pub apply : Act S Unit
  unfolding ◌>>=◌ apply_rules
  apply = O.mode_supported >> managed apply_rules

  unfoldable pub clear : Act S Unit
  unfolding clear_rules
  clear = managed clear_rules

  unfoldable pub renew : Act S Unit
  unfolding ◌>>=◌ apply_rules clear_rules
  renew = O.mode_supported >> managed (clear_rules >> apply_rules)

  unfoldable pub refresh_local_ip_rules : Act S Unit
  unfolding Refresh.refresh_local_ip_rules
  refresh_local_ip_rules = managed Refresh.refresh_local_ip_rules
