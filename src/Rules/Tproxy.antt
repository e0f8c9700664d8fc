-- ===== src/Rules/Tproxy.antt =====
-- The TPROXY mode: the chains of the mangle table in boxctl/src/rules.rs.
use boxproxy.Prelude.{String, not, ◌&&◌, List, [], ◌∷◌, ◌++◌, if◌then◌else◌}
use boxproxy.Act.{Act, pure, fail, ◌>>=◌, ◌>>◌, when}
use boxproxy.Config.Modes.{is_enhance}
use boxproxy.Rules.Names.{
  Family, v4, v6, is_v4, tproxy, mark, RuleContext, Capabilities, fwmark, tproxy_perf_chains,
}
use boxproxy.Rules.Manager.{Env, World}
use boxproxy.Rules.Performance.{tproxy_performance_chain_enabled}
use boxproxy.Rules.PerfChains.{
  setup_perf_dest_chain, setup_perf_pre_if_chain, setup_perf_out_app_chain, add_perf_chain_jumps,
  append_tproxy_perf_connmark_rules,
}
use boxproxy.Rules.Dns.{apply_mangle_dns_rules, ensure_dns_nat_hijack, cleanup_dns_nat_chains}
use boxproxy.Rules.External.{
  apply_external_loopback_rule, apply_external_ap_rules, apply_ignored_external_interfaces,
}
use boxproxy.Rules.LocalProxy.{append_cnip_force_proxy_local_rules, apply_local_proxy_rules}
use boxproxy.Rules.Routing.{
  apply_tproxy_ipv6_fakeip_rules, setup_tproxy_policy_routing, cleanup_tproxy_policy_routing,
  setup_tproxy_divert_chain, cleanup_tproxy_divert_chain, apply_quic_block_rules,
  cleanup_quic_block_rules, apply_loopback_reject_rule, cleanup_loopback_reject_rule,
  setup_fake_ip_icmp_rules, cleanup_fake_ip_icmp_rules,
}
use boxproxy.Rules.Redirect.{
  setup_local_chain_common, apply_reply_bypass_rules, append_common_bypass_rules,
  cleanup_external_chain_common, cleanup_local_chain_common, cleanup_perf_chains,
}
use boxproxy.Rules.Ops.{ensure_rule_append, ensure_chain, ensure_jump}
use boxproxy.Rules.Dispatch.{append_tproxy_dispatch_rule, mark_target}

abbrev marked_flow : String → List String
marked_flow proto = "-p" ∷ proto ∷ "-m" ∷ "connmark" ∷ "--mark" ∷ fwmark ∷ []

module _ {S : Type 0} ⦃E : Env S⦄ where
  unfoldable pub setup_tproxy_perf_external_chain : Family → Act (World S) Unit
  unfolding ◌>>=◌ setup_perf_dest_chain setup_perf_pre_if_chain apply_reply_bypass_rules
      apply_mangle_dns_rules apply_tproxy_ipv6_fakeip_rules add_perf_chain_jumps
      append_tproxy_perf_connmark_rules append_tproxy_dispatch_rule
  setup_tproxy_perf_external_chain family = do
    ensure_chain family "mangle" "BOX_EXTERNAL"
    setup_perf_dest_chain family "mangle" "BOX_TP_PRE_IP"
    setup_perf_pre_if_chain family "mangle" "BOX_TP_PRE_IF"
    apply_reply_bypass_rules family "mangle" "BOX_EXTERNAL"
    apply_mangle_dns_rules family "BOX_EXTERNAL" tproxy
    apply_tproxy_ipv6_fakeip_rules family "BOX_EXTERNAL" tproxy
    add_perf_chain_jumps family "mangle" "BOX_EXTERNAL" ("BOX_TP_PRE_IP" ∷ "BOX_TP_PRE_IF" ∷ [])
    append_tproxy_perf_connmark_rules family "BOX_EXTERNAL"
    when (not (is_enhance E.config.network_mode) && E.config.proxy_tcp)
        (append_tproxy_dispatch_rule family "BOX_EXTERNAL" (marked_flow "tcp"))
    when E.config.proxy_udp (append_tproxy_dispatch_rule family "BOX_EXTERNAL" (marked_flow "udp"))
    ensure_jump family "mangle" "PREROUTING" "BOX_EXTERNAL"

  unfoldable pub setup_tproxy_perf_local_chain : Family → RuleContext → Act (World S) Unit
  unfolding ◌>>=◌ setup_local_chain_common setup_perf_dest_chain setup_perf_out_app_chain
      apply_reply_bypass_rules apply_tproxy_ipv6_fakeip_rules append_cnip_force_proxy_local_rules
      add_perf_chain_jumps apply_mangle_dns_rules append_tproxy_perf_connmark_rules
  setup_tproxy_perf_local_chain family context = do
    setup_local_chain_common family "mangle" "BOX_LOCAL" context
    setup_perf_dest_chain family "mangle" "BOX_TP_OUT_IP"
    setup_perf_out_app_chain family "mangle" "BOX_TP_OUT_APP" context
    apply_reply_bypass_rules family "mangle" "BOX_LOCAL"
    apply_tproxy_ipv6_fakeip_rules family "BOX_LOCAL" mark
    append_cnip_force_proxy_local_rules family "mangle" "BOX_LOCAL" mark context
    add_perf_chain_jumps family "mangle" "BOX_LOCAL" ("BOX_TP_OUT_IP" ∷ "BOX_TP_OUT_APP" ∷ [])
    apply_mangle_dns_rules family "BOX_LOCAL" mark
    append_tproxy_perf_connmark_rules family "BOX_LOCAL"
    when (not (is_enhance E.config.network_mode) && E.config.proxy_tcp)
        (ensure_rule_append family "mangle" "BOX_LOCAL" (marked_flow "tcp" ++ mark_target fwmark))
    when E.config.proxy_udp
        (ensure_rule_append family "mangle" "BOX_LOCAL" (marked_flow "udp" ++ mark_target fwmark))
    ensure_jump family "mangle" "OUTPUT" "BOX_LOCAL"

  unfoldable pub setup_tproxy_external_chain :
      Family → RuleContext → Capabilities → Act (World S) Unit
  unfolding ◌>>=◌ setup_tproxy_perf_external_chain apply_reply_bypass_rules apply_mangle_dns_rules
      apply_tproxy_ipv6_fakeip_rules append_common_bypass_rules apply_ignored_external_interfaces
      apply_external_loopback_rule apply_external_ap_rules
  setup_tproxy_external_chain family context capabilities =
      if tproxy_performance_chain_enabled E.config capabilities
      then setup_tproxy_perf_external_chain family
      else do
        ensure_chain family "mangle" "BOX_EXTERNAL"
        apply_reply_bypass_rules family "mangle" "BOX_EXTERNAL"
        apply_mangle_dns_rules family "BOX_EXTERNAL" tproxy
        apply_tproxy_ipv6_fakeip_rules family "BOX_EXTERNAL" tproxy
        append_common_bypass_rules family "mangle" "BOX_EXTERNAL"
        apply_ignored_external_interfaces family "mangle" "BOX_EXTERNAL"
        apply_external_loopback_rule family "BOX_EXTERNAL" tproxy
        apply_external_ap_rules family "mangle" "BOX_EXTERNAL" tproxy
        ensure_jump family "mangle" "PREROUTING" "BOX_EXTERNAL"

  unfoldable pub setup_tproxy_local_chain : Family → RuleContext → Capabilities → Act (World S) Unit
  unfolding ◌>>=◌ setup_tproxy_perf_local_chain setup_local_chain_common apply_reply_bypass_rules
      apply_mangle_dns_rules apply_tproxy_ipv6_fakeip_rules append_cnip_force_proxy_local_rules
      append_common_bypass_rules apply_local_proxy_rules
  setup_tproxy_local_chain family context capabilities =
      if tproxy_performance_chain_enabled E.config capabilities
      then setup_tproxy_perf_local_chain family context
      else do
        setup_local_chain_common family "mangle" "BOX_LOCAL" context
        apply_reply_bypass_rules family "mangle" "BOX_LOCAL"
        apply_mangle_dns_rules family "BOX_LOCAL" mark
        apply_tproxy_ipv6_fakeip_rules family "BOX_LOCAL" mark
        append_cnip_force_proxy_local_rules family "mangle" "BOX_LOCAL" mark context
        append_common_bypass_rules family "mangle" "BOX_LOCAL"
        apply_local_proxy_rules family "mangle" "BOX_LOCAL" mark context
        ensure_jump family "mangle" "OUTPUT" "BOX_LOCAL"

  -- the guard of `start_tproxy`
  unfoldable pub require_tproxy : Family → Capabilities → Act (World S) Unit
  unfolding ◌>>=◌
  require_tproxy v4 capabilities =
      if not capabilities.tproxy4 then fail "IPv4 TPROXY support not detected" else pure tt
  require_tproxy v6 capabilities =
      if not capabilities.tproxy6 then fail "IPv6 TPROXY support not detected" else pure tt

  unfoldable pub start_tproxy : Family → RuleContext → Capabilities → Act (World S) Unit
  unfolding ◌>>=◌ require_tproxy setup_tproxy_policy_routing setup_tproxy_external_chain
      setup_tproxy_local_chain setup_tproxy_divert_chain apply_quic_block_rules
      apply_loopback_reject_rule ensure_dns_nat_hijack setup_fake_ip_icmp_rules
  start_tproxy family context capabilities = do
    require_tproxy family capabilities
    setup_tproxy_policy_routing family
    setup_tproxy_external_chain family context capabilities
    setup_tproxy_local_chain family context capabilities
    setup_tproxy_divert_chain family capabilities
    apply_quic_block_rules family
    when (not (is_enhance E.config.network_mode))
        (apply_loopback_reject_rule family E.config.tproxy_port context)
    ensure_dns_nat_hijack family context
    setup_fake_ip_icmp_rules family

  unfoldable pub stop_tproxy : Family → Act (World S) Unit
  unfolding ◌>>=◌ cleanup_tproxy_policy_routing cleanup_external_chain_common
      cleanup_local_chain_common cleanup_perf_chains cleanup_tproxy_divert_chain
      cleanup_quic_block_rules cleanup_loopback_reject_rule cleanup_fake_ip_icmp_rules
      cleanup_dns_nat_chains
  stop_tproxy family = do
    cleanup_tproxy_policy_routing family
    cleanup_external_chain_common family "mangle" "BOX_EXTERNAL" "PREROUTING"
    cleanup_local_chain_common family "mangle" "BOX_LOCAL" "OUTPUT"
    cleanup_perf_chains family "mangle" tproxy_perf_chains
    cleanup_tproxy_divert_chain family
    cleanup_quic_block_rules family
    cleanup_loopback_reject_rule family E.config.tproxy_port
    when (is_v4 family) (cleanup_fake_ip_icmp_rules family)
    cleanup_dns_nat_chains family
