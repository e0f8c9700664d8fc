-- ===== src/Rules/Redirect.antt =====
-- The REDIRECT mode: the chains of the nat table in boxctl/src/rules.rs, and the parts that the
-- TPROXY mode shares with it.
use boxproxy.Prelude.{String, not, List, [], ◌∷◌, ◌++◌, if◌then◌else◌}
use boxproxy.Act.{Act, pure, ◌>>=◌, ◌>>◌, for_each, on_option}
use boxproxy.Rules.Names.{
  Family, redirect, RuleContext, fwmark, local_ip_chain, redirect_perf_chains,
}
use boxproxy.Rules.Manager.{Env, World}
use boxproxy.Rules.Performance.{performance_conntrack_enabled}
use boxproxy.Rules.Cnip.{cnip_match_args}
use boxproxy.Rules.LocalIp.{bypass_subnets, ensure_local_ip_chain}
use boxproxy.Rules.Dns.{ensure_dns_nat_hijack, lacks_nat, cleanup_dns_nat_chains}
use boxproxy.Rules.External.{
  apply_external_loopback_rule, apply_external_ap_rules, apply_ignored_external_interfaces,
}
use boxproxy.Rules.LocalProxy.{append_cnip_force_proxy_local_rules, apply_local_proxy_rules}
use boxproxy.Rules.Routing.{apply_loopback_reject_rule, cleanup_loopback_reject_rule}
use boxproxy.Rules.Ops.{
  ensure_rule_append, ensure_rule_insert, ensure_chain, ensure_jump, add_core_bypass_rule, del_jump,
  cleanup_chain_fast,
}
use boxproxy.Rules.Dispatch.{return_target}

module _ {S : Type 0} ⦃E : Env S⦄ where
  unfoldable pub setup_local_chain_common :
      Family → String → String → RuleContext → Act (World S) Unit
  unfolding ◌>>=◌
  setup_local_chain_common family table chain context = do
    ensure_chain family table chain
    added ← add_core_bypass_rule family table chain "-I" context
    if added
        then pure tt
        else ensure_rule_insert family table chain
            ("-m" ∷ "mark" ∷ "--mark" ∷ fwmark ∷ "-j" ∷ "RETURN" ∷ [])

  unfoldable pub cleanup_external_chain_common :
      Family → String → String → String → Act (World S) Unit
  unfolding ◌>>=◌
  cleanup_external_chain_common family table chain parent = do
    del_jump family table parent chain
    cleanup_chain_fast family table chain

  unfoldable pub cleanup_local_chain_common : Family → String → String → String → Act (World S) Unit
  unfolding ◌>>=◌
  cleanup_local_chain_common family table chain parent = do
    del_jump family table parent chain
    cleanup_chain_fast family table chain
    cleanup_chain_fast family table (local_ip_chain family)

  unfoldable pub append_common_bypass_rules : Family → String → String → Act (World S) Unit
  unfolding ◌>>=◌ for_each on_option ensure_local_ip_chain bypass_subnets cnip_match_args
  append_common_bypass_rules family table chain = do
    ensure_local_ip_chain family table
    subnets ← bypass_subnets family
    for_each subnets
        λ subnet. ensure_rule_append family table chain (("-d" ∷ subnet ∷ []) ++ return_target)
    matched ← cnip_match_args family chain []
    on_option matched (pure tt)
        λ args. ensure_rule_append family table chain (args ++ return_target)
    ensure_rule_append family table chain ("-j" ∷ local_ip_chain family ∷ [])

  -- `apply_redirect_reply_bypass_rules` in table nat, `apply_tproxy_reply_bypass_rules` in mangle
  unfoldable pub apply_reply_bypass_rules : Family → String → String → Act (World S) Unit
  unfolding ◌>>=◌ performance_conntrack_enabled
  apply_reply_bypass_rules family table chain = do
    enabled ← performance_conntrack_enabled
    if not enabled
        then pure tt
        else ensure_rule_append family table chain
            ("-m" ∷ "conntrack" ∷ "--ctdir" ∷ "REPLY" ∷ "-j" ∷ "RETURN" ∷ [])

  unfoldable pub setup_redirect_external_chain : Family → RuleContext → Act (World S) Unit
  unfolding ◌>>=◌ apply_reply_bypass_rules ensure_dns_nat_hijack append_common_bypass_rules
      apply_ignored_external_interfaces apply_external_loopback_rule apply_external_ap_rules
  setup_redirect_external_chain family context = do
    ensure_chain family "nat" "BOX_EXTERNAL"
    apply_reply_bypass_rules family "nat" "BOX_EXTERNAL"
    ensure_dns_nat_hijack family context
    append_common_bypass_rules family "nat" "BOX_EXTERNAL"
    apply_ignored_external_interfaces family "nat" "BOX_EXTERNAL"
    apply_external_loopback_rule family "BOX_EXTERNAL" redirect
    apply_external_ap_rules family "nat" "BOX_EXTERNAL" redirect
    ensure_jump family "nat" "PREROUTING" "BOX_EXTERNAL"

  unfoldable pub setup_redirect_local_chain : Family → RuleContext → Act (World S) Unit
  unfolding ◌>>=◌ setup_local_chain_common apply_reply_bypass_rules
      append_cnip_force_proxy_local_rules append_common_bypass_rules apply_local_proxy_rules
  setup_redirect_local_chain family context = do
    setup_local_chain_common family "nat" "BOX_LOCAL" context
    apply_reply_bypass_rules family "nat" "BOX_LOCAL"
    append_cnip_force_proxy_local_rules family "nat" "BOX_LOCAL" redirect context
    append_common_bypass_rules family "nat" "BOX_LOCAL"
    apply_local_proxy_rules family "nat" "BOX_LOCAL" redirect context
    ensure_jump family "nat" "OUTPUT" "BOX_LOCAL"

  unfoldable pub start_redirect : Family → RuleContext → Act (World S) Unit
  unfolding ◌>>=◌ lacks_nat setup_redirect_external_chain setup_redirect_local_chain
      apply_loopback_reject_rule
  start_redirect family context = do
    missing ← lacks_nat family
    if missing then pure tt else do
      setup_redirect_external_chain family context
      setup_redirect_local_chain family context
      apply_loopback_reject_rule family E.config.redir_port context

  -- `cleanup_perf_chains` of boxctl/src/rules/cleanup.rs
  unfoldable pub cleanup_perf_chains : Family → String → List String → Act (World S) Unit
  unfolding for_each
  cleanup_perf_chains family table chains = for_each chains (cleanup_chain_fast family table)

  unfoldable pub stop_redirect : Family → Act (World S) Unit
  unfolding ◌>>=◌ cleanup_loopback_reject_rule cleanup_external_chain_common
      cleanup_local_chain_common cleanup_perf_chains cleanup_dns_nat_chains
  stop_redirect family = do
    cleanup_loopback_reject_rule family E.config.redir_port
    cleanup_external_chain_common family "nat" "BOX_EXTERNAL" "PREROUTING"
    cleanup_local_chain_common family "nat" "BOX_LOCAL" "OUTPUT"
    cleanup_perf_chains family "nat" redirect_perf_chains
    cleanup_dns_nat_chains family
