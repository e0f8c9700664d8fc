-- ===== src/Rules/Tun.antt =====
-- The rules of the TUN mode: boxctl/src/rules/tun.rs, and `start_tun_bypass` and
-- `stop_tun_bypass` of boxctl/src/rules.rs.
use boxproxy.Prelude.{
  String, Bool, not, ◌&&◌, ◌||◌, Option, List, [], ◌∷◌, ◌++◌, is_empty, ◌==◌, if◌then◌else◌,
}
use boxproxy.Prelude.Text.{is_blank, trim}
use boxproxy.Act.{Act, pure, ◌>>=◌, ◌>>◌, for_each, when, on_option}
use boxproxy.Config.{Config}
use boxproxy.Config.Modes.{ProxyMode, core, blacklist, whitelist}
use boxproxy.Rules.Names.{
  Family, v4, v6, RuleContext, tun_bypass_mark, tun_route_mark, tun_pre_chain, tun_out_chain,
}
use boxproxy.Rules.Manager.{Env, World}
use boxproxy.Rules.Util.{valid_macs}
use boxproxy.Rules.Cnip.{
  cnip_uses_ebpf, cnip_matcher_enabled_for_family, cnip_match_args, cnip_force_match_args,
}
use boxproxy.Rules.LocalIp.{bypass_subnets}
use boxproxy.Rules.Dns.{dns_mode_is_disable}
use boxproxy.Rules.Routing.{apply_tun_route_rules, cleanup_tun_route_rules}
use boxproxy.Rules.Ops.{
  ensure_rule_append, ensure_chain, ensure_jump, add_core_bypass_rule, del_jump, cleanup_chain_fast,
}
use boxproxy.Rules.Dispatch.{append_mark_return, return_target, mark_target, mac_match, owner_match}

abbrev pub tun_route_managed_by_box : Config → Bool
tun_route_managed_by_box config = config.bypass_cn_ip || config.mac_filter

abbrev fake_ip_range_of : Config → Family → String
fake_ip_range_of config v4 = config.fake_ip_range
fake_ip_range_of config v6 = config.fake_ip6_range

abbrev marked_return : List String
marked_return = "-m" ∷ "mark" ∷ "--mark" ∷ tun_bypass_mark ∷ "-j" ∷ "RETURN" ∷ []

module _ {S : Type 0} ⦃E : Env S⦄ where
  -- the hotspot devices of one interface: a whitelist routes the listed ones, a blacklist the rest
  unfoldable pub tun_interface : Family → String → List String → String → Act (World S) Unit
  unfolding ◌>>=◌ for_each append_mark_return
  tun_interface family chain macs iface =
      if E.config.mac_mode == "whitelist"
      then (do
        for_each macs λ mac.
            ensure_rule_append family "mangle" chain
              (("-i" ∷ iface ∷ []) ++ (mac_match mac ++ mark_target tun_route_mark))
        append_mark_return family chain tun_bypass_mark ("-i" ∷ iface ∷ []))
      else (do
        for_each macs λ mac.
            append_mark_return family chain tun_bypass_mark (("-i" ∷ iface ∷ []) ++ mac_match mac)
        ensure_rule_append family "mangle" chain
            (("-i" ∷ iface ∷ []) ++ mark_target tun_route_mark))

  unfoldable pub append_tun_external_interface_policy_rules : Family → String → Act (World S) Unit
  unfolding ◌>>=◌ for_each append_mark_return tun_interface
  append_tun_external_interface_policy_rules family chain = do
    for_each E.config.blocked_interfaces
        λ iface. append_mark_return family chain tun_bypass_mark ("-i" ∷ iface ∷ [])
    if not E.config.mac_filter then pure tt else do
      for_each E.config.hotspot_ap_interfaces
          (tun_interface family chain (valid_macs E.config.macs_list))
      ensure_rule_append family "mangle" chain marked_return

  unfoldable pub append_tun_dns_rules : Family → String → Act (World S) Unit
  unfolding ◌>>=◌ append_mark_return
  append_tun_dns_rules family chain = if dns_mode_is_disable E.config then pure tt else do
    when E.config.dns_hijack_tcp
        (append_mark_return family chain tun_route_mark ("-p" ∷ "tcp" ∷ "--dport" ∷ "53" ∷ []))
    when E.config.dns_hijack_udp
        (append_mark_return family chain tun_route_mark ("-p" ∷ "udp" ∷ "--dport" ∷ "53" ∷ []))

  unfoldable pub append_tun_fake_ip_route_rules : Family → String → Act (World S) Unit
  unfolding ◌>>=◌ trim
  append_tun_fake_ip_route_rules family chain =
      let range = trim (fake_ip_range_of E.config family) in
      if is_blank range then pure tt else do
        ensure_rule_append family "mangle" chain (("-d" ∷ range ∷ []) ++ mark_target tun_route_mark)
        ensure_rule_append family "mangle" chain (("-d" ∷ range ∷ []) ++ return_target)

  unfoldable pub append_tun_bypass_destination_rules : Family → String → Act (World S) Unit
  unfolding ◌>>=◌ for_each on_option append_tun_fake_ip_route_rules bypass_subnets cnip_match_args
  append_tun_bypass_destination_rules family chain = do
    append_tun_fake_ip_route_rules family chain
    subnets ← bypass_subnets family
    for_each subnets
        λ subnet. ensure_rule_append family "mangle" chain (("-d" ∷ subnet ∷ []) ++ return_target)
    matched ← cnip_match_args family chain []
    on_option matched (pure tt)
        λ args. ensure_rule_append family "mangle" chain (args ++ mark_target tun_bypass_mark)
    ensure_rule_append family "mangle" chain marked_return
    ensure_rule_append family "mangle" chain (mark_target tun_route_mark)

  abbrev owner_rule : Family → String → List String → String → String → Act (World S) Unit
  owner_rule family chain target flag value =
      ensure_rule_append family "mangle" chain (owner_match flag value ++ target)

  -- the arms of `append_tun_proxy_mode_rules`
  unfoldable pub tun_proxy_mode : ProxyMode → Family → String → RuleContext → Act (World S) Unit
  unfolding ◌>>=◌ for_each
  tun_proxy_mode blacklist family chain context = do
    for_each context.selected_uids (owner_rule family chain return_target "--uid-owner")
    for_each context.selected_gids (owner_rule family chain return_target "--gid-owner")
  tun_proxy_mode whitelist family chain context = do
    for_each context.selected_uids
        (owner_rule family chain (mark_target tun_route_mark) "--uid-owner")
    for_each context.selected_gids
        (owner_rule family chain (mark_target tun_route_mark) "--gid-owner")
    when (not (is_empty context.selected_uids) || not (is_empty context.selected_gids))
        (ensure_rule_append family "mangle" chain return_target)
  tun_proxy_mode core family chain context = pure tt

  unfoldable pub append_tun_proxy_mode_rules : Family → String → RuleContext → Act (World S) Unit
  unfolding tun_proxy_mode
  append_tun_proxy_mode_rules family chain context =
      tun_proxy_mode E.config.proxy_mode family chain context

  -- one protocol of the forced apps, for the match that `base` gives
  unfoldable pub tun_force_proto :
      Family
      → String
      → (String → Act (World S) (Option (List String)))
      → String
      → Act (World S) Unit
  unfolding ◌>>=◌ on_option
  tun_force_proto family chain base proto =
      if (proto == "tcp" && not E.config.proxy_tcp) || (proto == "udp" && not E.config.proxy_udp)
      then pure tt
      else do
        found ← base proto
        on_option found (pure tt) λ args. do
          ensure_rule_append family "mangle" chain (args ++ mark_target tun_route_mark)
          ensure_rule_append family "mangle" chain (args ++ return_target)

  unfoldable pub append_cnip_force_proxy_tun_rules :
      Family → String → RuleContext → Act (World S) Unit
  unfolding ◌>>=◌ for_each cnip_matcher_enabled_for_family tun_force_proto cnip_match_args
      cnip_force_match_args
  append_cnip_force_proxy_tun_rules family chain context =
      if not E.config.bypass_cn_ip || is_empty context.cnip_force_uids then pure tt else do
        enabled ← cnip_matcher_enabled_for_family family
        if not enabled
            then pure tt
            else if cnip_uses_ebpf E.config
            then for_each ("tcp" ∷ "udp" ∷ []) (
                tun_force_proto family chain
                  λ proto. cnip_force_match_args family ("-p" ∷ proto ∷ []))
            else for_each context.cnip_force_uids λ uid. for_each ("tcp" ∷ "udp" ∷ []) (
                tun_force_proto family chain λ proto.
                  cnip_match_args family chain
                    (("-p" ∷ proto ∷ []) ++ owner_match "--uid-owner" uid))

  -- A failure is only logged.
  unfoldable pub append_tun_core_bypass_rules : Family → String → RuleContext → Act (World S) Unit
  unfolding ◌>>=◌
  append_tun_core_bypass_rules family chain context = do
    _ ← add_core_bypass_rule family "mangle" chain "-A" context
    pure tt

  unfoldable pub start_tun_bypass : Family → RuleContext → Act (World S) Unit
  unfolding ◌>>=◌ append_tun_external_interface_policy_rules append_tun_dns_rules
      append_tun_bypass_destination_rules append_tun_core_bypass_rules
      append_cnip_force_proxy_tun_rules append_tun_proxy_mode_rules apply_tun_route_rules
  start_tun_bypass family context = do
    ensure_chain family "mangle" (tun_pre_chain family)
    ensure_chain family "mangle" (tun_out_chain family)
    ensure_rule_append family "mangle" (tun_pre_chain family)
        ("-i" ∷ E.config.tun_device ∷ "-j" ∷ "RETURN" ∷ [])
    append_tun_external_interface_policy_rules family (tun_pre_chain family)
    append_tun_dns_rules family (tun_pre_chain family)
    append_tun_bypass_destination_rules family (tun_pre_chain family)
    append_tun_core_bypass_rules family (tun_out_chain family) context
    append_tun_dns_rules family (tun_out_chain family)
    append_cnip_force_proxy_tun_rules family (tun_out_chain family) context
    append_tun_proxy_mode_rules family (tun_out_chain family) context
    append_tun_bypass_destination_rules family (tun_out_chain family)
    ensure_jump family "mangle" "PREROUTING" (tun_pre_chain family)
    ensure_jump family "mangle" "OUTPUT" (tun_out_chain family)
    apply_tun_route_rules family

  unfoldable pub stop_tun_bypass : Family → Act (World S) Unit
  unfolding ◌>>=◌ cleanup_tun_route_rules
  stop_tun_bypass family = do
    cleanup_tun_route_rules family
    del_jump family "mangle" "PREROUTING" (tun_pre_chain family)
    del_jump family "mangle" "OUTPUT" (tun_out_chain family)
    cleanup_chain_fast family "mangle" (tun_pre_chain family)
    cleanup_chain_fast family "mangle" (tun_out_chain family)
