-- ===== src/Rules/External.antt =====
-- Traffic from other devices: boxctl/src/rules/external.rs.
use boxproxy.Prelude.{
  String, not, ◌&&◌, ◌||◌, Option, none, some, List, [], ◌∷◌, ◌++◌, is_empty, ◌==◌, if◌then◌else◌,
}
use boxproxy.Act.{Act, pure, ◌>>=◌, ◌>>◌, for_each, when}
use boxproxy.Config.Modes.{is_enhance}
use boxproxy.Rules.Names.{Family, ProxyAction, redirect, tproxy, mark}
use boxproxy.Rules.Manager.{Env, World}
use boxproxy.Rules.Util.{valid_macs}
use boxproxy.Rules.Ops.{ensure_rule_append}
use boxproxy.Rules.Dispatch.{
  append_redirect_dispatch_rule, append_tproxy_dispatch_rule, return_target, mac_match,
}

abbrev pub protocol_args : String → String → Option String → List String
protocol_args proto iface none = "-p" ∷ proto ∷ "-i" ∷ iface ∷ []
protocol_args proto iface (some mac) = ("-p" ∷ proto ∷ "-i" ∷ iface ∷ []) ++ mac_match mac

module _ {S : Type 0} ⦃E : Env S⦄ where
  unfoldable pub append_external_protocol_rule :
      Family → String → ProxyAction → String → String → Option String → Act (World S) Unit
  unfolding ◌>>=◌ append_redirect_dispatch_rule append_tproxy_dispatch_rule
  append_external_protocol_rule family chain redirect proto iface mac =
      if not (proto == "tcp") || not E.config.proxy_tcp
      then pure tt
      else append_redirect_dispatch_rule family chain (protocol_args proto iface mac)
  append_external_protocol_rule family chain tproxy proto iface mac =
      if (if proto == "tcp"
        then not E.config.proxy_tcp || is_enhance E.config.network_mode
        else not E.config.proxy_udp)
      then pure tt
      else append_tproxy_dispatch_rule family chain (protocol_args proto iface mac)
  append_external_protocol_rule family chain mark proto iface mac = pure tt

  unfoldable pub apply_external_loopback_rule : Family → String → ProxyAction → Act (World S) Unit
  unfolding ◌>>=◌ append_external_protocol_rule
  apply_external_loopback_rule family chain redirect =
      append_external_protocol_rule family chain redirect "tcp" "lo" none
  apply_external_loopback_rule family chain tproxy = do
    append_external_protocol_rule family chain tproxy "tcp" "lo" none
    append_external_protocol_rule family chain tproxy "udp" "lo" none
  apply_external_loopback_rule family chain mark = pure tt

  unfoldable pub apply_external_all_rules : Family → String → ProxyAction → Act (World S) Unit
  unfolding ◌>>=◌ append_redirect_dispatch_rule append_tproxy_dispatch_rule
  apply_external_all_rules family chain redirect =
      when E.config.proxy_tcp (append_redirect_dispatch_rule family chain ("-p" ∷ "tcp" ∷ []))
  apply_external_all_rules family chain tproxy = do
    when (E.config.proxy_tcp && not (is_enhance E.config.network_mode))
        (append_tproxy_dispatch_rule family chain ("-p" ∷ "tcp" ∷ []))
    when E.config.proxy_udp (append_tproxy_dispatch_rule family chain ("-p" ∷ "udp" ∷ []))
  apply_external_all_rules family chain mark = pure tt

  -- both protocols of one interface
  abbrev both_protocols :
      Family → String → ProxyAction → String → Option String → Act (World S) Unit
  both_protocols family chain action iface mac = do
    append_external_protocol_rule family chain action "tcp" iface mac
    append_external_protocol_rule family chain action "udp" iface mac

  -- the rule of one listed device under a blacklist
  unfoldable pub exempt_mac :
      Family → String → String → ProxyAction → String → String → Act (World S) Unit
  unfolding ◌>>=◌
  exempt_mac family table chain redirect iface mac =
      ensure_rule_append family table chain
        (("-i" ∷ iface ∷ []) ++ (mac_match mac ++ return_target))
  exempt_mac family table chain tproxy iface mac = do
    when (not (is_enhance E.config.network_mode) && E.config.proxy_tcp) (
        ensure_rule_append family table chain
          (("-p" ∷ "tcp" ∷ "-i" ∷ iface ∷ []) ++ (mac_match mac ++ return_target)))
    when E.config.proxy_udp (
        ensure_rule_append family table chain
          (("-p" ∷ "udp" ∷ "-i" ∷ iface ∷ []) ++ (mac_match mac ++ return_target)))
  exempt_mac family table chain mark iface mac = pure tt

  -- Under the filter, the listed devices of a whitelist are proxied, or those of a blacklist are
  -- let by and the others proxied. (The loop's own test of `mac_filter` is true there.)
  unfoldable pub filter_interface :
      Family → String → String → ProxyAction → List String → String → Act (World S) Unit
  unfolding ◌>>=◌ for_each append_external_protocol_rule exempt_mac
  filter_interface family table chain action macs iface =
      if E.config.mac_mode == "whitelist"
      then for_each macs (λ mac. both_protocols family chain action iface (some mac))
      else do
        for_each macs (exempt_mac family table chain action iface)
        both_protocols family chain action iface none

  unfoldable pub apply_external_ap_rules :
      Family → String → String → ProxyAction → Act (World S) Unit
  unfolding for_each filter_interface apply_external_all_rules
  apply_external_ap_rules family table chain action =
      if not E.config.mac_filter
      then apply_external_all_rules family chain action
      else if is_empty E.config.hotspot_ap_interfaces
      then pure tt
      else for_each E.config.hotspot_ap_interfaces
          (filter_interface family table chain action (valid_macs E.config.macs_list))

  unfoldable pub apply_ignored_external_interfaces : Family → String → String → Act (World S) Unit
  unfolding for_each
  apply_ignored_external_interfaces family table chain =
      for_each E.config.blocked_interfaces
        λ iface. ensure_rule_append family table chain (("-i" ∷ iface ∷ []) ++ return_target)
