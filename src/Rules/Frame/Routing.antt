-- ===== src/Rules/Frame/Routing.antt =====
-- boxctl/src/rules/routing.rs, with a framed predicate.
use boxproxy.Prelude.{[], ◌∷◌, false}
use boxproxy.Prelude.{String, Bool, true, List}
use boxproxy.Act.Keeps.{Keeps}
use boxproxy.Rules.Names.{Family, RuleContext, Capabilities, ProxyAction}
use boxproxy.Rules.Manager.{Env, World}
use boxproxy.Rules.Routing.{
  cleanup_tproxy_divert_chain, setup_tproxy_divert_chain, fakeip_action,
  apply_tproxy_ipv6_fakeip_rules, setup_fake_ip_icmp_rules, cleanup_fake_ip_icmp_rules,
  append_first_variant, apply_loopback_reject_rule, cleanup_loopback_reject_rule,
  apply_quic_block_rules, cleanup_quic_block_rules, setup_tproxy_policy_routing,
  cleanup_tproxy_policy_routing, apply_tun_route_rules, cleanup_tun_route_rules, forward,
}
use boxproxy.Rules.Frame.{Frame, OfDevice}
use boxproxy.Rules.Frame.LocalProxy.{local_proxy_rules}

module _ {S : Type 0} ⦃E : Env S⦄ {Q : S → Type 0} (frame : Frame Q) where
  pub cleanup_tproxy_divert_chain-Frame :
      (family : Family) → Keeps {W = World S} (OfDevice Q) (cleanup_tproxy_divert_chain family)
  unfolding cleanup_tproxy_divert_chain
  cleanup_tproxy_divert_chain-Frame family = search local_proxy_rules depth 16

  pub setup_tproxy_divert_chain-Frame :
      (family : Family) (capabilities : Capabilities)
      → Keeps {W = World S} (OfDevice Q) (setup_tproxy_divert_chain family capabilities)
  unfolding setup_tproxy_divert_chain
  setup_tproxy_divert_chain-Frame family capabilities =
      search (local_proxy_rules, cleanup_tproxy_divert_chain-Frame) depth 16

  pub fakeip_action-Frame :
      (family : Family) (s : String) (action : ProxyAction) (s2 : String)
      → Keeps {W = World S} (OfDevice Q) (fakeip_action family s action s2)
  unfolding fakeip_action
  fakeip_action-Frame family s ProxyAction.tproxy s2 = search local_proxy_rules depth 16
  fakeip_action-Frame family s ProxyAction.redirect s2 = search local_proxy_rules depth 16
  fakeip_action-Frame family s ProxyAction.mark s2 = search local_proxy_rules depth 16

  pub apply_tproxy_ipv6_fakeip_rules-Frame :
      (family : Family) (chain : String) (action : ProxyAction)
      → Keeps {W = World S} (OfDevice Q) (apply_tproxy_ipv6_fakeip_rules family chain action)
  unfolding apply_tproxy_ipv6_fakeip_rules
  apply_tproxy_ipv6_fakeip_rules-Frame family chain action =
      search (local_proxy_rules, fakeip_action-Frame) depth 16

  pub setup_fake_ip_icmp_rules-Frame :
      (family : Family) → Keeps {W = World S} (OfDevice Q) (setup_fake_ip_icmp_rules family)
  unfolding setup_fake_ip_icmp_rules
  setup_fake_ip_icmp_rules-Frame family = search local_proxy_rules depth 16

  pub cleanup_fake_ip_icmp_rules-Frame :
      (family : Family) → Keeps {W = World S} (OfDevice Q) (cleanup_fake_ip_icmp_rules family)
  unfolding cleanup_fake_ip_icmp_rules
  cleanup_fake_ip_icmp_rules-Frame family = search local_proxy_rules depth 16

  pub append_first_variant-Frame :
      (family : Family) (variants : List (List String))
      → Keeps {W = World S} (OfDevice Q) (append_first_variant family variants)
  unfolding append_first_variant
  append_first_variant-Frame family [] = search local_proxy_rules
  append_first_variant-Frame family (args ∷ rest) =
      let later = append_first_variant-Frame family rest in search local_proxy_rules depth 16

  pub apply_loopback_reject_rule-Frame :
      (family : Family) (port : String) (context : RuleContext)
      → Keeps {W = World S} (OfDevice Q) (apply_loopback_reject_rule family port context)
  unfolding apply_loopback_reject_rule
  apply_loopback_reject_rule-Frame family port context =
      search (local_proxy_rules, append_first_variant-Frame) depth 16

  pub cleanup_loopback_reject_rule-Frame :
      (family : Family) (port : String)
      → Keeps {W = World S} (OfDevice Q) (cleanup_loopback_reject_rule family port)
  unfolding cleanup_loopback_reject_rule
  cleanup_loopback_reject_rule-Frame family port = search local_proxy_rules depth 16

  pub apply_quic_block_rules-Frame :
      (family : Family) → Keeps {W = World S} (OfDevice Q) (apply_quic_block_rules family)
  unfolding apply_quic_block_rules
  apply_quic_block_rules-Frame family = search local_proxy_rules depth 16

  pub cleanup_quic_block_rules-Frame :
      (family : Family) → Keeps {W = World S} (OfDevice Q) (cleanup_quic_block_rules family)
  unfolding cleanup_quic_block_rules
  cleanup_quic_block_rules-Frame family = search local_proxy_rules depth 16

  pub setup_tproxy_policy_routing-Frame :
      (family : Family) → Keeps {W = World S} (OfDevice Q) (setup_tproxy_policy_routing family)
  unfolding setup_tproxy_policy_routing
  setup_tproxy_policy_routing-Frame family = search local_proxy_rules depth 16

  pub cleanup_tproxy_policy_routing-Frame :
      (family : Family) → Keeps {W = World S} (OfDevice Q) (cleanup_tproxy_policy_routing family)
  unfolding cleanup_tproxy_policy_routing
  cleanup_tproxy_policy_routing-Frame family = search local_proxy_rules depth 16

  pub apply_tun_route_rules-Frame :
      (family : Family) → Keeps {W = World S} (OfDevice Q) (apply_tun_route_rules family)
  unfolding apply_tun_route_rules
  apply_tun_route_rules-Frame family = search local_proxy_rules depth 16

  pub cleanup_tun_route_rules-Frame :
      (family : Family) → Keeps {W = World S} (OfDevice Q) (cleanup_tun_route_rules family)
  unfolding cleanup_tun_route_rules
  cleanup_tun_route_rules-Frame family = search local_proxy_rules depth 16

  pub forward-Frame :
      (family : Family) (flag : Bool) → Keeps {W = World S} (OfDevice Q) (forward family flag)
  unfolding forward
  forward-Frame family true = search local_proxy_rules depth 16
  forward-Frame family false = search local_proxy_rules depth 16

pub ruleset routing_rules = (
  local_proxy_rules, cleanup_tproxy_divert_chain-Frame, setup_tproxy_divert_chain-Frame,
  fakeip_action-Frame, apply_tproxy_ipv6_fakeip_rules-Frame, setup_fake_ip_icmp_rules-Frame,
  cleanup_fake_ip_icmp_rules-Frame, append_first_variant-Frame, apply_loopback_reject_rule-Frame,
  cleanup_loopback_reject_rule-Frame, apply_quic_block_rules-Frame, cleanup_quic_block_rules-Frame,
  setup_tproxy_policy_routing-Frame, cleanup_tproxy_policy_routing-Frame,
  apply_tun_route_rules-Frame, cleanup_tun_route_rules-Frame, forward-Frame,
)
