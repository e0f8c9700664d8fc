-- ===== src/Rules/Total/Routing.antt =====
-- What of boxctl/src/rules/routing.rs returns no error.
use boxproxy.Prelude.{false}
use boxproxy.Prelude.{String, Bool, true}
use boxproxy.Act.Total.{Total}
use boxproxy.Rules.Names.{Family}
use boxproxy.Rules.Manager.{Env, World}
use boxproxy.Rules.Routing.{
  cleanup_tproxy_divert_chain, cleanup_fake_ip_icmp_rules, cleanup_loopback_reject_rule,
  cleanup_quic_block_rules, cleanup_tproxy_policy_routing, cleanup_tun_route_rules, forward,
}
use boxproxy.Rules.Total.Dns.{dns_total}

module _ {S : Type 0} ⦃E : Env S⦄ where
  pub cleanup_tproxy_divert_chain-Total :
      (family : Family) → Total {W = World S} (cleanup_tproxy_divert_chain family)
  unfolding cleanup_tproxy_divert_chain
  cleanup_tproxy_divert_chain-Total family = search dns_total depth 16

  pub cleanup_fake_ip_icmp_rules-Total :
      (family : Family) → Total {W = World S} (cleanup_fake_ip_icmp_rules family)
  unfolding cleanup_fake_ip_icmp_rules
  cleanup_fake_ip_icmp_rules-Total family = search dns_total depth 16

  pub cleanup_loopback_reject_rule-Total :
      (family : Family) (port : String)
      → Total {W = World S} (cleanup_loopback_reject_rule family port)
  unfolding cleanup_loopback_reject_rule
  cleanup_loopback_reject_rule-Total family port = search dns_total depth 16

  pub cleanup_quic_block_rules-Total :
      (family : Family) → Total {W = World S} (cleanup_quic_block_rules family)
  unfolding cleanup_quic_block_rules
  cleanup_quic_block_rules-Total family = search dns_total depth 16

  pub cleanup_tproxy_policy_routing-Total :
      (family : Family) → Total {W = World S} (cleanup_tproxy_policy_routing family)
  unfolding cleanup_tproxy_policy_routing
  cleanup_tproxy_policy_routing-Total family = search dns_total depth 16

  pub cleanup_tun_route_rules-Total :
      (family : Family) → Total {W = World S} (cleanup_tun_route_rules family)
  unfolding cleanup_tun_route_rules
  cleanup_tun_route_rules-Total family = search dns_total depth 16

  pub forward-Total : (family : Family) (flag : Bool) → Total {W = World S} (forward family flag)
  unfolding forward
  forward-Total family true = search dns_total depth 16
  forward-Total family false = search dns_total depth 16

pub ruleset routing_total = (
  dns_total, cleanup_tproxy_divert_chain-Total, cleanup_fake_ip_icmp_rules-Total,
  cleanup_loopback_reject_rule-Total, cleanup_quic_block_rules-Total,
  cleanup_tproxy_policy_routing-Total, cleanup_tun_route_rules-Total, forward-Total,
)
