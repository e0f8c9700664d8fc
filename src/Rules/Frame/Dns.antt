-- ===== src/Rules/Frame/Dns.antt =====
-- boxctl/src/rules/dns.rs, with a framed predicate.
use boxproxy.Prelude.{String, Bool}
use boxproxy.Act.Keeps.{Keeps}
use boxproxy.Rules.Names.{Family, RuleContext, DnsNatKind, ProxyAction}
use boxproxy.Rules.Manager.{Env, World}
use boxproxy.Rules.Dns.{
  append_dns_nat_kind, append_dns_nat_rules, setup_nat_dns_forward_chain, setup_nat_dns_chain,
  lacks_nat, ensure_dns_nat_hijack, append_dns_return_rules, append_dns_tproxy_rules,
  append_dns_mark_rules, mangle_dns_action, apply_mangle_dns_rules, cleanup_dns_nat_chains,
}
use boxproxy.Rules.Frame.{Frame, OfDevice}
use boxproxy.Rules.Frame.LocalIp.{local_ip_rules}

module _ {S : Type 0} ⦃E : Env S⦄ {Q : S → Type 0} (frame : Frame Q) where
  pub append_dns_nat_kind-Frame :
      (family : Family) (s : String) (kind : DnsNatKind) (s2 : String)
      → Keeps {W = World S} (OfDevice Q) (append_dns_nat_kind family s kind s2)
  unfolding append_dns_nat_kind
  append_dns_nat_kind-Frame family s DnsNatKind.hijack s2 = search local_ip_rules depth 16
  append_dns_nat_kind-Frame family s DnsNatKind.forward s2 = search local_ip_rules depth 16

  pub append_dns_nat_rules-Frame :
      (family : Family) (chain : String) (kind : DnsNatKind) (port : String) (inbound : Bool)
      → Keeps {W = World S} (OfDevice Q) (append_dns_nat_rules family chain kind port inbound)
  unfolding append_dns_nat_rules
  append_dns_nat_rules-Frame family chain kind port inbound =
      search (local_ip_rules, append_dns_nat_kind-Frame) depth 16

  pub setup_nat_dns_forward_chain-Frame :
      (family : Family) (context : RuleContext)
      → Keeps {W = World S} (OfDevice Q) (setup_nat_dns_forward_chain family context)
  unfolding setup_nat_dns_forward_chain
  setup_nat_dns_forward_chain-Frame family context =
      search (local_ip_rules, append_dns_nat_rules-Frame) depth 16

  pub setup_nat_dns_chain-Frame :
      (family : Family) (kind : DnsNatKind) (context : RuleContext)
      → Keeps {W = World S} (OfDevice Q) (setup_nat_dns_chain family kind context)
  unfolding setup_nat_dns_chain
  setup_nat_dns_chain-Frame family DnsNatKind.hijack context =
      search (local_ip_rules, append_dns_nat_rules-Frame) depth 16
  setup_nat_dns_chain-Frame family DnsNatKind.forward context =
      search (local_ip_rules, setup_nat_dns_forward_chain-Frame) depth 16

  pub lacks_nat-Frame : (family : Family) → Keeps {W = World S} (OfDevice Q) (lacks_nat family)
  unfolding lacks_nat
  lacks_nat-Frame Family.v4 = search local_ip_rules depth 16
  lacks_nat-Frame Family.v6 = search local_ip_rules depth 16

  pub ensure_dns_nat_hijack-Frame :
      (family : Family) (context : RuleContext)
      → Keeps {W = World S} (OfDevice Q) (ensure_dns_nat_hijack family context)
  unfolding ensure_dns_nat_hijack
  ensure_dns_nat_hijack-Frame family context =
      search (local_ip_rules, setup_nat_dns_chain-Frame, lacks_nat-Frame) depth 16

  pub append_dns_return_rules-Frame :
      (family : Family) (chain : String)
      → Keeps {W = World S} (OfDevice Q) (append_dns_return_rules family chain)
  unfolding append_dns_return_rules
  append_dns_return_rules-Frame family chain = search local_ip_rules depth 16

  pub append_dns_tproxy_rules-Frame :
      (family : Family) (chain : String)
      → Keeps {W = World S} (OfDevice Q) (append_dns_tproxy_rules family chain)
  unfolding append_dns_tproxy_rules
  append_dns_tproxy_rules-Frame family chain = search local_ip_rules depth 16

  pub append_dns_mark_rules-Frame :
      (family : Family) (chain : String)
      → Keeps {W = World S} (OfDevice Q) (append_dns_mark_rules family chain)
  unfolding append_dns_mark_rules
  append_dns_mark_rules-Frame family chain = search local_ip_rules depth 16

  pub mangle_dns_action-Frame :
      (family : Family) (s : String) (action : ProxyAction)
      → Keeps {W = World S} (OfDevice Q) (mangle_dns_action family s action)
  unfolding mangle_dns_action
  mangle_dns_action-Frame family s ProxyAction.tproxy =
      search (local_ip_rules, append_dns_tproxy_rules-Frame) depth 16
  mangle_dns_action-Frame family s ProxyAction.redirect = search local_ip_rules depth 16
  mangle_dns_action-Frame family s ProxyAction.mark =
      search (local_ip_rules, append_dns_mark_rules-Frame) depth 16

  pub apply_mangle_dns_rules-Frame :
      (family : Family) (chain : String) (action : ProxyAction)
      → Keeps {W = World S} (OfDevice Q) (apply_mangle_dns_rules family chain action)
  unfolding apply_mangle_dns_rules
  apply_mangle_dns_rules-Frame family chain action =
      search (local_ip_rules, append_dns_return_rules-Frame, mangle_dns_action-Frame) depth 16

  pub cleanup_dns_nat_chains-Frame :
      (family : Family) → Keeps {W = World S} (OfDevice Q) (cleanup_dns_nat_chains family)
  unfolding cleanup_dns_nat_chains
  cleanup_dns_nat_chains-Frame family = search (local_ip_rules, lacks_nat-Frame) depth 16

pub ruleset dns_rules = (
  local_ip_rules, append_dns_nat_kind-Frame, append_dns_nat_rules-Frame,
  setup_nat_dns_forward_chain-Frame, setup_nat_dns_chain-Frame, lacks_nat-Frame,
  ensure_dns_nat_hijack-Frame, append_dns_return_rules-Frame, append_dns_tproxy_rules-Frame,
  append_dns_mark_rules-Frame, mangle_dns_action-Frame, apply_mangle_dns_rules-Frame,
  cleanup_dns_nat_chains-Frame,
)
