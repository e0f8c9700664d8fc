-- ===== src/Rules/Frame/External.antt =====
-- boxctl/src/rules/external.rs, with a framed predicate.
use boxproxy.Prelude.{String, Option, List}
use boxproxy.Act.Keeps.{Keeps}
use boxproxy.Rules.Names.{Family, ProxyAction}
use boxproxy.Rules.Manager.{Env, World}
use boxproxy.Rules.External.{
  append_external_protocol_rule, apply_external_loopback_rule, apply_external_all_rules, exempt_mac,
  filter_interface, apply_external_ap_rules, apply_ignored_external_interfaces,
}
use boxproxy.Rules.Frame.{Frame, OfDevice}
use boxproxy.Rules.Frame.Dns.{dns_rules}

module _ {S : Type 0} ⦃E : Env S⦄ {Q : S → Type 0} (frame : Frame Q) where
  pub append_external_protocol_rule-Frame :
      (family : Family) (s : String) (action : ProxyAction) (s2 : String) (s3 : String)
      (x : Option String)
      → Keeps {W = World S} (OfDevice Q) (append_external_protocol_rule family s action s2 s3 x)
  unfolding append_external_protocol_rule
  append_external_protocol_rule-Frame family s ProxyAction.tproxy s2 s3 x =
      search dns_rules depth 16
  append_external_protocol_rule-Frame family s ProxyAction.redirect s2 s3 x =
      search dns_rules depth 16
  append_external_protocol_rule-Frame family s ProxyAction.mark s2 s3 x = search dns_rules depth 16

  pub apply_external_loopback_rule-Frame :
      (family : Family) (s : String) (action : ProxyAction)
      → Keeps {W = World S} (OfDevice Q) (apply_external_loopback_rule family s action)
  unfolding apply_external_loopback_rule
  apply_external_loopback_rule-Frame family s ProxyAction.tproxy =
      search (dns_rules, append_external_protocol_rule-Frame) depth 16
  apply_external_loopback_rule-Frame family s ProxyAction.redirect =
      search (dns_rules, append_external_protocol_rule-Frame) depth 16
  apply_external_loopback_rule-Frame family s ProxyAction.mark = search dns_rules depth 16

  pub apply_external_all_rules-Frame :
      (family : Family) (s : String) (action : ProxyAction)
      → Keeps {W = World S} (OfDevice Q) (apply_external_all_rules family s action)
  unfolding apply_external_all_rules
  apply_external_all_rules-Frame family s ProxyAction.tproxy = search dns_rules depth 16
  apply_external_all_rules-Frame family s ProxyAction.redirect = search dns_rules depth 16
  apply_external_all_rules-Frame family s ProxyAction.mark = search dns_rules depth 16

  pub exempt_mac-Frame :
      (family : Family) (s : String) (s2 : String) (action : ProxyAction) (s3 : String)
      (s4 : String)
      → Keeps {W = World S} (OfDevice Q) (exempt_mac family s s2 action s3 s4)
  unfolding exempt_mac
  exempt_mac-Frame family s s2 ProxyAction.tproxy s3 s4 = search dns_rules depth 16
  exempt_mac-Frame family s s2 ProxyAction.redirect s3 s4 = search dns_rules depth 16
  exempt_mac-Frame family s s2 ProxyAction.mark s3 s4 = search dns_rules depth 16

  pub filter_interface-Frame :
      (family : Family) (table : String) (chain : String) (action : ProxyAction)
      (macs : List String) (iface : String)
      → Keeps {W = World S} (OfDevice Q) (filter_interface family table chain action macs iface)
  unfolding filter_interface
  filter_interface-Frame family table chain action macs iface =
      search (dns_rules, append_external_protocol_rule-Frame, exempt_mac-Frame) depth 16

  pub apply_external_ap_rules-Frame :
      (family : Family) (table : String) (chain : String) (action : ProxyAction)
      → Keeps {W = World S} (OfDevice Q) (apply_external_ap_rules family table chain action)
  unfolding apply_external_ap_rules
  apply_external_ap_rules-Frame family table chain action =
      search (dns_rules, apply_external_all_rules-Frame, filter_interface-Frame) depth 16

  pub apply_ignored_external_interfaces-Frame :
      (family : Family) (table : String) (chain : String)
      → Keeps {W = World S} (OfDevice Q) (apply_ignored_external_interfaces family table chain)
  unfolding apply_ignored_external_interfaces
  apply_ignored_external_interfaces-Frame family table chain = search dns_rules depth 16

pub ruleset external_rules = (
  dns_rules, append_external_protocol_rule-Frame, apply_external_loopback_rule-Frame,
  apply_external_all_rules-Frame, exempt_mac-Frame, filter_interface-Frame,
  apply_external_ap_rules-Frame, apply_ignored_external_interfaces-Frame,
)
