-- ===== src/Rules/Frame/Tun.antt =====
-- boxctl/src/rules/tun.rs, with a framed predicate.
use boxproxy.Prelude.{String, Option, List}
use boxproxy.Act.{Act}
use boxproxy.Act.Keeps.{Keeps}
use boxproxy.Config.Modes.{ProxyMode}
use boxproxy.Rules.Names.{Family, RuleContext}
use boxproxy.Rules.Manager.{Env, World}
use boxproxy.Rules.Tun.{
  tun_interface, append_tun_external_interface_policy_rules, append_tun_dns_rules,
  append_tun_fake_ip_route_rules, append_tun_bypass_destination_rules, tun_proxy_mode,
  append_tun_proxy_mode_rules, tun_force_proto, append_cnip_force_proxy_tun_rules,
  append_tun_core_bypass_rules, start_tun_bypass, stop_tun_bypass,
}
use boxproxy.Rules.Frame.{Frame, OfDevice}
use boxproxy.Rules.Frame.Redirect.{redirect_rules}

module _ {S : Type 0} ⦃E : Env S⦄ {Q : S → Type 0} (frame : Frame Q) where
  pub tun_interface-Frame :
      (family : Family) (chain : String) (macs : List String) (iface : String)
      → Keeps {W = World S} (OfDevice Q) (tun_interface family chain macs iface)
  unfolding tun_interface
  tun_interface-Frame family chain macs iface = search redirect_rules depth 16

  pub append_tun_external_interface_policy_rules-Frame :
      (family : Family) (chain : String)
      → Keeps {W = World S} (OfDevice Q) (append_tun_external_interface_policy_rules family chain)
  unfolding append_tun_external_interface_policy_rules
  append_tun_external_interface_policy_rules-Frame family chain =
      search (redirect_rules, tun_interface-Frame) depth 16

  pub append_tun_dns_rules-Frame :
      (family : Family) (chain : String)
      → Keeps {W = World S} (OfDevice Q) (append_tun_dns_rules family chain)
  unfolding append_tun_dns_rules
  append_tun_dns_rules-Frame family chain = search redirect_rules depth 16

  pub append_tun_fake_ip_route_rules-Frame :
      (family : Family) (chain : String)
      → Keeps {W = World S} (OfDevice Q) (append_tun_fake_ip_route_rules family chain)
  unfolding append_tun_fake_ip_route_rules
  append_tun_fake_ip_route_rules-Frame family chain = search redirect_rules depth 16

  pub append_tun_bypass_destination_rules-Frame :
      (family : Family) (chain : String)
      → Keeps {W = World S} (OfDevice Q) (append_tun_bypass_destination_rules family chain)
  unfolding append_tun_bypass_destination_rules
  append_tun_bypass_destination_rules-Frame family chain =
      search (redirect_rules, append_tun_fake_ip_route_rules-Frame) depth 16

  pub tun_proxy_mode-Frame :
      (mode : ProxyMode) (family : Family) (s : String) (context : RuleContext)
      → Keeps {W = World S} (OfDevice Q) (tun_proxy_mode mode family s context)
  unfolding tun_proxy_mode
  tun_proxy_mode-Frame ProxyMode.core family s context = search redirect_rules depth 16
  tun_proxy_mode-Frame ProxyMode.blacklist family s context = search redirect_rules depth 16
  tun_proxy_mode-Frame ProxyMode.whitelist family s context = search redirect_rules depth 16

  pub append_tun_proxy_mode_rules-Frame :
      (family : Family) (chain : String) (context : RuleContext)
      → Keeps {W = World S} (OfDevice Q) (append_tun_proxy_mode_rules family chain context)
  unfolding append_tun_proxy_mode_rules
  append_tun_proxy_mode_rules-Frame family chain context =
      search (redirect_rules, tun_proxy_mode-Frame) depth 16

  pub tun_force_proto-Frame :
      (family : Family) (chain : String) (base : String → Act (World S) (Option (List String)))
      (proto : String)
      → ((p : String) → Keeps (OfDevice Q) (base p))
      → Keeps {W = World S} (OfDevice Q) (tun_force_proto family chain base proto)
  unfolding tun_force_proto
  tun_force_proto-Frame family chain base proto k = search (redirect_rules, k) depth 16

  pub append_cnip_force_proxy_tun_rules-Frame :
      (family : Family) (chain : String) (context : RuleContext)
      → Keeps {W = World S} (OfDevice Q) (append_cnip_force_proxy_tun_rules family chain context)
  unfolding append_cnip_force_proxy_tun_rules
  append_cnip_force_proxy_tun_rules-Frame family chain context =
      search (redirect_rules, tun_force_proto-Frame) depth 16

  pub append_tun_core_bypass_rules-Frame :
      (family : Family) (chain : String) (context : RuleContext)
      → Keeps {W = World S} (OfDevice Q) (append_tun_core_bypass_rules family chain context)
  unfolding append_tun_core_bypass_rules
  append_tun_core_bypass_rules-Frame family chain context = search redirect_rules depth 16

  pub start_tun_bypass-Frame :
      (family : Family) (context : RuleContext)
      → Keeps {W = World S} (OfDevice Q) (start_tun_bypass family context)
  unfolding start_tun_bypass
  start_tun_bypass-Frame family context =
      search
        (
          redirect_rules, append_tun_external_interface_policy_rules-Frame,
          append_tun_dns_rules-Frame, append_tun_bypass_destination_rules-Frame,
          append_tun_proxy_mode_rules-Frame, append_cnip_force_proxy_tun_rules-Frame,
          append_tun_core_bypass_rules-Frame,
        )
        depth 16

  pub stop_tun_bypass-Frame :
      (family : Family) → Keeps {W = World S} (OfDevice Q) (stop_tun_bypass family)
  unfolding stop_tun_bypass
  stop_tun_bypass-Frame family = search redirect_rules depth 16

pub ruleset tun_rules = (
  redirect_rules, tun_interface-Frame, append_tun_external_interface_policy_rules-Frame,
  append_tun_dns_rules-Frame, append_tun_fake_ip_route_rules-Frame,
  append_tun_bypass_destination_rules-Frame, tun_proxy_mode-Frame,
  append_tun_proxy_mode_rules-Frame, tun_force_proto-Frame, append_cnip_force_proxy_tun_rules-Frame,
  append_tun_core_bypass_rules-Frame, start_tun_bypass-Frame, stop_tun_bypass-Frame,
)
