-- ===== src/Rules/Frame/Modes.antt =====
-- boxctl/src/rules.rs (one family of each mode), with a framed predicate.
use boxproxy.Act.{ok, err}
use boxproxy.Prelude.{String}
use boxproxy.Act.{Act}
use boxproxy.Act.Keeps.{Keeps}
use boxproxy.Rules.Names.{Family, RuleContext, Capabilities}
use boxproxy.Rules.Manager.{Env, World}
use boxproxy.Rules.Modes.{
  cleanup_forward, apply_redirect_family, apply_tproxy_family, apply_mixed_family,
  apply_enhance_family, apply_tun_family, cleanup_iptables_family, cleanup_iptables_for_mode,
  recover,
}
use boxproxy.Rules.Frame.{Frame, OfDevice}
use boxproxy.Rules.Frame.Tproxy.{tproxy_rules}
use boxproxy.Act.{Result}

module _ {S : Type 0} {Q : S → Type 0} where
  pub recover-Frame :
      (h : String → Act (World S) Unit) (r : Result (Unit {0}))
      → ((e : String) → Keeps (OfDevice Q) (h e))
      → Keeps {W = World S} (OfDevice Q) (recover h r)
  unfolding recover
  recover-Frame h (ok tt) k = search tproxy_rules
  recover-Frame h (err e) k = k e

module _ {S : Type 0} ⦃E : Env S⦄ {Q : S → Type 0} (frame : Frame Q) where
  pub cleanup_forward-Frame :
      (family : Family) → Keeps {W = World S} (OfDevice Q) (cleanup_forward family)
  unfolding cleanup_forward
  cleanup_forward-Frame family = search tproxy_rules depth 16

  pub apply_redirect_family-Frame :
      (family : Family) (context : RuleContext)
      → Keeps {W = World S} (OfDevice Q) (apply_redirect_family family context)
  unfolding apply_redirect_family
  apply_redirect_family-Frame family context =
      search (tproxy_rules, recover-Frame, recover-Frame) depth 16

  pub apply_tproxy_family-Frame :
      (family : Family) (context : RuleContext) (capabilities : Capabilities)
      → Keeps {W = World S} (OfDevice Q) (apply_tproxy_family family context capabilities)
  unfolding apply_tproxy_family
  apply_tproxy_family-Frame family context capabilities =
      search (tproxy_rules, recover-Frame, recover-Frame) depth 16

  pub apply_mixed_family-Frame :
      (family : Family) (context : RuleContext)
      → Keeps {W = World S} (OfDevice Q) (apply_mixed_family family context)
  unfolding apply_mixed_family
  apply_mixed_family-Frame family context =
      search (tproxy_rules, apply_redirect_family-Frame) depth 16

  pub apply_enhance_family-Frame :
      (family : Family) (context : RuleContext) (capabilities : Capabilities)
      → Keeps {W = World S} (OfDevice Q) (apply_enhance_family family context capabilities)
  unfolding apply_enhance_family
  apply_enhance_family-Frame family context capabilities =
      search (tproxy_rules, recover-Frame, recover-Frame) depth 16

  pub apply_tun_family-Frame :
      (family : Family) (context : RuleContext)
      → Keeps {W = World S} (OfDevice Q) (apply_tun_family family context)
  unfolding apply_tun_family
  apply_tun_family-Frame family context =
      search (tproxy_rules, recover-Frame, cleanup_forward-Frame) depth 16

  pub cleanup_iptables_family-Frame :
      (family : Family) (mode : String)
      → Keeps {W = World S} (OfDevice Q) (cleanup_iptables_family family mode)
  unfolding cleanup_iptables_family
  cleanup_iptables_family-Frame family mode = search (tproxy_rules, cleanup_forward-Frame) depth 16

  pub cleanup_iptables_for_mode-Frame :
      (mode : String) → Keeps {W = World S} (OfDevice Q) (cleanup_iptables_for_mode mode)
  unfolding cleanup_iptables_for_mode
  cleanup_iptables_for_mode-Frame mode =
      search (tproxy_rules, cleanup_iptables_family-Frame) depth 16

pub ruleset modes_rules = (
  tproxy_rules, cleanup_forward-Frame, apply_redirect_family-Frame, apply_tproxy_family-Frame,
  apply_mixed_family-Frame, apply_enhance_family-Frame, apply_tun_family-Frame,
  cleanup_iptables_family-Frame, cleanup_iptables_for_mode-Frame, recover-Frame,
)
