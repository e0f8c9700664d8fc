-- ===== src/Rules/Frame/DualStack.antt =====
-- boxctl/src/rules.rs (both families), with a framed predicate.
use boxproxy.Act.{Act}
use boxproxy.Act.Keeps.{Keeps}
use boxproxy.Rules.Names.{Family, RuleContext, Capabilities}
use boxproxy.Rules.Manager.{Env, World}
use boxproxy.Rules.DualStack.{
  batched, apply_dual_stack, apply_redirect, apply_tproxy, apply_mixed, apply_enhance, apply_tun,
}
use boxproxy.Rules.Frame.{Frame, OfDevice}
use boxproxy.Rules.Frame.Ipv6.{ipv6_rules}

module _ {S : Type 0} ⦃E : Env S⦄ {Q : S → Type 0} (frame : Frame Q) where
  pub batched-Frame :
      (per_family : Family → Act (World S) Unit) (family : Family)
      → ((f : Family) → Keeps (OfDevice Q) (per_family f))
      → Keeps {W = World S} (OfDevice Q) (batched per_family family)
  unfolding batched
  batched-Frame per_family family k = search (ipv6_rules, k) depth 16

  pub apply_dual_stack-Frame :
      (per_family : Family → Act (World S) Unit)
      → ((f : Family) → Keeps (OfDevice Q) (per_family f))
      → Keeps {W = World S} (OfDevice Q) (apply_dual_stack per_family)
  unfolding apply_dual_stack
  apply_dual_stack-Frame per_family k = search (ipv6_rules, batched-Frame) depth 16

  pub apply_redirect-Frame :
      (context : RuleContext) → Keeps {W = World S} (OfDevice Q) (apply_redirect context)
  unfolding apply_redirect
  apply_redirect-Frame context = search (ipv6_rules, apply_dual_stack-Frame) depth 16

  pub apply_tproxy-Frame :
      (context : RuleContext) (capabilities : Capabilities)
      → Keeps {W = World S} (OfDevice Q) (apply_tproxy context capabilities)
  unfolding apply_tproxy
  apply_tproxy-Frame context capabilities = search (ipv6_rules, apply_dual_stack-Frame) depth 16

  pub apply_mixed-Frame :
      (context : RuleContext) → Keeps {W = World S} (OfDevice Q) (apply_mixed context)
  unfolding apply_mixed
  apply_mixed-Frame context = search (ipv6_rules, apply_dual_stack-Frame) depth 16

  pub apply_enhance-Frame :
      (context : RuleContext) (capabilities : Capabilities)
      → Keeps {W = World S} (OfDevice Q) (apply_enhance context capabilities)
  unfolding apply_enhance
  apply_enhance-Frame context capabilities = search (ipv6_rules, apply_dual_stack-Frame) depth 16

  pub apply_tun-Frame :
      (context : RuleContext) → Keeps {W = World S} (OfDevice Q) (apply_tun context)
  unfolding apply_tun
  apply_tun-Frame context = search (ipv6_rules, apply_dual_stack-Frame) depth 16

pub ruleset dual_stack_rules = (
  ipv6_rules, batched-Frame, apply_dual_stack-Frame, apply_redirect-Frame, apply_tproxy-Frame,
  apply_mixed-Frame, apply_enhance-Frame, apply_tun-Frame,
)
