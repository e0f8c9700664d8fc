-- ===== src/Rules/Frame/Dispatch.antt =====
-- boxctl/src/rules/routing.rs, with a framed predicate.
use boxproxy.Prelude.{String, List}
use boxproxy.Act.Keeps.{Keeps}
use boxproxy.Rules.Names.{Family}
use boxproxy.Rules.Manager.{Env, World}
use boxproxy.Rules.Dispatch.{
  append_redirect_dispatch_rule, append_tproxy_dispatch_rule, append_mark_return,
}
use boxproxy.Rules.Frame.{Frame, OfDevice}
use boxproxy.Rules.Frame.Performance.{performance_rules}

module _ {S : Type 0} ⦃E : Env S⦄ {Q : S → Type 0} (frame : Frame Q) where
  pub append_redirect_dispatch_rule-Frame :
      (family : Family) (chain : String) (args : List String)
      → Keeps {W = World S} (OfDevice Q) (append_redirect_dispatch_rule family chain args)
  unfolding append_redirect_dispatch_rule
  append_redirect_dispatch_rule-Frame family chain args = search performance_rules depth 16

  pub append_tproxy_dispatch_rule-Frame :
      (family : Family) (chain : String) (args : List String)
      → Keeps {W = World S} (OfDevice Q) (append_tproxy_dispatch_rule family chain args)
  unfolding append_tproxy_dispatch_rule
  append_tproxy_dispatch_rule-Frame family chain args = search performance_rules depth 16

  pub append_mark_return-Frame :
      (family : Family) (chain : String) (mark : String) (args : List String)
      → Keeps {W = World S} (OfDevice Q) (append_mark_return family chain mark args)
  unfolding append_mark_return
  append_mark_return-Frame family chain mark args = search performance_rules depth 16

pub ruleset dispatch_rules = (
  performance_rules, append_redirect_dispatch_rule-Frame, append_tproxy_dispatch_rule-Frame,
  append_mark_return-Frame,
)
