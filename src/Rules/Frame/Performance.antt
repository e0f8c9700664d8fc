-- ===== src/Rules/Frame/Performance.antt =====
-- boxctl/src/rules/performance.rs, with a framed predicate.
use boxproxy.Act.Keeps.{Keeps}
use boxproxy.Rules.Manager.{Env, World}
use boxproxy.Rules.Performance.{performance_conntrack_enabled}
use boxproxy.Rules.Frame.{Frame, OfDevice}
use boxproxy.Rules.Frame.Cnip.{cnip_rules}

module _ {S : Type 0} ⦃E : Env S⦄ {Q : S → Type 0} (frame : Frame Q) where
  pub performance_conntrack_enabled-Frame :
      Keeps {W = World S} (OfDevice Q) performance_conntrack_enabled
  unfolding performance_conntrack_enabled
  performance_conntrack_enabled-Frame = search cnip_rules depth 16

pub ruleset performance_rules = (cnip_rules, performance_conntrack_enabled-Frame)
