-- ===== src/Rules/Frame/Tproxy.antt =====
-- boxctl/src/rules.rs (TPROXY), with a framed predicate.
use boxproxy.Act.Keeps.{Keeps}
use boxproxy.Rules.Names.{Family, RuleContext, Capabilities}
use boxproxy.Rules.Manager.{Env, World}
use boxproxy.Rules.Tproxy.{
  setup_tproxy_perf_external_chain, setup_tproxy_perf_local_chain, setup_tproxy_external_chain,
  setup_tproxy_local_chain, require_tproxy, start_tproxy, stop_tproxy,
}
use boxproxy.Rules.Frame.{Frame, OfDevice}
use boxproxy.Rules.Frame.Tun.{tun_rules}

module _ {S : Type 0} ⦃E : Env S⦄ {Q : S → Type 0} (frame : Frame Q) where
  pub setup_tproxy_perf_external_chain-Frame :
      (family : Family) → Keeps {W = World S} (OfDevice Q) (setup_tproxy_perf_external_chain family)
  unfolding setup_tproxy_perf_external_chain
  setup_tproxy_perf_external_chain-Frame family = search tun_rules depth 16

  pub setup_tproxy_perf_local_chain-Frame :
      (family : Family) (context : RuleContext)
      → Keeps {W = World S} (OfDevice Q) (setup_tproxy_perf_local_chain family context)
  unfolding setup_tproxy_perf_local_chain
  setup_tproxy_perf_local_chain-Frame family context = search tun_rules depth 16

  pub setup_tproxy_external_chain-Frame :
      (family : Family) (context : RuleContext) (capabilities : Capabilities)
      → Keeps {W = World S} (OfDevice Q) (setup_tproxy_external_chain family context capabilities)
  unfolding setup_tproxy_external_chain
  setup_tproxy_external_chain-Frame family context capabilities =
      search (tun_rules, setup_tproxy_perf_external_chain-Frame) depth 16

  pub setup_tproxy_local_chain-Frame :
      (family : Family) (context : RuleContext) (capabilities : Capabilities)
      → Keeps {W = World S} (OfDevice Q) (setup_tproxy_local_chain family context capabilities)
  unfolding setup_tproxy_local_chain
  setup_tproxy_local_chain-Frame family context capabilities =
      search (tun_rules, setup_tproxy_perf_local_chain-Frame) depth 16

  pub require_tproxy-Frame :
      (family : Family) (capabilities : Capabilities)
      → Keeps {W = World S} (OfDevice Q) (require_tproxy family capabilities)
  unfolding require_tproxy
  require_tproxy-Frame Family.v4 capabilities = search tun_rules depth 16
  require_tproxy-Frame Family.v6 capabilities = search tun_rules depth 16

  pub start_tproxy-Frame :
      (family : Family) (context : RuleContext) (capabilities : Capabilities)
      → Keeps {W = World S} (OfDevice Q) (start_tproxy family context capabilities)
  unfolding start_tproxy
  start_tproxy-Frame family context capabilities =
      search
        (
          tun_rules, setup_tproxy_external_chain-Frame, setup_tproxy_local_chain-Frame,
          require_tproxy-Frame,
        )
        depth 16

  pub stop_tproxy-Frame : (family : Family) → Keeps {W = World S} (OfDevice Q) (stop_tproxy family)
  unfolding stop_tproxy
  stop_tproxy-Frame family = search tun_rules depth 16

pub ruleset tproxy_rules = (
  tun_rules, setup_tproxy_perf_external_chain-Frame, setup_tproxy_perf_local_chain-Frame,
  setup_tproxy_external_chain-Frame, setup_tproxy_local_chain-Frame, require_tproxy-Frame,
  start_tproxy-Frame, stop_tproxy-Frame,
)
