-- ===== src/Rules/Frame/PerfChains.antt =====
-- boxctl/src/rules/performance.rs, with a framed predicate.
use boxproxy.Prelude.{String, Bool, List}
use boxproxy.Act.Keeps.{Keeps}
use boxproxy.Config.Modes.{ProxyMode}
use boxproxy.Rules.Names.{Family, RuleContext}
use boxproxy.Rules.Manager.{Env, World}
use boxproxy.Rules.PerfChains.{
  append_perf_bypass_target, append_rule_try_skip, append_perf_bypass_target_try_skip,
  append_perf_addrtype_bypass_target, setup_perf_dest_chain, perf_interface,
  setup_perf_pre_if_chain, perf_proxy_mode, setup_perf_out_app_chain, add_perf_chain_jump,
  add_perf_chain_jumps, append_tproxy_perf_connmark_rules,
}
use boxproxy.Rules.Frame.{Frame, OfDevice}
use boxproxy.Rules.Frame.Routing.{routing_rules}

module _ {S : Type 0} ⦃E : Env S⦄ {Q : S → Type 0} (frame : Frame Q) where
  pub append_perf_bypass_target-Frame :
      (family : Family) (table : String) (chain : String) (base : List String)
      → Keeps {W = World S} (OfDevice Q) (append_perf_bypass_target family table chain base)
  unfolding append_perf_bypass_target
  append_perf_bypass_target-Frame family table chain base = search routing_rules depth 16

  pub append_rule_try_skip-Frame :
      (family : Family) (table : String) (chain : String) (args : List String)
      → Keeps {W = World S} (OfDevice Q) (append_rule_try_skip family table chain args)
  unfolding append_rule_try_skip
  append_rule_try_skip-Frame family table chain args = search routing_rules depth 16

  pub append_perf_bypass_target_try_skip-Frame :
      (family : Family) (table : String) (chain : String) (base : List String)
      → Keeps {W = World S}
          (OfDevice Q)
          (append_perf_bypass_target_try_skip family table chain base)
  unfolding append_perf_bypass_target_try_skip
  append_perf_bypass_target_try_skip-Frame family table chain base =
      search (routing_rules, append_rule_try_skip-Frame) depth 16

  pub append_perf_addrtype_bypass_target-Frame :
      (family : Family) (table : String) (chain : String)
      → Keeps {W = World S} (OfDevice Q) (append_perf_addrtype_bypass_target family table chain)
  unfolding append_perf_addrtype_bypass_target
  append_perf_addrtype_bypass_target-Frame family table chain =
      search (routing_rules, append_perf_bypass_target_try_skip-Frame) depth 16

  pub setup_perf_dest_chain-Frame :
      (family : Family) (table : String) (chain : String)
      → Keeps {W = World S} (OfDevice Q) (setup_perf_dest_chain family table chain)
  unfolding setup_perf_dest_chain
  setup_perf_dest_chain-Frame family table chain =
      search
        (routing_rules, append_perf_bypass_target-Frame, append_perf_addrtype_bypass_target-Frame)
        depth 16

  pub perf_interface-Frame :
      (family : Family) (table : String) (chain : String) (macs : List String) (iface : String)
      → Keeps {W = World S} (OfDevice Q) (perf_interface family table chain macs iface)
  unfolding perf_interface
  perf_interface-Frame family table chain macs iface = search routing_rules depth 16

  pub setup_perf_pre_if_chain-Frame :
      (family : Family) (table : String) (chain : String)
      → Keeps {W = World S} (OfDevice Q) (setup_perf_pre_if_chain family table chain)
  unfolding setup_perf_pre_if_chain
  setup_perf_pre_if_chain-Frame family table chain =
      search (routing_rules, perf_interface-Frame) depth 16

  pub perf_proxy_mode-Frame :
      (mode : ProxyMode) (family : Family) (s : String) (s2 : String) (context : RuleContext)
      (flag : Bool)
      → Keeps {W = World S} (OfDevice Q) (perf_proxy_mode mode family s s2 context flag)
  unfolding perf_proxy_mode
  perf_proxy_mode-Frame ProxyMode.core family s s2 context flag = search routing_rules depth 16
  perf_proxy_mode-Frame ProxyMode.blacklist family s s2 context flag = search routing_rules depth 16
  perf_proxy_mode-Frame ProxyMode.whitelist family s s2 context flag = search routing_rules depth 16

  pub setup_perf_out_app_chain-Frame :
      (family : Family) (table : String) (chain : String) (context : RuleContext)
      → Keeps {W = World S} (OfDevice Q) (setup_perf_out_app_chain family table chain context)
  unfolding setup_perf_out_app_chain
  setup_perf_out_app_chain-Frame family table chain context =
      search (routing_rules, perf_proxy_mode-Frame) depth 16

  pub add_perf_chain_jump-Frame :
      (family : Family) (table : String) (parent : String) (target : String)
      → Keeps {W = World S} (OfDevice Q) (add_perf_chain_jump family table parent target)
  unfolding add_perf_chain_jump
  add_perf_chain_jump-Frame family table parent target = search routing_rules depth 16

  pub add_perf_chain_jumps-Frame :
      (family : Family) (table : String) (parent : String) (targets : List String)
      → Keeps {W = World S} (OfDevice Q) (add_perf_chain_jumps family table parent targets)
  unfolding add_perf_chain_jumps
  add_perf_chain_jumps-Frame family table parent targets =
      search (routing_rules, add_perf_chain_jump-Frame) depth 16

  pub append_tproxy_perf_connmark_rules-Frame :
      (family : Family) (chain : String)
      → Keeps {W = World S} (OfDevice Q) (append_tproxy_perf_connmark_rules family chain)
  unfolding append_tproxy_perf_connmark_rules
  append_tproxy_perf_connmark_rules-Frame family chain = search routing_rules depth 16

pub ruleset perf_chains_rules = (
  routing_rules, append_perf_bypass_target-Frame, append_rule_try_skip-Frame,
  append_perf_bypass_target_try_skip-Frame, append_perf_addrtype_bypass_target-Frame,
  setup_perf_dest_chain-Frame, perf_interface-Frame, setup_perf_pre_if_chain-Frame,
  perf_proxy_mode-Frame, setup_perf_out_app_chain-Frame, add_perf_chain_jump-Frame,
  add_perf_chain_jumps-Frame, append_tproxy_perf_connmark_rules-Frame,
)
