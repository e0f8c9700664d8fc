-- ===== src/Rules/Frame/Redirect.antt =====
-- boxctl/src/rules.rs (REDIRECT), with a framed predicate.
use boxproxy.Prelude.{String, List}
use boxproxy.Act.Keeps.{Keeps}
use boxproxy.Rules.Names.{Family, RuleContext}
use boxproxy.Rules.Manager.{Env, World}
use boxproxy.Rules.Redirect.{
  setup_local_chain_common, cleanup_external_chain_common, cleanup_local_chain_common,
  append_common_bypass_rules, apply_reply_bypass_rules, setup_redirect_external_chain,
  setup_redirect_local_chain, start_redirect, cleanup_perf_chains, stop_redirect,
}
use boxproxy.Rules.Frame.{Frame, OfDevice}
use boxproxy.Rules.Frame.PerfChains.{perf_chains_rules}

module _ {S : Type 0} ⦃E : Env S⦄ {Q : S → Type 0} (frame : Frame Q) where
  pub setup_local_chain_common-Frame :
      (family : Family) (table : String) (chain : String) (context : RuleContext)
      → Keeps {W = World S} (OfDevice Q) (setup_local_chain_common family table chain context)
  unfolding setup_local_chain_common
  setup_local_chain_common-Frame family table chain context = search perf_chains_rules depth 16

  pub cleanup_external_chain_common-Frame :
      (family : Family) (table : String) (chain : String) (parent : String)
      → Keeps {W = World S} (OfDevice Q) (cleanup_external_chain_common family table chain parent)
  unfolding cleanup_external_chain_common
  cleanup_external_chain_common-Frame family table chain parent = search perf_chains_rules depth 16

  pub cleanup_local_chain_common-Frame :
      (family : Family) (table : String) (chain : String) (parent : String)
      → Keeps {W = World S} (OfDevice Q) (cleanup_local_chain_common family table chain parent)
  unfolding cleanup_local_chain_common
  cleanup_local_chain_common-Frame family table chain parent = search perf_chains_rules depth 16

  pub append_common_bypass_rules-Frame :
      (family : Family) (table : String) (chain : String)
      → Keeps {W = World S} (OfDevice Q) (append_common_bypass_rules family table chain)
  unfolding append_common_bypass_rules
  append_common_bypass_rules-Frame family table chain = search perf_chains_rules depth 16

  pub apply_reply_bypass_rules-Frame :
      (family : Family) (table : String) (chain : String)
      → Keeps {W = World S} (OfDevice Q) (apply_reply_bypass_rules family table chain)
  unfolding apply_reply_bypass_rules
  apply_reply_bypass_rules-Frame family table chain = search perf_chains_rules depth 16

  pub setup_redirect_external_chain-Frame :
      (family : Family) (context : RuleContext)
      → Keeps {W = World S} (OfDevice Q) (setup_redirect_external_chain family context)
  unfolding setup_redirect_external_chain
  setup_redirect_external_chain-Frame family context =
      search (perf_chains_rules, append_common_bypass_rules-Frame, apply_reply_bypass_rules-Frame)
        depth 16

  pub setup_redirect_local_chain-Frame :
      (family : Family) (context : RuleContext)
      → Keeps {W = World S} (OfDevice Q) (setup_redirect_local_chain family context)
  unfolding setup_redirect_local_chain
  setup_redirect_local_chain-Frame family context =
      search
        (
          perf_chains_rules, setup_local_chain_common-Frame, append_common_bypass_rules-Frame,
          apply_reply_bypass_rules-Frame,
        )
        depth 16

  pub start_redirect-Frame :
      (family : Family) (context : RuleContext)
      → Keeps {W = World S} (OfDevice Q) (start_redirect family context)
  unfolding start_redirect
  start_redirect-Frame family context =
      search
        (perf_chains_rules, setup_redirect_external_chain-Frame, setup_redirect_local_chain-Frame)
        depth 16

  pub cleanup_perf_chains-Frame :
      (family : Family) (table : String) (chains : List String)
      → Keeps {W = World S} (OfDevice Q) (cleanup_perf_chains family table chains)
  unfolding cleanup_perf_chains
  cleanup_perf_chains-Frame family table chains = search perf_chains_rules depth 16

  pub stop_redirect-Frame :
      (family : Family) → Keeps {W = World S} (OfDevice Q) (stop_redirect family)
  unfolding stop_redirect
  stop_redirect-Frame family =
      search
        (
          perf_chains_rules, cleanup_external_chain_common-Frame, cleanup_local_chain_common-Frame,
          cleanup_perf_chains-Frame,
        )
        depth 16

pub ruleset redirect_rules = (
  perf_chains_rules, setup_local_chain_common-Frame, cleanup_external_chain_common-Frame,
  cleanup_local_chain_common-Frame, append_common_bypass_rules-Frame,
  apply_reply_bypass_rules-Frame, setup_redirect_external_chain-Frame,
  setup_redirect_local_chain-Frame, start_redirect-Frame, cleanup_perf_chains-Frame,
  stop_redirect-Frame,
)
