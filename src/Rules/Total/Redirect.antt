-- ===== src/Rules/Total/Redirect.antt =====
-- What of boxctl/src/rules.rs returns no error.
use boxproxy.Prelude.{String, List}
use boxproxy.Act.Total.{Total}
use boxproxy.Rules.Names.{Family}
use boxproxy.Rules.Manager.{Env, World}
use boxproxy.Rules.Redirect.{
  cleanup_external_chain_common, cleanup_local_chain_common, cleanup_perf_chains, stop_redirect,
}
use boxproxy.Rules.Total.Routing.{routing_total}

module _ {S : Type 0} ⦃E : Env S⦄ where
  pub cleanup_external_chain_common-Total :
      (family : Family) (table : String) (chain : String) (parent : String)
      → Total {W = World S} (cleanup_external_chain_common family table chain parent)
  unfolding cleanup_external_chain_common
  cleanup_external_chain_common-Total family table chain parent = search routing_total depth 16

  pub cleanup_local_chain_common-Total :
      (family : Family) (table : String) (chain : String) (parent : String)
      → Total {W = World S} (cleanup_local_chain_common family table chain parent)
  unfolding cleanup_local_chain_common
  cleanup_local_chain_common-Total family table chain parent = search routing_total depth 16

  pub cleanup_perf_chains-Total :
      (family : Family) (table : String) (chains : List String)
      → Total {W = World S} (cleanup_perf_chains family table chains)
  unfolding cleanup_perf_chains
  cleanup_perf_chains-Total family table chains = search routing_total depth 16

  pub stop_redirect-Total : (family : Family) → Total {W = World S} (stop_redirect family)
  unfolding stop_redirect
  stop_redirect-Total family =
      search
        (
          routing_total, cleanup_external_chain_common-Total, cleanup_local_chain_common-Total,
          cleanup_perf_chains-Total,
        )
        depth 16

pub ruleset redirect_total = (
  routing_total, cleanup_external_chain_common-Total, cleanup_local_chain_common-Total,
  cleanup_perf_chains-Total, stop_redirect-Total,
)
