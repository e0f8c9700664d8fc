-- ===== src/Rules/Total/Chain.antt =====
-- What of boxctl/src/rules/exec.rs returns no error.
use boxproxy.Prelude.{[], ◌∷◌}
use boxproxy.Prelude.{String, List}
use boxproxy.Act.{Act}
use boxproxy.Act.Total.{Total}
use boxproxy.Rules.Names.{Family, RuleContext}
use boxproxy.Rules.Manager.{Env, World}
use boxproxy.Rules.Chain.{
  cleanup_chain_fast, ensure_rule_insert, del_rule, del_jump, try_variants, add_core_bypass_rule,
}
use boxproxy.Rules.Total.Command.{command_total}

module _ {S : Type 0} ⦃E : Env S⦄ (flush : Act (World S) Unit) where
  pub cleanup_chain_fast-Total :
      (family : Family) (table : String) (chain : String)
      → Total {W = World S} (cleanup_chain_fast flush family table chain)
  unfolding cleanup_chain_fast
  cleanup_chain_fast-Total family table chain = search command_total depth 16

  pub ensure_rule_insert-Total :
      (family : Family) (table : String) (chain : String) (args : List String)
      → Total {W = World S} (ensure_rule_insert flush family table chain args)
  unfolding ensure_rule_insert
  ensure_rule_insert-Total family table chain args = search command_total depth 16

  pub del_rule-Total :
      (family : Family) (table : String) (chain : String) (args : List String)
      → Total {W = World S} (del_rule flush family table chain args)
  unfolding del_rule
  del_rule-Total family table chain args = search command_total depth 16

  pub del_jump-Total :
      (family : Family) (table : String) (parent : String) (target : String)
      → Total {W = World S} (del_jump flush family table parent target)
  unfolding del_jump
  del_jump-Total family table parent target = search command_total depth 16

  pub try_variants-Total :
      (family : Family) (table chain op : String) (variants : List (List String))
      → Total {W = World S} (try_variants flush family table chain op variants)
  unfolding try_variants
  try_variants-Total family table chain op [] = search command_total depth 16
  try_variants-Total family table chain op (args ∷ rest) =
      let later = try_variants-Total family table chain op rest in search command_total depth 16

  pub add_core_bypass_rule-Total :
      (family : Family) (table : String) (chain : String) (op : String) (context : RuleContext)
      → Total {W = World S} (add_core_bypass_rule flush family table chain op context)
  unfolding add_core_bypass_rule
  add_core_bypass_rule-Total family table chain op context =
      search (command_total, try_variants-Total) depth 16

pub ruleset chain_total = (
  command_total, cleanup_chain_fast-Total, ensure_rule_insert-Total, del_rule-Total, del_jump-Total,
  try_variants-Total, add_core_bypass_rule-Total,
)
