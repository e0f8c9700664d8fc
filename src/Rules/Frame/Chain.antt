-- ===== src/Rules/Frame/Chain.antt =====
-- Chains and rules of boxctl/src/rules/exec.rs and the records of boxctl/src/rules/batch.rs, with a framed predicate.
use boxproxy.Prelude.{String, Option, List, [], ◌∷◌}
use boxproxy.Act.{Act}
use boxproxy.Act.Keeps.{Keeps}
use boxproxy.Rules.Names.{Family, RuleContext}
use boxproxy.Rules.Batch.{TableBatch, RuleBatch}
use boxproxy.Rules.Manager.{Env, World}
use boxproxy.Rules.Chain.{
  record_in, batch_record_chain, batch_record_append, ensure_chain, cleanup_chain_fast, ensure_jump,
  present_or_recorded, ensure_rule_append_owned, ensure_rule_insert, del_rule, del_jump,
  try_variants, add_core_bypass_rule, core_bypass_variants,
}
use boxproxy.Rules.Frame.{Frame, OfDevice}
use boxproxy.Rules.Frame.Command.{command_rules}

module _ {S : Type 0} {Q : S → Type 0} where
  pub record_in-Frame :
      (family : Family) (table : String) (f : (TableBatch → TableBatch)) (batch : Option RuleBatch)
      → Keeps {W = World S} (OfDevice Q) (record_in family table f batch)
  unfolding record_in
  record_in-Frame family table f batch = search command_rules depth 16

  pub batch_record_chain-Frame :
      (family : Family) (table : String) (chain : String)
      → Keeps {W = World S} (OfDevice Q) (batch_record_chain family table chain)
  unfolding batch_record_chain
  batch_record_chain-Frame family table chain = search (command_rules, record_in-Frame) depth 16

  pub batch_record_append-Frame :
      (family : Family) (table : String) (chain : String) (args : List String)
      → Keeps {W = World S} (OfDevice Q) (batch_record_append family table chain args)
  unfolding batch_record_append
  batch_record_append-Frame family table chain args =
      search (command_rules, record_in-Frame) depth 16

module _ {S : Type 0} ⦃E : Env S⦄ {Q : S → Type 0} (frame : Frame Q) {flush : Act (World S) Unit}
    (flushed : Keeps (OfDevice Q) flush) where
  pub ensure_chain-Frame :
      (family : Family) (table : String) (chain : String)
      → Keeps {W = World S} (OfDevice Q) (ensure_chain flush family table chain)
  unfolding ensure_chain
  ensure_chain-Frame family table chain = search (command_rules, batch_record_chain-Frame) depth 16

  pub cleanup_chain_fast-Frame :
      (family : Family) (table : String) (chain : String)
      → Keeps {W = World S} (OfDevice Q) (cleanup_chain_fast flush family table chain)
  unfolding cleanup_chain_fast
  cleanup_chain_fast-Frame family table chain = search command_rules depth 16

  pub ensure_jump-Frame :
      (family : Family) (table : String) (parent : String) (target : String)
      → Keeps {W = World S} (OfDevice Q) (ensure_jump flush family table parent target)
  unfolding ensure_jump
  ensure_jump-Frame family table parent target = search command_rules depth 16

  pub present_or_recorded-Frame :
      (family : Family) (table : String) (chain : String) (args : List String)
      → Keeps {W = World S} (OfDevice Q) (present_or_recorded flush family table chain args)
  unfolding present_or_recorded
  present_or_recorded-Frame family table chain args =
      search (command_rules, batch_record_append-Frame) depth 16

  pub ensure_rule_append_owned-Frame :
      (family : Family) (table : String) (chain : String) (args : List String)
      → Keeps {W = World S} (OfDevice Q) (ensure_rule_append_owned flush family table chain args)
  unfolding ensure_rule_append_owned
  ensure_rule_append_owned-Frame family table chain args =
      search (command_rules, present_or_recorded-Frame) depth 16

  pub ensure_rule_insert-Frame :
      (family : Family) (table : String) (chain : String) (args : List String)
      → Keeps {W = World S} (OfDevice Q) (ensure_rule_insert flush family table chain args)
  unfolding ensure_rule_insert
  ensure_rule_insert-Frame family table chain args = search command_rules depth 16

  pub del_rule-Frame :
      (family : Family) (table : String) (chain : String) (args : List String)
      → Keeps {W = World S} (OfDevice Q) (del_rule flush family table chain args)
  unfolding del_rule
  del_rule-Frame family table chain args = search command_rules depth 16

  pub del_jump-Frame :
      (family : Family) (table : String) (parent : String) (target : String)
      → Keeps {W = World S} (OfDevice Q) (del_jump flush family table parent target)
  unfolding del_jump
  del_jump-Frame family table parent target = search (command_rules, del_rule-Frame) depth 16

  pub try_variants-Frame :
      (family : Family) (table chain op : String) (variants : List (List String))
      → Keeps {W = World S} (OfDevice Q) (try_variants flush family table chain op variants)
  unfolding try_variants
  try_variants-Frame family table chain op [] = search command_rules depth 16
  try_variants-Frame family table chain op (args ∷ rest) =
      let later = try_variants-Frame family table chain op rest in search command_rules depth 16

  pub add_core_bypass_rule-Frame :
      (family : Family) (table chain op : String) (context : RuleContext)
      → Keeps {W = World S} (OfDevice Q) (add_core_bypass_rule flush family table chain op context)
  unfolding add_core_bypass_rule
  add_core_bypass_rule-Frame family table chain op context =
      try_variants-Frame family table chain op (core_bypass_variants context)

pub ruleset chain_rules = (
  command_rules, record_in-Frame, batch_record_chain-Frame, batch_record_append-Frame,
  ensure_chain-Frame, cleanup_chain_fast-Frame, ensure_jump-Frame, present_or_recorded-Frame,
  ensure_rule_append_owned-Frame, ensure_rule_insert-Frame, del_rule-Frame, del_jump-Frame,
  add_core_bypass_rule-Frame,
)
