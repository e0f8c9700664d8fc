-- ===== src/Rules/Frame/Flush.antt =====
-- The flush of boxctl/src/rules/batch.rs, with a framed predicate.
use boxproxy.Prelude.{String, List, [], ◌∷◌, ℕ, zero, suc}
use boxproxy.Act.{Act, Result, ok, err}
use boxproxy.Act.Keeps.{Keeps}
use boxproxy.Rules.Names.{Family}
use boxproxy.Rules.Batch.{TableBatch, Tables}
use boxproxy.Rules.Manager.{Env, World}
use boxproxy.Rules.Flush.{
  run_restore, flush_table, after_table, flush_tables, flush_with, flush_at, flush_batch, end_batch,
}
use boxproxy.Rules.Frame.{Frame, OfDevice}
use boxproxy.Rules.Frame.Chain.{chain_rules}

module _ {S : Type 0} ⦃E : Env S⦄ {Q : S → Type 0} (frame : Frame Q) where
  pub run_restore-Frame :
      (family : Family) (table : String) (decls : List String)
      (appends : List (String × List String))
      → Keeps {W = World S} (OfDevice Q) (run_restore family table decls appends)
  unfolding run_restore
  run_restore-Frame family table decls appends = search chain_rules depth 16

module _ {S : Type 0} {Q : S → Type 0} where
  pub after_table-Frame :
      (table : String) (tb : TableBatch) (rest : Tables)
      (later : Act (World S) (Result Unit × Tables)) (r : Result TableBatch)
      → Keeps (OfDevice Q) later
      → Keeps (OfDevice Q) (after_table table tb rest later r)
  unfolding after_table
  after_table-Frame table tb rest later (ok tb') k = search chain_rules depth 12
  after_table-Frame table tb rest later (err e) k = search chain_rules depth 12

module _ {S : Type 0} ⦃E : Env S⦄ {Q : S → Type 0} (frame : Frame Q) {flush : Act (World S) Unit}
    (flushed : Keeps (OfDevice Q) flush) where
  pub flush_table-Frame :
      (family : Family) (table : String) (tb : TableBatch)
      → Keeps {W = World S} (OfDevice Q) (flush_table flush family table tb)
  unfolding flush_table
  flush_table-Frame family table tb = search (chain_rules, run_restore-Frame) depth 16

  pub flush_tables-Frame :
      (family : Family) (tables : Tables)
      → Keeps {W = World S} (OfDevice Q) (flush_tables flush family tables)
  unfolding flush_tables
  flush_tables-Frame family [] = search chain_rules
  flush_tables-Frame family ((table, tb) ∷ rest) =
      let later = flush_tables-Frame family rest in
      search (chain_rules, flush_table-Frame, after_table-Frame) depth 16

  pub flush_with-Frame : Keeps {W = World S} (OfDevice Q) (flush_with flush)
  unfolding flush_with
  flush_with-Frame = search (chain_rules, flush_tables-Frame) depth 16

module _ {S : Type 0} ⦃E : Env S⦄ {Q : S → Type 0} (frame : Frame Q) where
  pub flush_at-Frame : (depth : ℕ) → Keeps {W = World S} (OfDevice Q) (flush_at depth)
  unfolding flush_at
  flush_at-Frame zero = search chain_rules
  flush_at-Frame (suc depth) = flush_with-Frame frame (flush_at-Frame depth)

  pub flush_batch-Frame : Keeps {W = World S} (OfDevice Q) flush_batch
  unfolding flush_batch
  flush_batch-Frame = flush_at-Frame 2

  pub end_batch-Frame : Keeps {W = World S} (OfDevice Q) end_batch
  unfolding end_batch
  end_batch-Frame = search (chain_rules, flush_batch-Frame) depth 16

pub ruleset flush_rules = (chain_rules, flush_batch-Frame, end_batch-Frame)
