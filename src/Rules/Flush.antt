-- ===== src/Rules/Flush.antt =====
-- The flush of boxctl/src/rules/batch.rs: pending chains and rules go to iptables-restore, one
-- table at a time, and one by one to iptables where that fails. The commands of the second way
-- flush again, by then with no batch in place: `flush_at` counts how deep that may nest.
pub mod Depth
pub mod Sweep
use boxproxy.Prelude.{
  String, ℕ, zero, suc, Bool, false, not, ◌&&◌, none, some, List, [], ◌∷◌, ◌<>◌, if◌then◌else◌,
  is_empty,
}
use boxproxy.Act.{
  Result, ok, err, Act, pure, fail, lift, attempt, on_option, ◌>>=◌, ◌>>◌, for_each, when,
}
use boxproxy.Exec.{Output}
use boxproxy.Rules.Names.{Family, restore_cmd, iptables_lock_wait_secs}
use boxproxy.Rules.Batch.{TableBatch, Tables, drain}
use boxproxy.Rules.Manager.{Env, World, run_with_stdin_output, take_batch, set_batch}
use boxproxy.Rules.Chain.{ensure_chain, ensure_rule_append_owned}

abbrev pub decl_lines : List String → String → String
decl_lines [] rest = rest
decl_lines (chain ∷ decls) rest = ":" <> (chain <> (" - [0:0]\n" <> decl_lines decls rest))

abbrev pub arg_words : List String → String → String
arg_words [] rest = rest
arg_words (value ∷ args) rest = " " <> (value <> arg_words args rest)

abbrev pub append_lines : List (String × List String) → String → String
append_lines [] rest = rest
append_lines ((chain, args) ∷ appends) rest =
    "-A " <> (chain <> arg_words args ("\n" <> append_lines appends rest))

-- the `input` of `run_restore`
unfoldable pub restore_input : String → List String → List (String × List String) → String
restore_input table decls appends =
    "*" <> (table <> ("\n" <> decl_lines decls (append_lines appends "COMMIT\n")))

abbrev pub restore_args : List String
restore_args = "-w" ∷ iptables_lock_wait_secs ∷ "--noflush" ∷ []

abbrev accepted : Result Output → Bool
accepted (ok output) = output.success
accepted (err _) = false

module _ {S : Type 0} ⦃E : Env S⦄ where
  unfoldable pub run_restore :
      Family → String → List String → List (String × List String) → Act (World S) Bool
  unfolding ◌>>=◌ restore_input
  run_restore family table decls appends = do
    r ← attempt (
        run_with_stdin_output (restore_cmd family) restore_args (restore_input table decls appends))
    pure (accepted r)

module _ {S : Type 0} where
  -- An `Err` ends the loop, and leaves that table and the later ones as they were.
  unfoldable pub after_table :
      String
      → TableBatch
      → Tables
      → Act (World S) (Result Unit × Tables)
      → Result TableBatch
      → Act (World S) (Result Unit × Tables)
  unfolding ◌>>=◌
  after_table table tb rest later (err e) = pure (err e, (table, tb) ∷ rest)
  after_table table tb rest later (ok tb') = do done ← later; pure (done.0, (table, tb') ∷ done.1)

module _ {S : Type 0} ⦃E : Env S⦄ (nested : Act (World S) Unit) where
  -- the body of the loop in `flush_batch`; it returns the entry that it leaves
  unfoldable pub flush_table : Family → String → TableBatch → Act (World S) TableBatch
  unfolding ◌>>=◌ run_restore for_each
  flush_table family table tb = if is_empty tb.decls && is_empty tb.appends then pure tb else do
    applied ← run_restore family table tb.decls tb.appends
    when (not applied) do
      for_each tb.decls (λ chain. ensure_chain nested family table chain)
      for_each tb.appends λ (chain, args). ensure_rule_append_owned nested family table chain args
    pure (drain tb)

  -- the loop of `flush_batch`: what it returns, and the tables as it leaves them
  unfoldable pub flush_tables : Family → Tables → Act (World S) (Result Unit × Tables)
  unfolding ◌>>=◌ flush_table after_table
  flush_tables family [] = pure (ok tt, [])
  flush_tables family ((table, tb) ∷ rest) =
      let later = flush_tables family rest in
      attempt (flush_table family table tb) >>= after_table table tb rest later

  unfoldable pub flush_with : Act (World S) Unit
  unfolding ◌>>=◌ on_option take_batch set_batch flush_tables
  flush_with = do
    taken ← take_batch
    on_option taken (pure tt) λ batch. do
      done ← flush_tables batch.family batch.tables
      set_batch (some (record batch { tables = done.1 }))
      lift done.0

module _ {S : Type 0} ⦃E : Env S⦄ where
  unfoldable pub flush_at : ℕ → Act (World S) Unit
  unfolding flush_with
  flush_at zero = fail "flush nested too deep"
  flush_at (suc depth) = flush_with (flush_at depth)

  unfoldable pub flush_batch : Act (World S) Unit
  unfolding flush_at
  flush_batch = flush_at 2

  -- The batch is dropped whether or not the flush succeeds.
  unfoldable pub end_batch : Act (World S) Unit
  unfolding ◌>>=◌ flush_batch set_batch
  end_batch = do result ← attempt flush_batch; set_batch none; lift result
