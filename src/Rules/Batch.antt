-- ===== src/Rules/Batch.antt =====
-- The pending commands of boxctl/src/rules/batch.rs: `RuleBatch`, `TableBatch` and the entries
-- that `batch_record_chain` and `batch_record_append` make in them.
pub mod Order
use text.Mathlib.Text.{is_lt}
use Prim.Native.String.{compare}
use boxproxy.Prelude.{String, not, ◌&&◌, List, [], ◌∷◌, ◌++◌, contains, ◌==◌, if◌then◌else◌}
use boxproxy.Rules.Names.{Family}

pub record TableBatch : Type 0 where
  pub decls : List String
  pub declared : List String
  pub appends : List (String × List String)

abbrev pub empty_table : TableBatch
empty_table = record { decls = []; declared = []; appends = [] }

-- `BTreeMap<String, TableBatch>`, in the order of its keys
abbrev pub Tables : Type 0
Tables = List (String × TableBatch)

pub record RuleBatch : Type 0 where
  pub family : Family
  pub tables : Tables

abbrev pub new_batch : Family → RuleBatch
new_batch family = record { family = family; tables = [] }

-- `f(tables.entry(table).or_default())`
unfoldable pub entry : String → (TableBatch → TableBatch) → Tables → Tables
entry table f [] = (table, f empty_table) ∷ []
entry table f ((key, tb) ∷ rest) =
    if key == table
    then (key, f tb) ∷ rest
    else if is_lt (compare table key)
    then (table, f empty_table) ∷ (key, tb) ∷ rest
    else (key, tb) ∷ entry table f rest

-- the entry of `batch_record_chain`
unfoldable pub declare : String → TableBatch → TableBatch
declare chain tb =
    if not (contains tb.declared chain) && not (contains tb.decls chain)
    then record tb { decls = tb.decls ++ (chain ∷ []) }
    else tb

-- the entry of `batch_record_append`
unfoldable pub append : String → List String → TableBatch → TableBatch
append chain args tb = record tb { appends = tb.appends ++ ((chain, args) ∷ []) }

-- `tb.decls.drain(..)` into `declared`, and `tb.appends.clear()`
unfoldable pub drain : TableBatch → TableBatch
drain tb = record { decls = []; declared = tb.declared ++ tb.decls; appends = [] }
