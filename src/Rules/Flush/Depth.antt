-- ===== src/Rules/Flush/Depth.antt =====
-- How deep the flushes of boxctl/src/rules/batch.rs nest.
use boxproxy.Prelude.{
  String, ℕ, suc, Bool, false, Option, none, some, List, [], ◌∷◌, Bool-cases, inl, inr, ◌≡◌, refl,
  ◌∙◌, ap, sym, Option-cases,
}
use boxproxy.Act.{Result, ok, err, Act, lift, modify, ◌>>=◌, ◌>>◌}
use boxproxy.Act.Keeps.{Keeps, Keeps-modify, keeps_rules}
use boxproxy.Act.Agree.{Agree, agree_rules, Agree-attempt, Agree-bind}
use boxproxy.Rules.Names.{Family, is_box_custom_chain}
use boxproxy.Rules.Batch.{TableBatch, Tables}
use boxproxy.Rules.Manager.{Env, World, on_host, set_wait_support, set_batch}
use boxproxy.Rules.Command.{with_wait, ipt_owned, ipt_silent_owned, ipt_check_owned}
use boxproxy.Rules.Chain.{
  batch_record_chain, batch_record_append, ensure_chain, present_or_recorded,
  ensure_rule_append_owned,
}
use boxproxy.Rules.Flush.{
  run_restore, flush_table, after_table, flush_tables, flush_with, flush_at, flush_batch,
}

abbrev pub NoBatch : {S : Type 0} → World S → Type 0
NoBatch w = w.batch ≡ none

module _ {S A : Type 0} where
  pub on_host-NoBatch : (m : Act S A) → Keeps NoBatch (on_host m)
  unfolding on_host
  on_host-NoBatch m = record { at = λ w h. h }

module _ {S : Type 0} where
  pub set_wait_support-NoBatch :
      (family : Family) (b : Option Bool)
      → Keeps {W = World S} NoBatch (modify (set_wait_support family b))
  set_wait_support-NoBatch Family.v4 b = Keeps-modify _ (λ w h. h)
  set_wait_support-NoBatch Family.v6 b = Keeps-modify _ (λ w h. h)

pub ruleset host_rules = (keeps_rules, on_host-NoBatch, set_wait_support-NoBatch)

module _ {S : Type 0} ⦃E : Env S⦄ where
  with_wait-NoBatch :
      (family : Family) (args : List String) → Keeps {W = World S} NoBatch (with_wait family args)
  unfolding with_wait
  with_wait-NoBatch family args = search host_rules depth 12

  -- With no batch open nothing is recorded.
  batch_record_append-none :
      (family : Family) (table chain : String) (args : List String) (w : World S)
      → NoBatch w
      → batch_record_append family table chain args w ≡ (ok false, w)
  unfolding batch_record_append
  batch_record_append-none family table chain args w h = rw h

  batch_record_chain-none :
      (family : Family) (table chain : String) (w : World S)
      → NoBatch w
      → batch_record_chain family table chain w ≡ (ok false, w)
  unfolding batch_record_chain
  batch_record_chain-none family table chain w h = elim (Bool-cases (is_box_custom_chain chain)) [
    | inl ours ↦ rw (ours, h)
    | inr other ↦ rw other
  ]

  batch_record_append-NoBatch :
      (family : Family) (table chain : String) (args : List String)
      → Keeps {W = World S} NoBatch (batch_record_append family table chain args)
  batch_record_append-NoBatch family table chain args = record {
    at = λ w h. rw (batch_record_append-none family table chain args w h) h;
  }

  batch_record_chain-NoBatch :
      (family : Family) (table chain : String)
      → Keeps {W = World S} NoBatch (batch_record_chain family table chain)
  batch_record_chain-NoBatch family table chain = record {
    at = λ w h. rw (batch_record_chain-none family table chain w h) h;
  }

  run_restore-NoBatch :
      (family : Family) (table : String) (decls : List String)
      (appends : List (String × List String))
      → Keeps {W = World S} NoBatch (run_restore family table decls appends)
  unfolding run_restore
  run_restore-NoBatch family table decls appends = search host_rules depth 12

ruleset flush_rules = (
  agree_rules, host_rules, with_wait-NoBatch, batch_record_append-NoBatch,
  batch_record_chain-NoBatch, run_restore-NoBatch,
)

module _ {S : Type 0} ⦃E : Env S⦄ {f g : Act (World S) Unit} (agree : Agree NoBatch f g) where
  ipt_owned-Agree :
      (family : Family) (args : List String)
      → Agree NoBatch (ipt_owned f family args) (ipt_owned g family args)
  unfolding ipt_owned
  ipt_owned-Agree family args = search flush_rules depth 12

  ipt_silent_owned-Agree :
      (family : Family) (args : List String)
      → Agree NoBatch (ipt_silent_owned f family args) (ipt_silent_owned g family args)
  unfolding ipt_silent_owned
  ipt_silent_owned-Agree family args = search flush_rules depth 12

  ipt_check_owned-Agree :
      (family : Family) (args : List String)
      → Agree NoBatch (ipt_check_owned f family args) (ipt_check_owned g family args)
  unfolding ipt_check_owned
  ipt_check_owned-Agree family args = search flush_rules depth 12

  ensure_chain-Agree :
      (family : Family) (table chain : String)
      → Agree NoBatch (ensure_chain f family table chain) (ensure_chain g family table chain)
  unfolding ensure_chain
  ensure_chain-Agree family table chain =
      search (flush_rules, ipt_silent_owned-Agree, ipt_owned-Agree) depth 12

  present_or_recorded-Agree :
      (family : Family) (table chain : String) (args : List String)
      → Agree NoBatch
          (present_or_recorded f family table chain args)
          (present_or_recorded g family table chain args)
  unfolding present_or_recorded
  present_or_recorded-Agree family table chain args =
      search (flush_rules, ipt_check_owned-Agree) depth 12

  ensure_rule_append_owned-Agree :
      (family : Family) (table chain : String) (args : List String)
      → Agree NoBatch
          (ensure_rule_append_owned f family table chain args)
          (ensure_rule_append_owned g family table chain args)
  unfolding ensure_rule_append_owned
  ensure_rule_append_owned-Agree family table chain args =
      search (flush_rules, present_or_recorded-Agree, ipt_owned-Agree) depth 12

  flush_table-Agree :
      (family : Family) (table : String) (tb : TableBatch)
      → Agree NoBatch (flush_table f family table tb) (flush_table g family table tb)
  unfolding flush_table
  flush_table-Agree family table tb =
      search (flush_rules, ensure_chain-Agree, ensure_rule_append_owned-Agree) depth 14

  next-Agree :
      (table : String) (tb : TableBatch) (rest : Tables) (r : Result TableBatch)
      {later later' : Act (World S) (Result Unit × Tables)}
      → Agree NoBatch later later'
      → Agree NoBatch (after_table table tb rest later r) (after_table table tb rest later' r)
  unfolding after_table
  next-Agree table tb rest (ok tb') a = search flush_rules depth 12
  next-Agree table tb rest (err e) a = search flush_rules depth 12

  flush_tables-Agree :
      (family : Family) (tables : Tables)
      → Agree NoBatch (flush_tables f family tables) (flush_tables g family tables)
  unfolding flush_tables
  flush_tables-Agree family [] = search flush_rules
  flush_tables-Agree family ((table, tb) ∷ rest) =
      Agree-bind _ _ _ _ (Agree-attempt _ _ (flush_table-Agree family table tb))
        (λ r. next-Agree table tb rest r (flush_tables-Agree family rest))

  -- The two ways agree on the whole flush, whatever batch is there.
  flush_with-eq : (w : World S) → flush_with f w ≡ flush_with g w
  unfolding flush_with
  flush_with-eq w = elim (Option-cases w.batch) [
    | inl e ↦ rw e
    | inr (b, e) ↦ rw e (
        ap
          (λ (p : Result (Result Unit × Tables) × World S).
            (do done ← lift p.0; set_batch (some (record b { tables = done.1 })); lift done.0) p.1)
          ((flush_tables-Agree b.family b.tables).same (record w { batch = none }) refl))
  ]

module _ {S : Type 0} ⦃E : Env S⦄ where
  -- A flush with no batch in place does nothing.
  pub flush_at-none : (n : ℕ) (w : World S) → NoBatch w → flush_at (suc n) w ≡ (ok tt, w)
  unfolding flush_at
  flush_at-none n w h = rw h

  flush_at-Agree : (n : ℕ) → Agree {W = World S} NoBatch (flush_at (suc n)) (flush_at 1)
  flush_at-Agree n = record {
    same = λ w h. flush_at-none n w h ∙ sym (flush_at-none 0 w h);
    keeps = λ w h. rw (flush_at-none n w h) h;
  }

  -- Whatever nesting beyond one level is allowed, the flush is `flush_batch`, from every state.
  pub flush_depth : (n : ℕ) (w : World S) → flush_at (suc (suc n)) w ≡ flush_batch w
  unfolding flush_at flush_batch
  flush_depth n w = flush_with-eq (flush_at-Agree n) w
