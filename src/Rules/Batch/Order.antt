-- ===== src/Rules/Batch/Order.antt =====
-- The rules of one table that are appended while a batch is open, and the flush at its end.
use boxproxy.Prelude.{
  String, true, false, none, some, List, [], ◌∷◌, ◌++◌, append-nil, append_assoc, All, ◌==◌, eq_iff,
  ◌≡◌, refl, ap, ◌∙◌,
}
use boxproxy.Act.{ok, Act, for_each, ◌>>=◌}
use boxproxy.Exec.{Output, run_with_stdin_output}
use boxproxy.Rules.Names.{Family, v4, v6, is_box_custom_chain, restore_cmd}
use boxproxy.Rules.Batch.{TableBatch, RuleBatch, entry, append, new_batch}
use boxproxy.Rules.Manager.{Env, World, on_host}
use boxproxy.Rules.Chain.{ensure_rule_append_owned}
use boxproxy.Rules.Flush.{restore_input, restore_args, end_batch, flush_batch, run_restore}

same_name : (s : String) → (s == s) ≡ true
same_name s = (eq_iff s s).1 refl

abbrev pending : List (String × List String) → TableBatch
pending rules = record { decls = []; declared = []; appends = rules }

abbrev one_table : Family → String → TableBatch → RuleBatch
one_table family table tb = record { family = family; tables = (table, tb) ∷ [] }

abbrev pub Ours : List (String × List String) → Type 0
Ours rules = All (λ rule. is_box_custom_chain rule.0 ≡ true) rules

module _ {S : Type 0} ⦃E : Env S⦄ where
  abbrev pub append_rules : Family → String → List (String × List String) → Act (World S) Unit
  append_rules family table rules =
      for_each rules λ (chain, args). ensure_rule_append_owned flush_batch family table chain args

  record_first :
      (family : Family) (table chain : String) (args : List String) (w : World S)
      → is_box_custom_chain chain ≡ true
      → w.batch ≡ some (new_batch family)
      → ensure_rule_append_owned flush_batch family table chain args w ≡ (
        ok tt,
        record w {
          batch = some (
              one_table family table
                (record { decls = []; declared = []; appends = (chain, args) ∷ [] }));
        },
      )
  unfolding ensure_rule_append_owned entry append ◌>>=◌
  record_first v4 table chain args w ours h = rw (ours, h)
  record_first v6 table chain args w ours h = rw (ours, h)

  record_next :
      (family : Family) (table chain : String) (args : List String) (tb : TableBatch) (w : World S)
      → is_box_custom_chain chain ≡ true
      → w.batch ≡ some (one_table family table tb)
      → ensure_rule_append_owned flush_batch family table chain args w ≡ (
        ok tt,
        record w {
          batch =
              some (
                one_table family table
                  (record tb { appends = tb.appends ++ ((chain, args) ∷ []) }));
        },
      )
  unfolding ensure_rule_append_owned entry append ◌>>=◌
  record_next v4 table chain args tb w ours h = rw (ours, h, same_name table)
  record_next v6 table chain args tb w ours h = rw (ours, h, same_name table)

  record_all :
      (family : Family) (table : String) (rules : List (String × List String)) (tb : TableBatch)
      (w : World S)
      → Ours rules
      → w.batch ≡ some (one_table family table tb)
      → append_rules family table rules w ≡ (
        ok tt,
        record w {
          batch = some (one_table family table (record tb { appends = tb.appends ++ rules }));
        },
      )
  unfolding for_each ◌>>=◌
  record_all family table [] tb w ours h =
      rw (append-nil tb.appends) (ap (λ b. (ok tt, record w { batch = b })) h)
  record_all family table ((chain, args) ∷ rules) tb w ours h =
      rw (record_next family table chain args tb w ours.0 h) (
        record_all family table rules (record tb { appends = tb.appends ++ ((chain, args) ∷ []) }) _
          ours.1 refl
        ∙ ap
            (λ l. (
              ok tt,
              record w { batch = some (one_table family table (record tb { appends = l })) },
            ))
            (append_assoc tb.appends ((chain, args) ∷ []) rules))

  appended :
      (family : Family) (table : String) (rule : String × List String)
      (rules : List (String × List String)) (w : World S)
      → Ours (rule ∷ rules)
      → w.batch ≡ some (new_batch family)
      → append_rules family table (rule ∷ rules) w
        ≡ (ok tt, record w { batch = some (one_table family table (pending (rule ∷ rules))) })
  unfolding for_each ◌>>=◌
  appended family table (chain, args) rules w ours h =
      rw (record_first family table chain args w ours.0 h)
        (record_all family table rules (pending ((chain, args) ∷ [])) _ ours.1 refl)

  restored :
      (family : Family) (table : String) (rule : String × List String)
      (rules : List (String × List String)) (w : World S) (output : Output) (s : S)
      → E.runner.dry_run ≡ false
      → w.batch ≡ some (one_table family table (pending (rule ∷ rules)))
      → E.host.spawn
          (restore_cmd family)
          restore_args
          (some (restore_input table [] (rule ∷ rules)))
          w.sys
        ≡ (ok output, s)
      → output.success ≡ true
      → end_batch w ≡ (ok tt, record w { sys = s; batch = none })
  unfolding end_batch flush_batch run_restore on_host run_with_stdin_output ◌>>=◌
  restored family table rule rules w output s live h spawned good = rw (h, live, spawned, good)

  -- The rules of one table that are appended to chains of the program while a fresh batch is
  -- open, at least one of them, reach the device when the batch is closed: as one run of the
  -- restore program, with all of them in the order in which they were appended, if that run
  -- starts and succeeds. Then there is no error and no batch is open.
  pub append_rules-end_batch :
      (family : Family) (table : String) (rule : String × List String)
      (rules : List (String × List String)) (w : World S) (output : Output) (s : S)
      → E.runner.dry_run ≡ false
      → Ours (rule ∷ rules)
      → w.batch ≡ some (new_batch family)
      → E.host.spawn
          (restore_cmd family)
          restore_args
          (some (restore_input table [] (rule ∷ rules)))
          w.sys
        ≡ (ok output, s)
      → output.success ≡ true
      → (append_rules family table (rule ∷ rules) >>= λ _. end_batch) w
        ≡ (ok tt, record w { sys = s; batch = none })
  unfolding ◌>>=◌
  append_rules-end_batch family table rule rules w output s live ours h spawned good =
      rw (appended family table rule rules w ours h)
        (restored family table rule rules _ output s live refl spawned good)
