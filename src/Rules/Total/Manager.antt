-- ===== src/Rules/Total/Manager.antt =====
-- The manager's own steps that return no error.
use boxproxy.Prelude.{String, List, Option}
use boxproxy.Act.{Act}
use boxproxy.Act.Total.{Total, total_rules}
use boxproxy.Exec.{run_ok, run_ignore}
use boxproxy.Rules.Batch.{RuleBatch}
use boxproxy.Rules.Manager.{Env, World, on_host, set_batch}

module _ {S A : Type 0} where
  pub on_host-Total : (m : Act S A) → Total m → Total (on_host m)
  unfolding on_host
  on_host-Total m k = record { at = λ w. k.at w.sys }

module _ {S : Type 0} where
  pub set_batch-Total : (b : Option RuleBatch) → Total {W = World S} (set_batch b)
  unfolding set_batch
  set_batch-Total b = search total_rules

module _ {S : Type 0} ⦃E : Env S⦄ where
  pub run_ok-Total :
      (program : String) (args : List String) → Total (run_ok E.host E.runner program args)
  unfolding run_ok
  run_ok-Total program args = search total_rules depth 12

  pub run_ignore-Total :
      (program : String) (args : List String) → Total (run_ignore E.host E.runner program args)
  unfolding run_ignore
  run_ignore-Total program args = search total_rules depth 12

pub ruleset manager_rules =
    (total_rules, on_host-Total, set_batch-Total, run_ok-Total, run_ignore-Total)
