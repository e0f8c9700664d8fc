-- ===== src/Rules/Manager.antt =====
-- `RuleManager` of boxctl/src/rules/model.rs. What it borrows is an `Env`; its cells, with the
-- device, are a `World`. The two `…_fallback_warned` cells only silence a second log line.
use boxproxy.Prelude.{String, Bool, Option, none, List, []}
use boxproxy.Act.{Act, pure, gets, modify, ◌>>=◌, ◌>>◌}
use boxproxy.Config.{Config}
use boxproxy.Exec
use boxproxy.Exec.{Host, Runner, Output}
use boxproxy.Rules.Names.{Family, v4, v6, Capabilities}
use boxproxy.Rules.Batch.{RuleBatch}
use boxproxy.Rules.Util.{Ipv6Text}

pub record Env (S : Type 0) : Type 0 where
  pub config : Config
  pub runner : Runner
  pub host : Host S
  pub ipv6_text : Ipv6Text

pub record World (S : Type 0) : Type 0 where
  pub sys : S
  pub capabilities : Option Capabilities
  pub batch : Option RuleBatch
  pub wait_support_v4 : Option Bool
  pub wait_support_v6 : Option Bool
  pub bypass_subnets_v4 : Option (List String)
  pub bypass_subnets_v6 : Option (List String)
  pub local_cidrs_v4 : Option (List String)
  pub local_cidrs_v6 : Option (List String)
  pub local_ip_chains_built : List (Family × String)

-- `RuleManager::new`
abbrev pub new_manager : {S : Type 0} → S → World S
new_manager s = record {
  sys = s;
  capabilities = none;
  batch = none;
  wait_support_v4 = none;
  wait_support_v6 = none;
  bypass_subnets_v4 = none;
  bypass_subnets_v6 = none;
  local_cidrs_v4 = none;
  local_cidrs_v6 = none;
  local_ip_chains_built = [];
}

module _ {S A : Type 0} where
  -- An action of the device, inside the manager.
  unfoldable pub on_host : Act S A → Act (World S) A
  on_host m w = let (r, s) = m w.sys in (r, record w { sys = s })

module _ {S : Type 0} where
  abbrev pub wait_support : Family → World S → Option Bool
  wait_support v4 w = w.wait_support_v4
  wait_support v6 w = w.wait_support_v6

  abbrev pub set_wait_support : Family → Option Bool → World S → World S
  set_wait_support v4 b w = record w { wait_support_v4 = b }
  set_wait_support v6 b w = record w { wait_support_v6 = b }

  -- `self.batch.borrow_mut().take()`
  unfoldable pub take_batch : Act (World S) (Option RuleBatch)
  unfolding ◌>>=◌
  take_batch = do b ← gets (λ w. w.batch); modify (λ w. record w { batch = none }); pure b

  -- `*self.batch.borrow_mut() = b`
  unfoldable pub set_batch : Option RuleBatch → Act (World S) Unit
  unfolding ◌>>=◌
  set_batch b = modify (λ w. record w { batch = b })

module _ {S : Type 0} ⦃E : Env S⦄ where
  abbrev pub run : String → List String → Act (World S) Output
  run program args = on_host (Exec.run E.host E.runner program args)

  abbrev pub run_ok : String → List String → Act (World S) Bool
  run_ok program args = on_host (Exec.run_ok E.host E.runner program args)

  abbrev pub run_ignore : String → List String → Act (World S) Unit
  run_ignore program args = on_host (Exec.run_ignore E.host E.runner program args)

  abbrev pub run_with_stdin_output : String → List String → String → Act (World S) Output
  run_with_stdin_output program args input =
      on_host (Exec.run_with_stdin_output E.host E.runner program args input)
