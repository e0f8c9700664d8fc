-- ===== src/Rules/Frame/Exec.antt =====
-- The runner of boxctl/src/exec.rs and the cells of the manager, with a framed predicate.
use boxproxy.Prelude.{String, Bool, Option, List, ◌≡◌, refl}
use boxproxy.Act.{Act, modify}
use boxproxy.Act.Keeps.{Keeps, Keeps-modify, keeps_rules}
use boxproxy.Exec.{run, run_status, run_ok, run_ignore, run_with_stdin_output}
use boxproxy.Rules.Names.{Family}
use boxproxy.Rules.Batch.{RuleBatch}
use boxproxy.Rules.Manager.{Env, World, on_host, set_wait_support, take_batch, set_batch}
use boxproxy.Rules.Frame.{IsRuleProgram, Frame, OfDevice, program_rules}

module _ {S A : Type 0} {Q : S → Type 0} where
  pub on_host-Frame : (m : Act S A) → Keeps Q m → Keeps (OfDevice Q) (on_host m)
  unfolding on_host
  on_host-Frame m k = record { at = λ w h. record { holds = k.at w.sys h.holds } }

module _ {S : Type 0} {Q : S → Type 0} where
  pub cells-Frame :
      (f : World S → World S) → ((w : World S) → (f w).sys ≡ w.sys) → Keeps (OfDevice Q) (modify f)
  cells-Frame f same = Keeps-modify f (λ w h. record { holds = rw (same w) h.holds })

  pub set_wait_support-Frame :
      (family : Family) (b : Option Bool) → Keeps (OfDevice Q) (modify (set_wait_support family b))
  set_wait_support-Frame Family.v4 b = cells-Frame _ (λ w. refl)
  set_wait_support-Frame Family.v6 b = cells-Frame _ (λ w. refl)

  pub set_batch-Frame : (b : Option RuleBatch) → Keeps {W = World S} (OfDevice Q) (set_batch b)
  unfolding set_batch
  set_batch-Frame b = cells-Frame _ (λ w. refl)

  pub take_batch-Frame : Keeps {W = World S} (OfDevice Q) take_batch
  unfolding take_batch
  take_batch-Frame = record { at = λ w h. record { holds = h.holds } }

module _ {S : Type 0} ⦃E : Env S⦄ {Q : S → Type 0} (frame : Frame Q) where
  pub run-Frame :
      (program : String) (args : List String)
      → IsRuleProgram program
      → Keeps Q (run E.host E.runner program args)
  unfolding run
  run-Frame program args listed = search (keeps_rules, frame.spawn) depth 12

  pub run_status-Frame :
      (program : String) (args : List String)
      → IsRuleProgram program
      → Keeps Q (run_status E.host E.runner program args)
  unfolding run_status
  run_status-Frame program args listed = search (keeps_rules, frame.spawn) depth 12

  pub run_ok-Frame :
      (program : String) (args : List String)
      → IsRuleProgram program
      → Keeps Q (run_ok E.host E.runner program args)
  unfolding run_ok
  run_ok-Frame program args listed = search (keeps_rules, run_status-Frame) depth 12

  pub run_ignore-Frame :
      (program : String) (args : List String)
      → IsRuleProgram program
      → Keeps Q (run_ignore E.host E.runner program args)
  unfolding run_ignore
  run_ignore-Frame program args listed = search (keeps_rules, run_status-Frame) depth 12

  pub run_with_stdin_output-Frame :
      (program : String) (args : List String) (input : String)
      → IsRuleProgram program
      → Keeps Q (run_with_stdin_output E.host E.runner program args input)
  unfolding run_with_stdin_output
  run_with_stdin_output-Frame program args input listed = search (keeps_rules, frame.spawn) depth 12

pub ruleset exec_rules = (
  keeps_rules, program_rules, on_host-Frame, cells-Frame, set_wait_support-Frame, set_batch-Frame,
  take_batch-Frame, run-Frame, run_ok-Frame, run_ignore-Frame, run_with_stdin_output-Frame,
)
