-- ===== src/Control/DryRun.antt =====
-- A dry run of the commands of boxctl/src/control.rs, with the rules and the service of this library.
use boxproxy.Prelude.{String, true, List, ◌++◌, ◌≡◌}
use boxproxy.Act.{Act}
use boxproxy.Act.Keeps.{Keeps}
use boxproxy.Rules.Manager.{Env}
use boxproxy.Rules.Outside.{Outside}
use boxproxy.Monitor.Lock.{Processes}
use boxproxy.Service.{System}
use boxproxy.Service.Start
use boxproxy.Service.Process
use boxproxy.Service.DryRun.{OwnFiles}
use boxproxy.Control.{failure, start_both}
use boxproxy.Control.Thread.{Task, finished, step}
use boxproxy.Control.Program.{Rest, program}

module _ {S : Type 0} (P : S → Type 0) where
  abbrev Steps : {R : Type 0} → Task S R → Type 0
  Steps (finished r) = Unit
  Steps (step f next) = (s : S) → P s → P (f s) × Steps (next s)

-- What a dry run still does: files and directories, waiting, the test of the mode, the writing of the
-- core's configuration and the lock of the commands.
pub record Quiet {S : Type 0} ⦃E : Env S⦄ ⦃O : Outside S⦄ ⦃Y : System S⦄ (rest : Rest S)
    (Q : S → Type 0) : Type 0 where
  pub own : OwnFiles Q
  pub replaces : (path text : String) → Keeps Q (E.host.write_atomic path text)
  pub supported : Keeps Q O.mode_supported
  pub syncs : Keeps Q rest.sync
  pub acquires : Keeps Q rest.acquire
  pub releases : (s : S) → Q s → Q (rest.release s)

module _ {S : Type 0} ⦃E : Env S⦄ ⦃O : Outside S⦄ ⦃P : Processes S⦄ ⦃Y : System S⦄ (rest : Rest S)
    (Q : S → Type 0) (quiet : Quiet rest Q) (dry : E.runner.dry_run ≡ true) where
  start_failures : S → List String
  unfolding start_both program
  start_failures s =
      let ((core, rules), s') = start_both ⦃P = program rest⦄ s in
      failure "start core failed: " core ++ failure "apply rules failed: " rules
