-- ===== src/Rules/Frame/Own.antt =====
-- The files below the state directory that the rule code keeps for itself, and the programs that only
-- the eBPF matcher of boxctl/src/rules/cnip.rs needs.
use boxproxy.Prelude.{String, true, false, Option, List, [], ◌∷◌, ◌<>◌, contains, ◌≡◌, arith}
use boxproxy.Act.Keeps.{Keeps, keeps_rules}
use boxproxy.Exec.{run, run_status, run_ok, run_ignore}
use boxproxy.Config.{Config}
use boxproxy.Rules.Manager.{Env, World, on_host}
use boxproxy.Rules.Frame.{OfDevice}
use boxproxy.Rules.Frame.Exec.{on_host-Frame}

-- The state directory, and what has a name in it.
pub data Owned (config : Config) : String → Type 0 where
  state_dir : Owned config config.state_dir
  named : (dir name : String) → Owned config dir → Owned config (dir <> ("/" <> name))

-- What the program's own file operations keep, in a dry run too.
pub record Owns {S : Type 0} ⦃E : Env S⦄ (Q : S → Type 0) : Type 0 where
  pub writes : (path text : String) → Owned E.config path → Keeps Q (E.host.write_file path text)
  pub replaces :
      (path text : String) → Owned E.config path → Keeps Q (E.host.write_atomic path text)
  pub makes : (path : String) → Owned E.config path → Keeps Q (E.host.create_dir_all path)
  pub removes : (path : String) → Owned E.config path → Keeps Q (E.host.remove_file path)

abbrev pub tool_programs : List String
tool_programs =
    "rm" ∷ "rmdir" ∷ "chmod" ∷ "magiskpolicy" ∷ "/data/adb/magisk/magiskpolicy" ∷ "supolicy"
    ∷ "/system/xbin/supolicy" ∷ "/system/bin/supolicy" ∷ "ksud" ∷ "/data/adb/ksud"
    ∷ "/data/adb/ksu/bin/ksud" ∷ []

pub data IsTool (config : Config) : String → Type 0 where
  matcher : IsTool config config.bpf_matcher_path
  listed : (program : String) → contains tool_programs program ≡ true → IsTool config program

pub record Tools {S : Type 0} ⦃E : Env S⦄ (Q : S → Type 0) : Type 0 where
  pub spawn :
      E.runner.dry_run ≡ false
      → (program : String) (args : List String) (stdin : Option String) → IsTool E.config program
      → Keeps Q (E.host.spawn program args stdin)

pub dry_run-Tools : {S : Type 0} ⦃E : Env S⦄ {Q : S → Type 0} → E.runner.dry_run ≡ true → Tools Q
dry_run-Tools dry = record { spawn = λ live program args stdin ours. ground arith }

module _ {S : Type 0} ⦃E : Env S⦄ {Q : S → Type 0} (tools : Tools Q) where
  pub run-Tools :
      (program : String) (args : List String)
      → IsTool E.config program
      → Keeps Q (run E.host E.runner program args)
  unfolding run
  run-Tools program args ours = search (keeps_rules, tools.spawn) depth 12

  run_status-Tools :
      (program : String) (args : List String)
      → IsTool E.config program
      → Keeps Q (run_status E.host E.runner program args)
  unfolding run_status
  run_status-Tools program args ours = search (keeps_rules, tools.spawn) depth 12

  pub run_ok-Tools :
      (program : String) (args : List String)
      → IsTool E.config program
      → Keeps Q (run_ok E.host E.runner program args)
  unfolding run_ok
  run_ok-Tools program args ours = search (keeps_rules, run_status-Tools) depth 12

  pub run_ignore-Tools :
      (program : String) (args : List String)
      → IsTool E.config program
      → Keeps Q (run_ignore E.host E.runner program args)
  unfolding run_ignore
  run_ignore-Tools program args ours = search (keeps_rules, run_status-Tools) depth 12

module _ {S : Type 0} ⦃E : Env S⦄ {Q : S → Type 0} (owns : Owns Q) where
  pub write_file-Owns :
      (path text : String)
      → Owned E.config path
      → Keeps {W = World S} (OfDevice Q) (on_host (E.host.write_file path text))
  write_file-Owns path text ours = on_host-Frame _ (owns.writes path text ours)

  pub write_atomic-Owns :
      (path text : String)
      → Owned E.config path
      → Keeps {W = World S} (OfDevice Q) (on_host (E.host.write_atomic path text))
  write_atomic-Owns path text ours = on_host-Frame _ (owns.replaces path text ours)

  pub create_dir_all-Owns :
      (path : String)
      → Owned E.config path
      → Keeps {W = World S} (OfDevice Q) (on_host (E.host.create_dir_all path))
  create_dir_all-Owns path ours = on_host-Frame _ (owns.makes path ours)

  pub remove_file-Owns :
      (path : String)
      → Owned E.config path
      → Keeps {W = World S} (OfDevice Q) (on_host (E.host.remove_file path))
  remove_file-Owns path ours = on_host-Frame _ (owns.removes path ours)
