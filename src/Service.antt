-- ===== src/Service.antt =====
-- boxctl/src/service.rs: the process of the core. `CoreFiles` is what it reads of the settings beyond
-- those of the rules, `System` what it asks of the kernel; log lines are left out.
pub mod Process
pub mod Stamp
pub mod Permissions
pub mod Command
pub mod Check
pub mod Start
pub mod DryRun
use boxproxy.Prelude.{String, ℕ, Bool, List, Option}
use boxproxy.Act.{Act}

pub record CoreFiles : Type 0 where
  pub bin_list : List String
  pub bin_path : String
  pub bin_log : String
  pub run_dir : String
  pub core_dir : String
  pub launch_config_path : String
  pub source_config_path : String
  pub config_name : String
  pub uses_runtime_config : Bool
  pub log_paths : List String
  pub taskset_cpu : Bool
  pub allow_cpu : String

-- What `fs::metadata` says of a file; the time is in seconds.
pub record Metadata : Type 0 where
  pub uid : ℕ
  pub gid : ℕ
  pub mode : ℕ
  pub len : ℕ
  pub modified : ℕ

pub record System (S : Type 0) : Type 0 where
  pub metadata : String → S → Option Metadata
  -- `Command::spawn`, with a log file, an environment, and a user and group
  pub spawn_core : String → List String → String → List (String × String) → ℕ → ℕ → Act S ℕ
  -- `Instant::now`, and `thread::sleep`, in milliseconds
  pub now : S → ℕ
  pub pause : ℕ → S → S
