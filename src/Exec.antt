-- ===== src/Exec.antt =====
-- boxctl/src/exec.rs: running programs. `Host` is the device behind `std::process` and
-- `std::fs`, over a state `S` of its own; lines printed to stderr are not modelled.
pub mod Shell
use boxproxy.Prelude.{String, Bool, true, false, Option, none, some, List, if◌then◌else◌}
use boxproxy.Prelude.Text.{trim}
use boxproxy.Act.{Result, ok, err, Act, pure, ◌>>=◌, ◌>>◌, ignore, attempt}

pub record Output : Type 0 where
  pub success : Bool
  pub stdout : String
  pub stderr : String

abbrev pub no_output : Bool → Output
no_output b = record { success = b; stdout = ""; stderr = "" }

-- `spawn program args stdin` starts a program and waits for it; the text is piped to its stdin.
-- Its `err` is the message of a program that could not be started or talked to.
pub record Host (S : Type 0) : Type 0 where
  pub spawn : String → List String → Option String → Act S Output
  -- `fs::read_to_string(path).ok()`
  pub read_file : String → S → Option String
  -- `fs::read(path).ok()`, cut at the zero bytes; a part that is not UTF-8 has no text
  pub read_parts : String → S → Option (List (Option String))
  -- `Path::exists`, `Path::is_file`
  pub exists : String → S → Bool
  pub is_file : String → S → Bool
  -- `fs::write`, `atomic_file::write_atomic`, `fs::create_dir_all`, `fs::remove_file`
  pub write_file : String → String → Act S Unit
  pub write_atomic : String → String → Act S Unit
  pub create_dir_all : String → Act S Unit
  pub remove_file : String → Act S Unit
  -- the names in a directory that can be read
  pub read_dir : String → S → Option (List String)
  -- `thread::sleep`, in seconds
  pub sleep : String → Act S Unit

pub record Runner : Type 0 where
  pub dry_run : Bool
  pub verbose : Bool

module _ {S : Type 0} (host : Host S) (runner : Runner) where
  trimmed : Output → Output
  trimmed o = record o { stdout = trim o.stdout; stderr = trim o.stderr }

  unfoldable pub run : String → List String → Act S Output
  unfolding ◌>>=◌ trimmed
  run program args =
      if runner.dry_run
      then pure (no_output false)
      else (host.spawn program args none >>= λ output. pure (trimmed output))

  unfoldable pub run_status : String → List String → Act S Bool
  unfolding ◌>>=◌
  run_status program args =
      if runner.dry_run
      then pure false
      else (host.spawn program args none >>= λ output. pure output.success)

  abbrev or_false : Result Bool → Bool
  or_false (ok b) = b
  or_false (err _) = false

  unfoldable pub run_ok : String → List String → Act S Bool
  unfolding ◌>>=◌ run_status
  run_ok program args = attempt (run_status program args) >>= λ r. pure (or_false r)

  unfoldable pub run_ignore : String → List String → Act S Unit
  unfolding ignore run_status
  run_ignore program args = ignore (run_status program args)

  unfoldable pub run_with_stdin_output : String → List String → String → Act S Output
  unfolding ◌>>=◌ trimmed
  run_with_stdin_output program args input =
      if runner.dry_run
      then pure (no_output true)
      else (host.spawn program args (some input) >>= λ output. pure (trimmed output))
