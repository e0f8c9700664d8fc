-- ===== src/Rules/Outside.antt =====
-- What the rule manager uses of the libraries for JSON and files, and of
-- boxctl/src/core_config.rs, beyond `Host`.
use boxproxy.Prelude.{String, ℕ, Bool, List, Option}
use boxproxy.Act.{Result, Act}

-- The values in the objects that are written.
pub data JsonValue : Type 0 where
  flag : Bool → JsonValue
  text : String → JsonValue

pub record Outside (S : Type 0) : Type 0 where
  -- serde_json: the text at a key of the object that a text denotes, and an object as text
  pub text_field : String → String → Option String
  pub to_json : List (String × JsonValue) → Result String
  pub to_json_pretty : List (String × JsonValue) → Result String
  -- length and modification time, in nanoseconds, from `fs::metadata`
  pub file_times : String → S → Option (ℕ × ℕ)
  -- `fs::File::open` and the lines that are read, each of which may fail
  pub open_lines : String → S → Result (List (Result String))
  -- whether the error is `ErrorKind::NotFound`
  pub is_not_found : String → Bool
  -- `core_config::ensure_network_mode_supported`
  pub mode_supported : Act S Unit
