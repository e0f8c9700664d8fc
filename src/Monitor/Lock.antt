-- ===== src/Monitor/Lock.antt =====
-- boxctl/src/monitor/lock.rs: the lock file of the monitor, and the process it names. `Processes`
-- is what the kernel says of the lock and does with a signal.
pub mod RoundTrip
use Prim.Native.Char.{Char, code}
use boxproxy.Prelude.{
  String, ℕ, zero, suc, Bool, true, false, not, ◌&&◌, Option, none, some, List, [], ◌∷◌, ◌==◌, ◌<>◌,
  if◌then◌else◌, eqb, ◌≡◌, refl,
}
use boxproxy.Prelude.Text.{lines, split_once, split_whitespace}
use boxproxy.Prelude.Search.{all_chars}
use boxproxy.Prelude.Number.{parse, show, u32_max, u64_max}
use boxproxy.Act.{Act}
use boxproxy.Config.{Config}
use boxproxy.Rules.Manager.{Env}
use boxproxy.Monitor.Parse.{is_ascii_hexdigit}

pub record MonitorIdentity : Type 0 where
  pub pid : ℕ
  pub start_time : ℕ
  pub token : String

pub data Signal : Type 0 where
  sigterm : Signal
  sigkill : Signal

-- `kill` with a negative number reaches the group of processes.
pub data Target : Type 0 where
  group : ℕ → Target
  process : ℕ → Target

pub record Processes (S : Type 0) : Type 0 where
  -- `platform::send_signal`
  pub send_signal : Target → Signal → S → S
  -- whether `flock` without waiting gets the lock of a file; `none` if it cannot be opened
  pub try_lock : String → S → Option Bool

abbrev pub monitor_lock_path : Config → String
monitor_lock_path config = config.state_dir <> "/network_monitor.pid"

-- `BOXCTL_MONITOR_TOKEN`
abbrev pub monitor_token_env : String
monitor_token_env = "BOXCTL_MONITOR_TOKEN"

-- `str::len` on ASCII texts
abbrev pub len : String → ℕ
len String.[] = zero
len (String.◌∷◌ _ s) = suc (len s)

unfoldable pub valid_monitor_token : String → Bool
valid_monitor_token token = eqb (len token) 32 && all_chars is_ascii_hexdigit token

-- `write_monitor_identity`
unfoldable pub monitor_identity_text : MonitorIdentity → String
unfolding show
monitor_identity_text identity =
    "pid="
    <> (show identity.pid
        <> ("\n"
            <> ("start_time="
                <> (show identity.start_time <> ("\n" <> ("token=" <> (identity.token <> "\n")))))))

-- The three variables of the loop.
pub record Fields : Type 0 where
  pub pid : Option ℕ
  pub start_time : Option ℕ
  pub token : Option String

abbrev pub no_fields : Fields
no_fields = record { pid = none; start_time = none; token = none }

abbrev is_none {ℓ} : {A : Type ℓ} → Option A → Bool
is_none none = true
is_none (some _) = false

unfoldable pub read_field : Fields → Option (String × String) → Option Fields
unfolding parse valid_monitor_token
read_field fields none = none
read_field fields (some (key, value)) =
    if key == "pid" && is_none fields.pid
    then some (record fields { pid = parse u32_max value })
    else if key == "start_time" && is_none fields.start_time
    then some (record fields { start_time = parse u64_max value })
    else if key == "token" && (is_none fields.token && valid_monitor_token value)
    then some (record fields { token = some value })
    else none

unfoldable pub read_fields : List String → Option Fields → Option Fields
unfolding read_field split_once
read_fields rest none = none
read_fields [] (some fields) = some fields
read_fields (line ∷ rest) (some fields) = read_fields rest (read_field fields (split_once "=" line))

abbrev pub all_three : Option ℕ → Option ℕ → Option String → Option MonitorIdentity
all_three (some pid) (some start_time) (some token) =
    some (record { pid = pid; start_time = start_time; token = token })
all_three _ _ _ = none

abbrev pub identity_of : Option Fields → Option MonitorIdentity
identity_of none = none
identity_of (some fields) = all_three fields.pid fields.start_time fields.token

unfoldable pub parse_monitor_identity : String → Option MonitorIdentity
unfolding read_fields lines
parse_monitor_identity text = identity_of (read_fields (lines text) (some no_fields))

-- The part behind the last `)`.
after_paren : String → Option String
after_paren String.[] = none
after_paren (String.◌∷◌ c s) = pick (after_paren s)
  where
    pick : Option String → Option String
    pick (some later) = some later
    pick none = if eqb (code c) b')' then some s else none

nth : ℕ → List String → Option String
nth n [] = none
nth zero (x ∷ xs) = some x
nth (suc n) (x ∷ xs) = nth n xs

number_of : Option String → Option ℕ
unfolding parse
number_of none = none
number_of (some text) = parse u64_max text

fields_of : Option String → List String
unfolding split_whitespace
fields_of none = []
fields_of (some text) = split_whitespace text

stat_start_time : Option String → Option ℕ
unfolding after_paren nth number_of fields_of
stat_start_time none = none
stat_start_time (some stat) = number_of (nth 19 (fields_of (after_paren stat)))

value_of : String → List (Option String) → Option String
unfolding split_once
value_of key [] = none
value_of key (none ∷ rest) = value_of key rest
value_of key (some entry ∷ rest) = pick (split_once "=" entry) (value_of key rest)
  where
    pick : Option (String × String) → Option String → Option String
    pick none later = later
    pick (some (name, value)) later = if name == key then some value else later

-- An entry that is not UTF-8 is passed over.
environment_value : String → Option (List (Option String)) → Option String
unfolding value_of
environment_value key none = none
environment_value key (some environ) = value_of key environ

abbrev pub same_number : Option ℕ → ℕ → Bool
same_number none n = false
same_number (some m) n = eqb m n

abbrev pub same_text : Option String → String → Bool
same_text none t = false
same_text (some s) t = s == t

abbrev pub parsed_identity : Option String → Option MonitorIdentity
unfolding parse_monitor_identity
parsed_identity none = none
parsed_identity (some text) = parse_monitor_identity text

abbrev pub refused : Option Bool → Bool
refused none = false
refused (some locked) = not locked

module _ {S : Type 0} ⦃E : Env S⦄ where
  unfoldable pub read_monitor_identity : String → S → Option MonitorIdentity
  read_monitor_identity path s = parsed_identity (E.host.read_file path s)

  unfoldable pub process_start_time : ℕ → S → Option ℕ
  unfolding show stat_start_time
  process_start_time pid s =
      stat_start_time (E.host.read_file ("/proc/" <> (show pid <> "/stat")) s)

  unfoldable pub process_environment_value : ℕ → String → S → Option String
  unfolding show environment_value
  process_environment_value pid key s =
      environment_value key (E.host.read_parts ("/proc/" <> (show pid <> "/environ")) s)

  unfoldable pub monitor_identity_matches : MonitorIdentity → S → Bool
  unfolding process_start_time process_environment_value
  monitor_identity_matches identity s =
      same_number (process_start_time identity.pid s) identity.start_time
      && same_text (process_environment_value identity.pid monitor_token_env s) identity.token

module _ {S : Type 0} ⦃P : Processes S⦄ where
  unfoldable pub monitor_lock_is_held : String → S → Bool
  monitor_lock_is_held path s = refused (P.try_lock path s)

parse_monitor_identity_test :
    (parse_monitor_identity "pid=12\nstart_time=34\ntoken=0123456789abcdef0123456789abcdef\n"
      ≡ some (record { pid = 12; start_time = 34; token = "0123456789abcdef0123456789abcdef" }))
    × (parse_monitor_identity "12\n" ≡ none)
    × (parse_monitor_identity "pid=12\nstart_time=34\ntoken=short\n" ≡ none)
unfolding parse_monitor_identity
parse_monitor_identity_test = (refl, refl, refl)
