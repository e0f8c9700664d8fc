-- ===== src/Service/Process.antt =====
-- boxctl/src/service/process.rs: finding the processes of the core, and ending them.
pub mod Waits
use boxproxy.Prelude.{
  String, ℕ, zero, suc, ◌+◌, ◌*◌, ◌^◌, ◌-◌, Bool, true, false, not, ◌&&◌, ◌||◌, Option, none, some,
  List, [], ◌∷◌, ◌==◌, ◌<>◌, if◌then◌else◌, leb, is_empty, contains,
}
use boxproxy.Prelude.Text.{trim, is_blank}
use boxproxy.Prelude.Search.{all_chars}
use boxproxy.Prelude.Number.{parse, u32_max}
use boxproxy.Prelude.Number.RoundTrip.{is_digit}
use boxproxy.Act.{
  Result, ok, err, Act, pure, fail, gets, modify, attempt, ignore, on_option, for_each, ◌>>=◌, ◌>>◌,
}
use boxproxy.Rules.Context.{command_name}
use boxproxy.Rules.Manager.{Env}
use boxproxy.Monitor.Lock.{Signal, sigterm, sigkill, Target, process, Processes}
use boxproxy.Monitor.Worker.{signal}
use boxproxy.Service.{CoreFiles, System}

abbrev is_pid : String → Bool
is_pid pid = not (is_blank pid) && all_chars is_digit pid

abbrev listed : Option (List String) → Bool
listed none = false
listed (some _) = true

abbrev trimmed_comm : Option String → Option String
trimmed_comm none = none
trimmed_comm (some text) = some (trim text)

abbrev command_of : Option String → Option String
command_of none = none
command_of (some text) = command_name text

abbrev is_name : String → Option String → Bool
is_name name none = false
is_name name (some found) = found == name

abbrev name_in : List String → Option String → Option String
name_in names none = none
name_in names (some found) = if contains names found then some found else none

abbrev first_some : Option String → Option String → Option String
first_some (some a) later = some a
first_some none later = later

abbrev names_of : Option (List String) → List String
names_of none = []
names_of (some l) = l

-- Those of the pairs whose pid was not seen before.
unseen : List String → List (String × String) → List (String × String)
unseen seen [] = []
unseen seen ((bin, pid) ∷ rest) =
    let later = unseen (pid ∷ seen) rest in
    let skipped = unseen seen rest in if contains seen pid then skipped else (bin, pid) ∷ later

-- `pid.parse::<i32>()` of a text of digits
abbrev i32_max : ℕ
i32_max = 2 ^ 31 - 1

abbrev min : ℕ → ℕ → ℕ
min a b = if leb a b then a else b

abbrev pub stop_wait_total_ms : ℕ
stop_wait_total_ms = 1500

abbrev pub stop_poll_min_ms : ℕ
stop_poll_min_ms = 10

abbrev pub stop_poll_max_ms : ℕ
stop_poll_max_ms = 100

-- Enough rounds: the shortest pause is 10 of the 1500 milliseconds.
abbrev pub stop_rounds : ℕ
stop_rounds = 151

-- The process of the pid file comes first.
with_file : String → Option String → List (String × String) → List (String × String)
unfolding unseen
with_file bin_name none found = unseen [] found
with_file bin_name (some pid) found = (bin_name, pid) ∷ unseen (pid ∷ []) found

parsed_pid : Option String → Option ℕ
unfolding parse
parsed_pid none = none
parsed_pid (some pid) = parse u32_max pid

module _ {S : Type 0} ⦃E : Env S⦄ where
  abbrev proc_file : String → String → S → Option String
  proc_file pid name s = E.host.read_file ("/proc/" <> (pid <> name)) s

  abbrev has_proc_dir : String → S → Bool
  has_proc_dir pid s = listed (E.host.read_dir ("/proc/" <> pid) s)

  unfoldable pub pid_matches_bin : String → String → S → Bool
  unfolding trim command_name
  pid_matches_bin bin_name pid s =
      is_pid pid
      && has_proc_dir pid s
      && (is_name bin_name (trimmed_comm (proc_file pid "/comm" s))
          || is_name bin_name (command_of (proc_file pid "/cmdline" s)))

  unfoldable pub core_bin_for_pid : String → List String → S → Option String
  unfolding trim command_name
  core_bin_for_pid pid names s =
      if has_proc_dir pid s
      then first_some (name_in names (trimmed_comm (proc_file pid "/comm" s)))
          (name_in names (command_of (proc_file pid "/cmdline" s)))
      else none

  scan : List String → List String → S → List (String × String)
  unfolding core_bin_for_pid
  scan names [] s = []
  scan names (pid ∷ pids) s =
      let rest = scan names pids s in
      elim (if is_pid pid then core_bin_for_pid pid names s else none) [
        | none ↦ rest
        | some bin ↦ (bin, pid) ∷ rest
      ]

  unfoldable pub scan_core_pids : List String → S → List (String × String)
  unfolding scan
  scan_core_pids names s = scan names (names_of (E.host.read_dir "/proc" s)) s

  unfoldable pub deleted : Result {0} Unit → Act S Unit
  deleted (ok _) = pure tt
  deleted (err e) = fail ("delete PID " <> (E.config.box_pid <> (" failed: " <> e)))

  unfoldable pub remove_pid : Act S Unit
  unfolding ◌>>=◌ deleted
  remove_pid = gets (E.host.exists E.config.box_pid) >>= λ present.
      if present then (attempt (E.host.remove_file E.config.box_pid) >>= deleted) else pure tt

  -- A file that names no process of the core goes.
  unfoldable pub pid_from_file_if_core : Act S (Option String)
  unfolding ◌>>=◌ ignore on_option remove_pid pid_matches_bin trim
  pid_from_file_if_core = gets (E.host.read_file E.config.box_pid) >>= λ found.
      on_option found (pure none) (λ text.
        gets (pid_matches_bin E.config.bin_name (trim text)) >>= λ ours.
        if ours then pure (some (trim text)) else ignore remove_pid >> pure none)

  unfoldable pub running_core_pids : List String → Act S (List (String × String))
  unfolding ◌>>=◌ pid_from_file_if_core with_file scan_core_pids
  running_core_pids names = do
    recorded ← pid_from_file_if_core
    found ← gets (scan_core_pids names)
    pure (with_file E.config.bin_name recorded found)

  -- `service::current_core_pid`
  unfoldable pub current_core_pid : Act S (Option ℕ)
  unfolding ◌>>=◌ pid_from_file_if_core parsed_pid
  current_core_pid = pid_from_file_if_core >>= λ pid. pure (parsed_pid pid)

module _ {S : Type 0} ⦃E : Env S⦄ ⦃P : Processes S⦄ where
  unfoldable pub signal_pid : Signal → String × String → Act S Unit
  unfolding on_option parse signal
  signal_pid sig (bin, pid) =
      on_option (parse i32_max pid) (pure tt) (λ n. modify (signal (process n) sig))

module _ {S : Type 0} ⦃E : Env S⦄ ⦃Y : System S⦄ (files : CoreFiles) where
  -- The loop that waits for the processes to go, on fuel: whether they went before the deadline, or
  -- `none` when the fuel ends first.
  unfoldable pub await_stop : ℕ → ℕ → ℕ → Act S (Option Bool)
  unfolding ◌>>=◌ running_core_pids
  await_stop zero deadline interval = pure none
  await_stop (suc fuel) deadline interval =
      let later = await_stop fuel deadline (min (interval * 2) stop_poll_max_ms) in
      running_core_pids files.bin_list >>= λ pids.
      if is_empty pids
      then pure (some true)
      else (gets Y.now >>= λ now.
          if leb deadline now then pure (some false) else modify (Y.pause interval) >> later)

module _ {S : Type 0} ⦃E : Env S⦄ ⦃P : Processes S⦄ ⦃Y : System S⦄ (files : CoreFiles) where
  -- SIGKILL for what is still there
  unfoldable pub kill_alive : Act S Unit
  unfolding ◌>>=◌ for_each running_core_pids signal_pid
  kill_alive = running_core_pids files.bin_list >>= λ alive. for_each alive (signal_pid sigkill)

  unfoldable pub after_wait : Option Bool → Act S Unit
  unfolding ◌>>=◌ kill_alive remove_pid
  after_wait (some true) = remove_pid
  after_wait _ = kill_alive >> remove_pid

  unfoldable pub stop_pids : List (String × String) → Act S Unit
  unfolding ◌>>=◌ for_each signal_pid await_stop after_wait
  stop_pids pids = do
    for_each pids (signal_pid sigterm)
    started ← gets Y.now
    gone ← await_stop files stop_rounds (started + stop_wait_total_ms) stop_poll_min_ms
    after_wait gone

  -- `service::stop`
  unfoldable pub stop_service : Act S Unit
  unfolding ◌>>=◌ running_core_pids remove_pid stop_pids
  stop_service = running_core_pids files.bin_list >>= λ running.
      if is_empty running then remove_pid else stop_pids running
