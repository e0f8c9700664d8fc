-- ===== src/Tests/Monitor.antt =====
-- A monitor that does not end: its lock file names process 12, and `/proc` shows the start time and
-- the token of the file for it.
use boxproxy.Prelude.{
  String, ℕ, Bool, true, false, Option, none, some, [], ◌∷◌, ◌==◌, if◌then◌else◌, ◌≡◌, refl,
}
use boxproxy.Act.{ok}
use boxproxy.Act.Keeps.{Keeps}
use boxproxy.Exec.{Host, no_output}
use boxproxy.Rules.Manager.{Env}
use boxproxy.Monitor.Lock.{
  Processes, Target, group, process, monitor_lock_path, process_start_time,
  monitor_identity_matches, read_monitor_identity, parse_monitor_identity,
}
use boxproxy.Tests.Machine.{wifi_settings, identity}

abbrev read_proc : String → Option String
read_proc path =
    if path == monitor_lock_path wifi_settings
    then some "pid=12\nstart_time=34\ntoken=0123456789abcdef0123456789abcdef\n"
    else if path == "/proc/12/stat"
    then some "12 (boxctl) S 1 1 1 0 0 0 0 0 0 0 0 0 0 0 0 0 0 0 34 0"
    else none

-- The state says whether any signal went to a process without a start time.
abbrev haunted : Host Bool
haunted = record {
  spawn = λ program args stdin s. (ok (no_output true), s);
  read_file = λ path s. read_proc path;
  read_parts = λ path s.
      if path == "/proc/12/environ"
      then some (
          some "PATH=/bin"
          ∷ none
          ∷ some "BOXCTL_MONITOR_TOKEN=0123456789abcdef0123456789abcdef"
          ∷ [])
      else none;
  exists = λ path s. false;
  is_file = λ path s. false;
  write_file = λ path text s. (ok tt, s);
  write_atomic = λ path text s. (ok tt, s);
  create_dir_all = λ path s. (ok tt, s);
  remove_file = λ path s. (ok tt, s);
  read_dir = λ path s. none;
  sleep = λ seconds s. (ok tt, s);
}

abbrev device : Env Bool
device = record {
  config = wifi_settings;
  runner = record { dry_run = false; verbose = false };
  host = haunted;
  ipv6_text = record { parse_ipv6 = λ text. none; show_ipv6 = λ n. "::" };
}

abbrev pid_of : Target → ℕ
pid_of (group pid) = pid
pid_of (process pid) = pid

abbrev is_there : Option ℕ → Bool → Bool
is_there none s = true
is_there (some _) s = s

abbrev kernel : Processes Bool
kernel = record {
  send_signal = λ target sig s. is_there (process_start_time ⦃E = device⦄ (pid_of target) s) s;
  try_lock = λ path s. some true;
}

-- No signal went astray.
abbrev NoneAstray : Bool → Type 0
NoneAstray s = s ≡ false

matches_test :
    (monitor_identity_matches ⦃E = device⦄ identity false ≡ true)
    × (read_monitor_identity ⦃E = device⦄ (monitor_lock_path wifi_settings) false ≡ some identity)
unfolding monitor_identity_matches read_monitor_identity parse_monitor_identity
matches_test = (refl, refl)
