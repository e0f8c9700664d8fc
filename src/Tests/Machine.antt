-- ===== src/Tests/Machine.antt =====
-- A small machine for the monitor, the commands and the service: whether the core runs, the rules are
-- there and the lock is held, and a clock.
use boxproxy.Prelude.{ℕ, ◌+◌, Bool, true, false, none, some, [], ◌∷◌, ◌≡◌, arith}
use boxproxy.Act.{ok}
use boxproxy.Exec.{Host, no_output}
use boxproxy.Config.{Config}
use boxproxy.Rules.Manager.{Env}
use boxproxy.Monitor.{WifiObservation}
use boxproxy.Monitor.Lock.{Processes, MonitorIdentity}
use boxproxy.Service.{System, CoreFiles}
use boxproxy.Service.Process.Waits.{Clock}
use boxproxy.Service.DryRun.{OwnFiles}
use boxproxy.Tests.Device.{settings}

pub record Machine : Type 0 where
  pub runs : Bool
  pub applied : Bool
  pub held : Bool
  pub clock : ℕ

abbrev pub asleep : Machine
asleep = record { runs = false; applied = false; held = false; clock = 0 }

abbrev still : Host Machine
still = record {
  spawn = λ program args stdin s. (ok (no_output true), s);
  read_file = λ path s. none;
  read_parts = λ path s. none;
  exists = λ path s. false;
  is_file = λ path s. false;
  write_file = λ path text s. (ok tt, s);
  write_atomic = λ path text s. (ok tt, s);
  create_dir_all = λ path s. (ok tt, s);
  remove_file = λ path s. (ok tt, s);
  read_dir = λ path s. none;
  sleep = λ seconds s. (ok tt, s);
}

abbrev pub wifi_settings : Config
wifi_settings = record settings {
  wifi_network_control_enabled = true;
  wifi_use_on_disconnect = true;
}

abbrev pub machine : Bool → Env Machine
machine dry_run = record {
  config = wifi_settings;
  runner = record { dry_run = dry_run; verbose = false };
  host = still;
  ipv6_text = record { parse_ipv6 = λ text. none; show_ipv6 = λ n. "::" };
}

abbrev pub no_link : WifiObservation
no_link = record {
  connected = false;
  ssid = "unknown";
  bssid = "unknown";
  iface = "wlan0";
  ip = none;
}

abbrev set_runs : Bool → Machine → Machine
set_runs b s = record s { runs = b }

abbrev pub kernel : Processes Machine
kernel = record {
  send_signal = λ target sig s. record s { held = false };
  try_lock = λ path s. some true;
}

abbrev pub system : System Machine
system = record {
  metadata = λ path s. none;
  spawn_core = λ program args log envs uid gid s. (ok 77, set_runs true s);
  now = λ s. s.clock;
  pause = λ ms s. record s { clock = s.clock + ms };
}

pub system-Clock : Clock Machine ⦃E = machine false⦄ ⦃Y = system⦄
system-Clock = record { pauses = λ ms s. omega arith; deletes = λ t. record { at = λ s h. h } }

-- The core does not run.
abbrev pub Stopped : Machine → Type 0
Stopped s = s.runs ≡ false

pub still-OwnFiles : OwnFiles ⦃E = machine true⦄ ⦃Y = system⦄ Stopped
still-OwnFiles = record {
  writes = λ path text. record { at = λ s h. h };
  makes_dirs = λ path. record { at = λ s h. h };
  removes = λ path. record { at = λ s h. h };
  pauses = λ ms s h. h;
}

abbrev pub core_files : CoreFiles
core_files = record {
  bin_list = "mihomo" ∷ [];
  bin_path = "/data/adb/box/bin/mihomo";
  bin_log = "/data/adb/box/run/mihomo.log";
  run_dir = "/data/adb/box/run";
  core_dir = "/data/adb/box/mihomo";
  launch_config_path = "/data/adb/box/mihomo/config.yaml";
  source_config_path = "/data/adb/box/mihomo/config.yaml";
  config_name = "config.yaml";
  uses_runtime_config = false;
  log_paths = [];
  taskset_cpu = false;
  allow_cpu = "";
}

abbrev pub identity : MonitorIdentity
identity = record { pid = 12; start_time = 34; token = "0123456789abcdef0123456789abcdef" }
