-- ===== src/Tests/Control.antt =====
-- The theorems on the monitor, the commands and the service, each applied to the small machine.
use boxproxy.Prelude.{ℕ, ◌+◌, true, false, none, some, [], ◌∷◌, ◌≡◌, ◌↔◌, refl, arith}
use boxproxy.Act.{Act, ok, pure}
use boxproxy.Act.Keeps.{Keeps, Keeps-pure}
use boxproxy.Monitor.Policy.{should_enable_service}
use boxproxy.Monitor.Policy.Wanted.{Wanted, should_enable_service_lem}
use boxproxy.Monitor.Lock.{parse_monitor_identity, monitor_identity_text, valid_monitor_token}
use boxproxy.Monitor.Lock.RoundTrip.{parse_monitor_identity-monitor_identity_text}
use boxproxy.Control.{Parts}
use boxproxy.Control.Program.{Rest, program}
use boxproxy.Rules.Outside.{Outside}
use boxproxy.Control.Started.{Started}
use boxproxy.Service.Process.{await_stop, stop_rounds, stop_wait_total_ms, stop_poll_min_ms}
use boxproxy.Service.Process.Waits.{Answered, await_stop-Answered_in_time}
use boxproxy.Service.Start.{start_service}
use boxproxy.Service.DryRun.{start_service-Keeps}
use boxproxy.Tests.Machine.{
  Machine, asleep, wifi_settings, machine, no_link, kernel, system, system-Clock, Stopped,
  still-OwnFiles, core_files, identity,
}

should_enable_service_lem_example :
    (should_enable_service wifi_settings no_link ≡ true) ↔ Wanted wifi_settings no_link
should_enable_service_lem_example = should_enable_service_lem wifi_settings no_link

token_is_valid : valid_monitor_token identity.token ≡ true
unfolding valid_monitor_token
token_is_valid = refl

parse_monitor_identity-monitor_identity_text_example :
    parse_monitor_identity (monitor_identity_text identity) ≡ some identity
parse_monitor_identity-monitor_identity_text_example =
    parse_monitor_identity-monitor_identity_text identity (omega arith) (omega arith) token_is_valid

await_stop-Answered_in_time_example : Answered (
    await_stop ⦃E = machine false⦄ ⦃Y = system⦄ core_files stop_rounds
      (0 + stop_wait_total_ms)
      stop_poll_min_ms
      asleep)
await_stop-Answered_in_time_example =
    await_stop-Answered_in_time ⦃E = machine false⦄ ⦃Y = system⦄ system-Clock core_files asleep

no_limits : ℕ → Act Machine Unit
no_limits pid = pure tt

start_service-Keeps_example : Keeps Stopped (
    start_service ⦃E = machine true⦄ ⦃P = kernel⦄ ⦃Y = system⦄ core_files
      (some 8)
      (pure tt)
      no_limits)
start_service-Keeps_example =
    start_service-Keeps ⦃E = machine true⦄ ⦃P = kernel⦄ ⦃Y = system⦄ Stopped still-OwnFiles refl
      core_files (some 8) (pure tt) no_limits (Keeps-pure tt)

abbrev apart : Outside Machine
apart = record {
  text_field = λ json key. none;
  to_json = λ fields. ok "{…}";
  to_json_pretty = λ fields. ok "{…}";
  file_times = λ path s. none;
  open_lines = λ path s. ok [];
  is_not_found = λ e. true;
  mode_supported = λ s. (ok tt, s);
}

abbrev rest : Rest Machine
rest = record {
  files = core_files;
  cpu_count = some 8;
  sync = pure tt;
  limits = no_limits;
  acquire = λ s. (ok tt, record s { held = true });
  release = λ s. record s { held = false };
  order = λ scope. false ∷ true ∷ [];
  requested = false;
  worker = pure tt;
  spawn_worker = pure tt;
}

abbrev boxctl : Parts Machine
boxctl = program ⦃E = machine false⦄ ⦃O = apart⦄ ⦃P = kernel⦄ ⦃Y = system⦄ rest

abbrev dry_boxctl : Parts Machine
dry_boxctl = program ⦃E = machine true⦄ ⦃O = apart⦄ ⦃P = kernel⦄ ⦃Y = system⦄ rest
