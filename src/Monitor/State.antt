-- ===== src/Monitor/State.antt =====
-- boxctl/src/monitor/state.rs, and the handlers of boxctl/src/monitor.rs and
-- boxctl/src/monitor/watcher.rs that compare what is seen with what was handled last.
use boxproxy.Prelude.{String, Bool, false, Option, none, some, ◌==◌, ◌<>◌, if◌then◌else◌}
use boxproxy.Prelude.Text.{show_bool, trim}
use boxproxy.Act.{Result, ok, err, Act, pure, gets, fail, attempt, ignore, ◌>>=◌, ◌>>◌}
use boxproxy.Config.{Config}
use boxproxy.Rules.Manager.{Env}
use boxproxy.Monitor.{WifiObservation, ServiceControl}
use boxproxy.Monitor.Parse.{or_else}
use boxproxy.Monitor.Observe.{observe_with_iface, current_observation}
use boxproxy.Monitor.Policy.{apply_network_control_policy, refresh_local_ip_rules_if_running}

-- `{b}`
unfoldable pub wifi_state_key : WifiObservation → String
wifi_state_key o =
    "connected="
    <> (show_bool o.connected
        <> ("|ssid=" <> (o.ssid <> ("|bssid=" <> (o.bssid <> ("|ip=" <> or_else "" o.ip))))))

abbrev pub wifi_state_path : Config → String
wifi_state_path config = config.state_dir <> "/last_wifi_state"

abbrev is_key : WifiObservation → Option String → Bool
is_key o none = false
is_key o (some text) = trim text == wifi_state_key o

module _ {S : Type 0} where
  -- `map_err` of the write
  abbrev pub saved_at : String → Result {0} Unit → Act S Unit
  saved_at path (ok _) = pure tt
  saved_at path (err e) = fail ("save Wi-Fi state " <> (path <> (" failed: " <> e)))

module _ {S : Type 0} ⦃E : Env S⦄ where
  unfoldable pub save_wifi_state : WifiObservation → Act S Unit
  unfolding ◌>>=◌ wifi_state_key
  save_wifi_state o =
      let path = wifi_state_path E.config in
      attempt (E.host.write_atomic path (wifi_state_key o)) >>= saved_at path

  unfoldable pub wifi_state_matches : WifiObservation → S → Bool
  unfolding wifi_state_key trim
  wifi_state_matches o s = is_key o (E.host.read_file (wifi_state_path E.config) s)

module _ {S : Type 0} ⦃E : Env S⦄ ⦃C : ServiceControl S⦄ where
  -- Applies the policy and keeps the observation once it was handled.
  unfoldable pub apply_and_save : WifiObservation → Act S Unit
  unfolding ◌>>=◌ apply_network_control_policy save_wifi_state
  apply_and_save o = apply_network_control_policy o >>= λ r.
      if r.handled then save_wifi_state r.observation else pure tt

  unfoldable pub apply_wifi_policy : Act S Unit
  unfolding ◌>>=◌ current_observation apply_and_save
  apply_wifi_policy = current_observation >>= apply_and_save

  finish : Option String → Result {0} Unit → Act S (Result {0} Unit × Option String)
  unfolding ◌>>=◌ ignore refresh_local_ip_rules_if_running
  finish cache (ok _) = ignore refresh_local_ip_rules_if_running >> pure (ok tt, cache)
  finish cache (err e) = pure (err e, cache)

  -- The cached interface is returned, also when the policy fails.
  unfoldable pub handle_network_change : Option String → Act S (Result {0} Unit × Option String)
  unfolding ◌>>=◌ observe_with_iface wifi_state_matches apply_and_save finish
  handle_network_change cache = do
    seen ← observe_with_iface cache
    known ← gets (wifi_state_matches seen.0)
    applied ← attempt (if known then pure tt else apply_and_save seen.0)
    finish seen.1 applied
