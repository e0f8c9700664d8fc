-- ===== src/Monitor/Policy.antt =====
-- boxctl/src/monitor/policy.rs: whether the core should run on the link that was seen, and the
-- call that makes it so. Log lines are left out.
pub mod Wanted
use boxproxy.Prelude.{
  String, ℕ, zero, suc, Bool, true, false, not, ◌&&◌, Option, none, some, if◌then◌else◌, ◌==◌,
  is_empty, ◌-◌,
}
use boxproxy.Act.{Act, pure, ◌>>=◌, ◌>>◌, ignore, on_option}
use boxproxy.Config.{Config}
use boxproxy.Rules.Manager.{Env}
use boxproxy.Monitor.{
  WifiObservation, ServiceAction, already_running, started, already_stopped, stopped,
  NetworkPolicyResult, ServiceControl,
}
use boxproxy.Monitor.Parse.{contains_exact}
use boxproxy.Monitor.Observe.{get_wifi_ip}

abbrev pub is_present : Option String → Bool
is_present none = false
is_present (some _) = true

-- `matched`: the list of BSSIDs goes before that of SSIDs when the BSSID is known
unfoldable pub is_listed : Config → WifiObservation → Bool
is_listed config o =
    if not (is_empty config.wifi_bssids) && not (o.bssid == "unknown")
    then contains_exact config.wifi_bssids o.bssid
    else if not (is_empty config.wifi_ssids)
    then contains_exact config.wifi_ssids o.ssid
    else false

unfoldable pub should_enable_service : Config → WifiObservation → Bool
unfolding is_listed
should_enable_service config o =
    if not o.connected
    then config.wifi_use_on_disconnect
    else if not config.wifi_use_on_connect
    then false
    else if not config.wifi_enable_ssid_matching
    then true
    else if is_listed config o
    then config.wifi_list_mode == "whitelist"
    else not (config.wifi_list_mode == "whitelist")

abbrev pub wifi_ip_retries : ℕ
wifi_ip_retries = 3

module _ {S : Type 0} ⦃E : Env S⦄ where
  -- The rounds of `for attempt in 1..WIFI_IP_RETRIES`: its last round ends the range as well.
  unfoldable pub retry_ip : ℕ → WifiObservation → Act S WifiObservation
  unfolding ◌>>=◌ ignore get_wifi_ip
  retry_ip zero o = pure o
  retry_ip (suc n) o =
      let later = retry_ip n in
      ignore (E.host.sleep "0.5")
      >> (get_wifi_ip o.iface >>= λ ip.
          if is_present ip then pure (record o { ip = ip }) else later (record o { ip = ip }))

  unfoldable pub refresh_connected_ip : WifiObservation → Act S WifiObservation
  unfolding retry_ip
  refresh_connected_ip o = if is_present o.ip then pure o else retry_ip (wifi_ip_retries - 1) o

module _ {S : Type 0} ⦃C : ServiceControl S⦄ where
  -- `service::is_running` as an action
  unfoldable pub is_running : Act S Bool
  is_running s = let (b, s') = C.is_running s in pure b s'

  unfoldable pub start_service_if_needed : Act S ServiceAction
  unfolding ◌>>=◌ is_running
  start_service_if_needed = is_running >>= λ running.
      if running then pure already_running else C.up_from_monitor >> pure started

  unfoldable pub stop_service_if_needed : Act S ServiceAction
  unfolding ◌>>=◌ is_running
  stop_service_if_needed = is_running >>= λ running.
      if running then C.down_from_monitor >> pure stopped else pure already_stopped

  -- The call that makes the core run, or not.
  unfoldable pub enforce : Bool → Act S ServiceAction
  unfolding start_service_if_needed stop_service_if_needed
  enforce true = start_service_if_needed
  enforce false = stop_service_if_needed

  unfoldable pub refresh_local_ip_rules_if_running : Act S Unit
  unfolding ◌>>=◌ is_running
  refresh_local_ip_rules_if_running =
      C.with_operation_lock
        (is_running >>= λ running. if running then C.refresh_local_ip_rules else pure tt)

module _ {S : Type 0} ⦃E : Env S⦄ ⦃C : ServiceControl S⦄ where
  -- The part behind the wait for an address.
  unfoldable pub decide : WifiObservation → Act S NetworkPolicyResult
  unfolding ◌>>=◌ enforce should_enable_service
  decide o =
      enforce (should_enable_service E.config o)
      >> pure (record { observation = o; handled = true })

  unfoldable pub apply_network_control_policy : WifiObservation → Act S NetworkPolicyResult
  unfolding ◌>>=◌ decide refresh_connected_ip
  apply_network_control_policy o =
      if not E.config.wifi_network_control_enabled
      then pure (record { observation = o; handled = true })
      else if o.connected
      then (refresh_connected_ip o >>= λ seen.
          if is_present seen.ip
          then decide seen
          else pure (record { observation = seen; handled = false }))
      else decide o
