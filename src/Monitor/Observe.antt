-- ===== src/Monitor/Observe.antt =====
-- boxctl/src/monitor/observe.rs: what the monitor sees of the Wi-Fi link. The interface that was
-- found last, the caller's `iface_cache`, is passed in and returned.
use boxproxy.Prelude.{
  String, Bool, true, false, not, ◌&&◌, ◌||◌, Option, none, some, List, [], ◌∷◌, ◌==◌, ◌<>◌,
  if◌then◌else◌,
}
use boxproxy.Prelude.Text.{trim, is_blank, lines, split_whitespace}
use boxproxy.Prelude.Search.{trim_quotes}
use boxproxy.Act.{Result, ok, err, Act, pure, gets, attempt, on_option, ◌>>=◌}
use boxproxy.Exec
use boxproxy.Exec.{Output}
use boxproxy.Rules.Manager.{Env}
use boxproxy.Monitor.{WifiObservation}
use boxproxy.Monitor.Parse.{
  parse_client_mode_iface, is_wifi_iface_name, link_candidates, route_candidates, or_else,
  parse_quoted_label, parse_bssid_label, option_empty_or, extract_after_prefix,
  extract_connected_to, normalize_bssid, wifi_status_connected, wifi_address_present, extract_ipv4,
}

abbrev text_of : Result Output → Option String
text_of (ok output) = if is_blank output.stdout then none else some output.stdout
text_of (err _) = none

abbrev parsed : (String → Option String) → Option String → Option String
parsed f none = none
parsed f (some text) = f text

abbrev trimmed : Option String → Option String
trimmed none = none
trimmed (some text) = some (trim text)

-- `trim_matches('"').split_whitespace().next().unwrap_or("")`
unquoted : Option String → Option String
unfolding trim_quotes split_whitespace
unquoted none = none
unquoted (some text) = some (first (split_whitespace (trim_quotes text)))
  where
    first : List String → String
    first [] = ""
    first (x ∷ _) = x

abbrev lacks_ssid : Option String → Bool
lacks_ssid ssid = option_empty_or ssid (λ value. value == "<unknown ssid>")

abbrev lacks_bssid : String → Option String → Bool
lacks_bssid mark bssid = option_empty_or bssid (λ value. value == mark)

final_ssid : Option String → String
unfolding trim
final_ssid none = "unknown"
final_ssid (some value) =
    if not (is_blank (trim value)) && not (trim value == "off/any") then trim value else "unknown"

final_bssid : Option String → String
unfolding normalize_bssid
final_bssid none = "unknown"
final_bssid (some value) =
    let name = normalize_bssid value in
    if not (is_blank name) && not (name == "00:00:00:00:00:00") then name else "unknown"

-- The names of the link after `iw` and after `iwconfig` printed a text.
after_iw : Option String × Option String → Option String → Option String × Option String
unfolding unquoted extract_after_prefix extract_connected_to
after_iw link none = link
after_iw (ssid, bssid) (some text) = (
  if lacks_ssid ssid then unquoted (extract_after_prefix text "SSID:") else ssid,
  if lacks_bssid "<none>" bssid then extract_connected_to text else bssid,
)

after_iwconfig : Option String × Option String → Option String → Option String × Option String
unfolding unquoted extract_after_prefix
after_iwconfig link none = link
after_iwconfig (ssid, bssid) (some text) = (
  if lacks_ssid ssid then unquoted (extract_after_prefix text "ESSID:") else ssid,
  if lacks_bssid "Not-Associated" bssid then extract_after_prefix text "Access Point:" else bssid,
)

lines_of : Option String → List String
unfolding lines
lines_of none = []
lines_of (some text) = lines text

present_in : Option String → Bool
unfolding wifi_address_present
present_in none = false
present_in (some text) = wifi_address_present text

module _ {S : Type 0} ⦃E : Env S⦄ where
  unfoldable pub run_output : String → List String → Act S (Option String)
  unfolding ◌>>=◌ Exec.run
  run_output program args =
      attempt (Exec.run E.host E.runner program args) >>= λ r. pure (text_of r)

  abbrev link_is_shown : String → Act S Bool
  link_is_shown iface = Exec.run_ok E.host E.runner "ip" ("link" ∷ "show" ∷ iface ∷ [])

  -- the first of the names that `ip link show` knows
  first_shown : List String → Act S (Option String)
  unfolding ◌>>=◌ Exec.run_ok
  first_shown [] = pure none
  first_shown (iface ∷ rest) =
      let later = first_shown rest in
      link_is_shown iface >>= λ shown. if shown then pure (some iface) else later

  property_iface : Option String → Act S (Option String)
  unfolding ◌>>=◌ Exec.run_ok is_wifi_iface_name
  property_iface none = pure none
  property_iface (some iface) =
      if is_wifi_iface_name iface
      then (link_is_shown iface >>= λ shown. pure (if shown then some iface else none))
      else pure none

  -- `get_wifi_iface`
  unfoldable pub get_wifi_iface : Option String → Act S String
  unfolding ◌>>=◌ on_option run_output property_iface first_shown lines_of link_candidates
      route_candidates parse_client_mode_iface trim
  get_wifi_iface wifi_status =
      let by_route = do
        text ← run_output "ip" ("route" ∷ [])
        found ← first_shown (route_candidates (lines_of text))
        pure (or_else "wlan0" found)
      in let by_link = do
        text ← run_output "ip" ("link" ∷ [])
        found ← first_shown (link_candidates (lines_of text))
        on_option found by_route pure
        in on_option (parsed parse_client_mode_iface wifi_status)
          (do
            value ← run_output "getprop" ("wifi.interface" ∷ [])
            found ← property_iface (trimmed value)
            on_option found by_link pure)
          pure

  unfoldable pub resolve_wifi_iface : Option String → Option String → Act S (String × Option String)
  unfolding ◌>>=◌ on_option get_wifi_iface parse_client_mode_iface
  resolve_wifi_iface wifi_status cache =
      let anew = get_wifi_iface wifi_status >>= λ iface. pure (iface, some iface) in
      on_option (parsed parse_client_mode_iface wifi_status)
        (on_option cache anew (λ cached.
          gets (E.host.exists ("/sys/class/net/" <> cached)) >>= λ present.
          if present then pure (cached, cache) else anew))
        (λ iface. pure (iface, some iface))

  unfoldable pub get_current_link : String → Option String → Act S (String × String)
  unfolding ◌>>=◌ run_output after_iw after_iwconfig final_ssid final_bssid parse_quoted_label
      parse_bssid_label
  get_current_link iface wifi_status = do
    let said : Option String × Option String = (
      parsed (λ text. parse_quoted_label text "SSID") wifi_status,
      parsed parse_bssid_label wifi_status,
    )
    by_iw ←
        if lacks_ssid said.0 || lacks_bssid "<none>" said.1
        then (run_output "iw" ("dev" ∷ iface ∷ "link" ∷ []) >>= λ text. pure (after_iw said text))
        else pure said
    link ←
        if lacks_ssid by_iw.0 || lacks_bssid "Not-Associated" by_iw.1
        then (run_output "iwconfig" (iface ∷ []) >>= λ text. pure (after_iwconfig by_iw text))
        else pure by_iw
    pure (final_ssid link.0, final_bssid link.1)

  unfoldable pub get_wifi_ip : String → Act S (Option String)
  unfolding ◌>>=◌ run_output extract_ipv4
  get_wifi_ip iface =
      run_output "ip" ("addr" ∷ "show" ∷ iface ∷ []) >>= λ text. pure (parsed extract_ipv4 text)

  connection : Option String → String → String → String → Act S (Bool × Option String)
  unfolding ◌>>=◌ on_option get_wifi_ip run_output present_in wifi_status_connected extract_ipv4
  connection none iface ssid bssid = run_output "ip" ("addr" ∷ "show" ∷ iface ∷ []) >>= λ address.
      pure (present_in address, parsed extract_ipv4 address)
  connection (some status) iface ssid bssid =
      if wifi_status_connected (some status) ssid bssid
      then (get_wifi_ip iface >>= λ ip. pure (true, ip))
      else pure (false, none)

  unfoldable pub observe_with_iface : Option String → Act S (WifiObservation × Option String)
  unfolding ◌>>=◌ run_output resolve_wifi_iface get_current_link connection
  observe_with_iface cache = do
    status ← run_output "cmd" ("wifi" ∷ "status" ∷ [])
    found ← resolve_wifi_iface status cache
    link ← get_current_link found.0 status
    state ← connection status found.0 link.0 link.1
    pure (
      record { connected = state.0; ssid = link.0; bssid = link.1; iface = found.0; ip = state.1 },
      found.1,
    )

  -- `current_observation`: nothing cached
  unfoldable pub current_observation : Act S WifiObservation
  unfolding ◌>>=◌ observe_with_iface
  current_observation = observe_with_iface none >>= λ r. pure r.0
