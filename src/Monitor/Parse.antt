-- ===== src/Monitor/Parse.antt =====
-- The texts that boxctl/src/monitor/observe.rs takes apart: what `cmd wifi status`, `ip`, `iw`
-- and `iwconfig` print.
use Prim.Native.Char.{Char, code}
use boxproxy.Prelude.{
  String, ℕ, Bool, true, false, not, ◌&&◌, ◌||◌, Option, none, some, List, [], ◌∷◌, ◌++◌, ◌==◌,
  ◌<>◌, if◌then◌else◌, eqb, leb, any, ◌≡◌, refl,
}
use boxproxy.Prelude.Text.{
  trim, trim_start, is_blank, lines, split, split_whitespace, starts, includes, to_ascii_lowercase,
}
use boxproxy.Prelude.Search.{strip_prefix, split_once_at, take_while, trim_end_colons}

abbrev between : ℕ → ℕ → Char → Bool
between low high c = leb low (code c) && leb (code c) high

abbrev is_ascii_alphanumeric : Char → Bool
is_ascii_alphanumeric c = between 48 57 c || between 65 90 c || between 97 122 c

abbrev pub is_ascii_hexdigit : Char → Bool
is_ascii_hexdigit c = between 48 57 c || between 65 70 c || between 97 102 c

-- `next()` of the pieces, and `unwrap_or(d)` of it
abbrev first_of : List String → Option String
first_of [] = none
first_of (x ∷ _) = some x

abbrev pub or_else : String → Option String → String
or_else d none = d
or_else d (some x) = x

abbrev and_then {ℓ κ} : {A : Type ℓ} {B : Type κ} → Option A → (A → Option B) → Option B
and_then none f = none
and_then (some a) f = f a

abbrev keep_if : Bool → String → Option String
keep_if b s = if b then some s else none

-- A `for` over the lines that returns at the first one where `f` finds something.
first_line : (String → Option String) → List String → Option String
first_line f [] = none
first_line f (x ∷ xs) = pick (f x) (first_line f xs)
  where
    pick : Option String → Option String → Option String
    pick (some y) later = some y
    pick none later = later

unfoldable pub is_wifi_iface_name : String → Bool
unfolding trim
is_wifi_iface_name value =
    not (is_blank (trim value))
    && (starts "wlan" (trim value) || starts "swlan" (trim value) || starts "wifi" (trim value))

iface_in : String → Option String
unfolding is_wifi_iface_name split_once_at take_while
iface_in line = and_then (split_once_at "iface=" line) (λ parts.
    let iface =
      take_while (λ c. is_ascii_alphanumeric c || eqb (code c) b'_' || eqb (code c) b'-') parts.1 in
    keep_if (is_wifi_iface_name iface) iface)

unfoldable pub parse_client_mode_iface : String → Option String
unfolding first_line iface_in lines
parse_client_mode_iface text = first_line iface_in (lines text)

unfoldable pub is_valid_ssid : String → Bool
unfolding trim
is_valid_ssid value =
    not (is_blank (trim value))
    && not (trim value == "<unknown ssid>")
    && not (trim value == "unknown")

unfoldable pub is_valid_bssid : String → Bool
unfolding trim
is_valid_bssid value =
    not (is_blank (trim value))
    && not (trim value == "<none>")
    && not (trim value == "unknown")
    && not (trim value == "00:00:00:00:00:00")

quoted_in : String → String → Option String
unfolding split_once_at split is_valid_ssid
quoted_in label line = and_then (split_once_at (label <> ": \"") line) (λ parts.
    and_then (first_of (split (λ c. eqb (code c) 34) parts.1))
      (λ value. keep_if (is_valid_ssid value) value))

unfoldable pub parse_quoted_label : String → String → Option String
unfolding first_line quoted_in lines
parse_quoted_label text label = first_line (quoted_in label) (lines text)

bssid_in : String → Option String
unfolding split_once_at trim_start take_while is_valid_bssid
bssid_in line = and_then (split_once_at "BSSID:" line) (λ parts.
    let value = take_while (λ c. is_ascii_hexdigit c || eqb (code c) b':') (trim_start parts.1) in
    keep_if (is_valid_bssid value) value)

unfoldable pub parse_bssid_label : String → Option String
unfolding first_line bssid_in lines
parse_bssid_label text = first_line bssid_in (lines text)

-- A line of the prefix ends the search, whatever follows on it: `?` inside the loop.
after_first : (String → Option String) → String → List String → Option String
unfolding strip_prefix trim
after_first f prefix [] = none
after_first f prefix (x ∷ xs) = answer (strip_prefix prefix (trim x)) (after_first f prefix xs)
  where
    answer : Option String → Option String → Option String
    answer (some rest) later = f rest
    answer none later = later

unfoldable pub extract_connected_to : String → Option String
unfolding after_first lines split_whitespace
extract_connected_to text =
    after_first (λ rest. first_of (split_whitespace rest)) "Connected to " (lines text)

unfoldable pub extract_ipv4 : String → Option String
unfolding after_first lines split split_whitespace
extract_ipv4 text =
    after_first
      (λ rest.
        and_then (first_of (split_whitespace rest))
          (λ word. first_of (split (λ c. eqb (code c) b'/') word)))
      "inet " (lines text)

value_after : String → String → Option String
unfolding split_once_at trim
value_after prefix line =
    and_then (split_once_at prefix (trim line))
      (λ parts. keep_if (not (is_blank (trim parts.1))) (trim parts.1))

unfoldable pub extract_after_prefix : String → String → Option String
unfolding first_line value_after lines
extract_after_prefix text prefix = first_line (value_after prefix) (lines text)

-- `to_lowercase` on ASCII texts
unfoldable pub normalize_bssid : String → String
unfolding split split_whitespace trim to_ascii_lowercase
normalize_bssid raw =
    let word = or_else "" (first_of (split_whitespace raw)) in
    let name = or_else "" (first_of (split (λ c. eqb (code c) b'(') word)) in
    to_ascii_lowercase (trim name)

abbrev pub contains_exact : List String → String → Bool
contains_exact values needle = any (λ value. value == needle) values

abbrev pub option_empty_or : Option String → (String → Bool) → Bool
option_empty_or (some value) predicate = predicate value
option_empty_or none predicate = true

says_connected : String → Bool
unfolding trim includes
says_connected line =
    starts "Wifi is connected to " (trim line) || includes "Supplicant state: COMPLETED" (trim line)

unfoldable pub wifi_status_connected : Option String → String → String → Bool
unfolding lines says_connected is_valid_ssid is_valid_bssid
wifi_status_connected none ssid bssid = false
wifi_status_connected (some text) ssid bssid =
    (is_valid_ssid ssid || is_valid_bssid bssid) && any says_connected (lines text)

address_in : String → Bool
unfolding trim includes
address_in line =
    starts "inet " (trim line)
    || starts "inet6 " (trim line) && includes " scope global" (trim line)

unfoldable pub wifi_address_present : String → Bool
unfolding lines address_in
wifi_address_present text = any address_in (lines text)

-- the name on a line of `ip link`, when it is that of a Wi-Fi interface
link_name : String → Option String
unfolding trim split_once_at split split_whitespace trim_end_colons
link_name line = and_then (split_once_at ": " (trim line)) (λ parts.
    let word = or_else "wlan0" (first_of (split_whitespace parts.1)) in
    let iface =
      or_else "wlan0" (first_of (split (λ c. eqb (code c) b'@') (trim_end_colons word))) in
    keep_if ((starts "wlan" parts.1 || starts "swlan" parts.1) && not (is_blank iface)) iface)

unfoldable pub link_candidates : List String → List String
unfolding link_name
link_candidates [] = []
link_candidates (line ∷ rest) = elim (link_name line) [
  | none ↦ link_candidates rest
  | some iface ↦ iface ∷ link_candidates rest
]

-- the names behind each `dev`
devices : List String → List String
unfolding is_wifi_iface_name
devices (part ∷ name ∷ parts) =
    let rest = devices (name ∷ parts) in
    if part == "dev" && is_wifi_iface_name name then name ∷ rest else rest
devices _ = []

default_devices : List String → List String
unfolding devices
default_devices (part ∷ parts) = if part == "default" then devices (part ∷ parts) else []
default_devices [] = []

unfoldable pub route_candidates : List String → List String
unfolding default_devices split_whitespace
route_candidates [] = []
route_candidates (line ∷ rest) = default_devices (split_whitespace line) ++ route_candidates rest

extract_ipv4_test :
    extract_ipv4 "3: wlan0\n    inet 192.168.1.7/24 brd 192.168.1.255\n" ≡ some "192.168.1.7"
unfolding extract_ipv4
extract_ipv4_test = refl

link_candidates_test : link_candidates ("1: lo: <UP>" ∷ "7: wlan0@if3: <UP>" ∷ []) ≡ "wlan0" ∷ []
unfolding link_candidates
link_candidates_test = refl

parse_quoted_label_test :
    parse_quoted_label "a\nWifiInfo: SSID: \"home\", BSSID: aa:bb" "SSID" ≡ some "home"
unfolding parse_quoted_label
parse_quoted_label_test = refl
