-- ===== src/Tests/Config.antt =====
-- The theorems on the settings, each applied to an example.
use boxproxy.Prelude.{
  String, ℕ, ◌≤◌, true, false, not, ◌&&◌, ◌||◌, some, none, List, [], ◌∷◌, ◌≡◌, refl,
}
use boxproxy.Prelude.Text.{trim, is_blank}
use boxproxy.Prelude.Number.{show}
use boxproxy.Act.{ok}
use boxproxy.Act.Returns.{OkOr}
use boxproxy.Config.Validation.{
  Addresses, normalize_port, is_valid_interface_name, normalize_interface_list, normalize_cidr_list,
}
use boxproxy.Config.Validation.Ports.{normalize_port_lem}
use boxproxy.Config.Validation.Accepted.{
  Accepted, IsCidr, normalize_interface_list-Accepted, normalize_cidr_list-Accepted,
}
use boxproxy.Config.Values.{is_given, resolve_value}
use boxproxy.Config.Values.Given.{resolve_value_lem}

port_is_read : normalize_port "tproxy port" " 07893" ≡ ok "7893"
unfolding normalize_port
port_is_read = refl

normalize_port_lem_example :
    (n : ℕ) × (1 ≤ n)
    × (n ≤ 65535)
    × (ok (show n) ≡ ok "7893")
    × (normalize_port "tproxy port" (show n) ≡ ok (show n))
normalize_port_lem_example = normalize_port_lem "tproxy port" " 07893" "7893" port_is_read

abbrev interfaces : List String
interfaces = " wlan0" ∷ "" ∷ "wlan0" ∷ "rndis0" ∷ []

normalize_interface_list-Accepted_example :
    OkOr
      (Accepted (λ name. is_valid_interface_name name ≡ true))
      (normalize_interface_list "hotspot interface" interfaces)
normalize_interface_list-Accepted_example =
    normalize_interface_list-Accepted "hotspot interface" interfaces

abbrev any_address : Addresses
any_address = record { is_ipv4 = λ text. true; is_ipv6 = λ text. true }

normalize_cidr_list-Accepted_example :
    OkOr
      (Accepted (IsCidr any_address false))
      (normalize_cidr_list any_address "intranet" false ("10.0.0.0/8" ∷ []))
normalize_cidr_list-Accepted_example =
    normalize_cidr_list-Accepted any_address "intranet" false ("10.0.0.0/8" ∷ [])

resolve_value_lem_example :
    is_blank (resolve_value none (some "7893") (some "19093") "7893" true).value ≡ (
      not (is_given none)
      && (not (is_given (some "19093"))
          && (not (is_given (some "7893")) && (not true || is_blank (trim "7893")))))
resolve_value_lem_example = resolve_value_lem none (some "7893") (some "19093") "7893" true
