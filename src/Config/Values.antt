-- ===== src/Config/Values.antt =====
-- boxctl/src/config/core_values.rs: which of the values for one setting counts. The texts of the
-- core's own configuration are read by third-party parsers.
pub mod Given
use boxproxy.Prelude.{
  String, Bool, true, false, not, ◌||◌, Option, none, some, List, [], ◌∷◌, ◌==◌, if◌then◌else◌, ◌≡◌,
  refl, Bool-cases, inl, inr,
}
use boxproxy.Prelude.Text.{trim, is_blank}

pub record ResolvedValue : Type 0 where
  pub value : String
  pub source : String

unfoldable pub is_given : Option String → Bool
unfolding trim
is_given none = false
is_given (some value) = not (is_blank (trim value))

unfoldable pub text_of : Option String → String
unfolding trim
text_of none = ""
text_of (some value) = trim value

-- What is left when nobody gives a value.
abbrev pub fallback : String → Bool → ResolvedValue
fallback default applicable =
    if not applicable
    then record { value = ""; source = "not applicable" }
    else if not (is_blank default)
    then record { value = default; source = "default" }
    else record { value = ""; source = "unset" }

unfoldable pub resolve_value :
    Option String → Option String → Option String → String → Bool → ResolvedValue
unfolding trim is_given text_of
resolve_value override_value db_value core_value default_value applicable =
    if is_given override_value
    then record { value = text_of override_value; source = "CLI" }
    else if is_given core_value
    then record { value = text_of core_value; source = "core config" }
    else if is_given db_value
    then record { value = text_of db_value; source = "App config" }
    else fallback (trim default_value) applicable

unfoldable pub non_empty_value : String → Option String
unfolding trim
non_empty_value value = if is_blank (trim value) then none else some (trim value)

abbrev pub default_mihomo_dns_port : String → String
default_mihomo_dns_port bin_name = if bin_name == "mihomo" then "1053" else ""

abbrev pub default_tun_device : String → String → String
default_tun_device bin_name network_mode =
    if not (network_mode == "tun" || network_mode == "mixed")
    then ""
    else if bin_name == "mihomo"
    then "meta"
    else if bin_name == "sing-box"
    then "sing"
    else ""

abbrev pub default_fake_ip_range : String → String
default_fake_ip_range bin_name = if bin_name == "mihomo" then "198.18.0.1/16" else ""

abbrev pub default_fake_ip6_range : String → String
default_fake_ip6_range bin_name = if bin_name == "mihomo" then "fc00::/18" else ""
