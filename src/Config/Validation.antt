-- ===== src/Config/Validation.antt =====
-- boxctl/src/config/validation.rs: the settings as they are accepted.
pub mod Ports
pub mod Accepted
use Prim.Native.Char.{Char, code}
use boxproxy.Prelude.{
  String, ℕ, zero, suc, Bool, true, false, not, ◌&&◌, ◌||◌, Option, none, some, List, [], ◌∷◌, ◌++◌,
  ◌<>◌, if◌then◌else◌, eqb, leb, ltb, contains, ◌≡◌, refl,
}
use boxproxy.Prelude.Text.{trim, is_blank, to_ascii_lowercase, split_once}
use boxproxy.Prelude.Search.{all_chars}
use boxproxy.Prelude.Number.{parse, show, u8_max, u16_max, u64_max}
use boxproxy.Prelude.Sort.{sort, dedup}
use boxproxy.Act.{Result, ok, err}

abbrev pub invalid : String → String → String
invalid label value = "invalid " <> (label <> (": " <> value))

unfoldable pub normalize_choice : String → String → List String → Result String
unfolding trim to_ascii_lowercase
normalize_choice label value allowed =
    let normalized = to_ascii_lowercase (trim value) in
    if contains allowed normalized then ok normalized else err (invalid label value)

abbrev port_of : String → String → Option ℕ → Result String
unfolding show
port_of label value none = err (invalid label value)
port_of label value (some port) = if eqb port 0 then err (invalid label value) else ok (show port)

unfoldable pub normalize_port : String → String → Result String
unfolding trim parse port_of
normalize_port label value = port_of label (trim value) (parse u16_max (trim value))

unfoldable pub normalize_optional_port : String → String → Result String
unfolding trim normalize_port
normalize_optional_port label value =
    if is_blank (trim value) then ok "" else normalize_port label value

-- `str::len`, of ASCII texts
abbrev len : String → ℕ
len String.[] = zero
len (String.◌∷◌ _ s) = suc (len s)

abbrev in_range : ℕ → ℕ → Char → Bool
in_range low high c = leb low (code c) && leb (code c) high

abbrev pub is_interface_char : Char → Bool
is_interface_char c =
    in_range 48 57 c
    || in_range 65 90 c
    || in_range 97 122 c
    || eqb (code c) b'_'
    || eqb (code c) b'-'
    || eqb (code c) b'.'

unfoldable pub is_valid_interface_name : String → Bool
is_valid_interface_name value =
    not (is_blank value) && ltb (len value) 16 && all_chars is_interface_char value

unfoldable pub normalize_optional_interface : String → String → Result String
unfolding trim is_valid_interface_name
normalize_optional_interface label value =
    if is_blank (trim value)
    then ok ""
    else if is_valid_interface_name (trim value)
    then ok (trim value)
    else err (invalid label (trim value))

-- The loop of the two lists: what `normalize` accepts, each once, up to its first error.
abbrev pub push_new : List String → String → List String
push_new seen value =
    if not (is_blank value) && not (contains seen value) then seen ++ (value ∷ []) else seen

abbrev pub continue_with {ℓ} : {A B : Type ℓ} → Result A → (A → Result B) → Result B
continue_with (ok a) f = f a
continue_with (err e) f = err e

unfoldable pub normalize_each :
    (String → Result String) → List String → List String → Result (List String)
normalize_each normalize [] seen = ok seen
normalize_each normalize (value ∷ values) seen =
    continue_with (normalize value) (λ found. normalize_each normalize values (push_new seen found))

unfoldable pub normalize_interface_list : String → List String → Result (List String)
unfolding normalize_each normalize_optional_interface
normalize_interface_list label values =
    normalize_each (normalize_optional_interface label) values []

-- `parse::<Ipv4Addr>().is_ok()` and `parse::<Ipv6Addr>().is_ok()`, of the standard library
pub record Addresses : Type 0 where
  pub is_ipv4 : String → Bool
  pub is_ipv6 : String → Bool

abbrev pub prefix_within : Option ℕ → ℕ → Bool
prefix_within none most = false
prefix_within (some prefix) most = leb prefix most

unfoldable pub cidr_is_valid : Addresses → Bool → Option (String × String) → Bool
unfolding parse
cidr_is_valid a ipv6 none = false
cidr_is_valid a true (some (address, prefix)) =
    a.is_ipv6 address && prefix_within (parse u8_max prefix) 128
cidr_is_valid a false (some (address, prefix)) =
    a.is_ipv4 address && prefix_within (parse u8_max prefix) 32

unfoldable pub validate_cidr : Addresses → String → Bool → Bool
unfolding split_once cidr_is_valid
validate_cidr a value ipv6 = cidr_is_valid a ipv6 (split_once "/" value)

unfoldable pub normalize_optional_cidr : Addresses → String → Bool → String → Result String
unfolding trim validate_cidr
normalize_optional_cidr a label ipv6 value =
    if is_blank (trim value)
    then ok ""
    else if validate_cidr a (trim value) ipv6
    then ok (trim value)
    else err (invalid label (trim value))

unfoldable pub normalize_cidr_list : Addresses → String → Bool → List String → Result (List String)
unfolding normalize_each normalize_optional_cidr
normalize_cidr_list a label ipv6 values =
    normalize_each (normalize_optional_cidr a label ipv6) values []
