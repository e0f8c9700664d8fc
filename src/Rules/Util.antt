-- ===== src/Rules/Util.antt =====
-- Lists, addresses and lines: boxctl/src/rules/util.rs. Parsing and printing of an IPv6 address
-- are the standard library's and enter as the two fields of `Ipv6Text`.
pub mod Macs
use Prim.Native.Char.{Char, code}
use Prim.Native.Nat.{bit_and}
use boxproxy.Prelude.{
  ℕ, ◌+◌, ◌-◌, ◌*◌, ◌%◌, ◌/◌, ◌^◌, String, Bool, false, ◌&&◌, ◌||◌, Option, none, some, List, [],
  ◌∷◌, map, ◌<>◌, ◌==◌, if◌then◌else◌, leb, ltb, eqb, all, length, ◌≡◌, refl,
}
use boxproxy.Prelude.Text.{trim, is_blank, split, split_once, to_ascii_lowercase}
use boxproxy.Prelude.Number.{parse, show, u32_max}
use boxproxy.Prelude.Sort.{sort, dedup, string_le}
use boxproxy.Rules.Names.{Family, v4, v6}

-- `split_user_group`
abbrev pub user_group_or : Option (String × String) → String × String
user_group_or none = ("root", "net_admin")
user_group_or (some p) = p

unfoldable pub split_user_group : String → String × String
unfolding split_once
split_user_group value = user_group_or (split_once ":" value)

abbrev pub drop_blank : List String → List String
drop_blank [] = []
drop_blank (x ∷ xs) = let rest = drop_blank xs in if is_blank x then rest else x ∷ rest

-- `normalized_list`
unfoldable pub normalized_list : List String → List String
unfolding trim sort dedup
normalized_list values = dedup ◌==◌ (sort string_le (drop_blank (map trim values)))

unfoldable pub is_hex_digit : Char → Bool
is_hex_digit c =
    let n = code c in (leb 48 n && leb n 57) || (leb 65 n && leb n 70) || (leb 97 n && leb n 102)

unfoldable pub two_hex_digits : String → Bool
unfolding is_hex_digit
two_hex_digits (String.◌∷◌ a (String.◌∷◌ b String.[])) = is_hex_digit a && is_hex_digit b
two_hex_digits _ = false

unfoldable pub is_valid_mac : String → Bool
unfolding split two_hex_digits is_hex_digit
is_valid_mac value =
    let parts = split (λ c. eqb (code c) b':') value in
    eqb (length parts) 6 && all two_hex_digits parts

abbrev pub keep_valid : List String → List String
keep_valid [] = []
keep_valid (x ∷ xs) = let rest = keep_valid xs in if is_valid_mac x then x ∷ rest else rest

unfoldable pub valid_macs : List String → List String
unfolding is_valid_mac to_ascii_lowercase trim
valid_macs values = keep_valid (map (λ value. to_ascii_lowercase (trim value)) values)

-- `mode_needs_local_ip_mangle`, `mode_needs_local_ip_nat`
abbrev pub mode_needs_local_ip_mangle : String → Bool
mode_needs_local_ip_mangle mode = mode == "tproxy" || mode == "enhance"

abbrev pub mode_needs_local_ip_nat : String → Bool
mode_needs_local_ip_nat mode = mode == "redirect" || mode == "mixed" || mode == "enhance"

pub record Ipv6Text : Type 0 where
  pub parse_ipv6 : String → Option ℕ
  pub show_ipv6 : ℕ → String

-- An octet has no leading zero, at most three digits and a value below 256.
parse_octet : String → Option ℕ
parse_octet String.[] = none
parse_octet (String.◌∷◌ c String.[]) =
    if eqb (code c) b'+' then none else parse 255 (String.◌∷◌ c "")
parse_octet (String.◌∷◌ c (String.◌∷◌ d s)) =
    if eqb (code c) b'0' || eqb (code c) b'+'
    then none
    else parse 255 (String.◌∷◌ c (String.◌∷◌ d s))

join_octets : Option ℕ → Option ℕ → Option ℕ → Option ℕ → Option ℕ
join_octets (some a) (some b) (some c) (some d) = some (((a * 256 + b) * 256 + c) * 256 + d)
join_octets _ _ _ _ = none

four_octets : List String → Option ℕ
four_octets (a ∷ b ∷ c ∷ d ∷ []) =
    join_octets (parse_octet a) (parse_octet b) (parse_octet c) (parse_octet d)
four_octets _ = none

-- `str::parse::<Ipv4Addr>` and `u32::from`
unfoldable pub parse_ipv4 : String → Option ℕ
unfolding split four_octets join_octets parse_octet parse
parse_ipv4 value = four_octets (split (λ c. eqb (code c) b'.') value)

-- `Ipv4Addr::from` and its `Display`
unfoldable pub show_ipv4 : ℕ → String
unfolding show
show_ipv4 n =
    show (n / 2 ^ 24 % 256)
    <> ("."
        <> (show (n / 2 ^ 16 % 256)
            <> ("." <> (show (n / 2 ^ 8 % 256) <> ("." <> show (n % 256))))))

-- `MAX << (width - prefix)`, and 0 at prefix 0
unfoldable pub prefix_mask : ℕ → ℕ → ℕ
prefix_mask width prefix =
    if eqb prefix 0 then 0 else (2 ^ width - 1) * 2 ^ (width - prefix) % 2 ^ width

masked : ℕ → (ℕ → String) → Option ℕ → Option ℕ → Option String
unfolding prefix_mask
masked width print (some raw) (some prefix) =
    if ltb width prefix
    then none
    else some (print (bit_and raw (prefix_mask width prefix)) <> ("/" <> show prefix))
masked width print _ _ = none

normalize_with : ℕ → (String → Option ℕ) → (ℕ → String) → String → Option String
unfolding split_once parse masked
normalize_with width read print value = elim (split_once "/" value) [
  | none ↦ none
  | some (addr, prefix) ↦ masked width print (read addr) (parse u32_max prefix)
]

unfoldable pub normalize_ipv4_cidr : String → Option String
unfolding normalize_with parse_ipv4 show_ipv4
normalize_ipv4_cidr = normalize_with 32 parse_ipv4 show_ipv4

unfoldable pub normalize_ipv6_cidr : Ipv6Text → String → Option String
unfolding normalize_with
normalize_ipv6_cidr t = normalize_with 128 t.parse_ipv6 t.show_ipv6

unfoldable pub normalize_cidr : Ipv6Text → Family → String → Option String
unfolding trim normalize_ipv4_cidr normalize_ipv6_cidr
normalize_cidr t v4 value = if is_blank (trim value) then none else normalize_ipv4_cidr (trim value)
normalize_cidr t v6 value =
    if is_blank (trim value) then none else normalize_ipv6_cidr t (trim value)

normalize_test :
    (normalize_ipv4_cidr "1.1.1.9/24" ≡ some "1.1.1.0/24")
    × (normalize_ipv4_cidr "10.200.3.4/9" ≡ some "10.128.0.0/9")
    × (normalize_ipv4_cidr "01.1.1.9/24" ≡ none)
    × (normalize_ipv4_cidr "1.1.1.9/33" ≡ none)
unfolding normalize_ipv4_cidr
normalize_test = (refl, refl, refl, refl)

valid_macs_test : valid_macs (" AA:bb:0c:11:22:33" ∷ "aa:bb" ∷ []) ≡ "aa:bb:0c:11:22:33" ∷ []
unfolding valid_macs
valid_macs_test = refl
