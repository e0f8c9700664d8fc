-- ===== src/Rules/LocalIp/Parse.antt =====
-- What `ip addr` prints: `parse_ip_addr_subnets` and `parse_ip_o_addr_cidrs` of
-- boxctl/src/rules/util.rs.
use Prim.Native.Char.{code}
use boxproxy.Prelude.{
  String, Bool, not, ◌&&◌, ◌||◌, Option, none, some, List, [], ◌∷◌, ◌==◌, if◌then◌else◌, eqb, leb,
  length, ◌≡◌, refl,
}
use boxproxy.Prelude.Text.{
  trim, split, split_whitespace, lines, starts, includes, to_ascii_lowercase,
}
use boxproxy.Prelude.Search.{strip_prefix, trim_end_colons}
use boxproxy.Rules.Names.{Family, v4, v6}

abbrev first_or : String → List String → String
first_or d [] = d
first_or d (x ∷ _) = x

-- `name.split('@').next().unwrap_or(name)`
before_at : String → String
unfolding split
before_at name = first_or name (split (λ c. eqb (code c) b'@') name)

abbrev iface_of : String → List String → String
iface_of iface (_ ∷ name ∷ _) = before_at (trim_end_colons name)
iface_of iface _ = iface

abbrev push_v6 : String → List String → List String
push_v6 cidr rest =
    if not (starts "fe80" cidr) && not (starts "::1" cidr) then cidr ∷ rest else rest

abbrev subnet_of : Family → String → Option (List String) → List String → List String
subnet_of v4 line (some (cidr ∷ _)) rest = cidr ∷ rest
subnet_of v6 line (some (cidr ∷ _)) rest =
    if not (includes "scope global" line)
      || includes " tentative" line
      || includes " dadfailed" line
    then rest
    else push_v6 cidr rest
subnet_of _ line _ rest = rest

abbrev words_after : String → String → Option (List String)
words_after prefix line = elim (strip_prefix prefix line) [
  | none ↦ none
  | some rest ↦ some (split_whitespace rest)
]

abbrev inet : Family → String
inet v4 = "inet "
inet v6 = "inet6 "

-- the loop over the lines, with the interface of the last heading
subnets_from : Family → String → String → List String → List String
unfolding before_at trim_end_colons strip_prefix split_whitespace includes trim
subnets_from family tun_device iface [] = []
subnets_from family tun_device iface (line ∷ rest) =
    let heading = not (starts " " line) && includes ": " (trim line) in
    let next = if heading then iface_of iface (split_whitespace (trim line)) else iface in
    let more = subnets_from family tun_device next rest in
    if heading || next == tun_device || next == "lo"
    then more
    else subnet_of family (trim line) (words_after (inet family) (trim line)) more

unfoldable pub parse_ip_addr_subnets : String → Family → String → List String
unfolding lines subnets_from
parse_ip_addr_subnets text family tun_device = subnets_from family tun_device "" (lines text)

abbrev proto : Family → String
proto v4 = "inet"
proto v6 = "inet6"

-- the word behind the first `proto`
after_word : String → List String → Option String
after_word p [] = none
after_word p (x ∷ []) = none
after_word p (x ∷ y ∷ r) = let rest = after_word p (y ∷ r) in if x == p then some y else rest

abbrev second_or : List String → String
second_or (_ ∷ x ∷ _) = x
second_or _ = ""

abbrev excluded : Family → String → Bool
excluded v4 cidr = starts "127." cidr
excluded v6 cidr = starts "fd00" (to_ascii_lowercase cidr)

abbrev push_cidr : Family → Option String → List String → List String
push_cidr family none rest = rest
push_cidr family (some cidr) rest = if excluded family cidr then rest else cidr ∷ rest

cidrs_from : Family → String → List String → List String
unfolding before_at after_word split_whitespace to_ascii_lowercase
cidrs_from family tun_device [] = []
cidrs_from family tun_device (line ∷ rest) =
    let parts = split_whitespace line in
    let more = cidrs_from family tun_device rest in
    if not (leb 4 (length parts)) || before_at (second_or parts) == tun_device
    then more
    else push_cidr family (after_word (proto family) parts) more

unfoldable pub parse_ip_o_addr_cidrs : String → Family → String → List String
unfolding lines cidrs_from
parse_ip_o_addr_cidrs text family tun_device = cidrs_from family tun_device (lines text)

parse_test :
    parse_ip_addr_subnets
      "1: lo: <UP>\n    inet 127.0.0.1/8 scope host lo\n3: wlan0@x: <UP>\n    inet 10.1.2.3/24 brd"
      v4 "tun0"
    ≡ "10.1.2.3/24" ∷ []
unfolding parse_ip_addr_subnets
parse_test = refl

parse_o_test :
    parse_ip_o_addr_cidrs "3: wlan0    inet 10.1.2.3/24 brd 10.1.2.255" v4 "tun0"
    ≡ "10.1.2.3/24" ∷ []
unfolding parse_ip_o_addr_cidrs
parse_o_test = refl
