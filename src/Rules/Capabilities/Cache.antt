-- ===== src/Rules/Capabilities/Cache.antt =====
-- The text of the capability cache, as boxctl/src/rules/capabilities.rs writes and reads it.
use boxproxy.Prelude.{
  String, Bool, true, false, not, Option, none, some, List, [], ◌∷◌, ◌<>◌, ◌==◌, if◌then◌else◌,
}
use boxproxy.Prelude.Text.{trim, lines, split_once}
use boxproxy.Rules.Names.{Capabilities}

-- The last value of a key: later lines overwrite earlier ones in the map.
last_field : String → List String → Option String
last_field key [] = none
last_field key (line ∷ rest) = later (last_field key rest) (split_once "=" line)
  where
    later : Option String → Option (String × String) → Option String
    later (some v) _ = some v
    later none none = none
    later none (some (k, v)) = if trim k == key then some (trim v) else none

abbrev flag_of : Option String → Option Bool
flag_of none = none
flag_of (some text) = if text == "1" then some true else if text == "0" then some false else none

infixl 10 ◌>?◌
abbrev ◌>?◌ : {A B : Type 0} → Option A → (A → Option B) → Option B
none >? f = none
some a >? f = f a

-- the text of the cache file, against the signature that it must carry
unfoldable pub parse_capability_cache : String → String → Option Capabilities
unfolding last_field
parse_capability_cache signature text =
    let flag = λ (key : String). flag_of (last_field key (lines text)) in
    last_field "signature" (lines text) >? λ found.
    if not (found == signature)
    then none
    else flag "tproxy4" >? λ a. flag "tproxy6" >? λ b. flag "socket_match" >? λ c.
        flag "socket_transparent" >? λ d. flag "addrtype" >? λ e. flag "conntrack_match" >? λ f.
        flag "connmark_match" >? λ g. flag "connmark_target" >? λ h. flag "ipset" >? λ i.
        flag "bpf_match" >? λ j. flag "ip6_nat" >? λ k. flag "restore4" >? λ l.
        flag "restore6" >? λ m. some (record {
          tproxy4 = a;
          tproxy6 = b;
          socket_match = c;
          socket_transparent = d;
          addrtype = e;
          conntrack_match = f;
          connmark_match = g;
          connmark_target = h;
          ipset = i;
          bpf_match = j;
          ip6_nat = k;
          restore4 = l;
          restore6 = m;
        })

abbrev flag_line : String → Bool → String → String
flag_line key value rest = key <> ("=" <> ((if value then "1" else "0") <> ("\n" <> rest)))

-- the `body` of `save_capability_cache`
unfoldable pub capability_cache_text : String → Capabilities → String
capability_cache_text signature caps =
    "signature="
    <> (signature
        <> ("\n"
            <> flag_line "tproxy4" caps.tproxy4 (
                flag_line "tproxy6" caps.tproxy6 (
                  flag_line "socket_match" caps.socket_match (
                    flag_line "socket_transparent" caps.socket_transparent (
                      flag_line "addrtype" caps.addrtype (
                        flag_line "conntrack_match" caps.conntrack_match (
                          flag_line "connmark_match" caps.connmark_match (
                            flag_line "connmark_target" caps.connmark_target (
                              flag_line "ipset" caps.ipset (
                                flag_line "bpf_match" caps.bpf_match (
                                  flag_line "ip6_nat" caps.ip6_nat (
                                    flag_line "restore4" caps.restore4
                                      (flag_line "restore6" caps.restore6 ""))))))))))))))
