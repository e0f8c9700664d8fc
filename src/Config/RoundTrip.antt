-- ===== src/Config/RoundTrip.antt =====
-- What the texts of the modes read as: boxctl/src/config/types.rs.
use boxproxy.Prelude.{
  String, Bool, true, false, ◌||◌, ◌≡◌, refl, sym, ◌∙◌, ◌==◌, ◌↔◌, ◌⊎◌, inl, inr, Bool-cases, arith,
  eq_iff, if◌then◌else◌,
}
use boxproxy.Prelude.Text.{trim, to_ascii_lowercase}
use boxproxy.Act.{Result, ok}
use boxproxy.Config.Modes.{
  NetworkMode, ProxyMode, tun, tproxy, redirect, mixed, enhance, read_network_mode, core, blacklist,
  whitelist, parse_network_mode, network_mode_str, read_proxy_mode, parse_proxy_mode,
}

-- One test of the chain of `NetworkMode::parse`.
pick :
    (word value : String) (mode mode' : NetworkMode) (rest : Result NetworkMode)
    → (rest ≡ ok mode' → word ≡ network_mode_str mode')
    → (if word == network_mode_str mode then ok mode else rest) ≡ ok mode'
    → word ≡ network_mode_str mode'
pick word value mode mode' rest k h = grind (arith, eq_iff)

word_of :
    (word value : String) (mode : NetworkMode)
    → read_network_mode word value ≡ ok mode
    → word ≡ network_mode_str mode
unfolding read_network_mode
word_of word value mode = pick word value tun mode _ (
    pick word value tproxy mode _ (
      pick word value NetworkMode.ebpf mode _ (
        pick word value redirect mode _
          (pick word value mixed mode _ (pick word value enhance mode _ (λ h. ground arith))))))

read_word :
    (word value : String) (mode : NetworkMode)
    → word ≡ network_mode_str mode
    → read_network_mode word value ≡ ok mode
unfolding read_network_mode
read_word word value tun h = rw h
read_word word value tproxy h = rw h
read_word word value NetworkMode.ebpf h = rw h
read_word word value redirect h = rw h
read_word word value mixed h = rw h
read_word word value enhance h = rw h

-- A text reads as a network mode just when, trimmed and in lower case, it is the mode's text.
pub parse_network_mode-network_mode_str :
    (value : String) (mode : NetworkMode)
    → (parse_network_mode value ≡ ok mode)
      ↔ (to_ascii_lowercase (trim value) ≡ network_mode_str mode)
unfolding parse_network_mode
parse_network_mode-network_mode_str value mode = (
  word_of (to_ascii_lowercase (trim value)) value mode,
  read_word (to_ascii_lowercase (trim value)) value mode,
)

-- The texts of a proxy mode.
abbrev pub IsProxyModeName : ProxyMode → String → Type 0
IsProxyModeName core word = word ≡ "core"
IsProxyModeName blacklist word = (word ≡ "blacklist") ⊎ (word ≡ "black")
IsProxyModeName whitelist word = (word ≡ "whitelist") ⊎ (word ≡ "white")

-- The test for two texts, and what it lets through.
either : (word a b : String) → (word == a || word == b) ≡ true → (word ≡ a) ⊎ (word ≡ b)
either word a b h = elim (Bool-cases (word == a)) [
  | inl first ↦ inl ((eq_iff word a).0 first)
  | inr other ↦ inr ((eq_iff word b).0 (sym (rw other refl) ∙ h))
]

-- One test of the chain of `ProxyMode::parse`.
step :
    (test : Bool) (word : String) (here mode : ProxyMode) (rest : Result ProxyMode)
    → (test ≡ true → IsProxyModeName here word)
    → (rest ≡ ok mode → IsProxyModeName mode word)
    → (if test then ok here else rest) ≡ ok mode
    → IsProxyModeName mode word
step true word core core rest named later h = named refl
step true word blacklist blacklist rest named later h = named refl
step true word whitelist whitelist rest named later h = named refl
step true word core blacklist rest named later h = ground arith
step true word core whitelist rest named later h = ground arith
step true word blacklist core rest named later h = ground arith
step true word blacklist whitelist rest named later h = ground arith
step true word whitelist core rest named later h = ground arith
step true word whitelist blacklist rest named later h = ground arith
step false word here mode rest named later h = later h

name_of :
    (word value : String) (mode : ProxyMode)
    → read_proxy_mode word value ≡ ok mode
    → IsProxyModeName mode word
unfolding read_proxy_mode
name_of word value mode = step (word == "core") word core mode _ (eq_iff word "core").0 (
    step (word == "blacklist" || word == "black") word blacklist mode _
      (either word "blacklist" "black")
      (step (word == "whitelist" || word == "white") word whitelist mode _
        (either word "whitelist" "white") (λ h. ground arith)))

read_name :
    (word value : String) (mode : ProxyMode)
    → IsProxyModeName mode word
    → read_proxy_mode word value ≡ ok mode
unfolding read_proxy_mode
read_name word value core h = rw h
read_name word value blacklist (inl h) = rw h
read_name word value blacklist (inr h) = rw h
read_name word value whitelist (inl h) = rw h
read_name word value whitelist (inr h) = rw h

-- A text reads as a proxy mode just when, trimmed and in lower case, it is one of the mode's texts.
pub parse_proxy_mode_lem :
    (value : String) (mode : ProxyMode)
    → (parse_proxy_mode value ≡ ok mode) ↔ IsProxyModeName mode (to_ascii_lowercase (trim value))
unfolding parse_proxy_mode
parse_proxy_mode_lem value mode = (
  name_of (to_ascii_lowercase (trim value)) value mode,
  read_name (to_ascii_lowercase (trim value)) value mode,
)
