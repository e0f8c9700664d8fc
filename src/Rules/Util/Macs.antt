-- ===== src/Rules/Util/Macs.antt =====
-- The device addresses that pass the filter of boxctl/src/rules/util.rs.
use Prim.Native.Char.{Char, code}
use boxproxy.Prelude.{
  String, ◌≤◌, true, List, [], ◌∷◌, map, All, all, length, eqb, ◌≡◌, refl, sym, ◌∙◌, ◌⊎◌, inl, inr,
  Bool-cases, arith,
}
use boxproxy.Prelude.Text.{trim, to_ascii_lowercase, split}
use boxproxy.Rules.Util.{is_hex_digit, two_hex_digits, is_valid_mac, keep_valid, valid_macs}

-- A digit, or a letter from A to F.
abbrev pub IsHexDigit : Char → Type 0
IsHexDigit c =
    ((48 ≤ code c) × (code c ≤ 57))
    ⊎ ((65 ≤ code c) × (code c ≤ 70))
    ⊎ ((97 ≤ code c) × (code c ≤ 102))

abbrev pub IsOctet : String → Type 0
IsOctet (String.◌∷◌ a (String.◌∷◌ b String.[])) = IsHexDigit a × IsHexDigit b
IsOctet _ = ⊥

-- Six octets between colons.
abbrev pub IsMac : String → Type 0
IsMac mac = let parts = split (λ c. eqb (code c) b':') mac in (length parts ≡ 6) × All IsOctet parts

digit : (c : Char) → is_hex_digit c ≡ true → IsHexDigit c
unfolding is_hex_digit
digit c h = ground arith

octet : (part : String) → two_hex_digits part ≡ true → IsOctet part
unfolding two_hex_digits
octet String.[] h = ground arith
octet (String.◌∷◌ a String.[]) h = ground arith
octet (String.◌∷◌ a (String.◌∷◌ b String.[])) h = elim (Bool-cases (is_hex_digit a)) [
  | inl first ↦ (digit a first, digit b (sym (rw first refl) ∙ h))
  | inr bad ↦ grind arith
]
octet (String.◌∷◌ a (String.◌∷◌ b (String.◌∷◌ c s))) h = ground arith

octets : (parts : List String) → all two_hex_digits parts ≡ true → All IsOctet parts
octets [] h = tt
octets (part ∷ parts) h = elim (Bool-cases (two_hex_digits part)) [
  | inl good ↦ (octet part good, octets parts (sym (rw good refl) ∙ h))
  | inr bad ↦ grind arith
]

mac : (value : String) → is_valid_mac value ≡ true → IsMac value
unfolding is_valid_mac
mac value h = elim (Bool-cases (eqb (length (split (λ c. eqb (code c) b':') value)) 6)) [
  | inl six ↦ (ground (arith, six), octets _ (sym (rw six refl) ∙ h))
  | inr bad ↦ grind arith
]

keep_valid-All : (values : List String) → All IsMac (keep_valid values)
keep_valid-All [] = tt
keep_valid-All (value ∷ values) = elim (Bool-cases (is_valid_mac value)) [
  | inl valid ↦ rw valid (mac value valid, keep_valid-All values)
  | inr wrong ↦ rw wrong (keep_valid-All values)
]

-- Every address that the filter lets through has six parts between its colons, each of two
-- characters that are digits or letters from A to F.
pub valid_macs-All : (values : List String) → All IsMac (valid_macs values)
unfolding valid_macs
valid_macs-All values = keep_valid-All (map (λ value. to_ascii_lowercase (trim value)) values)
