-- ===== src/Config/Validation/Accepted.antt =====
-- The lists that boxctl/src/config/validation.rs accepts.
use boxproxy.Prelude.{
  String, Bool, true, false, List, [], ◌∷◌, ◌++◌, if◌then◌else◌, contains, All, All-append,
  append-nil, append_assoc, ℕ, ◌≤◌, ◌&&◌, leb→le, Option, none, some, arith, ◌≡◌, refl, sym, inl,
  inr, Bool-cases,
}
use mathlib.Core.Path.{subst}
use mathlib.Core.Bool.{true≢false}
use boxproxy.Prelude.Text.{is_blank, trim, split_once}
use boxproxy.Prelude.Number.{parse, u8_max}
use boxproxy.Act.{Result, ok, err}
use boxproxy.Act.Returns.{OkOr}
use boxproxy.Config.Validation.{
  Addresses, prefix_within, cidr_is_valid, validate_cidr, normalize_optional_cidr,
  normalize_cidr_list, continue_with, push_new, normalize_each, is_valid_interface_name,
  normalize_optional_interface, normalize_interface_list,
}

-- No element is one of those before it.
abbrev pub Distinct : List String → List String → Type 0
Distinct seen [] = Unit
Distinct seen (x ∷ xs) = (contains seen x ≡ false) × Distinct (seen ++ (x ∷ [])) xs

-- Every element passes, none is blank, and none comes twice.
abbrev pub Accepted : (String → Type 0) → List String → Type 0
Accepted P xs = All (λ x. P x × (is_blank x ≡ false)) xs × Distinct [] xs

Distinct-push_new :
    (seen xs : List String) (x : String)
    → Distinct seen xs
    → contains (seen ++ xs) x ≡ false
    → Distinct seen (xs ++ (x ∷ []))
Distinct-push_new seen [] x h new = (subst (λ l. contains l x ≡ false) (append-nil seen) new, tt)
Distinct-push_new seen (y ∷ xs) x h new = (
  h.0,
  Distinct-push_new (seen ++ (y ∷ [])) xs x h.1
      (subst (λ l. contains l x ≡ false) (sym (append_assoc seen (y ∷ []) xs)) new),
)

module _ (P : String → Type 0) where
  push_new-Accepted :
      (xs : List String) (x : String)
      → Accepted P xs
      → (is_blank x ≡ false → P x)
      → Accepted P (push_new xs x)
  push_new-Accepted xs x h passes = elim (Bool-cases (is_blank x)) [
    | inl blank ↦ rw blank h
    | inr inked ↦ elim (Bool-cases (contains xs x)) [
      | inl known ↦ rw (inked, known) h
      | inr fresh ↦
          rw (inked, fresh)
            (
              All-append (λ y. P y × (is_blank y ≡ false)) xs (x ∷ []) h.0
                  ((passes inked, inked), tt),
              Distinct-push_new [] xs x h.1 fresh,
            )
    ]
  ]

  continue-Accepted :
      (r : Result String) (rest : String → Result (List String))
      → OkOr (λ x. is_blank x ≡ false → P x) r
      → ((x : String) → (is_blank x ≡ false → P x) → OkOr (Accepted P) (rest x))
      → OkOr (Accepted P) (continue_with r rest)
  continue-Accepted (ok x) rest h k = k x h
  continue-Accepted (err _) rest h k = tt

  normalize_each-Accepted :
      (normalize : String → Result String)
      → ((value : String) → OkOr (λ x. is_blank x ≡ false → P x) (normalize value))
      → (values seen : List String) → Accepted P seen
      → OkOr (Accepted P) (normalize_each normalize values seen)
  unfolding normalize_each
  normalize_each-Accepted normalize passes [] seen h = h
  normalize_each-Accepted normalize passes (value ∷ values) seen h =
      continue-Accepted (normalize value) _ (passes value) (λ x good.
        normalize_each-Accepted normalize passes values (push_new seen x)
          (push_new-Accepted seen x h good))

-- A value that `test` lets through, or nothing, or an error.
tested :
    (test : String → Bool) (value : String) (e : String)
    → OkOr
        (λ x. is_blank x ≡ false → test x ≡ true)
        (if is_blank value then ok "" else if test value then ok value else err e)
tested test value e = elim (Bool-cases (is_blank value)) [
  | inl blank ↦ rw blank (λ never. elim (true≢false never) [ ])
  | inr inked ↦ elim (Bool-cases (test value)) [
    | inl good ↦ rw (inked, good) (λ _. good)
    | inr bad ↦ rw (inked, bad) tt
  ]
]

-- A list of interfaces that is accepted holds valid names only: none of them is blank, and none
-- comes twice.
pub normalize_interface_list-Accepted :
    (label : String) (values : List String)
    → OkOr
        (Accepted (λ name. is_valid_interface_name name ≡ true))
        (normalize_interface_list label values)
unfolding normalize_interface_list normalize_optional_interface
normalize_interface_list-Accepted label values =
    normalize_each-Accepted (λ name. is_valid_interface_name name ≡ true)
      (normalize_optional_interface label) (λ value. tested is_valid_interface_name (trim value) _)
      values [] (tt, tt)

-- An address of the family, and a prefix in digits no longer than such an address.
abbrev pub IsCidr : Addresses → Bool → String → Type 0
IsCidr a true cidr =
    (address prefix : String) × (n : ℕ) × (split_once "/" cidr ≡ some (address, prefix))
    × (a.is_ipv6 address ≡ true)
    × (parse u8_max prefix ≡ some n)
    × (n ≤ 128)
IsCidr a false cidr =
    (address prefix : String) × (n : ℕ) × (split_once "/" cidr ≡ some (address, prefix))
    × (a.is_ipv4 address ≡ true)
    × (parse u8_max prefix ≡ some n)
    × (n ≤ 32)

within :
    (read : Option ℕ) (most : ℕ)
    → prefix_within read most ≡ true
    → (n : ℕ) × (read ≡ some n) × (n ≤ most)
within none most h = ground arith
within (some n) most h = (n, refl, leb→le n most h)

both_hold : (a b : Bool) → (a && b) ≡ true → (a ≡ true) × (b ≡ true)
both_hold true b h = (refl, h)
both_hold false b h = ground arith

cut :
    (a : Addresses) (ipv6 : Bool) (cidr : String) (pair : Option (String × String))
    → split_once "/" cidr ≡ pair
    → cidr_is_valid a ipv6 pair ≡ true
    → IsCidr a ipv6 cidr
unfolding cidr_is_valid
cut a true cidr none at h = elim (true≢false (sym h)) [ ]
cut a false cidr none at h = elim (true≢false (sym h)) [ ]
cut a true cidr (some (address, prefix)) at h =
    let (good, short) = both_hold (a.is_ipv6 address) _ h in
    let (n, read, le) = within (parse u8_max prefix) 128 short in
    (address, prefix, n, at, good, read, le)
cut a false cidr (some (address, prefix)) at h =
    let (good, short) = both_hold (a.is_ipv4 address) _ h in
    let (n, read, le) = within (parse u8_max prefix) 32 short in
    (address, prefix, n, at, good, read, le)

validated :
    (a : Addresses) (cidr : String) (ipv6 : Bool)
    → validate_cidr a cidr ipv6 ≡ true
    → IsCidr a ipv6 cidr
unfolding validate_cidr
validated a cidr ipv6 h = cut a ipv6 cidr (split_once "/" cidr) refl h

weaken :
    (P Q : String → Type 0) (r : Result String)
    → ((x : String) → P x → Q x)
    → OkOr (λ x. is_blank x ≡ false → P x) r
    → OkOr (λ x. is_blank x ≡ false → Q x) r
weaken P Q (ok x) f h = λ inked. f x (h inked)
weaken P Q (err e) f h = tt

-- A list of networks that is accepted holds texts of an address of the family that is asked for, a
-- slash and a prefix of at most 128 or 32 bits; none of them is blank, and none comes twice.
pub normalize_cidr_list-Accepted :
    (a : Addresses) (label : String) (ipv6 : Bool) (values : List String)
    → OkOr (Accepted (IsCidr a ipv6)) (normalize_cidr_list a label ipv6 values)
unfolding normalize_cidr_list normalize_optional_cidr
normalize_cidr_list-Accepted a label ipv6 values =
    normalize_each-Accepted (IsCidr a ipv6) (normalize_optional_cidr a label ipv6)
      (λ value.
        weaken (λ cidr. validate_cidr a cidr ipv6 ≡ true) (IsCidr a ipv6) _
          (λ cidr. validated a cidr ipv6)
          (tested (λ cidr. validate_cidr a cidr ipv6) (trim value) _))
      values [] (tt, tt)
