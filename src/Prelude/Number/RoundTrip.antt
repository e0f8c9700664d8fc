-- ===== src/Prelude/Number/RoundTrip.antt =====
-- Decimal texts are read back as the number they were written for.
use Prim.Native.Char.{Char, code}
use Prim.Native.Nat.{ℕ, zero, suc, ◌+◌, ◌/◌, ◌%◌, ◌≤◌, ◌<◌}
use Prim.Native.String.{String}
use mathlib.Core.Path.{◌≡◌, refl, ◌∙◌, subst}
use mathlib.Core.Logic.{inl, inr}
use mathlib.Core.Bool.{Bool, true, ◌&&◌}
use mathlib.Core.Option.{some}
use native.Mathlib.Omega.{arith}
use boxproxy.Prelude.Tests.{leb, eqb, Bool-cases}
use boxproxy.Prelude.Search.{all_chars}
use boxproxy.Prelude.Number.{parse_digits, parse_unsigned, parse, digit, show_onto, show}

-- The ten digits.
code-digit : (d : ℕ) → d < 10 → code (digit d) ≡ d + 48
unfolding digit
code-digit zero h = refl
code-digit (suc zero) h = refl
code-digit (suc (suc zero)) h = refl
code-digit (suc (suc (suc zero))) h = refl
code-digit (suc (suc (suc (suc zero)))) h = refl
code-digit (suc (suc (suc (suc (suc zero))))) h = refl
code-digit (suc (suc (suc (suc (suc (suc zero)))))) h = refl
code-digit (suc (suc (suc (suc (suc (suc (suc zero))))))) h = refl
code-digit (suc (suc (suc (suc (suc (suc (suc (suc zero)))))))) h = refl
code-digit (suc (suc (suc (suc (suc (suc (suc (suc (suc zero))))))))) h = refl
code-digit (suc (suc (suc (suc (suc (suc (suc (suc (suc (suc d)))))))))) h = omega arith

parse_digits-digit :
    (max n : ℕ) (out : String)
    → n ≤ max
    → parse_digits max (n / 10) (String.◌∷◌ (digit (n % 10)) out) ≡ parse_digits max n out
unfolding parse_digits
parse_digits-digit max n out h = ground (arith, code-digit (n % 10) (omega arith))

from_zero :
    (max n : ℕ) (out : String)
    → n / 10 ≡ 0
    → n ≤ max
    → parse_digits max 0 (String.◌∷◌ (digit (n % 10)) out) ≡ parse_digits max n out
from_zero max n out small h =
    subst (λ k. parse_digits max k (String.◌∷◌ (digit (n % 10)) out) ≡ parse_digits max n out) small
      (parse_digits-digit max n out h)

parse_digits-show_onto :
    (max fuel n : ℕ) (out : String)
    → n < fuel
    → n ≤ max
    → parse_digits max 0 (show_onto 10 fuel n out) ≡ parse_digits max n out
unfolding show_onto
parse_digits-show_onto max zero n out h small = ground arith
parse_digits-show_onto max (suc fuel) n out h small = elim (Bool-cases (eqb (n / 10) 0)) [
  | inl last ↦ rw last (from_zero max n out (ground arith) small)
  | inr more ↦ rw more (
      parse_digits-show_onto max fuel (n / 10) _ (ground arith) (omega arith)
      ∙ parse_digits-digit max n out small)
]

abbrev pub is_digit : Char → Bool
is_digit c = leb 48 (code c) && leb (code c) 57

data Starts : String → Type 0 where
  starts_with : (d : ℕ) (s : String) → d < 10 → Starts (String.◌∷◌ (digit d) s)

show_onto-Starts : (fuel n : ℕ) (out : String) → Starts out → Starts (show_onto 10 fuel n out)
unfolding show_onto
show_onto-Starts zero n out h = h
show_onto-Starts (suc fuel) n out h = elim (Bool-cases (eqb (n / 10) 0)) [
  | inl last ↦ rw last (Starts.starts_with (n % 10) out (omega arith))
  | inr more ↦
      rw more (show_onto-Starts fuel (n / 10) _ (Starts.starts_with (n % 10) out (omega arith)))
]

show-Starts : (n : ℕ) → Starts (show n)
unfolding show show_onto
show-Starts n = elim (Bool-cases (eqb (n / 10) 0)) [
  | inl last ↦ rw last (Starts.starts_with (n % 10) "" (omega arith))
  | inr more ↦
      rw more (show_onto-Starts n (n / 10) _ (Starts.starts_with (n % 10) "" (omega arith)))
]

parse-Starts : (max : ℕ) (s : String) → Starts s → parse max s ≡ parse_digits max 0 s
unfolding parse parse_unsigned
parse-Starts max s (Starts.starts_with d out h) = ground (arith, code-digit d h)

pub parse-show : (max n : ℕ) → n ≤ max → parse max (show n) ≡ some n
unfolding show parse_digits
parse-show max n h =
    parse-Starts max _ (show-Starts n) ∙ parse_digits-show_onto max (suc n) n "" (omega arith) h

show_onto-all_digits :
    (fuel n : ℕ) (out : String)
    → all_chars is_digit out ≡ true
    → all_chars is_digit (show_onto 10 fuel n out) ≡ true
unfolding show_onto
show_onto-all_digits zero n out h = h
show_onto-all_digits (suc fuel) n out h = elim (Bool-cases (eqb (n / 10) 0)) [
  | inl last ↦ rw last (with_digit (n % 10) out (omega arith) h)
  | inr more ↦
      rw more (show_onto-all_digits fuel (n / 10) _ (with_digit (n % 10) out (omega arith) h))
]
  where
    with_digit :
        (d : ℕ) (s : String)
        → d < 10
        → all_chars is_digit s ≡ true
        → all_chars is_digit (String.◌∷◌ (digit d) s) ≡ true
    with_digit d s small rest = ground (arith, code-digit d small)

pub show-all_digits : (n : ℕ) → all_chars is_digit (show n) ≡ true
unfolding show
show-all_digits n = show_onto-all_digits (suc n) n "" refl
