-- ===== src/Config/Validation/Ports.antt =====
-- The ports that boxctl/src/config/validation.rs accepts.
use Prim.Native.Char.{Char}
use boxproxy.Prelude.{
  String, ℕ, ◌≤◌, true, Option, none, some, eqb, ◌≡◌, refl, sym, ◌∙◌, ap, inl, inr, Bool-cases,
  arith,
}
use boxproxy.Prelude.Text.{trim}
use boxproxy.Prelude.Text.{is_whitespace}
use boxproxy.Prelude.Text.Trim.{solid, trim-solid}
use boxproxy.Prelude.Text.Lines.{all_chars-all_chars}
use boxproxy.Prelude.Number.{parse, show, u16_max, parse-le}
use boxproxy.Prelude.Number.RoundTrip.{parse-show, show-all_digits, is_digit}
use boxproxy.Act.{ok}
use boxproxy.Config.Validation.{normalize_port, port_of}

digit-solid : (c : Char) → is_digit c ≡ true → solid c ≡ true
unfolding is_whitespace
digit-solid c h = ground arith

trim-show : (n : ℕ) → trim (show n) ≡ show n
trim-show n =
    trim-solid (show n)
      (all_chars-all_chars is_digit solid (show n) digit-solid (show-all_digits n))

port_of-some : (label value : String) (n : ℕ) → 1 ≤ n → port_of label value (some n) ≡ ok (show n)
unfolding port_of
port_of-some label value n low = elim (Bool-cases (eqb n 0)) [
  | inl none_at_all ↦ ground arith
  | inr positive ↦ rw positive refl
]

port_of-ok :
    (label value p : String) (found : Option ℕ)
    → port_of label value found ≡ ok p
    → (n : ℕ) × (1 ≤ n) × (found ≡ some n) × (ok (show n) ≡ ok p)
unfolding port_of
port_of-ok label value p none h = grind arith
port_of-ok label value p (some n) h = elim (Bool-cases (eqb n 0)) [
  | inl none_at_all ↦ grind arith
  | inr positive ↦ (n, ground arith, refl, sym (rw positive refl) ∙ h)
]

-- A port that is accepted is the text of a number from 1 to 65535, and it is accepted as it is.
pub normalize_port_lem :
    (label value p : String)
    → normalize_port label value ≡ ok p
    → (n : ℕ) × (1 ≤ n)
      × (n ≤ 65535)
      × (ok (show n) ≡ ok p)
      × (normalize_port label (show n) ≡ ok (show n))
unfolding normalize_port
normalize_port_lem label value p h =
    let (n, low, found, same) = port_of-ok label (trim value) p (parse u16_max (trim value)) h in
    let high = parse-le u16_max (trim value) n found in
    (
      n,
      low,
      high,
      same,
      ap (λ t. port_of label t (parse u16_max t)) (trim-show n)
          ∙ (ap (port_of label (show n)) (parse-show u16_max n high)
              ∙ port_of-some label (show n) n low),
    )
