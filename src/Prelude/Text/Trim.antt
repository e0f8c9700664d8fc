-- ===== src/Prelude/Text/Trim.antt =====
-- `trim` leaves a text alone that has no blank in it.
use Prim.Native.Char.{Char}
use Prim.Native.String.{String}
use mathlib.Core.Path.{◌≡◌, refl, sym, ap, ◌∙◌}
use mathlib.Core.Logic.{inl, inr}
use mathlib.Core.Bool.{Bool, true, false, not, true≢false}
use boxproxy.Prelude.Tests.{Bool-cases}
use boxproxy.Prelude.Search.{all_chars}
use boxproxy.Prelude.Text.{is_whitespace, trim_start, trim_end, trim, push_back}

abbrev pub solid : Char → Bool
solid c = not (is_whitespace c)

-- The first character and the rest of a text with no blank.
solid_parts :
    (c : Char) (s : String)
    → all_chars solid (String.◌∷◌ c s) ≡ true
    → (is_whitespace c ≡ false) × (all_chars solid s ≡ true)
solid_parts c s h = elim (Bool-cases (is_whitespace c)) [
  | inl blank ↦ elim (true≢false (sym h ∙ rw blank refl)) [ ]
  | inr inked ↦ (inked, sym (rw inked refl) ∙ h)
]

trim_start-solid : (s : String) → all_chars solid s ≡ true → trim_start s ≡ s
unfolding trim_start
trim_start-solid String.[] h = refl
trim_start-solid (String.◌∷◌ c s) h = rw (solid_parts c s h).0 refl

push_back-solid : (c : Char) (s : String) → is_whitespace c ≡ false → push_back c s ≡ String.◌∷◌ c s
push_back-solid c String.[] h = rw h refl
push_back-solid c (String.◌∷◌ d s) h = refl

trim_end-solid : (s : String) → all_chars solid s ≡ true → trim_end s ≡ s
unfolding trim_end
trim_end-solid String.[] h = refl
trim_end-solid (String.◌∷◌ c s) h =
    let parts = solid_parts c s h in
    ap (push_back c) (trim_end-solid s parts.1) ∙ push_back-solid c s parts.0

pub trim-solid : (s : String) → all_chars solid s ≡ true → trim s ≡ s
unfolding trim
trim-solid s h = ap trim_end (trim_start-solid s h) ∙ trim_end-solid s h
