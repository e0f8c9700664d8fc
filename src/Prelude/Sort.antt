-- ===== src/Prelude/Sort.antt =====
-- `sort` and `dedup` of Rust's vectors, over a Boolean order.
pub mod Laws
use Prim.Native.String.{String, compare}
use text.Mathlib.Text.{is_le}
use boxproxy.Prelude.Tests.{if◌then◌else◌}
use mathlib.Core.Bool.{Bool}
use mathlib.Core.List.{List, [], ◌∷◌}

module _ {ℓ} {A : Type ℓ} where
  unfoldable pub insert : (A → A → Bool) → A → List A → List A
  insert le x [] = x ∷ []
  insert le x (y ∷ ys) = let rest = insert le x ys in if le x y then x ∷ y ∷ ys else y ∷ rest

  unfoldable pub sort : (A → A → Bool) → List A → List A
  unfolding insert
  sort le [] = []
  sort le (x ∷ xs) = insert le x (sort le xs)

  -- Drops an element that equals the one before it.
  unfoldable pub dedup_from : (A → A → Bool) → A → List A → List A
  dedup_from eq x [] = []
  dedup_from eq x (y ∷ ys) =
      let skipped = dedup_from eq x ys in
      let kept = dedup_from eq y ys in if eq x y then skipped else y ∷ kept

  unfoldable pub dedup : (A → A → Bool) → List A → List A
  unfolding dedup_from
  dedup eq [] = []
  dedup eq (x ∷ xs) = x ∷ dedup_from eq x xs

abbrev pub string_le : String → String → Bool
string_le a b = is_le (compare a b)
