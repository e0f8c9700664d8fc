-- ===== src/Prelude/Sort/Laws.antt =====
-- What sorting and dropping of neighbours keep.
use boxproxy.Prelude.Tests.{Bool-cases}
use boxproxy.Prelude.Lists.{All}
use boxproxy.Prelude.Sort.{insert, sort, dedup_from, dedup}
use mathlib.Core.Path.{◌≡◌}
use mathlib.Core.Bool.{Bool, false}
use mathlib.Core.Logic.{inl, inr}
use mathlib.Core.List.{List, [], ◌∷◌}

module _ {ℓ} {A : Type ℓ} (P : A → Type ℓ) where
  insert-All : (le : A → A → Bool) (x : A) (ys : List A) → P x → All P ys → All P (insert le x ys)
  unfolding insert
  insert-All le x [] p h = (p, tt)
  insert-All le x (y ∷ ys) p h = elim (Bool-cases (le x y)) [
    | inl first ↦ rw first (p, h)
    | inr later ↦ rw later (h.0, insert-All le x ys p h.1)
  ]

  pub sort-All : (le : A → A → Bool) (xs : List A) → All P xs → All P (sort le xs)
  unfolding sort
  sort-All le [] h = tt
  sort-All le (x ∷ xs) h = insert-All le x (sort le xs) h.0 (sort-All le xs h.1)

  dedup_from-All : (eq : A → A → Bool) (x : A) (ys : List A) → All P ys → All P (dedup_from eq x ys)
  unfolding dedup_from
  dedup_from-All eq x [] h = tt
  dedup_from-All eq x (y ∷ ys) h = elim (Bool-cases (eq x y)) [
    | inl same ↦ rw same (dedup_from-All eq x ys h.1)
    | inr new ↦ rw new (h.0, dedup_from-All eq y ys h.1)
  ]

  pub dedup-All : (eq : A → A → Bool) (xs : List A) → All P xs → All P (dedup eq xs)
  unfolding dedup
  dedup-All eq [] h = tt
  dedup-All eq (x ∷ xs) h = (h.0, dedup_from-All eq x xs h.1)

module _ {ℓ} {A : Type ℓ} (eq : A → A → Bool) where
  -- No element equals the one before it, the first one counted from `x`.
  abbrev pub DistinctFrom : A → List A → Type 0
  DistinctFrom x [] = Unit
  DistinctFrom x (y ∷ ys) = (eq x y ≡ false) × DistinctFrom y ys

  abbrev pub DistinctNeighbours : List A → Type 0
  DistinctNeighbours [] = Unit
  DistinctNeighbours (x ∷ xs) = DistinctFrom x xs

  dedup_from-DistinctFrom : (x : A) (ys : List A) → DistinctFrom x (dedup_from eq x ys)
  unfolding dedup_from
  dedup_from-DistinctFrom x [] = tt
  dedup_from-DistinctFrom x (y ∷ ys) = elim (Bool-cases (eq x y)) [
    | inl same ↦ rw same (dedup_from-DistinctFrom x ys)
    | inr new ↦ rw new (new, dedup_from-DistinctFrom y ys)
  ]

  pub dedup-DistinctNeighbours : (xs : List A) → DistinctNeighbours (dedup eq xs)
  unfolding dedup
  dedup-DistinctNeighbours [] = tt
  dedup-DistinctNeighbours (x ∷ xs) = dedup_from-DistinctFrom x xs
