-- ===== src/Rules/Vendor/Deletion.antt =====
-- What deleting rules by their numbers leaves: boxctl/src/rules/vendor_firewall.rs deletes the
-- highest number first.
use boxproxy.Prelude.{
  String, ℕ, zero, suc, ◌+◌, ◌≤◌, ◌<◌, Bool, true, false, ◌||◌, List, [], ◌∷◌, if◌then◌else◌, leb,
  eqb, leb→le, Bool-cases, inl, inr, All, ◌≡◌, refl, sym, ◌∙◌, arith,
}
use boxproxy.Prelude.Text.{lines}
use boxproxy.Prelude.Sort.{insert, sort, dedup_from, dedup}
use boxproxy.Rules.Vendor.{rule_numbers, reject_numbers}

-- Each number is below the one in front of it.
abbrev pub Descending : List ℕ → Type 0
Descending [] = Unit
Descending (n ∷ ns) = All (λ m. m < n) ns × Descending ns

abbrev NotAbove : ℕ → ℕ → Type 0
NotAbove n m = m ≤ n

-- No number is above one in front of it.
abbrev Sorted : List ℕ → Type 0
Sorted [] = Unit
Sorted (n ∷ ns) = All (NotAbove n) ns × Sorted ns

All-weaken : (P Q : ℕ → Type 0) → ((n : ℕ) → P n → Q n) → (ns : List ℕ) → All P ns → All Q ns
All-weaken P Q f [] h = tt
All-weaken P Q f (n ∷ ns) h = (f n h.0, All-weaken P Q f ns h.1)

All-below : (n k : ℕ) (ns : List ℕ) → n ≤ k → All (λ m. m < n) ns → All (λ m. m < k) ns
All-below n k ns le = All-weaken _ _ (λ m lt. omega (arith, lt, le)) ns

abbrev at_least : ℕ → ℕ → Bool
at_least a b = leb b a

insert-All : (P : ℕ → Type 0) (n : ℕ) (ns : List ℕ) → P n → All P ns → All P (insert at_least n ns)
unfolding insert
insert-All P n [] p h = (p, tt)
insert-All P n (m ∷ ms) p h = elim (Bool-cases (leb m n)) [
  | inl first ↦ rw first (p, h)
  | inr later ↦ rw later (h.0, insert-All P n ms p h.1)
]

insert-Sorted : (n : ℕ) (ns : List ℕ) → Sorted ns → Sorted (insert at_least n ns)
unfolding insert
insert-Sorted n [] h = (tt, tt)
insert-Sorted n (m ∷ ms) h = elim (Bool-cases (leb m n)) [
  | inl first ↦
      rw first
        ((leb→le m n first, All-weaken _ _ (λ k le. omega (arith, le, leb→le m n first)) ms h.0), h)
  | inr later ↦ rw later (insert-All (NotAbove m) n ms (ground arith) h.0, insert-Sorted n ms h.1)
]

sort-Sorted : (ns : List ℕ) → Sorted (sort at_least ns)
unfolding sort
sort-Sorted [] = tt
sort-Sorted (n ∷ ns) = insert-Sorted n (sort at_least ns) (sort-Sorted ns)

dedup_from-Descending :
    (n : ℕ) (ns : List ℕ)
    → All (NotAbove n) ns
    → Sorted ns
    → All (λ m. m < n) (dedup_from eqb n ns) × Descending (dedup_from eqb n ns)
unfolding dedup_from
dedup_from-Descending n [] h sorted = (tt, tt)
dedup_from-Descending n (m ∷ ms) h sorted = elim (Bool-cases (eqb n m)) [
  | inl same ↦ rw same (dedup_from-Descending n ms h.1 sorted.1)
  | inr new ↦
      let (below, rest) = dedup_from-Descending m ms sorted.0 sorted.1 in
      let first : m < n = ground arith in
      rw new ((first, All-weaken _ _ (λ k lt. omega (arith, lt, first)) _ below), (below, rest))
]

reject_numbers-Descending : (text : String) → Descending (reject_numbers text)
unfolding reject_numbers dedup
reject_numbers-Descending text = finish _ (sort-Sorted (rule_numbers (lines text)))
  where
    finish : (ns : List ℕ) → Sorted ns → Descending (dedup eqb ns)
    finish [] h = tt
    finish (n ∷ ns) h = dedup_from-Descending n ns h.0 h.1

abbrev is_in : List ℕ → ℕ → Bool
is_in [] n = false
is_in (m ∷ ms) n = eqb m n || is_in ms n

is_in-below : (ns : List ℕ) (k : ℕ) → All (λ m. m < k) ns → is_in ns k ≡ false
is_in-below [] k h = refl
is_in-below (m ∷ ms) k h = rw (is_in-below ms k h.1, differ) refl
  where
    differ : eqb m k ≡ false
    differ = ground (arith, h.0)

module _ {R : Type 0} where
  abbrev delete_at : ℕ → List R → List R
  delete_at n [] = []
  delete_at zero (r ∷ rs) = rs
  delete_at (suc n) (r ∷ rs) = r ∷ delete_at n rs

  -- A chain without its rule of a number, counted from 1.
  abbrev pub delete_rule : ℕ → List R → List R
  delete_rule zero rs = rs
  delete_rule (suc n) rs = delete_at n rs

  -- The rules go one after the other, each by its number in what the deletions before it left.
  abbrev pub delete_each : List ℕ → List R → List R
  delete_each [] rs = rs
  delete_each (n ∷ ns) rs = delete_each ns (delete_rule n rs)

  -- The rules whose number in the whole chain, the first being `k`, is not among `ns`.
  abbrev pub others : List ℕ → ℕ → List R → List R
  others ns k [] = []
  others ns k (r ∷ rs) = if is_in ns k then others ns (suc k) rs else r ∷ others ns (suc k) rs

  others-below : (ns : List ℕ) (k : ℕ) (rs : List R) → All (λ m. m < k) ns → others ns k rs ≡ rs
  others-below ns k [] h = refl
  others-below ns k (r ∷ rs) h =
      rw (is_in-below ns k h, others-below ns (suc k) rs (All-below k (suc k) ns (omega arith) h))
        refl

  others-delete_at :
      (ns : List ℕ) (n k d : ℕ) (rs : List R)
      → n ≡ k + d
      → All (λ m. m < n) ns
      → others ns k (delete_at d rs) ≡ others (n ∷ ns) k rs
  others-delete_at ns n k d [] at h = refl
  others-delete_at ns n k zero (r ∷ rs) at h =
      let here : eqb n k ≡ true = ground (arith, at) in
      rw
        (
          here,
          others-below ns k rs (All-below n k ns (omega (arith, at)) h),
          others-below (n ∷ ns) (suc k) rs
              (omega (arith, at), All-below n (suc k) ns (omega (arith, at)) h),
        )
        refl
  others-delete_at ns n k (suc d) (r ∷ rs) at h =
      let elsewhere : eqb n k ≡ false = ground (arith, at) in
      rw (elsewhere, others-delete_at ns n (suc k) d rs (omega (arith, at)) h) refl

  others-delete_rule :
      (ns : List ℕ) (n : ℕ) (rs : List R)
      → All (λ m. m < n) ns
      → others ns 1 (delete_rule n rs) ≡ others (n ∷ ns) 1 rs
  others-delete_rule ns zero rs h =
      let early = All-below 0 1 ns (omega arith) h in
      others-below ns 1 rs early ∙ sym (others-below (0 ∷ ns) 1 rs (omega arith, early))
  others-delete_rule ns (suc d) rs h = others-delete_at ns (suc d) 1 d rs (omega arith) h

  delete_each-others :
      (ns : List ℕ) (rs : List R) → Descending ns → delete_each ns rs ≡ others ns 1 rs
  delete_each-others [] rs h = sym (others-below [] 1 rs tt)
  delete_each-others (n ∷ ns) rs h =
      delete_each-others ns (delete_rule n rs) h.1 ∙ others-delete_rule ns n rs h.0

  -- Deleting the numbers that are read from a listing one after the other, each counted in the
  -- chain that the deletions before it left, leaves just the rules whose numbers in the whole chain
  -- were not among them.
  pub delete_each-reject_numbers :
      (text : String) (rs : List R)
      → delete_each (reject_numbers text) rs ≡ others (reject_numbers text) 1 rs
  delete_each-reject_numbers text rs =
      delete_each-others (reject_numbers text) rs (reject_numbers-Descending text)
