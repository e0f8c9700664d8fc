-- ===== src/Rules/DualStack/Batches.antt =====
-- The batch of one family in `apply_dual_stack` of boxctl/src/rules.rs.
use boxproxy.Prelude.{true, none, ◌≡◌, refl, ◌∙◌, arith}
use boxproxy.Act.{Result, ok, err, is_ok, Act, lift, attempt, ◌>>=◌}
use boxproxy.Act.Total.{Total}
use boxproxy.Rules.Names.{Family}
use boxproxy.Rules.Manager.{Env, World}
use boxproxy.Rules.Capabilities.{begin_batch}
use boxproxy.Rules.Flush.{end_batch}
use boxproxy.Rules.Flush.Sweep.{end_batch-flush_batch}
use boxproxy.Rules.DualStack.{batched}
use boxproxy.Rules.Total.Capabilities.{capabilities_total}

-- The error of the family comes before the error of the flush.
abbrev pub first_error : Result (Unit {0}) → Result (Unit {0}) → Result (Unit {0})
first_error (ok _) flushed = flushed
first_error (err e) flushed = err e

module _ {W : Type 0} where
  both : (r s : Result (Unit {0})) (w : W) → (lift r >>= λ _. lift s) w ≡ (first_error r s, w)
  unfolding ◌>>=◌
  both (ok tt) s w = refl
  both (err e) s w = refl

  skip_ok :
      (r : Result (Unit {0})) (n : Act W Unit) (w : W)
      → is_ok r ≡ true
      → (lift r >>= λ _. n) w ≡ n w
  unfolding ◌>>=◌
  skip_ok (ok tt) n w h = refl
  skip_ok (err e) n w h = ground arith

module _ {S : Type 0} ⦃E : Env S⦄ where
  -- The rules of a family are built on the state that opening the batch leaves, then the batch is
  -- closed, also where building failed; the error of the rules comes before that of the flush,
  -- and no batch is open afterwards.
  pub batched_lem :
      (per_family : Family → Act (World S) Unit) (family : Family) (w : World S)
      → let built = per_family family (begin_batch family w).1 in
        let closed = end_batch built.1 in
        (batched per_family family w ≡ (first_error built.0 closed.0, closed.1))
        × (closed.1.batch ≡ none)
  unfolding batched ◌>>=◌
  batched_lem per_family family w =
      let opened : Total {W = World S} (begin_batch family) = search capabilities_total in
      let built = per_family family (begin_batch family w).1 in
      let closed = end_batch built.1 in
      (
        skip_ok (begin_batch family w).0
              (attempt (per_family family) >>= λ b.
                attempt end_batch >>= λ f. lift b >>= λ _. lift f)
              (begin_batch family w).1 (opened.at w)
            ∙ both built.0 closed.0 closed.1,
        (end_batch-flush_batch built.1).1,
      )
