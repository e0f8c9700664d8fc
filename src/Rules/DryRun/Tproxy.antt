-- ===== src/Rules/DryRun/Tproxy.antt =====
-- A dry run of the whole TPROXY mode of boxctl/src/rules.rs.
use boxproxy.Prelude.{true, false, none, ◌≡◌, refl, arith}
use boxproxy.Act.{Result, ok, err, is_ok}
use boxproxy.Rules.Names.{v4, RuleContext, Capabilities}
use boxproxy.Rules.Manager.{Env, World}
use boxproxy.Rules.Capabilities.{begin_batch}
use boxproxy.Rules.Tproxy.{start_tproxy}
use boxproxy.Rules.Modes.{apply_tproxy_family}
use boxproxy.Rules.Rollback.{apply_tproxy_family-err}
use boxproxy.Rules.DualStack.{batched, apply_dual_stack, apply_tproxy}
use boxproxy.Rules.DualStack.Batches.{first_error, batched_lem}
use boxproxy.Rules.DryRun.{Fails, Fails-first, start_tproxy-dry_run}

first_error_err : (r s : Result (Unit {0})) → is_ok r ≡ false → is_ok (first_error r s) ≡ false
first_error_err (ok tt) s h = ground arith
first_error_err (err e) s h = refl

module _ {S : Type 0} ⦃E : Env S⦄ (context : RuleContext) (capabilities : Capabilities) where
  family_err :
      (w w' : World S) (r : Result (Unit {0}))
      → start_tproxy v4 context capabilities w ≡ (r, w')
      → is_ok r ≡ false
      → is_ok (apply_tproxy_family v4 context capabilities w).0 ≡ false
  family_err w w' (ok tt) eq h = ground arith
  family_err w w' (err e) eq h = rw (apply_tproxy_family-err v4 context capabilities w w' e eq)

  opened : E.runner.dry_run ≡ true → (w : World S) → begin_batch v4 w ≡ (ok tt, w)
  unfolding begin_batch
  opened dry w = rw dry

  batched-Fails :
      E.runner.dry_run ≡ true
      → Fails {S = S} (batched (λ family. apply_tproxy_family family context capabilities) v4)
  batched-Fails dry = record {
    at = λ w h.
        rw
          (
            (batched_lem (λ family. apply_tproxy_family family context capabilities) v4 w).0,
            opened dry w,
          )
          (first_error_err _ _
            (family_err w _ _ refl (start_tproxy-dry_run v4 context capabilities w dry h)));
  }

  apply_tproxy-Fails : E.runner.dry_run ≡ true → Fails {S = S} (apply_tproxy context capabilities)
  unfolding apply_tproxy apply_dual_stack
  apply_tproxy-Fails dry = Fails-first _ _ (batched-Fails dry)

  -- A dry run of the TPROXY mode that starts with no open batch ends in an error.
  pub apply_tproxy-dry_run :
      (w : World S)
      → E.runner.dry_run ≡ true
      → w.batch ≡ none
      → is_ok (apply_tproxy context capabilities w).0 ≡ false
  apply_tproxy-dry_run w dry h = (apply_tproxy-Fails dry).at w h
