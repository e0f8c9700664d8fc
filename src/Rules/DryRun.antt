-- ===== src/Rules/DryRun.antt =====
-- A dry run of the TPROXY mode: `ip_required` of boxctl/src/rules/exec.rs has no test of
-- `dry_run`, and `Runner::run` answers a dry run with a failure.
pub mod Tproxy
use boxproxy.Prelude.{arith, true, false, none, ◌≡◌, refl}
use boxproxy.Act.Keeps.{Keeps, keeps_rules}
use boxproxy.Rules.Flush.Depth.{NoBatch}
use boxproxy.Act.{lift, Result, ok, err, is_ok, Act, ◌>>=◌}
use boxproxy.Exec
use boxproxy.Rules.Names.{Family, v4, v6, RuleContext, Capabilities}
use boxproxy.Rules.Manager.{Env, World, on_host}
use boxproxy.Rules.Flush.{flush_batch}
use boxproxy.Rules.Command.{ensure_ip_rule}
use boxproxy.Rules.Routing.{setup_tproxy_policy_routing}
use boxproxy.Rules.Tproxy.{start_tproxy, require_tproxy}

-- From a state with no open batch the action ends in an error.
pub record Fails {S A : Type 0} (m : Act (World S) A) : Type 0 where
  pub at : (w : World S) → NoBatch w → is_ok (m w).0 ≡ false

module _ {S A B : Type 0} where
  after_err :
      (r : Result A) (f : A → Act (World S) B) (w : World S)
      → is_ok r ≡ false
      → is_ok ((lift r >>= f) w).0 ≡ false
  unfolding ◌>>=◌
  after_err (ok a) f w h = ground arith
  after_err (err e) f w h = refl

  then-Fails :
      (r : Result A) (f : A → Act (World S) B) (w : World S)
      → NoBatch w
      → ((a : A) → Fails (f a))
      → is_ok ((lift r >>= f) w).0 ≡ false
  unfolding ◌>>=◌
  then-Fails (ok a) f w h k = (k a).at w h
  then-Fails (err e) f w h k = refl

  pub Fails-first : (m : Act (World S) A) (f : A → Act (World S) B) → Fails m → Fails (m >>= f)
  unfolding ◌>>=◌
  Fails-first m f k = record { at = λ w h. after_err (m w).0 f (m w).1 (k.at w h) }

  Fails-second :
      (m : Act (World S) A) (f : A → Act (World S) B)
      → Keeps NoBatch m
      → ((a : A) → Fails (f a))
      → Fails (m >>= f)
  unfolding ◌>>=◌
  Fails-second m f kept k = record { at = λ w h. then-Fails (m w).0 f (m w).1 (kept.at w h) k }

module _ {S : Type 0} ⦃E : Env S⦄ where
  routing-dry_run :
      E.runner.dry_run ≡ true
      → (family : Family) → Fails {S = S} (setup_tproxy_policy_routing family)
  unfolding setup_tproxy_policy_routing on_host Exec.run ◌>>=◌ ensure_ip_rule flush_batch
  routing-dry_run dry family = record { at = λ w h. rw (h, dry) }

  require_tproxy-NoBatch :
      (family : Family) (capabilities : Capabilities)
      → Keeps {W = World S} NoBatch (require_tproxy family capabilities)
  unfolding require_tproxy
  require_tproxy-NoBatch v4 capabilities = search keeps_rules
  require_tproxy-NoBatch v6 capabilities = search keeps_rules

  start_tproxy-Fails :
      E.runner.dry_run ≡ true
      → (family : Family) (context : RuleContext) (capabilities : Capabilities)
      → Fails {S = S} (start_tproxy family context capabilities)
  unfolding start_tproxy
  start_tproxy-Fails dry family context capabilities =
      Fails-second (require_tproxy family capabilities) _
        (require_tproxy-NoBatch family capabilities)
        (λ _. Fails-first (setup_tproxy_policy_routing family) _ (routing-dry_run dry family))

  -- In a dry run with no open batch TPROXY cannot be set up, whatever the device supports.
  pub start_tproxy-dry_run :
      (family : Family) (context : RuleContext) (capabilities : Capabilities) (w : World S)
      → E.runner.dry_run ≡ true
      → w.batch ≡ none
      → is_ok (start_tproxy family context capabilities w).0 ≡ false
  start_tproxy-dry_run family context capabilities w dry h =
      (start_tproxy-Fails dry family context capabilities).at w h
