-- ===== src/Rules/Rollback.antt =====
-- How TPROXY is taken down again when it could not be set up: the `match` on the result of
-- `start_tproxy` in boxctl/src/rules.rs.
use boxproxy.Prelude.{arith, String, true, ◌≡◌, refl, if◌then◌else◌}
use boxproxy.Act.{Result, ok, err, is_ok, Act, ◌>>=◌, fail, pure}
use boxproxy.Act.Total.{Total}
use boxproxy.Rules.Names.{Family, v4, v6, is_v4, RuleContext, Capabilities}
use boxproxy.Rules.Manager.{Env, World}
use boxproxy.Rules.Tproxy.{start_tproxy, stop_tproxy}
use boxproxy.Rules.Modes.{or_else, apply_tproxy_family}
use boxproxy.Rules.Total.Modes.{modes_total}

ok_unit : (r : Result (Unit {0})) → is_ok r ≡ true → r ≡ ok tt
ok_unit (ok tt) h = refl
ok_unit (err e) h = ground arith

module _ {W : Type 0} where
  -- Where the first action fails, the second undoes it and the third is the result.
  or_else-undo :
      (m undo : Act W Unit) (n : String → Act W Unit) (w w' : W) (e : String)
      → Total undo
      → m w ≡ (err e, w')
      → or_else m (λ e'. undo >>= λ _. n e') w ≡ n e (undo w').1
  unfolding or_else ◌>>=◌
  or_else-undo m undo n w w' e k eq = rw (eq, ok_unit (undo w').0 (k.at w'))

module _ {S : Type 0} ⦃E : Env S⦄ where
  -- If TPROXY cannot be set up, `stop_tproxy` runs on the state that was reached, and the result
  -- is the error of the setup for IPv4 and success for IPv6.
  pub apply_tproxy_family-err :
      (family : Family) (context : RuleContext) (capabilities : Capabilities) (w w' : World S)
      (e : String)
      → start_tproxy family context capabilities w ≡ (err e, w')
      → apply_tproxy_family family context capabilities w
        ≡ ((if is_v4 family then err e else ok tt), (stop_tproxy family w').1)
  unfolding apply_tproxy_family
  apply_tproxy_family-err v4 context capabilities w w' e eq =
      or_else-undo (start_tproxy v4 context capabilities) (stop_tproxy v4) fail w w' e
        (search modes_total) eq
  apply_tproxy_family-err v6 context capabilities w w' e eq =
      or_else-undo (start_tproxy v6 context capabilities) (stop_tproxy v6) (λ e. pure tt) w w' e
        (search modes_total) eq
