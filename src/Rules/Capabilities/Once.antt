-- ===== src/Rules/Capabilities/Once.antt =====
-- How often the capabilities are probed: `OnceCell::get_or_init` in `probe_capabilities`.
use boxproxy.Prelude.{arith, true, none, some, Option-cases, ◌≡◌, refl, inl, inr}
use boxproxy.Act.{Result, ok, err, is_ok, lift, modify, pure, ◌>>=◌}
use boxproxy.Act.Total.{Total}
use boxproxy.Rules.Names.{Capabilities}
use boxproxy.Rules.Manager.{Env, World}
use boxproxy.Rules.Capabilities.{probe_or_load, probe_capabilities}
use boxproxy.Rules.Total.Capabilities.{capabilities_total}

-- What a probe returned, kept in the cell.
abbrev Probed : {S : Type 0} → Result Capabilities × World S → Type 0
Probed out = (caps : Capabilities) × ((out.0 ≡ ok caps) × (out.1.capabilities ≡ some caps))

module _ {S : Type 0} where
  keep_answer :
      (p : Result Capabilities × World S)
      → is_ok p.0 ≡ true
      → Probed (
          (lift p.0 >>= λ caps.
          modify (λ w. record w { capabilities = some caps }) >>= λ _. pure caps)
            p.1)
  unfolding ◌>>=◌
  keep_answer (ok caps, w) h = (caps, (refl, refl))
  keep_answer (err e, w) h = ground arith

module _ {S : Type 0} ⦃E : Env S⦄ where
  remembered :
      (caps : Capabilities) (w : World S)
      → w.capabilities ≡ some caps
      → probe_capabilities w ≡ (ok caps, w)
  unfolding probe_capabilities
  remembered caps w h = rw h

  first_answer : (w : World S) → Probed (probe_capabilities w)
  unfolding probe_capabilities
  first_answer w =
      let fresh = record w { capabilities = none } in
      let total : Total {W = World S} probe_or_load = search capabilities_total in
      elim (Option-cases w.capabilities) [
        | inl e ↦ rw e (keep_answer (probe_or_load fresh) (total.at fresh))
        | inr (caps, e) ↦ rw e (caps, (refl, refl))
      ]

  -- Probing the capabilities a second time runs nothing, changes nothing and returns what the
  -- first time returned, which is never an error.
  pub probe_capabilities-probe_capabilities :
      (w : World S)
      → let (answer, w') = probe_capabilities w in
        (is_ok answer ≡ true) × (probe_capabilities w' ≡ (answer, w'))
  probe_capabilities-probe_capabilities w =
      let (caps, (answer, cell)) = first_answer w in rw answer (refl, remembered caps _ cell)
