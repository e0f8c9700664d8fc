-- ===== src/Rules/Command/Once.antt =====
-- How often the lock wait is probed: `wait_supported` of boxctl/src/rules/exec.rs.
use boxproxy.Prelude.{arith, Bool, true, Option, some, Option-cases, ◌≡◌, refl, inl, inr}
use boxproxy.Act.{Result, ok, err, is_ok, lift, modify, pure, ◌>>=◌}
use boxproxy.Act.Total.{Total}
use boxproxy.Rules.Names.{Family, v4, v6}
use boxproxy.Rules.Manager.{Env, World, wait_support, set_wait_support}
use boxproxy.Rules.Command.{probe_wait_support, wait_supported}
use boxproxy.Rules.Total.Command.{command_total}

cell_set :
    {S : Type 0} (family : Family) (b : Option Bool) (w : World S)
    → wait_support family (set_wait_support family b w) ≡ b
cell_set v4 b w = refl
cell_set v6 b w = refl

-- The answer of a question, and the cell after it.
abbrev Answered : {S : Type 0} → Family → Result Bool × World S → Type 0
Answered family out = (b : Bool) × ((out.0 ≡ ok b) × (wait_support family out.1 ≡ some b))

module _ {S : Type 0} where
  stored_from :
      (family : Family) (p : Result Bool × World S)
      → is_ok p.0 ≡ true
      → Answered family
          ((lift p.0 >>= λ b. modify (set_wait_support family (some b)) >>= λ _. pure b) p.1)
  unfolding ◌>>=◌
  stored_from family (ok b, w) h = (b, (refl, cell_set family (some b) w))
  stored_from family (err e, w) h = ground arith

module _ {S : Type 0} ⦃E : Env S⦄ where
  known :
      (family : Family) (b : Bool) (w : World S)
      → wait_support family w ≡ some b
      → wait_supported family w ≡ (ok b, w)
  unfolding wait_supported
  known family b w h = rw h

  stored : (family : Family) (w : World S) → Answered family (wait_supported family w)
  unfolding wait_supported
  stored family w =
      let total : Total {W = World S} (probe_wait_support family) = search command_total in
      elim (Option-cases (wait_support family w)) [
        | inl e ↦ rw e (stored_from family (probe_wait_support family w) (total.at w))
        | inr (b, e) ↦ rw e (b, (refl, e))
      ]

  -- A second question for the same family runs nothing, changes nothing and has the answer of
  -- the first.
  pub wait_supported-wait_supported :
      (family : Family) (w : World S)
      → let (answer, w') = wait_supported family w in wait_supported family w' ≡ (answer, w')
  wait_supported-wait_supported family w =
      let (b, (answer, cell)) = stored family w in rw (answer, known family b _ cell)
