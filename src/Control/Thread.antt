-- ===== src/Control/Thread.antt =====
-- Two threads of a scope, as tasks of single steps whose order is given: `thread::scope` and `join`
-- in boxctl/src/control.rs.
use boxproxy.Prelude.{Bool, true, false, List, [], ◌∷◌}
use boxproxy.Act.{Result}

-- How a thread that is joined has ended.
pub data Outcome : Type 0 where
  returned : Result {0} Unit → Outcome
  panicked : Outcome

-- A step changes the state and goes on with a task that depends on what it saw.
pub data Task (S R : Type 0) : Type 0 where
  finished : R → Task S R
  step : (S → S) → (S → Task S R) → Task S R

module _ {S : Type 0} where
  unfoldable pub run_task : {R : Type 0} → Task S R → S → R × S
  run_task (finished r) s = (r, s)
  run_task (step f next) s = run_task (next s) (f s)

  -- `true` is a step of the first thread. After the given order, the first ends and then the
  -- second.
  unfoldable pub both : {A B : Type 0} → List Bool → Task S A → Task S B → S → (A × B) × S
  unfolding run_task
  both [] first second s =
      let (a, s1) = run_task first s in let (b, s2) = run_task second s1 in ((a, b), s2)
  both (true ∷ order) (step f next) second s = both order (next s) second (f s)
  both (true ∷ order) (finished a) second s = both order (finished a) second s
  both (false ∷ order) first (step g next) s = both order first (next s) (g s)
  both (false ∷ order) first (finished b) s = both order first (finished b) s
