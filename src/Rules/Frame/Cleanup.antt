-- ===== src/Rules/Frame/Cleanup.antt =====
-- boxctl/src/rules/cleanup.rs, with a framed predicate.
use boxproxy.Prelude.{[], ◌∷◌}
use boxproxy.Prelude.{String, Option, List}
use boxproxy.Act.Keeps.{Keeps}
use boxproxy.Rules.Names.{Family}
use boxproxy.Rules.Manager.{Env, World}
use boxproxy.Rules.Cleanup.{
  table_has_box_rules, any_table, has_existing_box_rules, cleanup_mode_for_clear,
  cleanup_mode_for_apply,
}
use boxproxy.Rules.Frame.{Frame, OfDevice}
use boxproxy.Rules.Frame.DualStack.{dual_stack_rules}

module _ {S : Type 0} ⦃E : Env S⦄ {Q : S → Type 0} (frame : Frame Q) where
  pub table_has_box_rules-Frame :
      (family : Family) (table : String)
      → Keeps {W = World S} (OfDevice Q) (table_has_box_rules family table)
  unfolding table_has_box_rules
  table_has_box_rules-Frame family table = search dual_stack_rules depth 16

  pub any_table-Frame :
      (tables : List (Family × String)) → Keeps {W = World S} (OfDevice Q) (any_table tables)
  unfolding any_table
  any_table-Frame [] = search dual_stack_rules
  any_table-Frame ((family, table) ∷ rest) =
      let later = any_table-Frame rest in
      search (dual_stack_rules, table_has_box_rules-Frame) depth 16

  pub has_existing_box_rules-Frame : Keeps {W = World S} (OfDevice Q) has_existing_box_rules
  unfolding has_existing_box_rules
  has_existing_box_rules-Frame = search (dual_stack_rules, any_table-Frame) depth 16

  pub cleanup_mode_for_clear-Frame :
      (text_field : String → String → Option String)
      → Keeps {W = World S} (OfDevice Q) (cleanup_mode_for_clear text_field)
  unfolding cleanup_mode_for_clear
  cleanup_mode_for_clear-Frame text_field = search dual_stack_rules depth 16

  pub cleanup_mode_for_apply-Frame :
      (text_field : String → String → Option String)
      → Keeps {W = World S} (OfDevice Q) (cleanup_mode_for_apply text_field)
  unfolding cleanup_mode_for_apply
  cleanup_mode_for_apply-Frame text_field =
      search (dual_stack_rules, has_existing_box_rules-Frame) depth 16

pub ruleset cleanup_rules = (
  dual_stack_rules, table_has_box_rules-Frame, any_table-Frame, has_existing_box_rules-Frame,
  cleanup_mode_for_clear-Frame, cleanup_mode_for_apply-Frame,
)
