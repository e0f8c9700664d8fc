-- ===== src/Config/Values/Given.antt =====
-- When a setting of boxctl/src/config/core_values.rs gets a value.
use boxproxy.Prelude.{
  String, Bool, true, false, not, ◌||◌, ◌&&◌, Option, none, some, if◌then◌else◌, ◌≡◌, refl,
  Bool-cases, inl, inr,
}
use boxproxy.Prelude.Text.{trim, is_blank}
use boxproxy.Config.Values.{ResolvedValue, is_given, text_of, fallback, resolve_value}

given-text : (o : Option String) → is_blank (text_of o) ≡ not (is_given o)
unfolding is_given text_of
given-text none = refl
given-text (some value) = elim (Bool-cases (is_blank (trim value))) [
  | inl blank ↦ rw blank refl
  | inr inked ↦ rw inked refl
]

-- One test of the chain.
source_step :
    (b : Bool) (found rest : ResolvedValue) (r : Bool)
    → is_blank found.value ≡ not b
    → is_blank rest.value ≡ r
    → is_blank (if b then found else rest).value ≡ (not b && r)
source_step true found rest r h k = h
source_step false found rest r h k = k

-- The default, if the setting applies.
last_step :
    (applicable : Bool) (default : String)
    → is_blank (fallback default applicable).value ≡ (not applicable || is_blank default)
last_step false default = refl
last_step true default = elim (Bool-cases (is_blank default)) [
  | inl blank ↦ rw blank refl
  | inr inked ↦ rw inked inked
]

-- A setting is left blank exactly if nobody gives it a value: neither the command line nor the core's
-- configuration nor the app has one, and it does not apply or its default is blank.
pub resolve_value_lem :
    (cli db core : Option String) (default_value : String) (applicable : Bool)
    → is_blank (resolve_value cli db core default_value applicable).value ≡ (
        not (is_given cli)
        && (not (is_given core)
            && (not (is_given db) && (not applicable || is_blank (trim default_value)))))
unfolding resolve_value
resolve_value_lem cli db core default_value applicable =
    source_step (is_given cli) _ _ _ (given-text cli) (
      source_step (is_given core) _ _ _ (given-text core) (
        source_step (is_given db) _ _ _ (given-text db)
          (last_step applicable (trim default_value))))
