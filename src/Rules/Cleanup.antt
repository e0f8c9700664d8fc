-- ===== src/Rules/Cleanup.antt =====
-- Which rules are taken down: boxctl/src/rules/cleanup.rs and the reading side of
-- boxctl/src/rules/runtime.rs. The text field of a JSON object (serde_json) is a parameter.
pub mod Choice
use boxproxy.Prelude.{
  String, Bool, true, false, not, Option, none, some, List, [], ◌∷◌, ◌<>◌, ◌==◌, any, contains,
  if◌then◌else◌,
}
use boxproxy.Prelude.Text.{lines, is_blank}
use boxproxy.Act.{Result, ok, err, Act, pure, gets, attempt, on_option, ◌>>=◌}
use boxproxy.Config.{Config}
use boxproxy.Config.Modes.{network_mode_str}
use boxproxy.Exec.{Output}
use boxproxy.Rules.Names.{Family, v4, v6, iptables_cmd, is_box_rule_line}
use boxproxy.Rules.Manager.{Env, World, run}

abbrev pub cleanable_modes : List String
cleanable_modes = "redirect" ∷ "tproxy" ∷ "mixed" ∷ "enhance" ∷ "tun" ∷ "ebpf" ∷ []

-- the match of `cleanup_mode_for_clear`
abbrev pub clear_mode : Option String → String
clear_mode none = "all"
clear_mode (some mode) = if contains cleanable_modes mode then mode else "all"

-- the `checks` of `cleanup_mode_for_apply`
abbrev pub checks : Config → List (String × String)
checks config =
    ("bin_name", config.bin_name)
    ∷ ("ipv6_mode", config.ipv6_mode)
    ∷ ("dns_hijack_mode", config.dns_hijack_mode)
    ∷ ("tproxy_port", config.tproxy_port)
    ∷ ("redir_port", config.redir_port)
    ∷ ("tun_device", config.tun_device)
    ∷ []

abbrev pub differs : (String → Option String) → String × String → Bool
differs value (key, expected) = elim (value key) [
  | none ↦ true
  | some text ↦ not (text == expected)
]

-- `cleanup_mode_for_apply` once there is a recorded mode
abbrev pub apply_mode : Config → (String → Option String) → String → String
apply_mode config value old =
    if is_blank old
    then "all"
    else if any (differs value) (checks config)
    then "all"
    else if clear_mode (some old) == network_mode_str config.network_mode
    then clear_mode (some old)
    else "all"

abbrev has_box_line : Result Output → Bool
has_box_line (ok output) =
    if output.success then any is_box_rule_line (lines output.stdout) else false
has_box_line (err _) = false

abbrev pub field_of : (String → String → Option String) → Option String → String → Option String
field_of text_field none key = none
field_of text_field (some json) key = text_field json key

module _ {S : Type 0} ⦃E : Env S⦄ where
  unfoldable pub table_has_box_rules : Family → String → Act (World S) Bool
  unfolding ◌>>=◌
  table_has_box_rules family table = if E.runner.dry_run then pure true else do
    r ← attempt (run (iptables_cmd family) ("-t" ∷ table ∷ "-S" ∷ []))
    pure (has_box_line r)

  -- The first table with a rule of ours ends the search.
  unfoldable pub any_table : List (Family × String) → Act (World S) Bool
  unfolding ◌>>=◌ table_has_box_rules
  any_table [] = pure false
  any_table ((family, table) ∷ rest) = do
    let later = any_table rest
    found ← table_has_box_rules family table
    if found then pure true else later

  unfoldable pub has_existing_box_rules : Act (World S) Bool
  unfolding any_table
  has_existing_box_rules = any_table (
      (v4, "nat")
      ∷ (v4, "mangle")
      ∷ (v4, "filter")
      ∷ (v6, "nat")
      ∷ (v6, "mangle")
      ∷ (v6, "filter")
      ∷ [])

  -- `text_field json key` is the text at a key of the object that `json` denotes.
  module _ (text_field : String → String → Option String) where
    unfoldable pub runtime_env_value : S → String → Option String
    runtime_env_value s =
        field_of text_field (E.host.read_file (E.config.state_dir <> "/runtime.iptables.json") s)

    unfoldable pub cleanup_mode_for_clear : Act (World S) String
    unfolding runtime_env_value
    cleanup_mode_for_clear = gets (λ w. clear_mode (runtime_env_value w.sys "network_mode"))

    unfoldable pub cleanup_mode_for_apply : Act (World S) String
    unfolding ◌>>=◌ on_option runtime_env_value has_existing_box_rules
    cleanup_mode_for_apply = do
      recorded ← gets (λ w. runtime_env_value w.sys "network_mode")
      on_option recorded (do found ← has_existing_box_rules; pure (if found then "all" else "none"))
          λ old. gets (λ w. apply_mode E.config (runtime_env_value w.sys) old)
