-- ===== src/Rules/Command.antt =====
-- How iptables and ip are run: boxctl/src/rules/exec.rs from `wait_supported` to
-- `del_ip_route_local_default_if_exists`, and the messages of boxctl/src/rules/util.rs. Each
-- command flushes the batch first, and a flush runs commands: here the flush is a parameter.
pub mod Once
use boxproxy.Prelude.{
  ℕ, String, Bool, true, false, not, ◌&&◌, Option, none, some, List, [], ◌∷◌, ◌<>◌, any,
  if◌then◌else◌,
}
use boxproxy.Prelude.Text.{is_blank, lines, includes, starts, split_once}
use boxproxy.Prelude.Number.{parse, u64_max, hex}
use boxproxy.Act.{
  Result, ok, err, Act, pure, fail, gets, attempt, modify, on_option, ◌>>=◌, ◌>>◌, when, ignore,
  succeeds,
}
use boxproxy.Exec.{Output}
use boxproxy.Exec.Shell.{shell_join}
use boxproxy.Rules.Names.{Family, v4, v6, iptables_cmd, iptables_lock_wait_secs}
use boxproxy.Rules.Manager.{Env, World, run, run_ok, run_ignore, wait_support, set_wait_support}

-- `command_failure_message`
unfoldable pub command_failure_message : String → List String → Output → String
unfolding shell_join
command_failure_message program args output =
    let details = if is_blank output.stderr then output.stdout else output.stderr in
    if is_blank details
    then shell_join program args <> " execution failed"
    else shell_join program args <> (" execution failed: " <> details)

-- `ip_args`
abbrev pub ip_args : Family → List String → List String
ip_args v4 args = args
ip_args v6 args = "-6" ∷ args

abbrev hex_values : String → String → Option ℕ → Option ℕ → List String
hex_values mark sep (some value) (some mask) =
    mark ∷ ("0x" <> (hex value <> (sep <> ("0x" <> hex mask)))) ∷ []
hex_values mark sep _ _ = mark ∷ []

abbrev hex_value : String → Option ℕ → List String
hex_value mark (some value) = mark ∷ ("0x" <> hex value) ∷ []
hex_value mark none = mark ∷ []

-- `fwmark_match_values`
unfoldable pub fwmark_match_values : String → List String
unfolding split_once parse hex
fwmark_match_values mark = elim (split_once "/" mark) [
  | some (value, mask) ↦ hex_values mark "/" (parse u64_max value) (parse u64_max mask)
  | none ↦ hex_value mark (parse u64_max mark)
]

-- the test of `ip_rule_exists` on one line
unfoldable pub is_ip_rule_line : String → String → String → Bool
unfolding includes fwmark_match_values
is_ip_rule_line mark table line =
    any (λ m. includes m line) (fwmark_match_values mark) && includes ("lookup " <> table) line

module _ {S : Type 0} ⦃E : Env S⦄ where
  -- `probe_wait_support`
  unfoldable pub probe_wait_support : Family → Act (World S) Bool
  unfolding ◌>>=◌
  probe_wait_support family =
      if E.runner.dry_run
      then pure true
      else run_ok (iptables_cmd family) ("-w" ∷ iptables_lock_wait_secs ∷ "-S" ∷ [])

  -- `wait_supported`: the probe is made once for each family.
  unfoldable pub wait_supported : Family → Act (World S) Bool
  unfolding ◌>>=◌ on_option probe_wait_support
  wait_supported family = do
    cell ← gets (wait_support family)
    on_option cell
        (do b ← probe_wait_support family; modify (set_wait_support family (some b)); pure b) pure

  unfoldable pub with_wait : Family → List String → Act (World S) (List String)
  unfolding ◌>>=◌ wait_supported
  with_wait family args = do
    supported ← wait_supported family
    pure (if supported then "-w" ∷ iptables_lock_wait_secs ∷ args else args)

module _ {S : Type 0} ⦃E : Env S⦄ (flush : Act (World S) Unit) where
  unfoldable pub ipt_owned : Family → List String → Act (World S) Unit
  unfolding ◌>>=◌
  ipt_owned family args = do
    flush
    full ← with_wait family args
    if E.runner.dry_run then pure tt else do
      output ← run (iptables_cmd family) full
      if output.success
          then pure tt
          else fail (command_failure_message (iptables_cmd family) full output)

  unfoldable pub ipt_silent_owned : Family → List String → Act (World S) Unit
  unfolding ◌>>=◌ ignore
  ipt_silent_owned family args = do
    ignore flush
    full ← with_wait family args
    if E.runner.dry_run then pure tt else run_ignore (iptables_cmd family) full

  unfoldable pub ipt_try_owned : Family → List String → Act (World S) Bool
  unfolding ◌>>=◌ succeeds
  ipt_try_owned family args = do
    flushed ← succeeds flush
    if not flushed then pure false else do
      full ← with_wait family args
      if E.runner.dry_run then pure true else run_ok (iptables_cmd family) full

  unfoldable pub ipt_check_owned : Family → List String → Act (World S) Bool
  unfolding ◌>>=◌ succeeds
  ipt_check_owned family args = do
    flushed ← succeeds flush
    if not flushed
        then pure false
        else if E.runner.dry_run
        then pure false
        else do full ← with_wait family args; run_ok (iptables_cmd family) full

  unfoldable pub ip_ignore : Family → List String → Act (World S) Unit
  unfolding ◌>>=◌ ignore
  ip_ignore family args = do ignore flush; run_ignore "ip" (ip_args family args)

  unfoldable pub ip_required : Family → List String → Act (World S) Unit
  unfolding ◌>>=◌
  ip_required family args = do
    flush
    output ← run "ip" (ip_args family args)
    if output.success
        then pure tt
        else fail (command_failure_message "ip" (ip_args family args) output)

  abbrev stdout_of : Result Output → Option String
  stdout_of (ok output) = if output.success then some output.stdout else none
  stdout_of (err _) = none

  unfoldable pub ip_rule_output : Family → List String → Act (World S) (Option String)
  unfolding ◌>>=◌ succeeds
  ip_rule_output family args = do
    flushed ← succeeds flush
    if not flushed
        then pure none
        else do r ← attempt (run "ip" (ip_args family args)); pure (stdout_of r)

  abbrev any_line : (String → Bool) → Option String → Bool
  any_line p none = false
  any_line p (some text) = any p (lines text)

  unfoldable pub ip_rule_exists : Family → String → String → String → Act (World S) Bool
  unfolding ◌>>=◌ ip_rule_output
  ip_rule_exists family mark table pref = do
    output ← ip_rule_output family ("rule" ∷ "show" ∷ "pref" ∷ pref ∷ [])
    pure (any_line (is_ip_rule_line mark table) output)

  unfoldable pub ensure_ip_rule : Family → String → String → String → Act (World S) Unit
  unfolding ◌>>=◌ ip_rule_exists ip_required
  ensure_ip_rule family mark table pref = do
    exists ← ip_rule_exists family mark table pref
    when (not exists) (
        ip_required family
          ("rule" ∷ "add" ∷ "fwmark" ∷ mark ∷ "table" ∷ table ∷ "pref" ∷ pref ∷ []))

  unfoldable pub del_ip_rule_if_exists : Family → String → String → String → Act (World S) Unit
  unfolding ◌>>=◌ ip_rule_exists ip_ignore
  del_ip_rule_if_exists family mark table pref = do
    exists ← ip_rule_exists family mark table pref
    when exists
        (ip_ignore family ("rule" ∷ "del" ∷ "fwmark" ∷ mark ∷ "table" ∷ table ∷ "pref" ∷ pref ∷ []))

  unfoldable pub ip_route_local_default_exists : Family → String → Act (World S) Bool
  unfolding ◌>>=◌ ip_rule_output
  ip_route_local_default_exists family table = do
    output ← ip_rule_output family ("route" ∷ "show" ∷ "table" ∷ table ∷ [])
    pure (any_line (starts "local default dev lo") output)

  unfoldable pub ensure_ip_route_local_default : Family → String → Act (World S) Unit
  unfolding ◌>>=◌ ip_route_local_default_exists ip_required
  ensure_ip_route_local_default family table = do
    exists ← ip_route_local_default_exists family table
    when (not exists) (
        ip_required family
          ("route" ∷ "add" ∷ "local" ∷ "default" ∷ "dev" ∷ "lo" ∷ "table" ∷ table ∷ []))

  unfoldable pub del_ip_route_local_default_if_exists : Family → String → Act (World S) Unit
  unfolding ◌>>=◌ ip_route_local_default_exists ip_ignore
  del_ip_route_local_default_if_exists family table = do
    exists ← ip_route_local_default_exists family table
    when exists (
        ip_ignore family
          ("route" ∷ "del" ∷ "local" ∷ "default" ∷ "dev" ∷ "lo" ∷ "table" ∷ table ∷ []))
