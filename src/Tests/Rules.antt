-- ===== src/Tests/Rules.antt =====
-- The theorems on the rule code, each applied to the small device.
use boxproxy.Prelude.{String, true, false, Option, none, some, List, [], ◌∷◌, All, ◌≡◌, refl, ◌↔◌}
use boxproxy.Prelude.Text.{trim, to_ascii_lowercase}
use boxproxy.Act.{ok, is_ok, ◌>>=◌}
use boxproxy.Exec.{no_output}
use boxproxy.Config.Modes.{
  parse_network_mode, network_mode_str, parse_proxy_mode, tproxy, whitelist,
}
use boxproxy.Config.RoundTrip.{
  parse_network_mode-network_mode_str, IsProxyModeName, parse_proxy_mode_lem,
}
use boxproxy.Rules.Names.{v4, is_box_custom_chain}
use boxproxy.Rules.Batch.{RuleBatch, new_batch, entry, declare}
use boxproxy.Rules.Batch.Order.{append_rules-end_batch, append_rules}
use boxproxy.Rules.Manager.{World}
use boxproxy.Rules.Flush.{flush_at, flush_batch, end_batch}
use boxproxy.Rules.Flush.Depth.{flush_depth}
use boxproxy.Rules.Flush.Sweep.{flush_batch-Swept, SweptTo}
use boxproxy.Rules.Tproxy.{start_tproxy}
use boxproxy.Rules.Modes.{apply_redirect_family}
use boxproxy.Rules.DryRun.{start_tproxy-dry_run}
use boxproxy.Rules.Command.{wait_supported}
use boxproxy.Rules.Command.Once.{wait_supported-wait_supported}
use boxproxy.Rules.Util.{valid_macs}
use boxproxy.Rules.Capabilities.{probe_capabilities, begin_batch}
use boxproxy.Rules.Capabilities.Once.{probe_capabilities-probe_capabilities}
use boxproxy.Rules.DualStack.{batched, apply_dual_stack, apply_tproxy}
use boxproxy.Rules.DryRun.Tproxy.{apply_tproxy-dry_run}
use boxproxy.Rules.DualStack.Batches.{batched_lem, first_error}
use boxproxy.Rules.DualStack.Closed.{apply_dual_stack-NoBatch}
use boxproxy.Rules.Flush.Depth.{NoBatch}
use boxproxy.Rules.Util.Macs.{IsMac, valid_macs-All}
use boxproxy.Rules.Capabilities.{assumed_capabilities}
use boxproxy.Tests.Device.{Device, live, dry, context, start}

abbrev fresh : World Device
fresh = record start { batch = some (new_batch v4) }

abbrev two_rules : List (String × List String)
two_rules = ("BOX_LOCAL", "-j" ∷ "RETURN" ∷ []) ∷ ("BOX_EXTERNAL", "-p" ∷ "tcp" ∷ []) ∷ []

append_rules-end_batch_example :
    (append_rules ⦃E = live true⦄ v4 "nat" two_rules >>= λ _. end_batch ⦃E = live true⦄) fresh
    ≡ (ok tt, record fresh { sys = "iptables-restore" ∷ []; batch = none })
unfolding is_box_custom_chain
append_rules-end_batch_example =
    append_rules-end_batch ⦃E = live true⦄ v4 "nat" ("BOX_LOCAL", "-j" ∷ "RETURN" ∷ [])
      (("BOX_EXTERNAL", "-p" ∷ "tcp" ∷ []) ∷ []) fresh (no_output true) ("iptables-restore" ∷ [])
      refl (refl, (refl, tt)) refl refl refl

abbrev declared : RuleBatch
declared = record (new_batch v4) { tables = entry "nat" (declare "BOX_LOCAL") [] }

flush_batch-Swept_example :
    SweptTo ⦃E = live true⦄ declared
      (record start { batch = some declared })
      (flush_batch ⦃E = live true⦄ (record start { batch = some declared }))
flush_batch-Swept_example =
    flush_batch-Swept ⦃E = live true⦄ declared (record start { batch = some declared }) refl

flush_depth_example : flush_at ⦃E = live true⦄ 5 fresh ≡ flush_batch ⦃E = live true⦄ fresh
flush_depth_example = flush_depth ⦃E = live true⦄ 3 fresh

start_tproxy-dry_run_example :
    is_ok (start_tproxy ⦃E = dry⦄ v4 context assumed_capabilities start).0 ≡ false
start_tproxy-dry_run_example =
    start_tproxy-dry_run ⦃E = dry⦄ v4 context assumed_capabilities start refl refl

wait_supported-wait_supported_example :
    wait_supported ⦃E = live true⦄ v4 (wait_supported ⦃E = live true⦄ v4 start).1
    ≡ wait_supported ⦃E = live true⦄ v4 start
wait_supported-wait_supported_example = wait_supported-wait_supported ⦃E = live true⦄ v4 start

abbrev recorded : String → Option String
recorded key = some "redirect"

parse_network_mode-network_mode_str_example :
    (parse_network_mode " TProxy" ≡ ok tproxy)
    ↔ (to_ascii_lowercase (trim " TProxy") ≡ network_mode_str tproxy)
parse_network_mode-network_mode_str_example = parse_network_mode-network_mode_str " TProxy" tproxy

parse_proxy_mode_lem_example :
    (parse_proxy_mode " White" ≡ ok whitelist)
    ↔ IsProxyModeName whitelist (to_ascii_lowercase (trim " White"))
parse_proxy_mode_lem_example = parse_proxy_mode_lem " White" whitelist

valid_macs-All_example : All IsMac (valid_macs (" AA:bb:cc:dd:ee:ff" ∷ "no" ∷ []))
valid_macs-All_example = valid_macs-All (" AA:bb:cc:dd:ee:ff" ∷ "no" ∷ [])

batched_lem_example :
    let built =
      apply_redirect_family ⦃E = live false⦄ v4 context (begin_batch ⦃E = live false⦄ v4 start).1 in
    let closed = end_batch ⦃E = live false⦄ built.1 in
    (batched ⦃E = live false⦄
        (λ family. apply_redirect_family ⦃E = live false⦄ family context)
        v4
        start
      ≡ (first_error built.0 closed.0, closed.1))
    × (closed.1.batch ≡ none)
batched_lem_example =
    batched_lem ⦃E = live false⦄ (λ family. apply_redirect_family ⦃E = live false⦄ family context)
      v4 start

apply_dual_stack-NoBatch_example :
    NoBatch
      (apply_dual_stack ⦃E = live false⦄
        (λ family. apply_redirect_family ⦃E = live false⦄ family context)
        start).1
apply_dual_stack-NoBatch_example =
    apply_dual_stack-NoBatch ⦃E = live false⦄
      (λ family. apply_redirect_family ⦃E = live false⦄ family context) start refl

probe_capabilities-probe_capabilities_example :
    let (answer, w') = probe_capabilities ⦃E = live true⦄ start in
    (is_ok answer ≡ true) × (probe_capabilities ⦃E = live true⦄ w' ≡ (answer, w'))
probe_capabilities-probe_capabilities_example =
    probe_capabilities-probe_capabilities ⦃E = live true⦄ start

apply_tproxy-dry_run_example :
    is_ok (apply_tproxy ⦃E = dry⦄ context assumed_capabilities start).0 ≡ false
apply_tproxy-dry_run_example =
    apply_tproxy-dry_run ⦃E = dry⦄ context assumed_capabilities start refl refl
