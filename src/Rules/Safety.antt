-- ===== src/Rules/Safety.antt =====
-- What a run of the rule code may do to the device: the operations of boxctl/src/rules.rs, behind the
-- test of the mode, and the parts that they consist of, in any order and number.
use boxproxy.Prelude.{String, true, List, ◌≡◌}
use boxproxy.Act.{Act, ◌>>=◌, ◌>>◌, ignore, for_each}
use boxproxy.Act.Keeps.{Keeps, keeps_rules}
use boxproxy.Rules.Names.{RuleContext, Capabilities}
use boxproxy.Rules.Manager.{Env, World}
use boxproxy.Rules.Outside.{Outside}
use boxproxy.Rules.Capabilities.{probe_capabilities}
use boxproxy.Rules.Modes.{cleanup_iptables_for_mode}
use boxproxy.Rules.DualStack.{apply_redirect, apply_tproxy, apply_mixed, apply_enhance, apply_tun}
use boxproxy.Rules.Cleanup.{has_existing_box_rules}
use boxproxy.Rules.Apply.{apply_rules, clear_rules, reload_cn_ipset}
use boxproxy.Rules.LocalIp.Refresh.{refresh_local_ip_rules}
use boxproxy.Rules.Frame.{Frame, OfDevice, dry_run-Frame}
use boxproxy.Rules.Frame.Cleanup.{cleanup_rules}
use boxproxy.Rules.Frame.Own.{Owns, Tools, dry_run-Tools}
use boxproxy.Rules.Frame.Files.{refresh_local_ip_rules-Frame}
use boxproxy.Rules.Frame.Apply.{apply_rules-Frame, clear_rules-Frame, reload_cn_ipset-Frame}

pub data RuleOp : Type 0 where
  applied : RuleOp
  cleared : RuleOp
  renewed : RuleOp
  refreshed : RuleOp
  reloaded : RuleOp
  redirect_on : RuleContext → RuleOp
  tproxy_on : RuleContext → Capabilities → RuleOp
  mixed_on : RuleContext → RuleOp
  enhance_on : RuleContext → Capabilities → RuleOp
  tun_on : RuleContext → RuleOp
  taken_down : String → RuleOp
  probed : RuleOp
  looked_for : RuleOp

module _ {S : Type 0} ⦃E : Env S⦄ ⦃O : Outside S⦄ where
  unfoldable pub perform : RuleOp → Act (World S) Unit
  unfolding ◌>>=◌ ignore apply_rules clear_rules
  perform applied = apply_rules
  perform cleared = clear_rules
  perform renewed = clear_rules >> apply_rules
  perform refreshed = refresh_local_ip_rules
  perform reloaded = reload_cn_ipset
  perform (redirect_on context) = apply_redirect context
  perform (tproxy_on context capabilities) = apply_tproxy context capabilities
  perform (mixed_on context) = apply_mixed context
  perform (enhance_on context capabilities) = apply_enhance context capabilities
  perform (tun_on context) = apply_tun context
  perform (taken_down mode) = cleanup_iptables_for_mode mode
  perform probed = ignore probe_capabilities
  perform looked_for = ignore has_existing_box_rules

  -- An operation that fails does not stop the later ones.
  unfoldable pub perform_all : List RuleOp → Act (World S) Unit
  unfolding for_each perform ignore
  perform_all ops = for_each ops λ op. ignore (perform op)

ruleset op_rules = (
  cleanup_rules, apply_rules-Frame, clear_rules-Frame, reload_cn_ipset-Frame,
  refresh_local_ip_rules-Frame,
)

module _ {S : Type 0} ⦃E : Env S⦄ ⦃O : Outside S⦄ {Q : S → Type 0} (frame : Frame Q)
    (tools : Tools Q) (owns : Owns Q) where
  perform-Keeps : (op : RuleOp) → Keeps {W = World S} (OfDevice Q) (perform op)
  unfolding perform
  perform-Keeps applied = search op_rules
  perform-Keeps cleared = search op_rules
  perform-Keeps renewed = search op_rules
  perform-Keeps refreshed = search op_rules
  perform-Keeps reloaded = search op_rules
  perform-Keeps (redirect_on context) = search cleanup_rules
  perform-Keeps (tproxy_on context capabilities) = search cleanup_rules
  perform-Keeps (mixed_on context) = search cleanup_rules
  perform-Keeps (enhance_on context capabilities) = search cleanup_rules
  perform-Keeps (tun_on context) = search cleanup_rules
  perform-Keeps (taken_down mode) = search cleanup_rules
  perform-Keeps probed = search cleanup_rules depth 12
  perform-Keeps looked_for = search cleanup_rules depth 12

  perform_all-Keeps : (ops : List RuleOp) → Keeps {W = World S} (OfDevice Q) (perform_all ops)
  unfolding perform_all
  perform_all-Keeps ops = search (keeps_rules, perform-Keeps) depth 12

module _ {S : Type 0} ⦃E : Env S⦄ ⦃O : Outside S⦄ where
  -- Whatever operations of the rule code run, `apply`, `clear`, `renew`, the refresh and the reload
  -- among them, in whatever order and with whatever failures, a property of the device holds
  -- afterwards if it held before and three things keep it. The first, unless it is a dry run, is
  -- the programs of the rules (iptables, ip6tables, their restore programs, ip, sysctl and ipset),
  -- the capability cache, the IPv6 settings and sleeping. The second, unless it is a dry run, is
  -- the eBPF matcher of the configuration, rm, rmdir, chmod and the policy tools. The third, in a
  -- dry run too, is writing and removing files and making directories, and those only at the
  -- state directory or at a path with a name below it.
  pub perform_all-Frame :
      {Q : S → Type 0}
      → Frame Q
      → Tools Q
      → Owns Q
      → (ops : List RuleOp) (w : World S) → Q w.sys
      → Q (perform_all ops w).1.sys
  perform_all-Frame frame tools owns ops w h =
      ((perform_all-Keeps frame tools owns ops).at w (record { holds = h })).holds

  -- In a dry run no sequence of operations starts a program, sleeps or writes a setting: a property
  -- of the device holds afterwards if it held before and is kept by what is left, which is writing
  -- and removing files and making directories at the state directory or below it.
  pub perform_all-dry_run :
      {Q : S → Type 0}
      → Owns Q
      → (ops : List RuleOp) (w : World S) → E.runner.dry_run ≡ true
      → Q w.sys
      → Q (perform_all ops w).1.sys
  perform_all-dry_run owns ops w dry =
      perform_all-Frame (dry_run-Frame dry) (dry_run-Tools dry) owns ops w
