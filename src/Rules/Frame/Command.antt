-- ===== src/Rules/Frame/Command.antt =====
-- The commands of boxctl/src/rules/exec.rs, with a framed predicate.
use boxproxy.Prelude.{String, List}
use boxproxy.Act.{Act}
use boxproxy.Act.Keeps.{Keeps}
use boxproxy.Rules.Names.{Family}
use boxproxy.Rules.Manager.{Env, World}
use boxproxy.Rules.Command.{
  probe_wait_support, wait_supported, with_wait, ipt_owned, ipt_silent_owned, ipt_try_owned,
  ipt_check_owned, ip_ignore, ip_required, ip_rule_output, ip_rule_exists, ensure_ip_rule,
  del_ip_rule_if_exists, ip_route_local_default_exists, ensure_ip_route_local_default,
  del_ip_route_local_default_if_exists,
}
use boxproxy.Rules.Frame.{Frame, OfDevice}
use boxproxy.Rules.Frame.Exec.{exec_rules}

module _ {S : Type 0} ⦃E : Env S⦄ {Q : S → Type 0} (frame : Frame Q) where
  pub probe_wait_support-Frame :
      (family : Family) → Keeps {W = World S} (OfDevice Q) (probe_wait_support family)
  unfolding probe_wait_support
  probe_wait_support-Frame family = search exec_rules depth 16

  pub wait_supported-Frame :
      (family : Family) → Keeps {W = World S} (OfDevice Q) (wait_supported family)
  unfolding wait_supported
  wait_supported-Frame family = search (exec_rules, probe_wait_support-Frame) depth 16

  pub with_wait-Frame :
      (family : Family) (args : List String)
      → Keeps {W = World S} (OfDevice Q) (with_wait family args)
  unfolding with_wait
  with_wait-Frame family args = search (exec_rules, wait_supported-Frame) depth 16

module _ {S : Type 0} ⦃E : Env S⦄ {Q : S → Type 0} (frame : Frame Q) {flush : Act (World S) Unit}
    (flushed : Keeps (OfDevice Q) flush) where
  pub ipt_owned-Frame :
      (family : Family) (args : List String)
      → Keeps {W = World S} (OfDevice Q) (ipt_owned flush family args)
  unfolding ipt_owned
  ipt_owned-Frame family args = search (exec_rules, with_wait-Frame) depth 16

  pub ipt_silent_owned-Frame :
      (family : Family) (args : List String)
      → Keeps {W = World S} (OfDevice Q) (ipt_silent_owned flush family args)
  unfolding ipt_silent_owned
  ipt_silent_owned-Frame family args = search (exec_rules, with_wait-Frame) depth 16

  pub ipt_try_owned-Frame :
      (family : Family) (args : List String)
      → Keeps {W = World S} (OfDevice Q) (ipt_try_owned flush family args)
  unfolding ipt_try_owned
  ipt_try_owned-Frame family args = search (exec_rules, with_wait-Frame) depth 16

  pub ipt_check_owned-Frame :
      (family : Family) (args : List String)
      → Keeps {W = World S} (OfDevice Q) (ipt_check_owned flush family args)
  unfolding ipt_check_owned
  ipt_check_owned-Frame family args = search (exec_rules, with_wait-Frame) depth 16

  pub ip_ignore-Frame :
      (family : Family) (args : List String)
      → Keeps {W = World S} (OfDevice Q) (ip_ignore flush family args)
  unfolding ip_ignore
  ip_ignore-Frame family args = search exec_rules depth 16

  pub ip_required-Frame :
      (family : Family) (args : List String)
      → Keeps {W = World S} (OfDevice Q) (ip_required flush family args)
  unfolding ip_required
  ip_required-Frame family args = search exec_rules depth 16

  pub ip_rule_output-Frame :
      (family : Family) (args : List String)
      → Keeps {W = World S} (OfDevice Q) (ip_rule_output flush family args)
  unfolding ip_rule_output
  ip_rule_output-Frame family args = search exec_rules depth 16

  pub ip_rule_exists-Frame :
      (family : Family) (mark : String) (table : String) (pref : String)
      → Keeps {W = World S} (OfDevice Q) (ip_rule_exists flush family mark table pref)
  unfolding ip_rule_exists
  ip_rule_exists-Frame family mark table pref = search (exec_rules, ip_rule_output-Frame) depth 16

  pub ensure_ip_rule-Frame :
      (family : Family) (mark : String) (table : String) (pref : String)
      → Keeps {W = World S} (OfDevice Q) (ensure_ip_rule flush family mark table pref)
  unfolding ensure_ip_rule
  ensure_ip_rule-Frame family mark table pref =
      search (exec_rules, ip_required-Frame, ip_rule_exists-Frame) depth 16

  pub del_ip_rule_if_exists-Frame :
      (family : Family) (mark : String) (table : String) (pref : String)
      → Keeps {W = World S} (OfDevice Q) (del_ip_rule_if_exists flush family mark table pref)
  unfolding del_ip_rule_if_exists
  del_ip_rule_if_exists-Frame family mark table pref =
      search (exec_rules, ip_ignore-Frame, ip_rule_exists-Frame) depth 16

  pub ip_route_local_default_exists-Frame :
      (family : Family) (table : String)
      → Keeps {W = World S} (OfDevice Q) (ip_route_local_default_exists flush family table)
  unfolding ip_route_local_default_exists
  ip_route_local_default_exists-Frame family table =
      search (exec_rules, ip_rule_output-Frame) depth 16

  pub ensure_ip_route_local_default-Frame :
      (family : Family) (table : String)
      → Keeps {W = World S} (OfDevice Q) (ensure_ip_route_local_default flush family table)
  unfolding ensure_ip_route_local_default
  ensure_ip_route_local_default-Frame family table =
      search (exec_rules, ip_required-Frame, ip_route_local_default_exists-Frame) depth 16

  pub del_ip_route_local_default_if_exists-Frame :
      (family : Family) (table : String)
      → Keeps {W = World S} (OfDevice Q) (del_ip_route_local_default_if_exists flush family table)
  unfolding del_ip_route_local_default_if_exists
  del_ip_route_local_default_if_exists-Frame family table =
      search (exec_rules, ip_ignore-Frame, ip_route_local_default_exists-Frame) depth 16

pub ruleset command_rules = (
  exec_rules, probe_wait_support-Frame, wait_supported-Frame, with_wait-Frame, ipt_owned-Frame,
  ipt_silent_owned-Frame, ipt_try_owned-Frame, ipt_check_owned-Frame, ip_ignore-Frame,
  ip_required-Frame, ip_rule_output-Frame, ip_rule_exists-Frame, ensure_ip_rule-Frame,
  del_ip_rule_if_exists-Frame, ip_route_local_default_exists-Frame,
  ensure_ip_route_local_default-Frame, del_ip_route_local_default_if_exists-Frame,
)
