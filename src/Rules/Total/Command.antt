-- ===== src/Rules/Total/Command.antt =====
-- What of boxctl/src/rules/exec.rs returns no error.
use boxproxy.Prelude.{String, List}
use boxproxy.Act.{Act}
use boxproxy.Act.Total.{Total}
use boxproxy.Rules.Names.{Family}
use boxproxy.Rules.Manager.{Env, World}
use boxproxy.Rules.Command.{
  probe_wait_support, wait_supported, with_wait, ipt_silent_owned, ipt_try_owned, ipt_check_owned,
  ip_ignore, ip_rule_output, ip_rule_exists, del_ip_rule_if_exists, ip_route_local_default_exists,
  del_ip_route_local_default_if_exists,
}
use boxproxy.Rules.Total.Manager.{manager_rules}

module _ {S : Type 0} ⦃E : Env S⦄ where
  pub probe_wait_support-Total : (family : Family) → Total {W = World S} (probe_wait_support family)
  unfolding probe_wait_support
  probe_wait_support-Total family = search manager_rules depth 16

  pub wait_supported-Total : (family : Family) → Total {W = World S} (wait_supported family)
  unfolding wait_supported
  wait_supported-Total family = search (manager_rules, probe_wait_support-Total) depth 16

  pub with_wait-Total :
      (family : Family) (args : List String) → Total {W = World S} (with_wait family args)
  unfolding with_wait
  with_wait-Total family args = search (manager_rules, wait_supported-Total) depth 16

module _ {S : Type 0} ⦃E : Env S⦄ (flush : Act (World S) Unit) where
  pub ipt_silent_owned-Total :
      (family : Family) (args : List String)
      → Total {W = World S} (ipt_silent_owned flush family args)
  unfolding ipt_silent_owned
  ipt_silent_owned-Total family args = search (manager_rules, with_wait-Total) depth 16

  pub ipt_try_owned-Total :
      (family : Family) (args : List String) → Total {W = World S} (ipt_try_owned flush family args)
  unfolding ipt_try_owned
  ipt_try_owned-Total family args = search (manager_rules, with_wait-Total) depth 16

  pub ipt_check_owned-Total :
      (family : Family) (args : List String)
      → Total {W = World S} (ipt_check_owned flush family args)
  unfolding ipt_check_owned
  ipt_check_owned-Total family args = search (manager_rules, with_wait-Total) depth 16

  pub ip_ignore-Total :
      (family : Family) (args : List String) → Total {W = World S} (ip_ignore flush family args)
  unfolding ip_ignore
  ip_ignore-Total family args = search manager_rules depth 16

  pub ip_rule_output-Total :
      (family : Family) (args : List String)
      → Total {W = World S} (ip_rule_output flush family args)
  unfolding ip_rule_output
  ip_rule_output-Total family args = search manager_rules depth 16

  pub ip_rule_exists-Total :
      (family : Family) (mark : String) (table : String) (pref : String)
      → Total {W = World S} (ip_rule_exists flush family mark table pref)
  unfolding ip_rule_exists
  ip_rule_exists-Total family mark table pref =
      search (manager_rules, ip_rule_output-Total) depth 16

  pub del_ip_rule_if_exists-Total :
      (family : Family) (mark : String) (table : String) (pref : String)
      → Total {W = World S} (del_ip_rule_if_exists flush family mark table pref)
  unfolding del_ip_rule_if_exists
  del_ip_rule_if_exists-Total family mark table pref =
      search (manager_rules, ip_ignore-Total, ip_rule_exists-Total) depth 16

  pub ip_route_local_default_exists-Total :
      (family : Family) (table : String)
      → Total {W = World S} (ip_route_local_default_exists flush family table)
  unfolding ip_route_local_default_exists
  ip_route_local_default_exists-Total family table =
      search (manager_rules, ip_rule_output-Total) depth 16

  pub del_ip_route_local_default_if_exists-Total :
      (family : Family) (table : String)
      → Total {W = World S} (del_ip_route_local_default_if_exists flush family table)
  unfolding del_ip_route_local_default_if_exists
  del_ip_route_local_default_if_exists-Total family table =
      search (manager_rules, ip_ignore-Total, ip_route_local_default_exists-Total) depth 16

pub ruleset command_total = (
  manager_rules, probe_wait_support-Total, wait_supported-Total, with_wait-Total,
  ipt_silent_owned-Total, ipt_try_owned-Total, ipt_check_owned-Total, ip_ignore-Total,
  ip_rule_output-Total, ip_rule_exists-Total, del_ip_rule_if_exists-Total,
  ip_route_local_default_exists-Total, del_ip_route_local_default_if_exists-Total,
)
