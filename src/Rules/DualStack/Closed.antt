-- ===== src/Rules/DualStack/Closed.antt =====
-- The batch at the end of `apply_dual_stack` of boxctl/src/rules.rs.
use boxproxy.Prelude.{String}
use boxproxy.Act.{Act}
use boxproxy.Act.Keeps.{Keeps}
use boxproxy.Rules.Names.{Family}
use boxproxy.Rules.Manager.{Env, World}
use boxproxy.Rules.Flush.Depth.{NoBatch, host_rules}
use boxproxy.Rules.Ipv6.{
  write_ipv6_conf_value, set_ipv6_conf_all, restore_ipv6_ra_conf, ipv6_enable, disable_system_ipv6,
  apply_ipv6_system_mode,
}
use boxproxy.Rules.DualStack.{batched, apply_dual_stack}
use boxproxy.Rules.DualStack.Batches.{batched_lem}

module _ {S : Type 0} ⦃E : Env S⦄ where
  write_ipv6_conf_value-NoBatch :
      (iface key value : String)
      → Keeps {W = World S} NoBatch (write_ipv6_conf_value iface key value)
  unfolding write_ipv6_conf_value
  write_ipv6_conf_value-NoBatch iface key value = search host_rules depth 14

  set_ipv6_conf_all-NoBatch :
      (key value : String) → Keeps {W = World S} NoBatch (set_ipv6_conf_all key value)
  unfolding set_ipv6_conf_all
  set_ipv6_conf_all-NoBatch key value = search (host_rules, write_ipv6_conf_value-NoBatch) depth 14

  ipv6_enable-NoBatch : Keeps {W = World S} NoBatch ipv6_enable
  unfolding ipv6_enable restore_ipv6_ra_conf
  ipv6_enable-NoBatch = search (host_rules, set_ipv6_conf_all-NoBatch) depth 14

  apply_ipv6_system_mode-NoBatch : Keeps {W = World S} NoBatch apply_ipv6_system_mode
  unfolding apply_ipv6_system_mode disable_system_ipv6
  apply_ipv6_system_mode-NoBatch =
      search (host_rules, set_ipv6_conf_all-NoBatch, ipv6_enable-NoBatch) depth 14

  batched-NoBatch :
      (per_family : Family → Act (World S) Unit) (family : Family)
      → Keeps {W = World S} NoBatch (batched per_family family)
  batched-NoBatch per_family family = record {
    at = λ w h. let (same, closed) = batched_lem per_family family w in rw same closed;
  }

  -- What follows the IPv4 part keeps the batch closed.
  apply_dual_stack-Keeps :
      (per_family : Family → Act (World S) Unit)
      → Keeps {W = World S} NoBatch (apply_dual_stack per_family)
  unfolding apply_dual_stack
  apply_dual_stack-Keeps per_family =
      search (host_rules, batched-NoBatch, ipv6_enable-NoBatch, apply_ipv6_system_mode-NoBatch)
        depth 14

  -- A mode that is set up with no batch open leaves no batch open, whether or not it succeeds
  -- and however its families are built.
  pub apply_dual_stack-NoBatch :
      (per_family : Family → Act (World S) Unit) (w : World S)
      → NoBatch w
      → NoBatch (apply_dual_stack per_family w).1
  apply_dual_stack-NoBatch per_family w h = (apply_dual_stack-Keeps per_family).at w h
