-- ===== src/Rules/Total/Modes.antt =====
-- What of boxctl/src/rules.rs returns no error.
use boxproxy.Prelude.{String}
use boxproxy.Act.Total.{Total}
use boxproxy.Rules.Names.{Family}
use boxproxy.Rules.Manager.{Env, World}
use boxproxy.Rules.Modes.{cleanup_forward, cleanup_iptables_family, cleanup_iptables_for_mode}
use boxproxy.Rules.Total.Tproxy.{tproxy_total}

module _ {S : Type 0} ⦃E : Env S⦄ where
  pub cleanup_forward-Total : (family : Family) → Total {W = World S} (cleanup_forward family)
  unfolding cleanup_forward
  cleanup_forward-Total family = search tproxy_total depth 16

  pub cleanup_iptables_family-Total :
      (family : Family) (mode : String) → Total {W = World S} (cleanup_iptables_family family mode)
  unfolding cleanup_iptables_family
  cleanup_iptables_family-Total family mode = search tproxy_total depth 16

  pub cleanup_iptables_for_mode-Total :
      (mode : String) → Total {W = World S} (cleanup_iptables_for_mode mode)
  unfolding cleanup_iptables_for_mode
  cleanup_iptables_for_mode-Total mode =
      search (tproxy_total, cleanup_iptables_family-Total) depth 16

pub ruleset modes_total = (
  tproxy_total, cleanup_forward-Total, cleanup_iptables_family-Total,
  cleanup_iptables_for_mode-Total,
)
