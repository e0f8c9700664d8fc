-- ===== src/Rules/Total/Tproxy.antt =====
-- What of boxctl/src/rules.rs returns no error.
use boxproxy.Act.Total.{Total}
use boxproxy.Rules.Names.{Family}
use boxproxy.Rules.Manager.{Env, World}
use boxproxy.Rules.Tproxy.{stop_tproxy}
use boxproxy.Rules.Total.Tun.{tun_total}

module _ {S : Type 0} ⦃E : Env S⦄ where
  pub stop_tproxy-Total : (family : Family) → Total {W = World S} (stop_tproxy family)
  unfolding stop_tproxy
  stop_tproxy-Total family = search tun_total depth 16

pub ruleset tproxy_total = (tun_total, stop_tproxy-Total)
