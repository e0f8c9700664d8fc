-- ===== src/Rules/Total/Tun.antt =====
-- What of boxctl/src/rules/tun.rs returns no error.
use boxproxy.Act.Total.{Total}
use boxproxy.Rules.Names.{Family}
use boxproxy.Rules.Manager.{Env, World}
use boxproxy.Rules.Tun.{stop_tun_bypass}
use boxproxy.Rules.Total.Redirect.{redirect_total}

module _ {S : Type 0} ⦃E : Env S⦄ where
  pub stop_tun_bypass-Total : (family : Family) → Total {W = World S} (stop_tun_bypass family)
  unfolding stop_tun_bypass
  stop_tun_bypass-Total family = search redirect_total depth 16

pub ruleset tun_total = (redirect_total, stop_tun_bypass-Total)
