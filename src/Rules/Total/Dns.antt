-- ===== src/Rules/Total/Dns.antt =====
-- What of boxctl/src/rules/dns.rs returns no error.
use boxproxy.Act.Total.{Total}
use boxproxy.Rules.Names.{Family}
use boxproxy.Rules.Manager.{Env, World}
use boxproxy.Rules.Dns.{lacks_nat, cleanup_dns_nat_chains}
use boxproxy.Rules.Total.Capabilities.{capabilities_total}

module _ {S : Type 0} ⦃E : Env S⦄ where
  pub lacks_nat-Total : (family : Family) → Total {W = World S} (lacks_nat family)
  unfolding lacks_nat
  lacks_nat-Total Family.v4 = search capabilities_total depth 16
  lacks_nat-Total Family.v6 = search capabilities_total depth 16

  pub cleanup_dns_nat_chains-Total :
      (family : Family) → Total {W = World S} (cleanup_dns_nat_chains family)
  unfolding cleanup_dns_nat_chains
  cleanup_dns_nat_chains-Total family = search (capabilities_total, lacks_nat-Total) depth 16

pub ruleset dns_total = (capabilities_total, lacks_nat-Total, cleanup_dns_nat_chains-Total)
