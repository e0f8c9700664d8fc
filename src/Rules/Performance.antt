-- ===== src/Rules/Performance.antt =====
-- When the faster chains of the performance mode are used: the tests of
-- boxctl/src/rules/performance.rs.
use boxproxy.Prelude.{Bool, true, false, not, ◌&&◌, if◌then◌else◌}
use boxproxy.Act.{Act, pure, ◌>>=◌}
use boxproxy.Config.{Config}
use boxproxy.Config.Modes.{is_enhance}
use boxproxy.Rules.Names.{Capabilities}
use boxproxy.Rules.Manager.{Env, World}
use boxproxy.Rules.Capabilities.{probe_capabilities}

abbrev pub performance_connmark_enabled : Config → Capabilities → Bool
performance_connmark_enabled config capabilities =
    config.performance_mode && capabilities.conntrack_match && capabilities.connmark_match
    && capabilities.connmark_target

abbrev pub tproxy_performance_chain_enabled : Config → Capabilities → Bool
tproxy_performance_chain_enabled config capabilities =
    if not (performance_connmark_enabled config capabilities)
    then false
    else if not (is_enhance config.network_mode) && not capabilities.socket_transparent
    then false
    else if is_enhance config.network_mode && not config.proxy_udp
    then false
    else true

module _ {S : Type 0} ⦃E : Env S⦄ where
  unfoldable pub performance_conntrack_enabled : Act (World S) Bool
  unfolding ◌>>=◌ probe_capabilities
  performance_conntrack_enabled =
      if not E.config.performance_mode
      then pure false
      else do caps ← probe_capabilities; pure caps.conntrack_match
