-- ===== src/Rules/Total/Capabilities.antt =====
-- What of boxctl/src/rules/capabilities.rs returns no error.
use boxproxy.Prelude.{String, Bool}
use boxproxy.Act.Total.{Total}
use boxproxy.Rules.Names.{Family, Capabilities}
use boxproxy.Rules.Manager.{Env, World}
use boxproxy.Rules.Capabilities.{
  capability_cache_signature, load_capability_cache, save_capability_cache, capability_entries,
  ipset_available, probe_restore_support, cap_socket_transparent, ip6_nat_supported,
  probe_capabilities_raw, probe_or_load, probe_capabilities, restore_supported, begin_batch,
}
use boxproxy.Rules.Total.Chain.{chain_total}

module _ {S : Type 0} ⦃E : Env S⦄ where
  pub capability_cache_signature-Total : Total {W = World S} capability_cache_signature
  unfolding capability_cache_signature
  capability_cache_signature-Total = search chain_total depth 16

  pub load_capability_cache-Total : Total {W = World S} load_capability_cache
  unfolding load_capability_cache
  load_capability_cache-Total = search chain_total depth 16

  pub save_capability_cache-Total :
      (caps : Capabilities) → Total {W = World S} (save_capability_cache caps)
  unfolding save_capability_cache
  save_capability_cache-Total caps = search chain_total depth 16

  pub capability_entries-Total : (path : String) → Total {W = World S} (capability_entries path)
  unfolding capability_entries
  capability_entries-Total path = search chain_total depth 16

  pub ipset_available-Total : Total {W = World S} ipset_available
  unfolding ipset_available
  ipset_available-Total = search chain_total depth 16

  pub probe_restore_support-Total :
      (family : Family) → Total {W = World S} (probe_restore_support family)
  unfolding probe_restore_support
  probe_restore_support-Total family = search chain_total depth 16

  pub cap_socket_transparent-Total :
      (socket_match : Bool) → Total {W = World S} (cap_socket_transparent socket_match)
  unfolding cap_socket_transparent
  cap_socket_transparent-Total socket_match = search chain_total depth 16

  pub ip6_nat_supported-Total : Total {W = World S} ip6_nat_supported
  unfolding ip6_nat_supported
  ip6_nat_supported-Total = search chain_total depth 16

  pub probe_capabilities_raw-Total : Total {W = World S} probe_capabilities_raw
  unfolding probe_capabilities_raw
  probe_capabilities_raw-Total =
      search
        (
          chain_total, ipset_available-Total, probe_restore_support-Total,
          cap_socket_transparent-Total, ip6_nat_supported-Total,
        )
        depth 16

  pub probe_or_load-Total : Total {W = World S} probe_or_load
  unfolding probe_or_load
  probe_or_load-Total =
      search
        (
          chain_total, load_capability_cache-Total, save_capability_cache-Total,
          probe_capabilities_raw-Total,
        )
        depth 16

  pub probe_capabilities-Total : Total {W = World S} probe_capabilities
  unfolding probe_capabilities
  probe_capabilities-Total = search (chain_total, probe_or_load-Total) depth 16

  pub restore_supported-Total : (family : Family) → Total {W = World S} (restore_supported family)
  unfolding restore_supported
  restore_supported-Total family = search (chain_total, probe_capabilities-Total) depth 16

  pub begin_batch-Total : (family : Family) → Total {W = World S} (begin_batch family)
  unfolding begin_batch
  begin_batch-Total family = search (chain_total, restore_supported-Total) depth 16

pub ruleset capabilities_total = (
  chain_total, capability_cache_signature-Total, load_capability_cache-Total,
  save_capability_cache-Total, capability_entries-Total, ipset_available-Total,
  probe_restore_support-Total, cap_socket_transparent-Total, ip6_nat_supported-Total,
  probe_capabilities_raw-Total, probe_or_load-Total, probe_capabilities-Total,
  restore_supported-Total, begin_batch-Total,
)
