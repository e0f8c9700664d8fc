-- ===== src/Rules/Frame/Capabilities.antt =====
-- boxctl/src/rules/capabilities.rs, with a framed predicate.
use boxproxy.Prelude.{◌≡◌, false, String, Bool}
use boxproxy.Act.Keeps.{Keeps}
use boxproxy.Rules.Names.{Family, Capabilities}
use boxproxy.Rules.Manager.{Env, World}
use boxproxy.Rules.Capabilities.{
  capability_cache_signature, load_capability_cache, save_capability_cache, capability_entries,
  ipset_available, probe_restore_support, cap_socket_transparent, ip6_nat_supported,
  probe_capabilities_raw, probe_or_load, probe_capabilities, restore_supported, begin_batch,
}
use boxproxy.Rules.Frame.{Frame, OfDevice}
use boxproxy.Rules.Frame.Flush.{flush_rules}

module _ {S : Type 0} ⦃E : Env S⦄ {Q : S → Type 0} (frame : Frame Q) where
  pub capability_cache_signature-Frame : Keeps {W = World S} (OfDevice Q) capability_cache_signature
  unfolding capability_cache_signature
  capability_cache_signature-Frame = search flush_rules depth 16

  pub load_capability_cache-Frame : Keeps {W = World S} (OfDevice Q) load_capability_cache
  unfolding load_capability_cache
  load_capability_cache-Frame = search flush_rules depth 16

  pub save_capability_cache-Frame :
      (caps : Capabilities)
      → E.runner.dry_run ≡ false
      → Keeps {W = World S} (OfDevice Q) (save_capability_cache caps)
  unfolding save_capability_cache
  save_capability_cache-Frame caps live = search (flush_rules, frame.cache) depth 16

  pub capability_entries-Frame :
      (path : String) → Keeps {W = World S} (OfDevice Q) (capability_entries path)
  unfolding capability_entries
  capability_entries-Frame path = search flush_rules depth 16

  pub ipset_available-Frame : Keeps {W = World S} (OfDevice Q) ipset_available
  unfolding ipset_available
  ipset_available-Frame = search flush_rules depth 16

  pub probe_restore_support-Frame :
      (family : Family) → Keeps {W = World S} (OfDevice Q) (probe_restore_support family)
  unfolding probe_restore_support
  probe_restore_support-Frame family = search flush_rules depth 16

  pub cap_socket_transparent-Frame :
      (socket_match : Bool) → Keeps {W = World S} (OfDevice Q) (cap_socket_transparent socket_match)
  unfolding cap_socket_transparent
  cap_socket_transparent-Frame socket_match = search flush_rules depth 16

  pub ip6_nat_supported-Frame : Keeps {W = World S} (OfDevice Q) ip6_nat_supported
  unfolding ip6_nat_supported
  ip6_nat_supported-Frame = search flush_rules depth 16

  pub probe_capabilities_raw-Frame : Keeps {W = World S} (OfDevice Q) probe_capabilities_raw
  unfolding probe_capabilities_raw
  probe_capabilities_raw-Frame =
      search
        (
          flush_rules, ipset_available-Frame, probe_restore_support-Frame,
          cap_socket_transparent-Frame, ip6_nat_supported-Frame,
        )
        depth 16

  pub probe_or_load-Frame : Keeps {W = World S} (OfDevice Q) probe_or_load
  unfolding probe_or_load
  probe_or_load-Frame =
      search
        (
          flush_rules, load_capability_cache-Frame, save_capability_cache-Frame,
          probe_capabilities_raw-Frame,
        )
        depth 16

  pub probe_capabilities-Frame : Keeps {W = World S} (OfDevice Q) probe_capabilities
  unfolding probe_capabilities
  probe_capabilities-Frame = search (flush_rules, probe_or_load-Frame) depth 16

  pub restore_supported-Frame :
      (family : Family) → Keeps {W = World S} (OfDevice Q) (restore_supported family)
  unfolding restore_supported
  restore_supported-Frame family = search (flush_rules, probe_capabilities-Frame) depth 16

  pub begin_batch-Frame : (family : Family) → Keeps {W = World S} (OfDevice Q) (begin_batch family)
  unfolding begin_batch
  begin_batch-Frame family = search (flush_rules, restore_supported-Frame) depth 16

pub ruleset capabilities_rules = (
  flush_rules, capability_cache_signature-Frame, load_capability_cache-Frame,
  save_capability_cache-Frame, capability_entries-Frame, ipset_available-Frame,
  probe_restore_support-Frame, cap_socket_transparent-Frame, ip6_nat_supported-Frame,
  probe_capabilities_raw-Frame, probe_or_load-Frame, probe_capabilities-Frame,
  restore_supported-Frame, begin_batch-Frame,
)
