-- ===== src/Rules/Frame/Cnip.antt =====
-- boxctl/src/rules/cnip.rs, with a framed predicate.
use boxproxy.Prelude.{String, List}
use boxproxy.Act.Keeps.{Keeps}
use boxproxy.Rules.Names.{Family, RuleContext}
use boxproxy.Rules.Manager.{Env, World}
use boxproxy.Rules.Cnip.{
  ipset_enabled_for_family, cnip_matcher_enabled_for_family, cnip_match_args, cnip_force_match_args,
  app_uid_ebpf_pin_loaded, app_uid_ebpf_active,
}
use boxproxy.Rules.Frame.{Frame, OfDevice}
use boxproxy.Rules.Frame.Capabilities.{capabilities_rules}

module _ {S : Type 0} ⦃E : Env S⦄ {Q : S → Type 0} (frame : Frame Q) where
  pub ipset_enabled_for_family-Frame :
      (family : Family) → Keeps {W = World S} (OfDevice Q) (ipset_enabled_for_family family)
  unfolding ipset_enabled_for_family
  ipset_enabled_for_family-Frame family = search capabilities_rules depth 16

  pub cnip_matcher_enabled_for_family-Frame :
      (family : Family) → Keeps {W = World S} (OfDevice Q) (cnip_matcher_enabled_for_family family)
  unfolding cnip_matcher_enabled_for_family
  cnip_matcher_enabled_for_family-Frame family =
      search (capabilities_rules, ipset_enabled_for_family-Frame) depth 16

  pub cnip_match_args-Frame :
      (family : Family) (chain : String) (base : List String)
      → Keeps {W = World S} (OfDevice Q) (cnip_match_args family chain base)
  unfolding cnip_match_args
  cnip_match_args-Frame family chain base =
      search (capabilities_rules, cnip_matcher_enabled_for_family-Frame) depth 16

  pub cnip_force_match_args-Frame :
      (family : Family) (base : List String)
      → Keeps {W = World S} (OfDevice Q) (cnip_force_match_args family base)
  unfolding cnip_force_match_args
  cnip_force_match_args-Frame family base =
      search (capabilities_rules, cnip_matcher_enabled_for_family-Frame) depth 16

  pub app_uid_ebpf_pin_loaded-Frame :
      (family : Family) → Keeps {W = World S} (OfDevice Q) (app_uid_ebpf_pin_loaded family)
  unfolding app_uid_ebpf_pin_loaded
  app_uid_ebpf_pin_loaded-Frame family = search capabilities_rules depth 16

  pub app_uid_ebpf_active-Frame :
      (family : Family) (context : RuleContext)
      → Keeps {W = World S} (OfDevice Q) (app_uid_ebpf_active family context)
  unfolding app_uid_ebpf_active
  app_uid_ebpf_active-Frame family context = search capabilities_rules depth 16

pub ruleset cnip_rules = (
  capabilities_rules, ipset_enabled_for_family-Frame, cnip_matcher_enabled_for_family-Frame,
  cnip_match_args-Frame, cnip_force_match_args-Frame, app_uid_ebpf_pin_loaded-Frame,
  app_uid_ebpf_active-Frame,
)
