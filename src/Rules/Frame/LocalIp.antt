-- ===== src/Rules/Frame/LocalIp.antt =====
-- boxctl/src/rules/local_ip.rs, with a framed predicate.
use boxproxy.Prelude.{if◌then◌else◌, ◌+◌, [], ◌∷◌, ℕ, String, List}
use boxproxy.Act.Keeps.{Keeps, Keeps-bind}
use boxproxy.Rules.Names.{Family}
use boxproxy.Rules.Manager.{Env, World}
use boxproxy.Rules.LocalIp.{
  dynamic_bypass_subnets, compute_bypass_subnets, bypass_subnets, compute_local_ip_cidrs,
  local_ip_cidrs, rebuild_local_ip_chain_with_restore, append_local_ip_ruleset, append_local_ips,
  rebuild_local_ip_chain, ensure_local_ip_chain,
}
use boxproxy.Rules.Frame.{Frame, OfDevice}
use boxproxy.Rules.Frame.Dispatch.{dispatch_rules}
use boxproxy.Prelude.{if◌then◌else◌, ◌+◌, refl}
use boxproxy.Act.{modify}
use boxproxy.Rules.Frame.Exec.{cells-Frame}
use boxproxy.Rules.LocalIp.{set_bypass, set_local}

module _ {S : Type 0} {Q : S → Type 0} where
  pub set_bypass-Frame :
      (family : Family) (subnets : List String)
      → Keeps {W = World S} (OfDevice Q) (modify (set_bypass family subnets))
  set_bypass-Frame Family.v4 subnets = cells-Frame _ (λ w. refl)
  set_bypass-Frame Family.v6 subnets = cells-Frame _ (λ w. refl)

  pub set_local-Frame :
      (family : Family) (cidrs : List String)
      → Keeps {W = World S} (OfDevice Q) (modify (set_local family cidrs))
  set_local-Frame Family.v4 cidrs = cells-Frame _ (λ w. refl)
  set_local-Frame Family.v6 cidrs = cells-Frame _ (λ w. refl)

module _ {S : Type 0} ⦃E : Env S⦄ {Q : S → Type 0} (frame : Frame Q) where
  pub dynamic_bypass_subnets-Frame :
      (family : Family) → Keeps {W = World S} (OfDevice Q) (dynamic_bypass_subnets family)
  unfolding dynamic_bypass_subnets
  dynamic_bypass_subnets-Frame family = search dispatch_rules depth 16

  pub compute_bypass_subnets-Frame :
      (family : Family) → Keeps {W = World S} (OfDevice Q) (compute_bypass_subnets family)
  unfolding compute_bypass_subnets
  compute_bypass_subnets-Frame family =
      search (dispatch_rules, dynamic_bypass_subnets-Frame) depth 16

  pub bypass_subnets-Frame :
      (family : Family) → Keeps {W = World S} (OfDevice Q) (bypass_subnets family)
  unfolding bypass_subnets
  bypass_subnets-Frame family =
      search (dispatch_rules, set_bypass-Frame, compute_bypass_subnets-Frame) depth 16

  pub compute_local_ip_cidrs-Frame :
      (family : Family) → Keeps {W = World S} (OfDevice Q) (compute_local_ip_cidrs family)
  unfolding compute_local_ip_cidrs
  compute_local_ip_cidrs-Frame family = search dispatch_rules depth 16

  pub local_ip_cidrs-Frame :
      (family : Family) → Keeps {W = World S} (OfDevice Q) (local_ip_cidrs family)
  unfolding local_ip_cidrs
  local_ip_cidrs-Frame family =
      search (dispatch_rules, set_local-Frame, compute_local_ip_cidrs-Frame) depth 16

  pub rebuild_local_ip_chain_with_restore-Frame :
      (family : Family) (table : String) (chain : String) (cidrs : List String)
      → Keeps {W = World S}
          (OfDevice Q)
          (rebuild_local_ip_chain_with_restore family table chain cidrs)
  unfolding rebuild_local_ip_chain_with_restore
  rebuild_local_ip_chain_with_restore-Frame family table chain cidrs =
      search dispatch_rules depth 16

  pub append_local_ip_ruleset-Frame :
      (family : Family) (table : String) (chain : String) (cidr : String)
      → Keeps {W = World S} (OfDevice Q) (append_local_ip_ruleset family table chain cidr)
  unfolding append_local_ip_ruleset
  append_local_ip_ruleset-Frame family table chain cidr = search dispatch_rules depth 16

  pub append_local_ips-Frame :
      (family : Family) (table chain : String) (cidrs : List String) (done failed : ℕ)
      → Keeps {W = World S} (OfDevice Q) (append_local_ips family table chain cidrs done failed)
  unfolding append_local_ips
  append_local_ips-Frame family table chain [] done failed = search dispatch_rules
  append_local_ips-Frame family table chain (cidr ∷ cidrs) done failed =
      Keeps-bind _ _ (append_local_ip_ruleset-Frame family table chain cidr) (λ added.
        append_local_ips-Frame family table chain cidrs (if added then done + 1 else done)
          (if added then failed else failed + 1))

  pub rebuild_local_ip_chain-Frame :
      (family : Family) (table : String) (cidrs : List String)
      → Keeps {W = World S} (OfDevice Q) (rebuild_local_ip_chain family table cidrs)
  unfolding rebuild_local_ip_chain
  rebuild_local_ip_chain-Frame family table cidrs =
      search (dispatch_rules, rebuild_local_ip_chain_with_restore-Frame, append_local_ips-Frame)
        depth 16

  pub ensure_local_ip_chain-Frame :
      (family : Family) (table : String)
      → Keeps {W = World S} (OfDevice Q) (ensure_local_ip_chain family table)
  unfolding ensure_local_ip_chain
  ensure_local_ip_chain-Frame family table =
      search (dispatch_rules, local_ip_cidrs-Frame, rebuild_local_ip_chain-Frame) depth 16

pub ruleset local_ip_rules = (
  dispatch_rules, dynamic_bypass_subnets-Frame, compute_bypass_subnets-Frame, bypass_subnets-Frame,
  compute_local_ip_cidrs-Frame, local_ip_cidrs-Frame, rebuild_local_ip_chain_with_restore-Frame,
  append_local_ip_ruleset-Frame, append_local_ips-Frame, rebuild_local_ip_chain-Frame,
  ensure_local_ip_chain-Frame,
)
