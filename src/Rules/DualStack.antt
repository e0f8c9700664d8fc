-- ===== src/Rules/DualStack.antt =====
-- Both families of a mode, in boxctl/src/rules.rs: each builds its rules while a batch is open,
-- and the batch is flushed and dropped whether or not the family succeeds.
pub mod Batches
pub mod Closed
use boxproxy.Prelude.{if◌then◌else◌}
use boxproxy.Act.{Act, lift, attempt, ◌>>=◌, ◌>>◌}
use boxproxy.Rules.Names.{Family, v4, v6, RuleContext, Capabilities}
use boxproxy.Rules.Manager.{Env, World}
use boxproxy.Rules.Flush.{end_batch}
use boxproxy.Rules.Capabilities.{begin_batch}
use boxproxy.Rules.Ipv6.{ipv6_enable, apply_ipv6_system_mode, wait_tun_ready}
use boxproxy.Rules.Modes.{
  apply_redirect_family, apply_tproxy_family, apply_mixed_family, apply_enhance_family,
  apply_tun_family,
}

module _ {S : Type 0} ⦃E : Env S⦄ where
  -- The error of the family comes before the error of its flush.
  unfoldable pub batched : (Family → Act (World S) Unit) → Family → Act (World S) Unit
  unfolding ◌>>=◌ begin_batch end_batch
  batched per_family family = do
    begin_batch family
    built ← attempt (per_family family)
    flushed ← attempt end_batch
    lift built
    lift flushed

  unfoldable pub apply_dual_stack : (Family → Act (World S) Unit) → Act (World S) Unit
  unfolding ◌>>=◌ batched ipv6_enable apply_ipv6_system_mode
  apply_dual_stack per_family = do
    batched per_family v4
    if E.config.ipv6 then (do ipv6_enable; batched per_family v6) else apply_ipv6_system_mode

  unfoldable pub apply_redirect : RuleContext → Act (World S) Unit
  unfolding apply_dual_stack apply_redirect_family
  apply_redirect context = apply_dual_stack λ family. apply_redirect_family family context

  unfoldable pub apply_tproxy : RuleContext → Capabilities → Act (World S) Unit
  unfolding apply_dual_stack apply_tproxy_family
  apply_tproxy context capabilities =
      apply_dual_stack λ family. apply_tproxy_family family context capabilities

  unfoldable pub apply_mixed : RuleContext → Act (World S) Unit
  unfolding ◌>>=◌ wait_tun_ready apply_dual_stack apply_mixed_family
  apply_mixed context = do
    wait_tun_ready
    apply_dual_stack λ family. apply_mixed_family family context

  unfoldable pub apply_enhance : RuleContext → Capabilities → Act (World S) Unit
  unfolding apply_dual_stack apply_enhance_family
  apply_enhance context capabilities =
      apply_dual_stack λ family. apply_enhance_family family context capabilities

  unfoldable pub apply_tun : RuleContext → Act (World S) Unit
  unfolding ◌>>=◌ wait_tun_ready apply_dual_stack apply_tun_family
  apply_tun context = do wait_tun_ready; apply_dual_stack λ family. apply_tun_family family context
