-- ===== src/Rules/Modes.antt =====
-- The rules of one family for each mode, with their rollback: `apply_redirect_family`,
-- `apply_tproxy_family`, `apply_mixed_family`, `apply_enhance_family` and `apply_tun_family` of
-- boxctl/src/rules.rs, and `cleanup_iptables_family` of boxctl/src/rules/cleanup.rs.
use boxproxy.Prelude.{String, true, false, not, [], ◌∷◌, ◌<>◌, ◌==◌, if◌then◌else◌}
use boxproxy.Act.{Result, ok, err, Act, pure, fail, attempt, ◌>>=◌, ◌>>◌, when, ignore}
use boxproxy.Config.{Config}
use boxproxy.Rules.Names.{Family, v4, v6, is_v4, family_label, RuleContext, Capabilities}
use boxproxy.Rules.Manager.{Env, World}
use boxproxy.Rules.Routing.{forward}
use boxproxy.Rules.Redirect.{start_redirect, stop_redirect}
use boxproxy.Rules.Tproxy.{start_tproxy, stop_tproxy}
use boxproxy.Rules.Tun.{start_tun_bypass, stop_tun_bypass, tun_route_managed_by_box}
use boxproxy.Rules.Ops.{del_rule}

module _ {W : Type 0} where
  unfoldable pub recover : (String → Act W Unit) → Result (Unit {0}) → Act W Unit
  recover h (ok _) = pure tt
  recover h (err e) = h e

  -- `match m { Ok(()) => Ok(()), Err(err) => h(err) }`
  unfoldable pub or_else : Act W Unit → (String → Act W Unit) → Act W Unit
  unfolding ◌>>=◌ recover
  or_else m h = attempt m >>= recover h

abbrev tun_label : Config → String
tun_label config = if config.bypass_cn_ip then "TUN CNIP bypass" else "TUN managed route"

module _ {S : Type 0} ⦃E : Env S⦄ where
  -- `cleanup_forward`: its error is only logged
  unfoldable pub cleanup_forward : Family → Act (World S) Unit
  unfolding forward ignore
  cleanup_forward family = ignore (forward family false)

  unfoldable pub apply_redirect_family : Family → RuleContext → Act (World S) Unit
  unfolding ◌>>=◌ or_else start_redirect stop_redirect
  apply_redirect_family family context =
      or_else (start_redirect family context) λ e. do stop_redirect family; fail e

  -- An IPv6 failure is taken down and passed over.
  unfoldable pub apply_tproxy_family : Family → RuleContext → Capabilities → Act (World S) Unit
  unfolding ◌>>=◌ or_else start_tproxy stop_tproxy
  apply_tproxy_family family context capabilities =
      or_else (start_tproxy family context capabilities)
        λ e. do stop_tproxy family; if is_v4 family then fail e else pure tt

  unfoldable pub apply_mixed_family : Family → RuleContext → Act (World S) Unit
  unfolding ◌>>=◌ forward apply_redirect_family
  apply_mixed_family family context = do forward family true; apply_redirect_family family context

  unfoldable pub apply_enhance_family : Family → RuleContext → Capabilities → Act (World S) Unit
  unfolding ◌>>=◌ or_else start_redirect start_tproxy stop_redirect stop_tproxy
  apply_enhance_family family context capabilities = do
    start_redirect family context
    or_else (start_tproxy family context capabilities)
        λ e. if is_v4 family then (do stop_redirect family; stop_tproxy family; fail e) else pure tt

  unfoldable pub apply_tun_family : Family → RuleContext → Act (World S) Unit
  unfolding ◌>>=◌ or_else forward cleanup_forward stop_tun_bypass start_tun_bypass
  apply_tun_family family context = do
    or_else (forward family true) λ e. do
      cleanup_forward family
      fail (family_label family <> (" TUN forwarding rule creation failed: " <> e))
    if not (tun_route_managed_by_box E.config)
        then stop_tun_bypass family
        else or_else (start_tun_bypass family context) λ e. do
          stop_tun_bypass family
          cleanup_forward family
          fail (
              family_label family
              <> (" " <> (tun_label E.config <> (" rule creation failed: " <> e))))

  -- the rule that every mode but "none" and "ebpf" leaves to be deleted for IPv6
  abbrev drop_v6_dns : Family → Act (World S) Unit
  drop_v6_dns family = when (not (is_v4 family)) (
      del_rule family "filter" "OUTPUT"
        ("-p" ∷ "udp" ∷ "--destination-port" ∷ "53" ∷ "-j" ∷ "DROP" ∷ []))

  unfoldable pub cleanup_iptables_family : Family → String → Act (World S) Unit
  unfolding ◌>>=◌ stop_redirect stop_tproxy stop_tun_bypass cleanup_forward
  cleanup_iptables_family family mode =
      if mode == "none"
      then pure tt
      else if mode == "redirect"
      then (do stop_redirect family; drop_v6_dns family)
      else if mode == "tproxy"
      then (do stop_tproxy family; drop_v6_dns family)
      else if mode == "enhance"
      then (do stop_redirect family; stop_tproxy family; drop_v6_dns family)
      else if mode == "mixed"
      then (do stop_redirect family; cleanup_forward family; drop_v6_dns family)
      else if mode == "tun"
      then (do stop_tun_bypass family; cleanup_forward family; drop_v6_dns family)
      else if mode == "ebpf"
      then pure tt
      else do
        stop_redirect family
        stop_tproxy family
        stop_tun_bypass family
        cleanup_forward family
        drop_v6_dns family

  unfoldable pub cleanup_iptables_for_mode : String → Act (World S) Unit
  unfolding ◌>>=◌ cleanup_iptables_family
  cleanup_iptables_for_mode mode = do
    cleanup_iptables_family v4 mode
    cleanup_iptables_family v6 mode
