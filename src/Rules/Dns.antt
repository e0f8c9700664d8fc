-- ===== src/Rules/Dns.antt =====
-- DNS interception: boxctl/src/rules/dns.rs.
use boxproxy.Prelude.{
  String, Bool, true, false, not, ◌&&◌, ◌||◌, List, [], ◌∷◌, ◌++◌, ◌==◌, if◌then◌else◌,
}
use boxproxy.Prelude.Text.{is_blank, trim}
use boxproxy.Act.{Act, pure, ◌>>=◌, ◌>>◌, for_each, when}
use boxproxy.Config.{Config}
use boxproxy.Config.Modes.{is_enhance}
use boxproxy.Rules.Names.{
  Family, v4, v6, is_v4, ProxyAction, redirect, tproxy, mark, DnsNatKind, hijack, forward,
  RuleContext, fwmark, dns_pre_chain, dns_out_chain,
}
use boxproxy.Rules.Manager.{Env, World}
use boxproxy.Rules.Capabilities.{probe_capabilities}
use boxproxy.Rules.Ops.{
  ensure_rule_append, ensure_chain, ensure_jump, add_core_bypass_rule, del_jump, cleanup_chain_fast,
}
use boxproxy.Rules.Dispatch.{
  append_tproxy_dispatch_rule, return_target, redirect_target, mark_target,
}

abbrev pub dns_mode_is_redirect : Config → Bool
dns_mode_is_redirect config = config.dns_hijack_mode == "redirect"

abbrev pub dns_mode_is_disable : Config → Bool
dns_mode_is_disable config = config.dns_hijack_mode == "disable"

abbrev pub dns_should_use_mihomo_forward : Config → Bool
dns_should_use_mihomo_forward config =
    (config.mihomo_dns_forward == "enable")
    && (config.bin_name == "mihomo")
    && not (dns_mode_is_redirect config)
    && not (dns_mode_is_disable config)

unfoldable pub dns_target_port : Config → String
unfolding trim
dns_target_port config =
    if is_blank (trim config.mihomo_dns_port) then "1053" else trim config.mihomo_dns_port

abbrev dns_match : String → List String
dns_match proto = "-p" ∷ proto ∷ "--dport" ∷ "53" ∷ []

module _ {S : Type 0} ⦃E : Env S⦄ where
  abbrev dns_redirect : Family → String → String → String → Act (World S) Unit
  dns_redirect family chain proto port =
      ensure_rule_append family "nat" chain (dns_match proto ++ redirect_target port)

  unfoldable pub append_dns_nat_kind : Family → String → DnsNatKind → String → Act (World S) Unit
  unfolding ◌>>=◌
  append_dns_nat_kind family chain hijack port = do
    when E.config.dns_hijack_tcp (dns_redirect family chain "tcp" port)
    when E.config.dns_hijack_udp (dns_redirect family chain "udp" port)
  append_dns_nat_kind family chain forward port =
      when E.config.dns_hijack_udp (dns_redirect family chain "udp" port)

  unfoldable pub append_dns_nat_rules :
      Family → String → DnsNatKind → String → Bool → Act (World S) Unit
  unfolding ◌>>=◌ for_each append_dns_nat_kind
  append_dns_nat_rules family chain kind port inbound = do
    when (inbound && is_v4 family) (
        for_each E.config.blocked_interfaces
          λ iface. ensure_rule_append family "nat" chain (("-i" ∷ iface ∷ []) ++ return_target))
    append_dns_nat_kind family chain kind port

  unfoldable pub setup_nat_dns_forward_chain : Family → RuleContext → Act (World S) Unit
  unfolding ◌>>=◌ append_dns_nat_rules dns_target_port
  setup_nat_dns_forward_chain family context = do
    ensure_chain family "nat" (dns_pre_chain family forward)
    _ ← add_core_bypass_rule family "nat" (dns_pre_chain family forward) "-I" context
    append_dns_nat_rules family (dns_pre_chain family forward) forward (dns_target_port E.config)
        true
    ensure_jump family "nat" "OUTPUT" (dns_pre_chain family forward)

  -- A failed core bypass is only logged.
  unfoldable pub setup_nat_dns_chain : Family → DnsNatKind → RuleContext → Act (World S) Unit
  unfolding ◌>>=◌ setup_nat_dns_forward_chain append_dns_nat_rules dns_target_port
  setup_nat_dns_chain family forward context = setup_nat_dns_forward_chain family context
  setup_nat_dns_chain family hijack context = do
    ensure_chain family "nat" (dns_pre_chain family hijack)
    ensure_chain family "nat" (dns_out_chain family hijack)
    append_dns_nat_rules family (dns_pre_chain family hijack) hijack (dns_target_port E.config) true
    _ ← add_core_bypass_rule family "nat" (dns_out_chain family hijack) "-I" context
    append_dns_nat_rules family (dns_out_chain family hijack) hijack (dns_target_port E.config)
        false
    ensure_jump family "nat" "PREROUTING" (dns_pre_chain family hijack)
    ensure_jump family "nat" "OUTPUT" (dns_out_chain family hijack)

  -- `family == Family::V6 && !self.probe_capabilities().ip6_nat`
  unfoldable pub lacks_nat : Family → Act (World S) Bool
  unfolding ◌>>=◌ probe_capabilities
  lacks_nat v4 = pure false
  lacks_nat v6 = do caps ← probe_capabilities; pure (not caps.ip6_nat)

  unfoldable pub ensure_dns_nat_hijack : Family → RuleContext → Act (World S) Unit
  unfolding ◌>>=◌ lacks_nat setup_nat_dns_chain
  ensure_dns_nat_hijack family context =
      if not (dns_mode_is_redirect E.config) && not (dns_should_use_mihomo_forward E.config)
      then pure tt
      else do
        missing ← lacks_nat family
        if missing
            then pure tt
            else setup_nat_dns_chain family
                (if dns_mode_is_redirect E.config then hijack else forward) context

  unfoldable pub append_dns_return_rules : Family → String → Act (World S) Unit
  unfolding ◌>>=◌
  append_dns_return_rules family chain = do
    when (not (is_enhance E.config.network_mode) && E.config.dns_hijack_tcp)
        (ensure_rule_append family "mangle" chain (dns_match "tcp" ++ return_target))
    when E.config.dns_hijack_udp
        (ensure_rule_append family "mangle" chain (dns_match "udp" ++ return_target))

  unfoldable pub append_dns_tproxy_rules : Family → String → Act (World S) Unit
  unfolding ◌>>=◌ append_tproxy_dispatch_rule
  append_dns_tproxy_rules family chain = do
    when (not (is_enhance E.config.network_mode) && E.config.dns_hijack_tcp && E.config.proxy_tcp)
        (append_tproxy_dispatch_rule family chain (dns_match "tcp"))
    when (E.config.dns_hijack_udp && E.config.proxy_udp)
        (append_tproxy_dispatch_rule family chain (dns_match "udp"))

  unfoldable pub append_dns_mark_rules : Family → String → Act (World S) Unit
  unfolding ◌>>=◌
  append_dns_mark_rules family chain = do
    when (not (is_enhance E.config.network_mode) && E.config.dns_hijack_tcp && E.config.proxy_tcp)
        (ensure_rule_append family "mangle" chain (dns_match "tcp" ++ mark_target fwmark))
    when (E.config.dns_hijack_udp && E.config.proxy_udp)
        (ensure_rule_append family "mangle" chain (dns_match "udp" ++ mark_target fwmark))

  unfoldable pub mangle_dns_action : Family → String → ProxyAction → Act (World S) Unit
  unfolding ◌>>=◌ append_dns_tproxy_rules append_dns_mark_rules
  mangle_dns_action family chain tproxy = append_dns_tproxy_rules family chain
  mangle_dns_action family chain mark = append_dns_mark_rules family chain
  mangle_dns_action family chain redirect = pure tt

  unfoldable pub apply_mangle_dns_rules : Family → String → ProxyAction → Act (World S) Unit
  unfolding append_dns_return_rules mangle_dns_action
  apply_mangle_dns_rules family chain action =
      if dns_mode_is_redirect E.config
        || dns_mode_is_disable E.config
        || dns_should_use_mihomo_forward E.config
      then append_dns_return_rules family chain
      else mangle_dns_action family chain action

  -- `cleanup_dns_nat_chains` of boxctl/src/rules/cleanup.rs
  unfoldable pub cleanup_dns_nat_chains : Family → Act (World S) Unit
  unfolding ◌>>=◌ lacks_nat for_each
  cleanup_dns_nat_chains family = do
    missing ← lacks_nat family
    if missing
        then pure tt
        else for_each
            (dns_pre_chain family hijack
              ∷ dns_out_chain family hijack
              ∷ dns_pre_chain family forward
              ∷ dns_out_chain family forward
              ∷ [])
            λ chain. do
              del_jump family "nat" "PREROUTING" chain
              del_jump family "nat" "OUTPUT" chain
              cleanup_chain_fast family "nat" chain
