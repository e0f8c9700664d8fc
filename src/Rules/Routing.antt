-- ===== src/Rules/Routing.antt =====
-- Policy routing and the rules outside our chains: boxctl/src/rules/routing.rs.
use boxproxy.Prelude.{
  String, Bool, true, false, not, ◌&&◌, ◌||◌, List, [], ◌∷◌, ◌++◌, ◌==◌, if◌then◌else◌,
}
use boxproxy.Prelude.Text.{is_blank, trim}
use boxproxy.Act.{Act, pure, ◌>>=◌, ◌>>◌, for_each, when, ignore, succeeds}
use boxproxy.Config.Modes.{is_enhance}
use boxproxy.Rules.Names.{
  Family, is_v4, ProxyAction, redirect, tproxy, mark, RuleContext, Capabilities, fwmark,
  tproxy_table, tproxy_pref, tun_bypass_mark, tun_bypass_pref, tun_route_mark, tun_route_table,
  tun_route_pref, loopback_addr,
}
use boxproxy.Rules.Manager.{Env, World, run_ignore}
use boxproxy.Rules.Context.{prepare_context}
use boxproxy.Rules.Performance.{tproxy_performance_chain_enabled}
use boxproxy.Rules.Ops.{
  ensure_rule_append, ensure_rule_insert, ensure_chain, del_rule, cleanup_chain_fast,
  ensure_ip_rule, del_ip_rule_if_exists, ensure_ip_route_local_default,
  del_ip_route_local_default_if_exists, ip_ignore, ip_required,
}
use boxproxy.Rules.Dispatch.{append_tproxy_dispatch_rule, mark_target}

-- `owner_match_variants` of boxctl/src/rules/util.rs
abbrev reject_tail : String → List String
reject_tail port = "-m" ∷ "tcp" ∷ "--dport" ∷ port ∷ "-j" ∷ "REJECT" ∷ []

abbrev pub owner_match_variants : RuleContext → String → String → String → List (List String)
owner_match_variants context dest_flag dest port =
    let base : List String = dest_flag ∷ dest ∷ "-p" ∷ "tcp" ∷ "-m" ∷ "owner" ∷ [] in
    (base
      ++ (("--uid-owner" ∷ context.box_uid ∷ "--gid-owner" ∷ context.box_gid ∷ [])
          ++ reject_tail port))
    ∷ (base ++ (("--uid-owner" ∷ context.box_uid ∷ []) ++ reject_tail port))
    ∷ (base ++ (("--gid-owner" ∷ context.box_gid ∷ []) ++ reject_tail port))
    ∷ []

-- the two rules of earlier releases that `cleanup_loopback_reject_rule` also deletes
abbrev fixed_variants : String → String → List (List String)
fixed_variants addr port =
    ("-d" ∷ addr ∷ "-p" ∷ "tcp" ∷ "-m" ∷ "owner" ∷ "--uid-owner" ∷ "0:3005" ∷ reject_tail port)
    ∷ ("-d"
        ∷ addr
        ∷ "-p"
        ∷ "tcp"
        ∷ "-m"
        ∷ "owner"
        ∷ "--uid-owner"
        ∷ "0"
        ∷ "--gid-owner"
        ∷ "3005"
        ∷ reject_tail port)
    ∷ []

abbrev divert_match : List String
divert_match = "-p" ∷ "tcp" ∷ "-m" ∷ "socket" ∷ "--transparent" ∷ "-j" ∷ "DIVERT" ∷ []

abbrev dnat_target : List String
dnat_target = "-j" ∷ "DNAT" ∷ "--to-destination" ∷ "127.0.0.1" ∷ []

abbrev udp_reject : String → List String
udp_reject port = "-p" ∷ "udp" ∷ "--dport" ∷ port ∷ "-j" ∷ "REJECT" ∷ []

module _ {S : Type 0} ⦃E : Env S⦄ where
  unfoldable pub cleanup_tproxy_divert_chain : Family → Act (World S) Unit
  unfolding ◌>>=◌
  cleanup_tproxy_divert_chain family = do
    del_rule family "mangle" "PREROUTING" divert_match
    del_rule family "mangle" "PREROUTING" ("-p" ∷ "tcp" ∷ "-m" ∷ "socket" ∷ "-j" ∷ "DIVERT" ∷ [])
    cleanup_chain_fast family "mangle" "DIVERT"

  unfoldable pub setup_tproxy_divert_chain : Family → Capabilities → Act (World S) Unit
  unfolding ◌>>=◌ cleanup_tproxy_divert_chain
  setup_tproxy_divert_chain family capabilities =
      if is_enhance E.config.network_mode
        || not capabilities.socket_match
        || not (tproxy_performance_chain_enabled E.config capabilities)
      then cleanup_tproxy_divert_chain family
      else do
        ensure_chain family "mangle" "DIVERT"
        ensure_rule_append family "mangle" "DIVERT" (mark_target fwmark)
        ensure_rule_append family "mangle" "DIVERT" ("-j" ∷ "ACCEPT" ∷ [])
        ensure_rule_insert family "mangle" "PREROUTING" divert_match

  unfoldable pub fakeip_action : Family → String → ProxyAction → String → Act (World S) Unit
  unfolding ◌>>=◌ append_tproxy_dispatch_rule
  fakeip_action family chain tproxy range = do
    when (not (is_enhance E.config.network_mode) && E.config.proxy_tcp)
        (append_tproxy_dispatch_rule family chain ("-p" ∷ "tcp" ∷ "-d" ∷ range ∷ []))
    when E.config.proxy_udp
        (append_tproxy_dispatch_rule family chain ("-p" ∷ "udp" ∷ "-d" ∷ range ∷ []))
  fakeip_action family chain mark range = do
    when (not (is_enhance E.config.network_mode) && E.config.proxy_tcp) (
        ensure_rule_append family "mangle" chain
          (("-p" ∷ "tcp" ∷ "-d" ∷ range ∷ []) ++ mark_target fwmark))
    when E.config.proxy_udp (
        ensure_rule_append family "mangle" chain
          (("-p" ∷ "udp" ∷ "-d" ∷ range ∷ []) ++ mark_target fwmark))
  fakeip_action family chain redirect range = pure tt

  unfoldable pub apply_tproxy_ipv6_fakeip_rules : Family → String → ProxyAction → Act (World S) Unit
  unfolding ◌>>=◌ fakeip_action trim
  apply_tproxy_ipv6_fakeip_rules family chain action =
      if is_v4 family
        || is_blank (trim E.config.fake_ip6_range)
        || not (E.config.bin_name == "mihomo")
      then pure tt
      else fakeip_action family chain action (trim E.config.fake_ip6_range)

  unfoldable pub setup_fake_ip_icmp_rules : Family → Act (World S) Unit
  unfolding ◌>>=◌ trim
  setup_fake_ip_icmp_rules family =
      let range = trim E.config.fake_ip_range in
      if not (is_v4 family)
        || is_blank range
        || not ((E.config.bin_name == "mihomo") || (E.config.bin_name == "sing-box"))
      then pure tt
      else do
        ensure_rule_insert family "nat" "OUTPUT"
            (("-d" ∷ range ∷ "-p" ∷ "icmp" ∷ []) ++ dnat_target)
        ensure_rule_insert family "nat" "PREROUTING"
            (("-d" ∷ range ∷ "-p" ∷ "icmp" ∷ []) ++ dnat_target)

  unfoldable pub cleanup_fake_ip_icmp_rules : Family → Act (World S) Unit
  unfolding ◌>>=◌ for_each trim
  cleanup_fake_ip_icmp_rules family =
      let range = trim E.config.fake_ip_range in
      if not (is_v4 family) || is_blank range
      then pure tt
      else for_each ("OUTPUT" ∷ "PREROUTING" ∷ []) λ chain. do
        del_rule family "nat" chain (("-p" ∷ "icmp" ∷ "-d" ∷ range ∷ []) ++ dnat_target)
        del_rule family "nat" chain (("-d" ∷ range ∷ "-p" ∷ "icmp" ∷ []) ++ dnat_target)

  -- The first variant that goes in ends the loop; nothing is reported if none does.
  unfoldable pub append_first_variant : Family → List (List String) → Act (World S) Unit
  unfolding ◌>>=◌ succeeds
  append_first_variant family [] = pure tt
  append_first_variant family (args ∷ rest) = do
    let later = append_first_variant family rest
    added ← succeeds (ensure_rule_append family "filter" "OUTPUT" args)
    if added then pure tt else later

  unfoldable pub apply_loopback_reject_rule : Family → String → RuleContext → Act (World S) Unit
  unfolding append_first_variant
  apply_loopback_reject_rule family port context =
      append_first_variant family (owner_match_variants context "-d" (loopback_addr family) port)

  unfoldable pub cleanup_loopback_reject_rule : Family → String → Act (World S) Unit
  unfolding ◌>>=◌ for_each prepare_context
  cleanup_loopback_reject_rule family port = do
    context ← prepare_context
    for_each (owner_match_variants context "-d" (loopback_addr family) port)
        (del_rule family "filter" "OUTPUT")
    for_each (fixed_variants (loopback_addr family) port) (del_rule family "filter" "OUTPUT")

  -- A rule that fails is only logged.
  unfoldable pub apply_quic_block_rules : Family → Act (World S) Unit
  unfolding for_each ignore
  apply_quic_block_rules family =
      if not (E.config.quic == "disable") || not E.config.proxy_udp
      then pure tt
      else for_each ("443" ∷ "80" ∷ [])
          λ port. ignore (ensure_rule_append family "filter" "OUTPUT" (udp_reject port))

  unfoldable pub cleanup_quic_block_rules : Family → Act (World S) Unit
  unfolding ◌>>=◌
  cleanup_quic_block_rules family = do
    del_rule family "filter" "OUTPUT"
        ("-p" ∷ "udp" ∷ "-m" ∷ "multiport" ∷ "--dport" ∷ "443,80" ∷ "-j" ∷ "REJECT" ∷ [])
    del_rule family "filter" "OUTPUT" (udp_reject "443")
    del_rule family "filter" "OUTPUT" (udp_reject "80")

  unfoldable pub setup_tproxy_policy_routing : Family → Act (World S) Unit
  unfolding ◌>>=◌
  setup_tproxy_policy_routing family = do
    ensure_ip_rule family fwmark tproxy_table tproxy_pref
    ensure_ip_route_local_default family tproxy_table

  unfoldable pub cleanup_tproxy_policy_routing : Family → Act (World S) Unit
  unfolding ◌>>=◌
  cleanup_tproxy_policy_routing family = do
    del_ip_rule_if_exists family fwmark tproxy_table tproxy_pref
    del_ip_route_local_default_if_exists family tproxy_table
    ip_ignore family ("route" ∷ "flush" ∷ "table" ∷ tproxy_table ∷ [])

  unfoldable pub apply_tun_route_rules : Family → Act (World S) Unit
  unfolding ◌>>=◌
  apply_tun_route_rules family = do
    ensure_ip_rule family tun_bypass_mark "main" tun_bypass_pref
    ensure_ip_rule family tun_route_mark tun_route_table tun_route_pref
    ip_required family (
        "route" ∷ "replace" ∷ "default" ∷ "dev" ∷ E.config.tun_device ∷ "table" ∷ tun_route_table
        ∷ [])

  unfoldable pub cleanup_tun_route_rules : Family → Act (World S) Unit
  unfolding ◌>>=◌
  cleanup_tun_route_rules family = do
    del_ip_rule_if_exists family tun_bypass_mark "main" tun_bypass_pref
    del_ip_rule_if_exists family tun_route_mark tun_route_table tun_route_pref
    ip_ignore family ("route" ∷ "flush" ∷ "table" ∷ tun_route_table ∷ [])

  unfoldable pub forward : Family → Bool → Act (World S) Unit
  unfolding ◌>>=◌
  forward family true = do
    ensure_rule_insert family "filter" "FORWARD" ("-i" ∷ E.config.tun_device ∷ "-j" ∷ "ACCEPT" ∷ [])
    ensure_rule_insert family "filter" "FORWARD" ("-o" ∷ E.config.tun_device ∷ "-j" ∷ "ACCEPT" ∷ [])
    when (is_v4 family) do
      run_ignore "sysctl" ("-w" ∷ "net.ipv4.ip_forward=1" ∷ [])
      run_ignore "sysctl" ("-w" ∷ "net.ipv4.conf.default.rp_filter=2" ∷ [])
      run_ignore "sysctl" ("-w" ∷ "net.ipv4.conf.all.rp_filter=2" ∷ [])
  forward family false = do
    del_rule family "filter" "FORWARD" ("-i" ∷ E.config.tun_device ∷ "-j" ∷ "ACCEPT" ∷ [])
    del_rule family "filter" "FORWARD" ("-o" ∷ E.config.tun_device ∷ "-j" ∷ "ACCEPT" ∷ [])
