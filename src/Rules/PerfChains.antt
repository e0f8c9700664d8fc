-- ===== src/Rules/PerfChains.antt =====
-- The chains of the performance mode: the builders of boxctl/src/rules/performance.rs.
use boxproxy.Prelude.{
  String, Bool, true, false, not, ◌&&◌, ◌||◌, List, [], ◌∷◌, ◌++◌, is_empty, ◌==◌, if◌then◌else◌,
  contains,
}
use boxproxy.Act.{Act, pure, ◌>>=◌, ◌>>◌, for_each, when, on_option}
use boxproxy.Config.Modes.{ProxyMode, core, blacklist, whitelist, is_enhance}
use boxproxy.Rules.Names.{Family, v4, v6, RuleContext, fwmark, is_box_custom_chain}
use boxproxy.Rules.Manager.{Env, World}
use boxproxy.Rules.Util.{valid_macs}
use boxproxy.Rules.Capabilities.{probe_capabilities}
use boxproxy.Rules.Cnip.{cnip_match_args, app_uid_ebpf_active, app_uid_match_args}
use boxproxy.Rules.LocalIp.{bypass_subnets}
use boxproxy.Rules.Ops.{ensure_rule_append, ensure_chain, ipt_check_owned, ipt_try_owned}
use boxproxy.Rules.Dispatch.{return_target, accept_target, mac_match, owner_match}

abbrev loopback_net : Family → String
loopback_net v4 = "127.0.0.0/8"
loopback_net v6 = "::1/128"

abbrev udp_non_dns : List String
udp_non_dns = "-p" ∷ "udp" ∷ "!" ∷ "--dport" ∷ "53" ∷ "-j" ∷ "ACCEPT" ∷ []

abbrev non_udp : List String
non_udp = "!" ∷ "-p" ∷ "udp" ∷ "-j" ∷ "ACCEPT" ∷ []

abbrev new_flow : String → List String
new_flow proto = "-p" ∷ proto ∷ "-m" ∷ "conntrack" ∷ "--ctstate" ∷ "NEW,RELATED" ∷ []

abbrev connmark_target : List String
connmark_target = "-j" ∷ "CONNMARK" ∷ "--set-xmark" ∷ fwmark ∷ []

module _ {S : Type 0} ⦃E : Env S⦄ where
  unfoldable pub append_perf_bypass_target :
      Family → String → String → List String → Act (World S) Unit
  unfolding ◌>>=◌
  append_perf_bypass_target family table chain base = do
    ensure_rule_append family table chain (base ++ udp_non_dns)
    ensure_rule_append family table chain (base ++ non_udp)

  unfoldable pub append_rule_try_skip : Family → String → String → List String → Act (World S) Bool
  unfolding ◌>>=◌
  append_rule_try_skip family table chain args = do
    present ←
        (if is_box_custom_chain chain
          then pure false
          else ipt_check_owned family ("-t" ∷ table ∷ "-C" ∷ chain ∷ args))
    if present then pure true else ipt_try_owned family ("-t" ∷ table ∷ "-A" ∷ chain ∷ args)

  unfoldable pub append_perf_bypass_target_try_skip :
      Family → String → String → List String → Act (World S) Bool
  unfolding ◌>>=◌ append_rule_try_skip
  append_perf_bypass_target_try_skip family table chain base = do
    udp_ok ← append_rule_try_skip family table chain (base ++ udp_non_dns)
    non_udp_ok ← append_rule_try_skip family table chain (base ++ non_udp)
    pure (udp_ok && non_udp_ok)

  -- Without the match, or if its rules are refused, only a warning is logged.
  unfoldable pub append_perf_addrtype_bypass_target : Family → String → String → Act (World S) Unit
  unfolding ◌>>=◌ probe_capabilities append_perf_bypass_target_try_skip
  append_perf_addrtype_bypass_target family table chain = do
    caps ← probe_capabilities
    if not caps.addrtype then pure tt else do
      _ ←
          append_perf_bypass_target_try_skip family table chain
            ("-m" ∷ "addrtype" ∷ "--dst-type" ∷ "LOCAL" ∷ [])
      pure tt

  unfoldable pub setup_perf_dest_chain : Family → String → String → Act (World S) Unit
  unfolding ◌>>=◌ for_each on_option bypass_subnets append_perf_bypass_target cnip_match_args
      append_perf_addrtype_bypass_target
  setup_perf_dest_chain family table chain = do
    ensure_chain family table chain
    subnets ← bypass_subnets family
    for_each subnets λ subnet. append_perf_bypass_target family table chain ("-d" ∷ subnet ∷ [])
    matched ← cnip_match_args family chain []
    on_option matched (pure tt) (append_perf_bypass_target family table chain)
    append_perf_addrtype_bypass_target family table chain
    if contains subnets (loopback_net family)
        then pure tt
        else append_perf_bypass_target family table chain ("-d" ∷ loopback_net family ∷ [])

  -- the devices behind one interface: listed ones return to the proxy under a whitelist
  unfoldable pub perf_interface :
      Family → String → String → List String → String → Act (World S) Unit
  unfolding ◌>>=◌ for_each
  perf_interface family table chain macs iface =
      if E.config.mac_mode == "whitelist"
      then (do
        for_each macs λ mac.
            ensure_rule_append family table chain
              (("-i" ∷ iface ∷ []) ++ (mac_match mac ++ return_target))
        ensure_rule_append family table chain (("-i" ∷ iface ∷ []) ++ accept_target))
      else (do
        for_each macs λ mac.
            ensure_rule_append family table chain
              (("-i" ∷ iface ∷ []) ++ (mac_match mac ++ accept_target))
        ensure_rule_append family table chain (("-i" ∷ iface ∷ []) ++ return_target))

  unfoldable pub setup_perf_pre_if_chain : Family → String → String → Act (World S) Unit
  unfolding ◌>>=◌ for_each perf_interface
  setup_perf_pre_if_chain family table chain = do
    ensure_chain family table chain
    for_each E.config.blocked_interfaces
        λ iface. ensure_rule_append family table chain (("-i" ∷ iface ∷ []) ++ accept_target)
    ensure_rule_append family table chain ("-i" ∷ "lo" ∷ "-j" ∷ "RETURN" ∷ [])
    if not E.config.mac_filter then ensure_rule_append family table chain return_target else do
      for_each E.config.hotspot_ap_interfaces
          (perf_interface family table chain (valid_macs E.config.macs_list))
      ensure_rule_append family table chain accept_target

  abbrev owner_rules :
      Family → String → String → String → List String → List String → Act (World S) Unit
  owner_rules family table chain flag target values =
      for_each values
        λ value. ensure_rule_append family table chain (owner_match flag value ++ target)

  abbrev app_rules :
      Family → String → String → List String → RuleContext → Bool → Act (World S) Unit
  app_rules family table chain target context uid_ebpf =
      if uid_ebpf
      then ensure_rule_append family table chain (app_uid_match_args family [] ++ target)
      else owner_rules family table chain "--uid-owner" target context.selected_uids

  -- the arms of `setup_perf_out_app_chain`
  unfoldable pub perf_proxy_mode :
      ProxyMode → Family → String → String → RuleContext → Bool → Act (World S) Unit
  unfolding ◌>>=◌ for_each
  perf_proxy_mode blacklist family table chain context uid_ebpf = do
    app_rules family table chain accept_target context uid_ebpf
    owner_rules family table chain "--gid-owner" accept_target context.selected_gids
  perf_proxy_mode whitelist family table chain context uid_ebpf = do
    app_rules family table chain return_target context uid_ebpf
    when (not (is_empty context.selected_uids))
        (owner_rules family table chain "--uid-owner" return_target ("0" ∷ "1052" ∷ []))
    owner_rules family table chain "--gid-owner" return_target context.selected_gids
    when (uid_ebpf || not (is_empty context.selected_uids) || not (is_empty context.selected_gids))
        (ensure_rule_append family table chain accept_target)
  perf_proxy_mode core family table chain context uid_ebpf = pure tt

  unfoldable pub setup_perf_out_app_chain :
      Family → String → String → RuleContext → Act (World S) Unit
  unfolding ◌>>=◌ app_uid_ebpf_active perf_proxy_mode
  setup_perf_out_app_chain family table chain context = do
    ensure_chain family table chain
    uid_ebpf ← app_uid_ebpf_active family context
    perf_proxy_mode E.config.proxy_mode family table chain context uid_ebpf

  unfoldable pub add_perf_chain_jump : Family → String → String → String → Act (World S) Unit
  unfolding ◌>>=◌
  add_perf_chain_jump family table parent target = do
    when (E.config.proxy_tcp && (not (table == "mangle") || not (is_enhance E.config.network_mode)))
        (ensure_rule_append family table parent ("-p" ∷ "tcp" ∷ "--syn" ∷ "-j" ∷ target ∷ []))
    when ((table == "mangle") && E.config.proxy_udp)
        (ensure_rule_append family table parent (new_flow "udp" ++ ("-j" ∷ target ∷ [])))

  unfoldable pub add_perf_chain_jumps : Family → String → String → List String → Act (World S) Unit
  unfolding for_each add_perf_chain_jump
  add_perf_chain_jumps family table parent targets =
      for_each targets (add_perf_chain_jump family table parent)

  unfoldable pub append_tproxy_perf_connmark_rules : Family → String → Act (World S) Unit
  unfolding ◌>>=◌
  append_tproxy_perf_connmark_rules family chain = do
    when (not (is_enhance E.config.network_mode) && E.config.proxy_tcp)
        (ensure_rule_append family "mangle" chain (new_flow "tcp" ++ connmark_target))
    when E.config.proxy_udp
        (ensure_rule_append family "mangle" chain (new_flow "udp" ++ connmark_target))
