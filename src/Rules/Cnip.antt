-- ===== src/Rules/Cnip.antt =====
-- Bypass of domestic addresses and per-app matching: the tests and match arguments of
-- boxctl/src/rules/cnip.rs.
use boxproxy.Prelude.{
  String, Bool, true, false, not, ◌&&◌, ◌||◌, Option, none, some, List, [], ◌∷◌, ◌++◌, is_empty,
  if◌then◌else◌,
}
use boxproxy.Act.{Act, pure, gets, ◌>>=◌}
use boxproxy.Config.{Config}
use boxproxy.Config.Modes.{ProxyMode, blacklist, whitelist, is_ipset}
use boxproxy.Rules.Names.{
  Family, v4, v6, RuleContext, cnip_set_name, cnip_ebpf_pin_path, cnip_force_ebpf_pin_path,
  app_uid_ebpf_pin_path,
}
use boxproxy.Rules.Manager.{Env, World}
use boxproxy.Rules.Capabilities.{probe_capabilities}

abbrev pub cnip_uses_ipset : Config → Bool
cnip_uses_ipset config = is_ipset config.cnip_mode

abbrev pub cnip_uses_ebpf : Config → Bool
cnip_uses_ebpf config = not (is_ipset config.cnip_mode)

abbrev pub cnip_ebpf_requested : Config → Bool
cnip_ebpf_requested config = config.bypass_cn_ip && cnip_uses_ebpf config

abbrev pub cnip_bypass_enabled_for_family : Config → Family → Bool
cnip_bypass_enabled_for_family config v4 = config.bypass_cn_ip && config.bypass_cn_ip_v4
cnip_bypass_enabled_for_family config v6 =
    config.bypass_cn_ip && (config.ipv6 && config.bypass_cn_ip_v6)

-- `proxy_mode.as_str()` is never one of the aliases "black" and "white".
abbrev pub lists_apps : ProxyMode → Bool
lists_apps blacklist = true
lists_apps whitelist = true
lists_apps _ = false

abbrev pub app_uid_ebpf_requested : Config → RuleContext → Bool
app_uid_ebpf_requested config context =
    config.performance_mode && not (is_empty context.selected_uids) && lists_apps config.proxy_mode

abbrev pub set_match : Family → List String → List String
set_match family base = base ++ ("-m" ∷ "set" ∷ "--match-set" ∷ cnip_set_name family ∷ "dst" ∷ [])

abbrev pub pinned_match : String → List String → List String
pinned_match path base = base ++ ("-m" ∷ "bpf" ∷ "--object-pinned" ∷ path ∷ [])

abbrev pub app_uid_match_args : Family → List String → List String
app_uid_match_args family base = pinned_match (app_uid_ebpf_pin_path family) base

module _ {S : Type 0} ⦃E : Env S⦄ where
  unfoldable pub ipset_enabled_for_family : Family → Act (World S) Bool
  unfolding ◌>>=◌ probe_capabilities
  ipset_enabled_for_family family = if not (cnip_uses_ipset E.config) then pure false else do
    caps ← probe_capabilities
    pure (caps.ipset && cnip_bypass_enabled_for_family E.config family)

  unfoldable pub cnip_matcher_enabled_for_family : Family → Act (World S) Bool
  unfolding ◌>>=◌ probe_capabilities ipset_enabled_for_family
  cnip_matcher_enabled_for_family family =
      if not (cnip_bypass_enabled_for_family E.config family)
      then pure false
      else if cnip_uses_ipset E.config
      then ipset_enabled_for_family family
      else do caps ← probe_capabilities; pure caps.bpf_match

  unfoldable pub cnip_match_args :
      Family → String → List String → Act (World S) (Option (List String))
  unfolding ◌>>=◌ cnip_matcher_enabled_for_family
  cnip_match_args family chain base = do
    enabled ← cnip_matcher_enabled_for_family family
    pure (
        if not enabled
        then none
        else if cnip_uses_ipset E.config
        then some (set_match family base)
        else some (pinned_match (cnip_ebpf_pin_path family chain) base))

  unfoldable pub cnip_force_match_args : Family → List String → Act (World S) (Option (List String))
  unfolding ◌>>=◌ cnip_matcher_enabled_for_family
  cnip_force_match_args family base = do
    enabled ← cnip_matcher_enabled_for_family family
    pure (
        if not enabled || not (cnip_uses_ebpf E.config)
        then none
        else some (pinned_match (cnip_force_ebpf_pin_path family) base))

  unfoldable pub app_uid_ebpf_pin_loaded : Family → Act (World S) Bool
  unfolding ◌>>=◌
  app_uid_ebpf_pin_loaded family =
      gets (λ w. E.runner.dry_run || E.host.exists (app_uid_ebpf_pin_path family) w.sys)

  unfoldable pub app_uid_ebpf_active : Family → RuleContext → Act (World S) Bool
  unfolding ◌>>=◌ app_uid_ebpf_pin_loaded
  app_uid_ebpf_active family context =
      if not (app_uid_ebpf_requested E.config context)
      then pure false
      else app_uid_ebpf_pin_loaded family
