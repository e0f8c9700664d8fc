-- ===== src/Rules/LocalProxy.antt =====
-- Traffic of the device itself: boxctl/src/rules/local_proxy.rs.
use boxproxy.Prelude.{
  String, Bool, not, ◌&&◌, ◌||◌, Option, none, some, List, [], ◌∷◌, ◌++◌, is_empty, ◌==◌,
  if◌then◌else◌, ◌<>◌,
}
use boxproxy.Prelude.Text.{is_blank}
use boxproxy.Act.{Act, pure, ◌>>=◌, ◌>>◌, for_each, when, on_option}
use boxproxy.Config.{Config}
use boxproxy.Config.Modes.{ProxyMode, core, blacklist, whitelist, is_enhance}
use boxproxy.Rules.Names.{Family, ProxyAction, redirect, tproxy, mark, RuleContext, fwmark}
use boxproxy.Rules.Manager.{Env, World}
use boxproxy.Rules.Cnip.{
  cnip_uses_ebpf, cnip_matcher_enabled_for_family, cnip_match_args, cnip_force_match_args,
  app_uid_ebpf_active, app_uid_match_args,
}
use boxproxy.Rules.Ops.{ensure_rule_append}
use boxproxy.Rules.Dispatch.{append_redirect_dispatch_rule, return_target, mark_target, owner_match}

abbrev pub owned : Option (String × String) → List String
owned none = []
owned (some (kind, value)) = owner_match ("--" <> kind) value

abbrev protocol_off : Config → String → Bool
protocol_off config proto =
    (proto == "tcp" && not config.proxy_tcp) || (proto == "udp" && not config.proxy_udp)

module _ {S : Type 0} ⦃E : Env S⦄ where
  -- what `append_local_protocol_rule` and `append_local_protocol_bpf_rule` do with their match
  unfoldable pub append_local_rule :
      Family → String → String → String → ProxyAction → List String → Act (World S) Unit
  unfolding ◌>>=◌ append_redirect_dispatch_rule
  append_local_rule family table chain proto redirect args =
      if not (proto == "tcp") then pure tt else append_redirect_dispatch_rule family chain args
  append_local_rule family table chain proto mark args =
      if proto == "tcp" && is_enhance E.config.network_mode
      then pure tt
      else ensure_rule_append family table chain (args ++ mark_target fwmark)
  append_local_rule family table chain proto tproxy args = pure tt

  unfoldable pub append_local_protocol_rule :
      Family
      → String
      → String
      → String
      → ProxyAction
      → Option (String × String)
      → Act (World S) Unit
  unfolding ◌>>=◌ append_local_rule
  append_local_protocol_rule family table chain proto action owner =
      if protocol_off E.config proto
      then pure tt
      else append_local_rule family table chain proto action (("-p" ∷ proto ∷ []) ++ owned owner)

  unfoldable pub append_local_protocol_bpf_rule :
      Family → String → String → String → ProxyAction → Act (World S) Unit
  unfolding ◌>>=◌ append_local_rule
  append_local_protocol_bpf_rule family table chain proto action =
      if protocol_off E.config proto
      then pure tt
      else append_local_rule family table chain proto action
          (app_uid_match_args family ("-p" ∷ proto ∷ []))

  -- both protocols with one owner
  abbrev local_both :
      Family → String → String → ProxyAction → Option (String × String) → Act (World S) Unit
  local_both family table chain action owner = do
    append_local_protocol_rule family table chain "tcp" action owner
    append_local_protocol_rule family table chain "udp" action owner

  unfoldable pub cnip_mark_proto :
      Family
      → String
      → String
      → (String → Act (World S) (Option (List String)))
      → String
      → Act (World S) Unit
  unfolding ◌>>=◌ on_option
  cnip_mark_proto family table chain base_for_proto proto =
      if proto == "tcp" && (is_enhance E.config.network_mode || not E.config.proxy_tcp)
      then pure tt
      else if proto == "udp" && not E.config.proxy_udp
      then pure tt
      else do
        base ← base_for_proto proto
        on_option base (pure tt) λ args. do
          ensure_rule_append family table chain (args ++ mark_target fwmark)
          ensure_rule_append family table chain (args ++ return_target)

  unfoldable pub append_cnip_mark_rules :
      Family
      → String
      → String
      → (String → Act (World S) (Option (List String)))
      → Act (World S) Unit
  unfolding for_each cnip_mark_proto
  append_cnip_mark_rules family table chain base_for_proto =
      for_each ("tcp" ∷ "udp" ∷ []) (cnip_mark_proto family table chain base_for_proto)

  unfoldable pub cnip_force_ebpf : Family → String → String → ProxyAction → Act (World S) Unit
  unfolding ◌>>=◌ on_option append_cnip_mark_rules append_redirect_dispatch_rule
      cnip_force_match_args
  cnip_force_ebpf family table chain redirect = when E.config.proxy_tcp do
    args ← cnip_force_match_args family ("-p" ∷ "tcp" ∷ [])
    on_option args (pure tt) (append_redirect_dispatch_rule family chain)
  cnip_force_ebpf family table chain mark =
      append_cnip_mark_rules family table chain
        λ proto. cnip_force_match_args family ("-p" ∷ proto ∷ [])
  cnip_force_ebpf family table chain tproxy = pure tt

  unfoldable pub cnip_force_uid :
      Family → String → String → ProxyAction → String → Act (World S) Unit
  unfolding ◌>>=◌ on_option append_cnip_mark_rules append_redirect_dispatch_rule cnip_match_args
  cnip_force_uid family table chain redirect uid =
      if is_blank uid
      then pure tt
      else when E.config.proxy_tcp do
        args ← cnip_match_args family chain (("-p" ∷ "tcp" ∷ []) ++ owner_match "--uid-owner" uid)
        on_option args (pure tt) (append_redirect_dispatch_rule family chain)
  cnip_force_uid family table chain mark uid =
      if is_blank uid
      then pure tt
      else append_cnip_mark_rules family table chain λ proto.
        cnip_match_args family chain (("-p" ∷ proto ∷ []) ++ owner_match "--uid-owner" uid)
  cnip_force_uid family table chain tproxy uid = pure tt

  unfoldable pub append_cnip_force_proxy_local_rules :
      Family → String → String → ProxyAction → RuleContext → Act (World S) Unit
  unfolding ◌>>=◌ for_each cnip_matcher_enabled_for_family cnip_force_ebpf cnip_force_uid
  append_cnip_force_proxy_local_rules family table chain action context =
      if not E.config.bypass_cn_ip || is_empty context.cnip_force_uids then pure tt else do
        enabled ← cnip_matcher_enabled_for_family family
        if not enabled
            then pure tt
            else if cnip_uses_ebpf E.config
            then cnip_force_ebpf family table chain action
            else for_each context.cnip_force_uids (cnip_force_uid family table chain action)

  abbrev return_owner : Family → String → String → String → String → Act (World S) Unit
  return_owner family table chain flag value =
      ensure_rule_append family table chain (owner_match flag value ++ return_target)

  unfoldable pub apply_blacklist :
      Family → String → String → ProxyAction → RuleContext → Bool → Act (World S) Unit
  unfolding ◌>>=◌ for_each append_local_protocol_rule
  apply_blacklist family table chain action context uid_ebpf = do
    if uid_ebpf
        then ensure_rule_append family table chain (app_uid_match_args family [] ++ return_target)
        else for_each context.selected_uids (return_owner family table chain "--uid-owner")
    for_each context.selected_gids (return_owner family table chain "--gid-owner")
    local_both family table chain action none

  unfoldable pub apply_whitelist :
      Family → String → String → ProxyAction → RuleContext → Bool → Act (World S) Unit
  unfolding ◌>>=◌ for_each append_local_protocol_rule append_local_protocol_bpf_rule
  apply_whitelist family table chain action context uid_ebpf =
      if is_empty context.selected_uids && is_empty context.selected_gids
      then local_both family table chain action none
      else do
        if uid_ebpf
            then (do
              append_local_protocol_bpf_rule family table chain "tcp" action
              append_local_protocol_bpf_rule family table chain "udp" action)
            else for_each context.selected_uids
                λ uid. local_both family table chain action (some ("uid-owner", uid))
        for_each ("0" ∷ "1052" ∷ [])
            λ uid. local_both family table chain action (some ("uid-owner", uid))
        for_each context.selected_gids
            λ gid. local_both family table chain action (some ("gid-owner", gid))

  unfoldable pub apply_proxy_mode :
      ProxyMode → Family → String → String → ProxyAction → RuleContext → Bool → Act (World S) Unit
  unfolding ◌>>=◌ append_local_protocol_rule apply_blacklist apply_whitelist
  apply_proxy_mode core family table chain action context uid_ebpf =
      local_both family table chain action none
  apply_proxy_mode blacklist family table chain action context uid_ebpf =
      apply_blacklist family table chain action context uid_ebpf
  apply_proxy_mode whitelist family table chain action context uid_ebpf =
      apply_whitelist family table chain action context uid_ebpf

  unfoldable pub apply_local_proxy_rules :
      Family → String → String → ProxyAction → RuleContext → Act (World S) Unit
  unfolding ◌>>=◌ app_uid_ebpf_active apply_proxy_mode
  apply_local_proxy_rules family table chain action context = do
    uid_ebpf ← app_uid_ebpf_active family context
    apply_proxy_mode E.config.proxy_mode family table chain action context uid_ebpf
