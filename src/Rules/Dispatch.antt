-- ===== src/Rules/Dispatch.antt =====
-- The rules that hand a packet over: `append_redirect_dispatch_rule` and
-- `append_tproxy_dispatch_rule` of boxctl/src/rules/local_proxy.rs, `append_mark_return` of
-- boxctl/src/rules/tun.rs, and the targets that the rules share.
use boxproxy.Prelude.{String, List, [], ◌∷◌, ◌++◌}
use boxproxy.Act.{Act, ◌>>=◌, ◌>>◌}
use boxproxy.Rules.Names.{Family, fwmark}
use boxproxy.Rules.Manager.{Env, World}
use boxproxy.Rules.Ops.{ensure_rule_append}

abbrev pub return_target : List String
return_target = "-j" ∷ "RETURN" ∷ []

abbrev pub accept_target : List String
accept_target = "-j" ∷ "ACCEPT" ∷ []

abbrev pub mark_target : String → List String
mark_target mark = "-j" ∷ "MARK" ∷ "--set-xmark" ∷ mark ∷ []

abbrev pub redirect_target : String → List String
redirect_target port = "-j" ∷ "REDIRECT" ∷ "--to-ports" ∷ port ∷ []

abbrev pub tproxy_target : String → List String
tproxy_target port = "-j" ∷ "TPROXY" ∷ "--on-port" ∷ port ∷ "--tproxy-mark" ∷ fwmark ∷ []

abbrev pub mac_match : String → List String
mac_match mac = "-m" ∷ "mac" ∷ "--mac-source" ∷ mac ∷ []

abbrev pub owner_match : String → String → List String
owner_match flag value = "-m" ∷ "owner" ∷ flag ∷ value ∷ []

module _ {S : Type 0} ⦃E : Env S⦄ where
  unfoldable pub append_redirect_dispatch_rule : Family → String → List String → Act (World S) Unit
  append_redirect_dispatch_rule family chain args =
      ensure_rule_append family "nat" chain (args ++ redirect_target E.config.redir_port)

  unfoldable pub append_tproxy_dispatch_rule : Family → String → List String → Act (World S) Unit
  append_tproxy_dispatch_rule family chain args =
      ensure_rule_append family "mangle" chain (args ++ tproxy_target E.config.tproxy_port)

  unfoldable pub append_mark_return : Family → String → String → List String → Act (World S) Unit
  unfolding ◌>>=◌
  append_mark_return family chain mark args = do
    ensure_rule_append family "mangle" chain (args ++ mark_target mark)
    ensure_rule_append family "mangle" chain (args ++ return_target)
