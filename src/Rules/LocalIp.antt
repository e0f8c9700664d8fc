-- ===== src/Rules/LocalIp.antt =====
-- The chains of the device's own addresses, bypassed subnets and IPv6 settings:
-- boxctl/src/rules/local_ip.rs, and the parsers of `ip addr` in boxctl/src/rules/util.rs.
pub mod Parse
pub mod Refresh
use boxproxy.Prelude.{
  String, ℕ, zero, suc, ◌+◌, Bool, true, false, not, ◌&&◌, ◌||◌, Option, none, some, List, [], ◌∷◌,
  ◌++◌, ◌==◌, ◌<>◌, if◌then◌else◌, length,
}
use boxproxy.Prelude.Text.{trim, join}
use boxproxy.Prelude.Sort.{sort, dedup, string_le}
use boxproxy.Config.{Config}
use boxproxy.Act.{
  Result, ok, err, Act, pure, gets, modify, attempt, on_option, ◌>>=◌, ◌>>◌, for_each, when,
  succeeds, ignore,
}
use boxproxy.Exec.{Output}
use boxproxy.Config.Modes.{network_mode_str}
use boxproxy.Rules.Names.{Family, v4, v6, same_family, restore_cmd, local_ip_chain}
use boxproxy.Rules.Util.{normalize_cidr, mode_needs_local_ip_mangle, mode_needs_local_ip_nat}
use boxproxy.Rules.Manager.{Env, World, on_host, run, run_ok, run_ignore, run_with_stdin_output}
use boxproxy.Rules.Capabilities.{restore_supported}
use boxproxy.Rules.Flush.{restore_args}
use boxproxy.Rules.Ops.{ipt_silent_owned, ensure_chain, ensure_rule_append}
use boxproxy.Rules.LocalIp.Parse.{parse_ip_addr_subnets, parse_ip_o_addr_cidrs}

-- `local_ip_restore_input`
abbrev cidr_lines : String → List String → String → String
cidr_lines chain [] rest = rest
cidr_lines chain (cidr ∷ cidrs) rest =
    "-A "
    <> (chain
        <> (" -d "
            <> (cidr
                <> (" -p udp ! --dport 53 -j ACCEPT\n-A "
                    <> (chain
                        <> (" -d "
                            <> (cidr
                                <> (" ! -p udp -j ACCEPT\n" <> cidr_lines chain cidrs rest))))))))

unfoldable pub local_ip_restore_input : String → String → List String → String
local_ip_restore_input table chain cidrs =
    "*" <> (table <> ("\n-F " <> (chain <> ("\n" <> cidr_lines chain cidrs "COMMIT\n"))))

abbrev stdout_or_blank : (String → List String) → Result Output → List String
stdout_or_blank f (ok output) = if output.success then f output.stdout else []
stdout_or_blank f (err _) = []

abbrev accepted : Result Output → Bool
accepted (ok output) = output.success
accepted (err _) = false

abbrev keep_some : (String → Option String) → List String → List String
keep_some f [] = []
keep_some f (x ∷ xs) = let rest = keep_some f xs in elim (f x) [ none ↦ rest | some y ↦ y ∷ rest ]

-- the insertion into the set of chains that were built, which says whether it was new
abbrev is_built : Family → String → List (Family × String) → Bool
is_built family table [] = false
is_built family table ((f, t) ∷ rest) =
    (same_family f family && (t == table)) || is_built family table rest

module _ {S : Type 0} where
  abbrev bypass_cell : Family → World S → Option (List String)
  bypass_cell v4 w = w.bypass_subnets_v4
  bypass_cell v6 w = w.bypass_subnets_v6

  abbrev pub set_bypass : Family → List String → World S → World S
  set_bypass v4 l w = record w { bypass_subnets_v4 = some l }
  set_bypass v6 l w = record w { bypass_subnets_v6 = some l }

  abbrev local_cell : Family → World S → Option (List String)
  local_cell v4 w = w.local_cidrs_v4
  local_cell v6 w = w.local_cidrs_v6

  abbrev pub set_local : Family → List String → World S → World S
  set_local v4 l w = record w { local_cidrs_v4 = some l }
  set_local v6 l w = record w { local_cidrs_v6 = some l }

abbrev addr_args : Family → List String
addr_args v4 = "-4" ∷ "addr" ∷ "show" ∷ "up" ∷ []
addr_args v6 = "-6" ∷ "addr" ∷ "show" ∷ "up" ∷ []

abbrev local_addr_args : Family → List String
local_addr_args v4 = "-o" ∷ "-4" ∷ "addr" ∷ "show" ∷ "up" ∷ []
local_addr_args v6 = "-o" ∷ "-6" ∷ "addr" ∷ "show" ∷ "up" ∷ "scope" ∷ "global" ∷ []

abbrev intranet : Config → Family → List String
intranet config v4 = config.intranet_cidrs4
intranet config v6 = config.intranet_cidrs6

module _ {S : Type 0} ⦃E : Env S⦄ where
  unfoldable pub dynamic_bypass_subnets : Family → Act (World S) (List String)
  unfolding ◌>>=◌ parse_ip_addr_subnets
  dynamic_bypass_subnets family = do
    r ← attempt (run "ip" (addr_args family))
    pure (stdout_or_blank (λ t. parse_ip_addr_subnets t family E.config.tun_device) r)

  unfoldable pub compute_bypass_subnets : Family → Act (World S) (List String)
  unfolding ◌>>=◌ dynamic_bypass_subnets normalize_cidr sort dedup
  compute_bypass_subnets family = do
    dynamic ← dynamic_bypass_subnets family
    pure (
        dedup ◌==◌ (
          sort string_le
            (keep_some (normalize_cidr E.ipv6_text family) (intranet E.config family ++ dynamic))))

  -- computed once for each family
  unfoldable pub bypass_subnets : Family → Act (World S) (List String)
  unfolding ◌>>=◌ on_option compute_bypass_subnets
  bypass_subnets family = do
    cell ← gets (bypass_cell family)
    on_option cell (do l ← compute_bypass_subnets family; modify (set_bypass family l); pure l) pure

  unfoldable pub compute_local_ip_cidrs : Family → Act (World S) (List String)
  unfolding ◌>>=◌ parse_ip_o_addr_cidrs sort dedup
  compute_local_ip_cidrs family = do
    r ← attempt (run "ip" (local_addr_args family))
    pure (
        dedup ◌==◌ (
          sort string_le
            (stdout_or_blank (λ t. parse_ip_o_addr_cidrs t family E.config.tun_device) r)))

  unfoldable pub local_ip_cidrs : Family → Act (World S) (List String)
  unfolding ◌>>=◌ on_option compute_local_ip_cidrs
  local_ip_cidrs family = do
    cell ← gets (local_cell family)
    on_option cell (do l ← compute_local_ip_cidrs family; modify (set_local family l); pure l) pure

  unfoldable pub rebuild_local_ip_chain_with_restore :
      Family → String → String → List String → Act (World S) Bool
  unfolding ◌>>=◌ restore_supported local_ip_restore_input
  rebuild_local_ip_chain_with_restore family table chain cidrs = do
    supported ← restore_supported family
    if not supported then pure false else do
      ipt_silent_owned family ("-t" ∷ table ∷ "-N" ∷ chain ∷ [])
      r ← attempt (
          run_with_stdin_output (restore_cmd family) restore_args
            (local_ip_restore_input table chain cidrs))
      pure (accepted r)

  unfoldable pub append_local_ip_ruleset : Family → String → String → String → Act (World S) Bool
  unfolding ◌>>=◌ succeeds
  append_local_ip_ruleset family table chain cidr = do
    udp_non_dns ← succeeds (
        ensure_rule_append family table chain
          ("-d" ∷ cidr ∷ "-p" ∷ "udp" ∷ "!" ∷ "--dport" ∷ "53" ∷ "-j" ∷ "ACCEPT" ∷ []))
    non_udp ← succeeds (
        ensure_rule_append family table chain
          ("-d" ∷ cidr ∷ "!" ∷ "-p" ∷ "udp" ∷ "-j" ∷ "ACCEPT" ∷ []))
    pure (udp_non_dns || non_udp)

  -- the loop over the addresses: how many went in, and how many did not
  unfoldable pub append_local_ips :
      Family → String → String → List String → ℕ → ℕ → Act (World S) (ℕ × ℕ)
  unfolding ◌>>=◌ append_local_ip_ruleset
  append_local_ips family table chain [] done failed = pure (done, failed)
  append_local_ips family table chain (cidr ∷ cidrs) done failed =
      append_local_ip_ruleset family table chain cidr >>= λ added.
      append_local_ips family table chain cidrs (if added then done + 1 else done)
        (if added then failed else failed + 1)

  unfoldable pub rebuild_local_ip_chain : Family → String → List String → Act (World S) (ℕ × ℕ)
  unfolding ◌>>=◌ rebuild_local_ip_chain_with_restore append_local_ips
  rebuild_local_ip_chain family table cidrs = do
    restored ← rebuild_local_ip_chain_with_restore family table (local_ip_chain family) cidrs
    if restored then pure (length cidrs, 0) else do
      ensure_chain family table (local_ip_chain family)
      append_local_ips family table (local_ip_chain family) cidrs 0 0

  unfoldable pub ensure_local_ip_chain : Family → String → Act (World S) Unit
  unfolding ◌>>=◌ local_ip_cidrs rebuild_local_ip_chain
  ensure_local_ip_chain family table = do
    built ← gets (λ w. w.local_ip_chains_built)
    if is_built family table built then pure tt else do
      modify (λ w. record w { local_ip_chains_built = (family, table) ∷ built })
      cidrs ← local_ip_cidrs family
      _ ← rebuild_local_ip_chain family table cidrs
      pure tt
