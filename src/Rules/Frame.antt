-- ===== src/Rules/Frame.antt =====
-- What the rule code may do to the device. A predicate on the device is framed when the
-- programs of the rule code, its cache file and the IPv6 settings keep it.
pub mod Exec
pub mod Command
pub mod Chain
pub mod Flush
pub mod Capabilities
pub mod Cnip
pub mod Performance
pub mod Dispatch
pub mod LocalIp
pub mod Dns
pub mod External
pub mod LocalProxy
pub mod Routing
pub mod PerfChains
pub mod Redirect
pub mod Tun
pub mod Tproxy
pub mod Modes
pub mod Ipv6
pub mod DualStack
pub mod Cleanup
pub mod Own
pub mod Files
pub mod Matcher
pub mod Apply
use boxproxy.Prelude.{
  String, Bool, true, false, Option, none, some, List, [], ◌∷◌, ◌<>◌, contains, ◌≡◌, refl, arith,
}
use boxproxy.Prelude.Text.{trim}
use boxproxy.Act.{Act}
use boxproxy.Act.Keeps.{Keeps}
use boxproxy.Rules.Names.{Family, v4, v6, iptables_cmd, restore_cmd}
use boxproxy.Rules.Manager.{Env, World}
use boxproxy.Rules.Capabilities.{capability_cache_path}

abbrev pub rule_programs : List String
rule_programs =
    "iptables" ∷ "ip6tables" ∷ "iptables-restore" ∷ "ip6tables-restore" ∷ "ip" ∷ "sysctl" ∷ "ipset"
    ∷ []

pub record IsRuleProgram (program : String) : Type 0 where
  pub listed : contains rule_programs program ≡ true

pub iptables_cmd-IsRuleProgram : (family : Family) → IsRuleProgram (iptables_cmd family)
iptables_cmd-IsRuleProgram v4 = record { listed = refl }
iptables_cmd-IsRuleProgram v6 = record { listed = refl }

pub restore_cmd-IsRuleProgram : (family : Family) → IsRuleProgram (restore_cmd family)
restore_cmd-IsRuleProgram v4 = record { listed = refl }
restore_cmd-IsRuleProgram v6 = record { listed = refl }

pub ip-IsRuleProgram : IsRuleProgram "ip"
ip-IsRuleProgram = record { listed = refl }

pub sysctl-IsRuleProgram : IsRuleProgram "sysctl"
sysctl-IsRuleProgram = record { listed = refl }

pub ipset-IsRuleProgram : IsRuleProgram "ipset"
ipset-IsRuleProgram = record { listed = refl }

pub ruleset program_rules = (
  iptables_cmd-IsRuleProgram, restore_cmd-IsRuleProgram, ip-IsRuleProgram, sysctl-IsRuleProgram,
  ipset-IsRuleProgram,
)

pub record Frame {S : Type 0} ⦃E : Env S⦄ (Q : S → Type 0) : Type 0 where
  pub spawn :
      E.runner.dry_run ≡ false
      → (program : String) (args : List String) (stdin : Option String) → IsRuleProgram program
      → Keeps Q (E.host.spawn program args stdin)
  pub cache :
      E.runner.dry_run ≡ false
      → (text : String) → Keeps Q (E.host.write_atomic (capability_cache_path E.config) text)
  pub ipv6_conf :
      E.runner.dry_run ≡ false
      → (name text : String) → Keeps Q (E.host.write_file ("/proc/sys/net/ipv6/conf" <> name) text)
  pub sleep : E.runner.dry_run ≡ false → (seconds : String) → Keeps Q (E.host.sleep seconds)

pub record OfDevice {S : Type 0} (Q : S → Type 0) (w : World S) : Type 0 where
  pub holds : Q w.sys

-- In a dry run nothing of this happens.
pub dry_run-Frame : {S : Type 0} ⦃E : Env S⦄ {Q : S → Type 0} → E.runner.dry_run ≡ true → Frame Q
dry_run-Frame dry = record {
  spawn = λ live program args stdin listed. ground arith;
  cache = λ live text. ground arith;
  ipv6_conf = λ live name text. ground arith;
  sleep = λ live seconds. ground arith;
}
