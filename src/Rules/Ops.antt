-- ===== src/Rules/Ops.antt =====
-- The commands and chains with the flush of the open batch: what the rest of
-- boxctl/src/rules/ calls on `RuleManager`.
use boxproxy.Prelude.{String, Bool, List}
use boxproxy.Act.{Act}
use boxproxy.Rules.Names.{Family, RuleContext}
use boxproxy.Rules.Manager.{Env, World}
use boxproxy.Rules.Command
use boxproxy.Rules.Chain
use boxproxy.Rules.Flush.{flush_batch}

module _ {S : Type 0} ⦃E : Env S⦄ where
  abbrev pub ipt_owned : Family → List String → Act (World S) Unit
  ipt_owned = Command.ipt_owned flush_batch

  abbrev pub ipt_silent_owned : Family → List String → Act (World S) Unit
  ipt_silent_owned = Command.ipt_silent_owned flush_batch

  abbrev pub ipt_try_owned : Family → List String → Act (World S) Bool
  ipt_try_owned = Command.ipt_try_owned flush_batch

  abbrev pub ipt_check_owned : Family → List String → Act (World S) Bool
  ipt_check_owned = Command.ipt_check_owned flush_batch

  abbrev pub ip_ignore : Family → List String → Act (World S) Unit
  ip_ignore = Command.ip_ignore flush_batch

  abbrev pub ip_required : Family → List String → Act (World S) Unit
  ip_required = Command.ip_required flush_batch

  abbrev pub ensure_ip_rule : Family → String → String → String → Act (World S) Unit
  ensure_ip_rule = Command.ensure_ip_rule flush_batch

  abbrev pub del_ip_rule_if_exists : Family → String → String → String → Act (World S) Unit
  del_ip_rule_if_exists = Command.del_ip_rule_if_exists flush_batch

  abbrev pub ensure_ip_route_local_default : Family → String → Act (World S) Unit
  ensure_ip_route_local_default = Command.ensure_ip_route_local_default flush_batch

  abbrev pub del_ip_route_local_default_if_exists : Family → String → Act (World S) Unit
  del_ip_route_local_default_if_exists = Command.del_ip_route_local_default_if_exists flush_batch

  abbrev pub ensure_chain : Family → String → String → Act (World S) Unit
  ensure_chain = Chain.ensure_chain flush_batch

  abbrev pub cleanup_chain_fast : Family → String → String → Act (World S) Unit
  cleanup_chain_fast = Chain.cleanup_chain_fast flush_batch

  abbrev pub ensure_jump : Family → String → String → String → Act (World S) Unit
  ensure_jump = Chain.ensure_jump flush_batch

  abbrev pub ensure_rule_append : Family → String → String → List String → Act (World S) Unit
  ensure_rule_append = Chain.ensure_rule_append_owned flush_batch

  abbrev pub ensure_rule_insert : Family → String → String → List String → Act (World S) Unit
  ensure_rule_insert = Chain.ensure_rule_insert flush_batch

  abbrev pub del_rule : Family → String → String → List String → Act (World S) Unit
  del_rule = Chain.del_rule flush_batch

  abbrev pub del_jump : Family → String → String → String → Act (World S) Unit
  del_jump = Chain.del_jump flush_batch

  abbrev pub add_core_bypass_rule :
      Family → String → String → String → RuleContext → Act (World S) Bool
  add_core_bypass_rule = Chain.add_core_bypass_rule flush_batch
