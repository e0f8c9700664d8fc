-- ===== src/Rules/Frame/LocalProxy.antt =====
-- boxctl/src/rules/local_proxy.rs, with a framed predicate.
use boxproxy.Prelude.{String, Bool, Option, List}
use boxproxy.Act.{Act}
use boxproxy.Act.Keeps.{Keeps}
use boxproxy.Config.Modes.{ProxyMode}
use boxproxy.Rules.Names.{Family, RuleContext, ProxyAction}
use boxproxy.Rules.Manager.{Env, World}
use boxproxy.Rules.LocalProxy.{
  append_local_rule, append_local_protocol_rule, append_local_protocol_bpf_rule, cnip_mark_proto,
  append_cnip_mark_rules, cnip_force_ebpf, cnip_force_uid, append_cnip_force_proxy_local_rules,
  apply_blacklist, apply_whitelist, apply_proxy_mode, apply_local_proxy_rules,
}
use boxproxy.Rules.Frame.{Frame, OfDevice}
use boxproxy.Rules.Frame.External.{external_rules}

module _ {S : Type 0} ⦃E : Env S⦄ {Q : S → Type 0} (frame : Frame Q) where
  pub append_local_rule-Frame :
      (family : Family) (s : String) (s2 : String) (s3 : String) (action : ProxyAction)
      (args : List String)
      → Keeps {W = World S} (OfDevice Q) (append_local_rule family s s2 s3 action args)
  unfolding append_local_rule
  append_local_rule-Frame family s s2 s3 ProxyAction.tproxy args = search external_rules depth 16
  append_local_rule-Frame family s s2 s3 ProxyAction.redirect args = search external_rules depth 16
  append_local_rule-Frame family s s2 s3 ProxyAction.mark args = search external_rules depth 16

  pub append_local_protocol_rule-Frame :
      (family : Family) (table : String) (chain : String) (proto : String) (action : ProxyAction)
      (owner : Option (String × String))
      → Keeps {W = World S}
          (OfDevice Q)
          (append_local_protocol_rule family table chain proto action owner)
  unfolding append_local_protocol_rule
  append_local_protocol_rule-Frame family table chain proto action owner =
      search (external_rules, append_local_rule-Frame) depth 16

  pub append_local_protocol_bpf_rule-Frame :
      (family : Family) (table : String) (chain : String) (proto : String) (action : ProxyAction)
      → Keeps {W = World S}
          (OfDevice Q)
          (append_local_protocol_bpf_rule family table chain proto action)
  unfolding append_local_protocol_bpf_rule
  append_local_protocol_bpf_rule-Frame family table chain proto action =
      search (external_rules, append_local_rule-Frame) depth 16

  pub cnip_mark_proto-Frame :
      (family : Family) (table chain : String)
      (base_for_proto : String → Act (World S) (Option (List String))) (proto : String)
      → ((p : String) → Keeps (OfDevice Q) (base_for_proto p))
      → Keeps {W = World S} (OfDevice Q) (cnip_mark_proto family table chain base_for_proto proto)
  unfolding cnip_mark_proto
  cnip_mark_proto-Frame family table chain base_for_proto proto k =
      search (external_rules, k) depth 16

  pub append_cnip_mark_rules-Frame :
      (family : Family) (table chain : String)
      (base_for_proto : String → Act (World S) (Option (List String)))
      → ((p : String) → Keeps (OfDevice Q) (base_for_proto p))
      → Keeps {W = World S} (OfDevice Q) (append_cnip_mark_rules family table chain base_for_proto)
  unfolding append_cnip_mark_rules
  append_cnip_mark_rules-Frame family table chain base_for_proto k =
      search (external_rules, cnip_mark_proto-Frame) depth 16

  pub cnip_force_ebpf-Frame :
      (family : Family) (s : String) (s2 : String) (action : ProxyAction)
      → Keeps {W = World S} (OfDevice Q) (cnip_force_ebpf family s s2 action)
  unfolding cnip_force_ebpf
  cnip_force_ebpf-Frame family s s2 ProxyAction.tproxy = search external_rules depth 16
  cnip_force_ebpf-Frame family s s2 ProxyAction.redirect = search external_rules depth 16
  cnip_force_ebpf-Frame family s s2 ProxyAction.mark =
      search (external_rules, append_cnip_mark_rules-Frame) depth 16

  pub cnip_force_uid-Frame :
      (family : Family) (s : String) (s2 : String) (action : ProxyAction) (s3 : String)
      → Keeps {W = World S} (OfDevice Q) (cnip_force_uid family s s2 action s3)
  unfolding cnip_force_uid
  cnip_force_uid-Frame family s s2 ProxyAction.tproxy s3 = search external_rules depth 16
  cnip_force_uid-Frame family s s2 ProxyAction.redirect s3 = search external_rules depth 16
  cnip_force_uid-Frame family s s2 ProxyAction.mark s3 =
      search (external_rules, append_cnip_mark_rules-Frame) depth 16

  pub append_cnip_force_proxy_local_rules-Frame :
      (family : Family) (table : String) (chain : String) (action : ProxyAction)
      (context : RuleContext)
      → Keeps {W = World S}
          (OfDevice Q)
          (append_cnip_force_proxy_local_rules family table chain action context)
  unfolding append_cnip_force_proxy_local_rules
  append_cnip_force_proxy_local_rules-Frame family table chain action context =
      search (external_rules, cnip_force_ebpf-Frame, cnip_force_uid-Frame) depth 16

  pub apply_blacklist-Frame :
      (family : Family) (table : String) (chain : String) (action : ProxyAction)
      (context : RuleContext) (uid_ebpf : Bool)
      → Keeps {W = World S}
          (OfDevice Q)
          (apply_blacklist family table chain action context uid_ebpf)
  unfolding apply_blacklist
  apply_blacklist-Frame family table chain action context uid_ebpf =
      search (external_rules, append_local_protocol_rule-Frame) depth 16

  pub apply_whitelist-Frame :
      (family : Family) (table : String) (chain : String) (action : ProxyAction)
      (context : RuleContext) (uid_ebpf : Bool)
      → Keeps {W = World S}
          (OfDevice Q)
          (apply_whitelist family table chain action context uid_ebpf)
  unfolding apply_whitelist
  apply_whitelist-Frame family table chain action context uid_ebpf =
      search
        (external_rules, append_local_protocol_rule-Frame, append_local_protocol_bpf_rule-Frame)
        depth 16

  pub apply_proxy_mode-Frame :
      (mode : ProxyMode) (family : Family) (s : String) (s2 : String) (action : ProxyAction)
      (context : RuleContext) (flag : Bool)
      → Keeps {W = World S} (OfDevice Q) (apply_proxy_mode mode family s s2 action context flag)
  unfolding apply_proxy_mode
  apply_proxy_mode-Frame ProxyMode.core family s s2 action context flag =
      search (external_rules, append_local_protocol_rule-Frame) depth 16
  apply_proxy_mode-Frame ProxyMode.blacklist family s s2 action context flag =
      search (external_rules, apply_blacklist-Frame) depth 16
  apply_proxy_mode-Frame ProxyMode.whitelist family s s2 action context flag =
      search (external_rules, apply_whitelist-Frame) depth 16

  pub apply_local_proxy_rules-Frame :
      (family : Family) (table : String) (chain : String) (action : ProxyAction)
      (context : RuleContext)
      → Keeps {W = World S} (OfDevice Q) (apply_local_proxy_rules family table chain action context)
  unfolding apply_local_proxy_rules
  apply_local_proxy_rules-Frame family table chain action context =
      search (external_rules, apply_proxy_mode-Frame) depth 16

pub ruleset local_proxy_rules = (
  external_rules, append_local_rule-Frame, append_local_protocol_rule-Frame,
  append_local_protocol_bpf_rule-Frame, cnip_mark_proto-Frame, append_cnip_mark_rules-Frame,
  cnip_force_ebpf-Frame, cnip_force_uid-Frame, append_cnip_force_proxy_local_rules-Frame,
  apply_blacklist-Frame, apply_whitelist-Frame, apply_proxy_mode-Frame,
  apply_local_proxy_rules-Frame,
)
