-- ===== src/Rules/Names.antt =====
-- The families, constants and chain names: boxctl/src/rules/model.rs, the constants of
-- boxctl/src/rules.rs, and the naming functions of boxctl/src/rules/util.rs.
use boxproxy.Prelude.{String, Bool, true, false, ◌||◌, List, [], ◌∷◌, any}
use boxproxy.Prelude.{contains}
use boxproxy.Prelude.Text.{starts, ends, includes, split_whitespace}

pub data Family : Type 0 where
  v4 v6 : Family

pub data ProxyAction : Type 0 where
  redirect tproxy mark : ProxyAction

pub data DnsNatKind : Type 0 where
  hijack forward : DnsNatKind

abbrev pub is_v4 : Family → Bool
is_v4 v4 = true
is_v4 v6 = false

abbrev pub same_family : Family → Family → Bool
same_family v4 v4 = true
same_family v6 v6 = true
same_family _ _ = false

-- `RuleContext`
pub record RuleContext : Type 0 where
  pub box_uid : String
  pub box_gid : String
  pub selected_uids : List String
  pub selected_gids : List String
  pub cnip_force_uids : List String

pub record Capabilities : Type 0 where
  pub tproxy4 : Bool
  pub tproxy6 : Bool
  pub socket_match : Bool
  pub socket_transparent : Bool
  pub addrtype : Bool
  pub conntrack_match : Bool
  pub connmark_match : Bool
  pub connmark_target : Bool
  pub ipset : Bool
  pub bpf_match : Bool
  pub ip6_nat : Bool
  pub restore4 : Bool
  pub restore6 : Bool

abbrev pub iptables_lock_wait_secs : String
iptables_lock_wait_secs = "5"

abbrev pub fwmark : String
fwmark = "16777216/16777216"

abbrev pub tproxy_table : String
tproxy_table = "2024"

abbrev pub tproxy_pref : String
tproxy_pref = "100"

abbrev pub tun_bypass_mark : String
tun_bypass_mark = "33554432/33554432"

abbrev pub tun_bypass_pref : String
tun_bypass_pref = "98"

abbrev pub tun_route_mark : String
tun_route_mark = "50331648/50331648"

abbrev pub tun_route_table : String
tun_route_table = "2025"

abbrev pub tun_route_pref : String
tun_route_pref = "99"

abbrev pub family_label : Family → String
family_label v4 = "IPv4"
family_label v6 = "IPv6"

abbrev pub iptables_cmd : Family → String
iptables_cmd v4 = "iptables"
iptables_cmd v6 = "ip6tables"

abbrev pub restore_cmd : Family → String
restore_cmd v4 = "iptables-restore"
restore_cmd v6 = "ip6tables-restore"

abbrev pub local_ip_chain : Family → String
local_ip_chain v4 = "LOCAL_IP_V4"
local_ip_chain v6 = "LOCAL_IP_V6"

abbrev pub cnip_set_name : Family → String
cnip_set_name v4 = "cnip"
cnip_set_name v6 = "cnip6"

-- `matches!(chain, …) || chain.contains("_PRE_") || chain.ends_with("_PRE")`
unfoldable pub cnip_match_uses_prerouting_program : String → Bool
unfolding includes ends
cnip_match_uses_prerouting_program chain =
    contains ("BOX_EXTERNAL" ∷ "BOX_TUN_BYPASS_PRE" ∷ "BOX_TUN_BYPASS6_PRE" ∷ []) chain
    || includes "_PRE_" chain
    || ends "_PRE" chain

abbrev pub pin_path : Family → Bool → String
pin_path v4 true = "/sys/fs/bpf/box/box_cidr_pre4"
pin_path v6 true = "/sys/fs/bpf/box/box_cidr_pre6"
pin_path v4 false = "/sys/fs/bpf/box/box_cidr_out4"
pin_path v6 false = "/sys/fs/bpf/box/box_cidr_out6"

abbrev pub cnip_ebpf_pin_path : Family → String → String
cnip_ebpf_pin_path family chain = pin_path family (cnip_match_uses_prerouting_program chain)

abbrev pub cnip_force_ebpf_pin_path : Family → String
cnip_force_ebpf_pin_path v4 = "/sys/fs/bpf/box/box_force_out4"
cnip_force_ebpf_pin_path v6 = "/sys/fs/bpf/box/box_force_out6"

abbrev pub app_uid_ebpf_pin_path : Family → String
app_uid_ebpf_pin_path v4 = "/sys/fs/bpf/box/box_uid_out4"
app_uid_ebpf_pin_path v6 = "/sys/fs/bpf/box/box_uid_out6"

abbrev pub loopback_addr : Family → String
loopback_addr v4 = "127.0.0.1"
loopback_addr v6 = "::1"

abbrev pub tun_pre_chain : Family → String
tun_pre_chain v4 = "BOX_TUN_BYPASS_PRE"
tun_pre_chain v6 = "BOX_TUN_BYPASS6_PRE"

abbrev pub tun_out_chain : Family → String
tun_out_chain v4 = "BOX_TUN_BYPASS_OUT"
tun_out_chain v6 = "BOX_TUN_BYPASS6_OUT"

abbrev pub dns_pre_chain : Family → DnsNatKind → String
dns_pre_chain v4 hijack = "NAT_DNS_HIJACK"
dns_pre_chain v6 hijack = "NAT_DNS_HIJACK6"
dns_pre_chain v4 forward = "NAT_DNS_FORWARD"
dns_pre_chain v6 forward = "NAT_DNS_FORWARD6"

abbrev pub dns_out_chain : Family → DnsNatKind → String
dns_out_chain v4 hijack = "NAT_DNS_HIJACK_OUT"
dns_out_chain v6 hijack = "NAT_DNS_HIJACK6_OUT"
dns_out_chain v4 forward = "NAT_DNS_FORWARD_OUT"
dns_out_chain v6 forward = "NAT_DNS_FORWARD6_OUT"

abbrev fixed_chains : List String
fixed_chains =
    "DIVERT" ∷ "LOCAL_IP_V4" ∷ "LOCAL_IP_V6" ∷ "NAT_DNS_HIJACK" ∷ "NAT_DNS_HIJACK6"
    ∷ "NAT_DNS_HIJACK_OUT" ∷ "NAT_DNS_HIJACK6_OUT" ∷ "NAT_DNS_FORWARD" ∷ "NAT_DNS_FORWARD6"
    ∷ "NAT_DNS_FORWARD_OUT" ∷ "NAT_DNS_FORWARD6_OUT" ∷ "MIHOMO_DNS_EXTERNAL" ∷ "MIHOMO_DNS_LOCAL"
    ∷ []

unfoldable pub is_box_custom_chain : String → Bool
is_box_custom_chain chain = starts "BOX_" chain || starts "AP_" chain || contains fixed_chains chain

unfoldable pub is_box_rule_line : String → Bool
unfolding split_whitespace is_box_custom_chain
is_box_rule_line line = any is_box_custom_chain (split_whitespace line)

abbrev pub redirect_perf_chains : List String
redirect_perf_chains = "BOX_RD_PRE_IP" ∷ "BOX_RD_PRE_IF" ∷ "BOX_RD_OUT_IP" ∷ "BOX_RD_OUT_APP" ∷ []

abbrev pub tproxy_perf_chains : List String
tproxy_perf_chains = "BOX_TP_PRE_IP" ∷ "BOX_TP_PRE_IF" ∷ "BOX_TP_OUT_IP" ∷ "BOX_TP_OUT_APP" ∷ []
