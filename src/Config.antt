-- ===== src/Config.antt =====
-- boxctl/src/config.rs: the settings that the modelled code reads.
pub mod Modes
pub mod RoundTrip
pub mod Validation
pub mod Values
use boxproxy.Prelude.{String, Bool, List}
use boxproxy.Config.Modes.{NetworkMode, ProxyMode, CnipMode}

pub record Config : Type 0 where
  pub state_dir : String
  pub box_pid : String
  pub box_user_group : String
  pub bin_name : String
  pub bpf_matcher_path : String
  pub network_mode : NetworkMode
  pub proxy_mode : ProxyMode
  pub tproxy_port : String
  pub redir_port : String
  pub ipv6_mode : String
  pub ipv6 : Bool
  pub proxy_tcp : Bool
  pub proxy_udp : Bool
  pub dns_hijack_tcp : Bool
  pub dns_hijack_udp : Bool
  pub dns_hijack_mode : String
  pub mihomo_dns_forward : String
  pub mihomo_dns_port : String
  pub quic : String
  pub performance_mode : Bool
  pub clean_vendor_firewall : Bool
  pub bypass_cn_ip : Bool
  pub cnip_mode : CnipMode
  pub bypass_cn_ip_v4 : Bool
  pub bypass_cn_ip_v6 : Bool
  pub cn_ip_file : String
  pub cn_ipv6_file : String
  pub selected_uids : List String
  pub cnip_force_uids : List String
  pub wifi_network_control_enabled : Bool
  pub wifi_use_on_disconnect : Bool
  pub wifi_use_on_connect : Bool
  pub wifi_enable_ssid_matching : Bool
  pub wifi_list_mode : String
  pub wifi_ssids : List String
  pub wifi_bssids : List String
  pub tun_device : String
  pub fake_ip_range : String
  pub fake_ip6_range : String
  pub gid_list : List String
  pub hotspot_ap_interfaces : List String
  pub blocked_interfaces : List String
  pub mac_filter : Bool
  pub mac_mode : String
  pub macs_list : List String
  pub intranet_cidrs4 : List String
  pub intranet_cidrs6 : List String
