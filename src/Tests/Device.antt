-- ===== src/Tests/Device.antt =====
-- A device that keeps the names of the programs it ran; each of them ends as `verdict` says.
use boxproxy.Prelude.{String, Bool, true, false, none, List, [], ◌∷◌, ◌++◌}
use boxproxy.Act.{ok}
use boxproxy.Exec.{Host}
use boxproxy.Config.{Config}
use boxproxy.Config.Modes.{redirect, blacklist, CnipMode}
use boxproxy.Rules.Names.{RuleContext, Capabilities}
use boxproxy.Rules.Manager.{Env, World, new_manager}
use boxproxy.Rules.Capabilities.{assumed_capabilities}

abbrev pub Device : Type 0
Device = List String

abbrev pub device : Bool → Host Device
device verdict = record {
  spawn = λ program args stdin s.
      (ok (record { success = verdict; stdout = ""; stderr = "" }), s ++ (program ∷ []));
  read_file = λ path s. none;
  read_parts = λ path s. none;
  exists = λ path s. false;
  is_file = λ path s. false;
  write_file = λ path text s. (ok tt, s);
  write_atomic = λ path text s. (ok tt, s);
  create_dir_all = λ path s. (ok tt, s);
  remove_file = λ path s. (ok tt, s);
  read_dir = λ path s. none;
  sleep = λ seconds s. (ok tt, s);
}

abbrev pub settings : Config
settings = record {
  state_dir = "/data/adb/box/state";
  box_pid = "/data/adb/box/run/box.pid";
  box_user_group = "root:net_admin";
  bin_name = "mihomo";
  bpf_matcher_path = "/data/adb/box/bpf";
  network_mode = redirect;
  proxy_mode = blacklist;
  tproxy_port = "9898";
  redir_port = "9797";
  ipv6_mode = "enable";
  ipv6 = true;
  proxy_tcp = true;
  proxy_udp = true;
  dns_hijack_tcp = true;
  dns_hijack_udp = true;
  dns_hijack_mode = "tproxy";
  mihomo_dns_forward = "disable";
  mihomo_dns_port = "1053";
  quic = "enable";
  performance_mode = false;
  clean_vendor_firewall = false;
  bypass_cn_ip = false;
  cnip_mode = CnipMode.ipset;
  bypass_cn_ip_v4 = false;
  bypass_cn_ip_v6 = false;
  cn_ip_file = "";
  cn_ipv6_file = "";
  selected_uids = [];
  cnip_force_uids = [];
  wifi_network_control_enabled = false;
  wifi_use_on_disconnect = false;
  wifi_use_on_connect = false;
  wifi_enable_ssid_matching = false;
  wifi_list_mode = "blacklist";
  wifi_ssids = [];
  wifi_bssids = [];
  tun_device = "Meta";
  fake_ip_range = "198.18.0.1/16";
  fake_ip6_range = "fc00::/18";
  gid_list = [];
  hotspot_ap_interfaces = "wlan2" ∷ [];
  blocked_interfaces = [];
  mac_filter = false;
  mac_mode = "blacklist";
  macs_list = [];
  intranet_cidrs4 = "10.0.0.0/8" ∷ [];
  intranet_cidrs6 = "fe80::/10" ∷ [];
}

abbrev pub live : Bool → Env Device
live verdict = record {
  config = settings;
  runner = record { dry_run = false; verbose = false };
  host = device verdict;
  ipv6_text = record { parse_ipv6 = λ text. none; show_ipv6 = λ n. "::" };
}

abbrev pub dry : Env Device
dry = record (live true) { runner = record { dry_run = true; verbose = false } }

abbrev pub context : RuleContext
context = record {
  box_uid = "0";
  box_gid = "3005";
  selected_uids = "10086" ∷ [];
  selected_gids = [];
  cnip_force_uids = [];
}

abbrev pub no_tproxy : Capabilities
no_tproxy = record assumed_capabilities { tproxy4 = false; tproxy6 = false; ip6_nat = false }

abbrev pub start : World Device
start = new_manager []
