-- ===== src/Config/Modes.antt =====
-- boxctl/src/config/types.rs: the modes, their texts and how they are read.
use boxproxy.Prelude.{String, Bool, true, false, ◌||◌, ◌==◌, if◌then◌else◌, ◌<>◌}
use boxproxy.Prelude.Text.{trim, to_ascii_lowercase}
use boxproxy.Act.{Result, ok, err}

pub data NetworkMode : Type 0 where
  tun tproxy ebpf redirect mixed enhance : NetworkMode

pub data ProxyMode : Type 0 where
  core blacklist whitelist : ProxyMode

pub data CnipMode : Type 0 where
  ipset ebpf : CnipMode

unfoldable pub read_network_mode : String → String → Result NetworkMode
read_network_mode word value =
    if word == "tun"
    then ok tun
    else if word == "tproxy"
    then ok tproxy
    else if word == "ebpf"
    then ok NetworkMode.ebpf
    else if word == "redirect"
    then ok redirect
    else if word == "mixed"
    then ok mixed
    else if word == "enhance"
    then ok enhance
    else err ("invalid network mode: " <> value)

-- `NetworkMode::parse`
unfoldable pub parse_network_mode : String → Result NetworkMode
unfolding read_network_mode
parse_network_mode value = read_network_mode (to_ascii_lowercase (trim value)) value

-- `NetworkMode::as_str`
abbrev pub network_mode_str : NetworkMode → String
network_mode_str tun = "tun"
network_mode_str tproxy = "tproxy"
network_mode_str NetworkMode.ebpf = "ebpf"
network_mode_str redirect = "redirect"
network_mode_str mixed = "mixed"
network_mode_str enhance = "enhance"

abbrev pub is_enhance : NetworkMode → Bool
is_enhance enhance = true
is_enhance _ = false

-- `NetworkMode::uses_tun`
abbrev pub uses_tun : NetworkMode → Bool
uses_tun tun = true
uses_tun mixed = true
uses_tun _ = false

unfoldable pub read_proxy_mode : String → String → Result ProxyMode
read_proxy_mode word value =
    if word == "core"
    then ok core
    else if word == "blacklist" || word == "black"
    then ok blacklist
    else if word == "whitelist" || word == "white"
    then ok whitelist
    else err ("invalid proxy mode: " <> value)

-- `ProxyMode::parse`
unfoldable pub parse_proxy_mode : String → Result ProxyMode
unfolding read_proxy_mode
parse_proxy_mode value = read_proxy_mode (to_ascii_lowercase (trim value)) value

-- `ProxyMode::as_str`
abbrev pub proxy_mode_str : ProxyMode → String
proxy_mode_str core = "core"
proxy_mode_str blacklist = "blacklist"
proxy_mode_str whitelist = "whitelist"

-- `CnipMode::from_storage`
unfoldable pub cnip_mode_from_storage : String → CnipMode
unfolding to_ascii_lowercase trim
cnip_mode_from_storage value =
    if to_ascii_lowercase (trim value) == "ebpf" then CnipMode.ebpf else ipset

abbrev pub is_ipset : CnipMode → Bool
is_ipset ipset = true
is_ipset _ = false
