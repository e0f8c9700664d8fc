-- ===== src/Rules/Frame/Ipv6.antt =====
-- boxctl/src/rules/local_ip.rs (IPv6 settings), with a framed predicate.
use boxproxy.Prelude.{ℕ, zero, suc, ◌≡◌, false}
use boxproxy.Prelude.{String}
use boxproxy.Act.Keeps.{Keeps}
use boxproxy.Rules.Manager.{Env, World}
use boxproxy.Rules.Ipv6.{
  write_ipv6_conf_value, set_ipv6_conf_all, restore_ipv6_ra_conf, ipv6_enable, disable_system_ipv6,
  apply_ipv6_system_mode, poll_tun, wait_tun_ready,
}
use boxproxy.Rules.Frame.{Frame, OfDevice}
use boxproxy.Rules.Frame.Modes.{modes_rules}

module _ {S : Type 0} ⦃E : Env S⦄ {Q : S → Type 0} (frame : Frame Q) where
  pub write_ipv6_conf_value-Frame :
      (iface : String) (key : String) (value : String)
      → Keeps {W = World S} (OfDevice Q) (write_ipv6_conf_value iface key value)
  unfolding write_ipv6_conf_value
  write_ipv6_conf_value-Frame iface key value = search (modes_rules, frame.ipv6_conf) depth 16

  pub set_ipv6_conf_all-Frame :
      (key : String) (value : String)
      → Keeps {W = World S} (OfDevice Q) (set_ipv6_conf_all key value)
  unfolding set_ipv6_conf_all
  set_ipv6_conf_all-Frame key value = search (modes_rules, write_ipv6_conf_value-Frame) depth 16

  pub restore_ipv6_ra_conf-Frame : Keeps {W = World S} (OfDevice Q) restore_ipv6_ra_conf
  unfolding restore_ipv6_ra_conf
  restore_ipv6_ra_conf-Frame = search (modes_rules, set_ipv6_conf_all-Frame) depth 16

  pub ipv6_enable-Frame : Keeps {W = World S} (OfDevice Q) ipv6_enable
  unfolding ipv6_enable
  ipv6_enable-Frame = search (modes_rules, restore_ipv6_ra_conf-Frame) depth 16

  pub disable_system_ipv6-Frame : Keeps {W = World S} (OfDevice Q) disable_system_ipv6
  unfolding disable_system_ipv6
  disable_system_ipv6-Frame = search (modes_rules, set_ipv6_conf_all-Frame) depth 16

  pub apply_ipv6_system_mode-Frame : Keeps {W = World S} (OfDevice Q) apply_ipv6_system_mode
  unfolding apply_ipv6_system_mode
  apply_ipv6_system_mode-Frame =
      search (modes_rules, ipv6_enable-Frame, disable_system_ipv6-Frame) depth 16

  pub poll_tun-Frame :
      (tries : ℕ) → E.runner.dry_run ≡ false → Keeps {W = World S} (OfDevice Q) (poll_tun tries)
  unfolding poll_tun
  poll_tun-Frame zero live = search modes_rules
  poll_tun-Frame (suc tries) live =
      let later = poll_tun-Frame tries live in search (modes_rules, frame.sleep) depth 16

  pub wait_tun_ready-Frame : Keeps {W = World S} (OfDevice Q) wait_tun_ready
  unfolding wait_tun_ready
  wait_tun_ready-Frame = search (modes_rules, poll_tun-Frame) depth 16

pub ruleset ipv6_rules = (
  modes_rules, write_ipv6_conf_value-Frame, set_ipv6_conf_all-Frame, restore_ipv6_ra_conf-Frame,
  ipv6_enable-Frame, disable_system_ipv6-Frame, apply_ipv6_system_mode-Frame, poll_tun-Frame,
  wait_tun_ready-Frame,
)
