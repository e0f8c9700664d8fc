-- ===== src/Rules/Ipv6.antt =====
-- The IPv6 settings of the kernel and the wait for the TUN device, in
-- boxctl/src/rules/local_ip.rs. Paths are joined as for a relative second part.
use boxproxy.Prelude.{
  String, ℕ, zero, suc, Bool, true, false, not, ◌||◌, Option, none, some, [], ◌∷◌, ◌<>◌, ◌==◌,
  if◌then◌else◌,
}
use boxproxy.Prelude.Text.{trim}
use boxproxy.Act.{Act, pure, gets, on_option, ◌>>=◌, ◌>>◌, for_each, ignore}
use boxproxy.Rules.Manager.{Env, World, on_host, run_ok, run_ignore}

abbrev conf_dir : String
conf_dir = "/proc/sys/net/ipv6/conf"

abbrev reads_as : String → Option String → Bool
reads_as value none = false
reads_as value (some text) = trim text == value

module _ {S : Type 0} ⦃E : Env S⦄ where
  -- A failed write is only logged.
  unfoldable pub write_ipv6_conf_value : String → String → String → Act (World S) Unit
  unfolding ◌>>=◌ ignore
  write_ipv6_conf_value iface key value =
      let path = conf_dir <> ("/" <> (iface <> ("/" <> key))) in
      if E.runner.dry_run then pure tt else do
        present ← gets (λ w. E.host.exists path w.sys)
        same ← gets (λ w. reads_as value (E.host.read_file path w.sys))
        if not present || same then pure tt else ignore (on_host (E.host.write_file path value))

  unfoldable pub set_ipv6_conf_all : String → String → Act (World S) Unit
  unfolding ◌>>=◌ on_option for_each write_ipv6_conf_value
  set_ipv6_conf_all key value = if E.runner.dry_run then pure tt else do
    entries ← gets (λ w. E.host.read_dir conf_dir w.sys)
    on_option entries (pure tt) λ names. for_each names λ name. write_ipv6_conf_value name key value

  unfoldable pub restore_ipv6_ra_conf : Act (World S) Unit
  unfolding ◌>>=◌ set_ipv6_conf_all
  restore_ipv6_ra_conf = do
    set_ipv6_conf_all "disable_ipv6" "0"
    set_ipv6_conf_all "autoconf" "1"
    set_ipv6_conf_all "accept_ra" "2"

  unfoldable pub ipv6_enable : Act (World S) Unit
  unfolding ◌>>=◌ restore_ipv6_ra_conf
  ipv6_enable = do
    run_ignore "sysctl" ("-w" ∷ "net.ipv4.ip_forward=1" ∷ [])
    run_ignore "sysctl" ("-w" ∷ "net.ipv6.conf.all.forwarding=1" ∷ [])
    restore_ipv6_ra_conf

  unfoldable pub disable_system_ipv6 : Act (World S) Unit
  unfolding ◌>>=◌ set_ipv6_conf_all
  disable_system_ipv6 = do
    run_ignore "sysctl" ("-w" ∷ "net.ipv4.ip_forward=1" ∷ [])
    run_ignore "sysctl" ("-w" ∷ "net.ipv6.conf.all.forwarding=0" ∷ [])
    set_ipv6_conf_all "accept_ra" "0"
    set_ipv6_conf_all "autoconf" "0"
    set_ipv6_conf_all "disable_ipv6" "1"

  unfoldable pub apply_ipv6_system_mode : Act (World S) Unit
  unfolding disable_system_ipv6 ipv6_enable
  apply_ipv6_system_mode =
      if E.config.ipv6_mode == "disable" then disable_system_ipv6 else ipv6_enable

  -- `sleep` never fails, so its result is dropped.
  unfoldable pub poll_tun : ℕ → Act (World S) Unit
  unfolding ◌>>=◌ ignore
  poll_tun zero = pure tt
  poll_tun (suc tries) = do
    let later = poll_tun tries
    listed ← gets (λ w. E.host.exists ("/sys/class/net/" <> E.config.tun_device) w.sys)
    ready ← if listed then pure true else run_ok "ip" ("link" ∷ "show" ∷ E.config.tun_device ∷ [])
    if ready then pure tt else do ignore (on_host (E.host.sleep "1")); later

  unfoldable pub wait_tun_ready : Act (World S) Unit
  unfolding poll_tun
  wait_tun_ready = if E.runner.dry_run then pure tt else poll_tun 12
