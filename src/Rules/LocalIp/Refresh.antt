-- ===== src/Rules/LocalIp/Refresh.antt =====
-- boxctl/src/rules/local_ip.rs: rebuilding the chains of the device's own addresses when these
-- change.
use boxproxy.Prelude.{
  String, Bool, false, not, ◌||◌, Option, none, some, List, [], ◌<>◌, ◌==◌, if◌then◌else◌,
}
use boxproxy.Prelude.Text.{trim, join, show_bool}
use boxproxy.Act.{Act, pure, gets, map_err, when, ◌>>=◌, ◌>>◌}
use boxproxy.Config.{Config}
use boxproxy.Config.Modes.{network_mode_str}
use boxproxy.Rules.Names.{Family, v4, v6}
use boxproxy.Rules.Util.{mode_needs_local_ip_mangle, mode_needs_local_ip_nat}
use boxproxy.Rules.Manager.{Env, World, on_host}
use boxproxy.Rules.LocalIp.{local_ip_cidrs, rebuild_local_ip_chain}

abbrev pub local_ip_refresh_key_path : Config → String
local_ip_refresh_key_path config = config.state_dir <> "/local_ip_refresh.key"

unfoldable pub local_ip_refresh_key : Config → List String → List String → Bool → Bool → String
unfolding join
local_ip_refresh_key config ipv4 ipv6 need_mangle need_nat =
    "mode="
    <> (network_mode_str config.network_mode
        <> ("|ipv6="
            <> (show_bool config.ipv6
                <> ("|tun="
                    <> (config.tun_device
                        <> ("|mangle="
                            <> (show_bool need_mangle
                                <> ("|nat="
                                    <> (show_bool need_nat
                                        <> ("|v4="
                                            <> (join "," ipv4
                                                <> ("|v6=" <> join "," ipv6))))))))))))

abbrev is_key : String → Option String → Bool
unfolding trim
is_key key none = false
is_key key (some value) = trim value == key

module _ {S : Type 0} ⦃E : Env S⦄ where
  unfoldable pub local_ip_refresh_key_matches : String → Act (World S) Bool
  unfolding trim
  local_ip_refresh_key_matches key =
      gets (λ w. is_key key (E.host.read_file (local_ip_refresh_key_path E.config) w.sys))

  unfoldable pub save_local_ip_refresh_key : String → Act (World S) Unit
  unfolding map_err
  save_local_ip_refresh_key key =
      map_err ("save local IP refresh key " <> (local_ip_refresh_key_path E.config <> " failed: "))
        (on_host (E.host.write_atomic (local_ip_refresh_key_path E.config) key))

  -- The counts of the source are only logged.
  unfoldable pub rebuilt : Family → String → List String → Act (World S) Unit
  unfolding ◌>>=◌ rebuild_local_ip_chain
  rebuilt family table cidrs = rebuild_local_ip_chain family table cidrs >>= λ _. pure tt

  unfoldable pub rebuild_chains : Bool → Bool → List String → List String → Act (World S) Unit
  unfolding ◌>>=◌ rebuilt
  rebuild_chains need_mangle need_nat ipv4 ipv6 =
      when need_mangle (rebuilt v4 "mangle" ipv4 >> when E.config.ipv6 (rebuilt v6 "mangle" ipv6))
      >> when need_nat (rebuilt v4 "nat" ipv4)

  unfoldable pub refresh_local_ip_rules : Act (World S) Unit
  unfolding ◌>>=◌ local_ip_cidrs local_ip_refresh_key local_ip_refresh_key_matches rebuild_chains
      save_local_ip_refresh_key
  refresh_local_ip_rules =
      let mode = network_mode_str E.config.network_mode in
      let need_mangle = mode_needs_local_ip_mangle mode in
      let need_nat = mode_needs_local_ip_nat mode in
      if not (need_mangle || need_nat) then pure tt else do
        ipv4 ← local_ip_cidrs v4
        ipv6 ← if E.config.ipv6 then local_ip_cidrs v6 else pure []
        let key = local_ip_refresh_key E.config ipv4 ipv6 need_mangle need_nat
        current ← local_ip_refresh_key_matches key
        if current
            then pure tt
            else (rebuild_chains need_mangle need_nat ipv4 ipv6 >> save_local_ip_refresh_key key)
