-- ===== src/Rules/Capabilities.antt =====
-- boxctl/src/rules/capabilities.rs: what the device's iptables can do, probed once and cached in
-- a file until the next boot. With `begin_batch` and `restore_supported` of batch.rs.
pub mod Cache
pub mod Once
use boxproxy.Prelude.{
  String, Bool, true, false, not, ◌||◌, Option, none, some, List, [], ◌∷◌, ◌<>◌, ◌==◌, contains,
  if◌then◌else◌,
}
use boxproxy.Prelude.Text.{is_blank, trim, lines, split_once, split_whitespace}
use boxproxy.Act.{
  Result, ok, err, Act, pure, gets, modify, attempt, on_option, ◌>>=◌, ◌>>◌, when, ignore,
}
use boxproxy.Exec.{Output}
use boxproxy.Rules.Names.{Family, v4, v6, Capabilities, restore_cmd}
use boxproxy.Config.{Config}
use boxproxy.Rules.Capabilities.Cache.{parse_capability_cache, capability_cache_text}
use boxproxy.Rules.Batch.{new_batch}
use boxproxy.Rules.Manager.{Env, World, on_host, run_ok, run_with_stdin_output, set_batch}
use boxproxy.Rules.Flush.{restore_args}
use boxproxy.Rules.Ops.{ipt_silent_owned, ipt_try_owned, ipt_check_owned, cleanup_chain_fast}

abbrev bit : Bool → String
bit b = if b then "1" else "0"

-- The capabilities that a dry run takes for granted.
abbrev pub assumed_capabilities : Capabilities
assumed_capabilities = record {
  tproxy4 = true;
  tproxy6 = true;
  socket_match = true;
  socket_transparent = true;
  addrtype = true;
  conntrack_match = true;
  connmark_match = true;
  connmark_target = true;
  ipset = true;
  bpf_match = true;
  ip6_nat = true;
  restore4 = false;
  restore6 = false;
}

abbrev words_of : Option String → List String
words_of none = []
words_of (some text) = split_whitespace text

abbrev output_ok : Result Output → Bool
output_ok (ok output) = output.success
output_ok (err _) = false

-- `capability_cache_path`, and the text of `capability_cache_signature` for a boot id
abbrev pub capability_cache_path : Config → String
capability_cache_path config = config.state_dir <> "/iptables.cap.cache"

abbrev signature_of : Config → Option String → Option String
signature_of config none = none
signature_of config (some boot_id) =
    if is_blank (trim boot_id)
    then none
    else some
        (trim boot_id <> ("|cnip=" <> (bit config.bypass_cn_ip <> ("|ipv6=" <> bit config.ipv6))))

abbrev restore_of : Family → Capabilities → Bool
restore_of v4 caps = caps.restore4
restore_of v6 caps = caps.restore6

module _ {S : Type 0} ⦃E : Env S⦄ where
  unfoldable pub capability_cache_signature : Act (World S) (Option String)
  unfolding ◌>>=◌ trim
  capability_cache_signature =
      gets (λ w. signature_of E.config (E.host.read_file "/proc/sys/kernel/random/boot_id" w.sys))

  unfoldable pub load_capability_cache : Act (World S) (Option Capabilities)
  unfolding ◌>>=◌ on_option capability_cache_signature parse_capability_cache
  load_capability_cache = do
    signature ← capability_cache_signature
    on_option signature (pure none) λ s. do
      text ← gets (λ w. E.host.read_file (capability_cache_path E.config) w.sys)
      on_option text (pure none) (λ t. pure (parse_capability_cache s t))

  unfoldable pub save_capability_cache : Capabilities → Act (World S) Unit
  unfolding ◌>>=◌ on_option ignore capability_cache_signature capability_cache_text
  save_capability_cache caps = do
    signature ← capability_cache_signature
    on_option signature (pure tt) λ s. ignore (
        on_host
          (E.host.write_atomic (capability_cache_path E.config) (capability_cache_text s caps)))

  -- `capability_entries`
  unfoldable pub capability_entries : String → Act (World S) (List String)
  unfolding ◌>>=◌ split_whitespace
  capability_entries path = gets (λ w. words_of (E.host.read_file path w.sys))

  unfoldable pub ipset_available : Act (World S) Bool
  unfolding ◌>>=◌
  ipset_available = if E.runner.dry_run then pure true else run_ok "ipset" ("--version" ∷ [])

  unfoldable pub probe_restore_support : Family → Act (World S) Bool
  unfolding ◌>>=◌
  probe_restore_support family = do
    r ← attempt (
        run_with_stdin_output (restore_cmd family) restore_args
          "*mangle\n:BOX_RESTORE_PROBE - [0:0]\nCOMMIT\n")
    ipt_silent_owned family ("-t" ∷ "mangle" ∷ "-F" ∷ "BOX_RESTORE_PROBE" ∷ [])
    ipt_silent_owned family ("-t" ∷ "mangle" ∷ "-X" ∷ "BOX_RESTORE_PROBE" ∷ [])
    pure (output_ok r)

  unfoldable pub cap_socket_transparent : Bool → Act (World S) Bool
  unfolding ◌>>=◌
  cap_socket_transparent socket_match = if not socket_match then pure false else do
    ipt_silent_owned v4 ("-t" ∷ "mangle" ∷ "-N" ∷ "BOX_SOCKET_PROBE" ∷ [])
    ipt_silent_owned v4 ("-t" ∷ "mangle" ∷ "-F" ∷ "BOX_SOCKET_PROBE" ∷ [])
    accepted ← ipt_try_owned v4 (
        "-t" ∷ "mangle" ∷ "-A" ∷ "BOX_SOCKET_PROBE" ∷ "-p" ∷ "tcp" ∷ "-m" ∷ "socket"
        ∷ "--transparent" ∷ "-j" ∷ "RETURN" ∷ [])
    cleanup_chain_fast v4 "mangle" "BOX_SOCKET_PROBE"
    pure accepted

  unfoldable pub ip6_nat_supported : Act (World S) Bool
  unfolding ◌>>=◌
  ip6_nat_supported =
      if E.runner.dry_run then pure true else ipt_check_owned v6 ("-t" ∷ "nat" ∷ "-L" ∷ [])

  abbrev if_needed : Bool → Act (World S) Bool → Act (World S) Bool
  if_needed b m = if b then m else pure false

  unfoldable pub probe_capabilities_raw : Act (World S) Capabilities
  unfolding ◌>>=◌ capability_entries ipset_available probe_restore_support cap_socket_transparent
      ip6_nat_supported
  probe_capabilities_raw = if E.runner.dry_run then pure assumed_capabilities else do
    targets4 ← capability_entries "/proc/net/ip_tables_targets"
    targets6 ← capability_entries "/proc/net/ip6_tables_targets"
    matches4 ← capability_entries "/proc/net/ip_tables_matches"
    matches6 ← capability_entries "/proc/net/ip6_tables_matches"
    let has_match = λ (name : String). contains matches4 name || contains matches6 name
    let has_target = λ (name : String). contains targets4 name || contains targets6 name
    set ← if_needed E.config.bypass_cn_ip ipset_available
    nat6 ← if_needed E.config.ipv6 ip6_nat_supported
    r4 ← probe_restore_support v4
    r6 ← if_needed E.config.ipv6 (probe_restore_support v6)
    transparent ← cap_socket_transparent (has_match "socket")
    pure (record {
      tproxy4 = contains targets4 "TPROXY";
      tproxy6 = contains targets6 "TPROXY";
      socket_match = has_match "socket";
      socket_transparent = transparent;
      addrtype = has_match "addrtype";
      conntrack_match = has_match "conntrack";
      connmark_match = has_match "connmark";
      connmark_target = has_target "CONNMARK";
      ipset = set;
      bpf_match = has_match "bpf";
      ip6_nat = nat6;
      restore4 = r4;
      restore6 = r6;
    })

  abbrev remember : Capabilities → Act (World S) Capabilities
  remember caps = do modify (λ w. record w { capabilities = some caps }); pure caps

  unfoldable pub probe_or_load : Act (World S) Capabilities
  unfolding ◌>>=◌ on_option load_capability_cache save_capability_cache probe_capabilities_raw
  probe_or_load = if E.runner.dry_run then probe_capabilities_raw else do
    cached ← load_capability_cache
    on_option cached (do caps ← probe_capabilities_raw; save_capability_cache caps; pure caps) pure

  unfoldable pub probe_capabilities : Act (World S) Capabilities
  unfolding ◌>>=◌ on_option probe_or_load
  probe_capabilities = do
    known ← gets (λ w. w.capabilities)
    on_option known (do caps ← probe_or_load; remember caps) pure

  unfoldable pub restore_supported : Family → Act (World S) Bool
  unfolding ◌>>=◌ probe_capabilities
  restore_supported family = do caps ← probe_capabilities; pure (restore_of family caps)

  unfoldable pub begin_batch : Family → Act (World S) Unit
  unfolding ◌>>=◌ restore_supported set_batch
  begin_batch family = if E.runner.dry_run then pure tt else do
    supported ← restore_supported family
    when supported (set_batch (some (new_batch family)))
