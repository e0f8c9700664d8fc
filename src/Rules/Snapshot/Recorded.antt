-- ===== src/Rules/Snapshot/Recorded.antt =====
-- What the record of boxctl/src/rules/runtime.rs says to the next run: boxctl/src/rules/cleanup.rs
-- reads it to decide what is taken down.
use boxproxy.Prelude.{
  String, true, false, Option, none, some, List, [], ◌∷◌, ◌==◌, if◌then◌else◌, contains, ◌≡◌, refl,
  ap, eq_iff,
}
use boxproxy.Prelude.Text.{is_blank}
use boxproxy.Act.{Result, ok, err, lift, on_option, ◌>>=◌}
use boxproxy.Act.Reaches.{OkThen, Reaches, Reaches-bind, Reaches-then, map_err-OkThen, map_err-ok}
use boxproxy.Config.{Config}
use boxproxy.Config.Modes.{NetworkMode, network_mode_str, tun, tproxy, redirect, mixed, enhance}
use boxproxy.Rules.Manager.{Env, World, on_host}
use boxproxy.Rules.Outside.{JsonValue, flag, text, Outside}
use boxproxy.Rules.Cleanup.{
  cleanable_modes, differs, apply_mode, runtime_env_value, cleanup_mode_for_apply,
  cleanup_mode_for_clear,
}
use boxproxy.Rules.Snapshot.{
  snapshot_fields, runtime_snapshot_path, runtime_snapshot_text, write_runtime_snapshot,
  runtime_save,
}

-- The text at a key.
abbrev pub text_at : List (String × JsonValue) → String → Option String
text_at [] key = none
text_at ((k, text value) ∷ rest) key = if k == key then some value else text_at rest key
text_at ((k, flag value) ∷ rest) key = if k == key then none else text_at rest key

-- What is expected of files and of JSON.
pub record Records {S : Type 0} (E : Env S) (O : Outside S) : Type 0 where
  -- a file that was written has its text
  pub stored :
      (path content : String) (s : S) (done : Unit {0})
      → (E.host.write_atomic path content s).0 ≡ ok done
      → E.host.read_file path (E.host.write_atomic path content s).1 ≡ some content
  -- the text of the object that is written is read back as that object
  pub parsed :
      (json : String)
      → O.to_json (snapshot_fields E.config) ≡ ok json
      → (key : String) → O.text_field json key ≡ text_at (snapshot_fields E.config) key

module _ {S : Type 0} ⦃E : Env S⦄ ⦃O : Outside S⦄ where
  -- The record is that of the settings.
  abbrev pub Recorded : World S → Type 0
  Recorded w =
      (key : String)
      → runtime_env_value O.text_field w.sys key ≡ text_at (snapshot_fields E.config) key

  -- Both a later `apply` and a later `clear` with the same settings take down the mode of the
  -- settings and no other.
  abbrev pub Chosen : World S → Type 0
  Chosen w =
      (cleanup_mode_for_apply O.text_field w ≡ (ok (network_mode_str E.config.network_mode), w))
      × (cleanup_mode_for_clear O.text_field w ≡ (ok (network_mode_str E.config.network_mode), w))

known_mode :
    (mode : NetworkMode)
    → (contains cleanable_modes (network_mode_str mode) ≡ true)
      × (is_blank (network_mode_str mode) ≡ false)
known_mode tun = (refl, refl)
known_mode tproxy = (refl, refl)
known_mode NetworkMode.ebpf = (refl, refl)
known_mode redirect = (refl, refl)
known_mode mixed = (refl, refl)
known_mode enhance = (refl, refl)

same_text : (t : String) → (t == t) ≡ true
same_text t = (eq_iff t t).1 refl

differs-same :
    (value : String → Option String) (key expected : String)
    → value key ≡ some expected
    → differs value (key, expected) ≡ false
differs-same value key expected h = rw (h, differs, same_text expected) refl

-- With the values of the settings nothing differs, and the mode is the recorded one.
apply_mode-same :
    (config : Config) (value : String → Option String)
    → ((key : String) → value key ≡ text_at (snapshot_fields config) key)
    → apply_mode config value (network_mode_str config.network_mode)
      ≡ network_mode_str config.network_mode
apply_mode-same config value h =
    let (known, named) = known_mode config.network_mode in
    rw
      (
        named,
        differs-same value "bin_name" config.bin_name (h "bin_name"),
        differs-same value "ipv6_mode" config.ipv6_mode (h "ipv6_mode"),
        differs-same value "dns_hijack_mode" config.dns_hijack_mode (h "dns_hijack_mode"),
        differs-same value "tproxy_port" config.tproxy_port (h "tproxy_port"),
        differs-same value "redir_port" config.redir_port (h "redir_port"),
        differs-same value "tun_device" config.tun_device (h "tun_device"),
        known,
        same_text (network_mode_str config.network_mode),
      )
      refl

module _ {S : Type 0} ⦃E : Env S⦄ ⦃O : Outside S⦄ (records : Records E O) where
  write_runtime_snapshot-Recorded :
      (json : String) (w : World S)
      → O.to_json (snapshot_fields E.config) ≡ ok json
      → OkThen Recorded (write_runtime_snapshot json w)
  unfolding write_runtime_snapshot on_host runtime_env_value
  write_runtime_snapshot-Recorded json w h =
      map_err-OkThen Recorded _
        (on_host (E.host.write_atomic (runtime_snapshot_path E.config) json)) w
        (λ done eq key.
          rw (records.stored (runtime_snapshot_path E.config) json w.sys done eq)
            (records.parsed json h key))

  serialized :
      (json : String) (w : World S)
      → (runtime_snapshot_text w).0 ≡ ok json
      → O.to_json (snapshot_fields E.config) ≡ ok json
  unfolding runtime_snapshot_text ◌>>=◌
  serialized json w h = map_err-ok _ (lift (O.to_json (snapshot_fields E.config))) w json h

  pub runtime_save-Recorded : Reaches {W = World S} Recorded runtime_save
  unfolding runtime_save
  runtime_save-Recorded = Reaches-then _ _ (λ _.
      Reaches-bind runtime_snapshot_text write_runtime_snapshot (λ json w eq.
        write_runtime_snapshot-Recorded json (runtime_snapshot_text w).1 (serialized json w eq)))

  Recorded→Chosen : (w : World S) → Recorded w → Chosen w
  unfolding cleanup_mode_for_apply cleanup_mode_for_clear on_option ◌>>=◌
  Recorded→Chosen w h =
      let (known, _) = known_mode E.config.network_mode in
      rw (h "network_mode") (
        ap (λ mode. (ok mode, w))
            (apply_mode-same E.config (runtime_env_value O.text_field w.sys) h),
        rw known refl,
      )

  pub runtime_save-Chosen : Reaches {W = World S} Chosen runtime_save
  runtime_save-Chosen = record { at = λ w. chosen (runtime_save w) (runtime_save-Recorded.at w) }
    where
      chosen : (e : Result Unit × World S) → OkThen Recorded e → OkThen Chosen e
      chosen (ok _, w) h = Recorded→Chosen w h
      chosen (err _, w) h = tt
