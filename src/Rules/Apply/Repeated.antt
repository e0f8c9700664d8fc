-- ===== src/Rules/Apply/Repeated.antt =====
-- A run that follows another with the same settings: boxctl/src/rules.rs.
use boxproxy.Act.Reaches.{OkThen, Reaches, reaches_rules}
use boxproxy.Rules.Manager.{Env, World}
use boxproxy.Rules.Outside.{Outside}
use boxproxy.Rules.Snapshot.Recorded.{Records, Chosen, runtime_save-Chosen}
use boxproxy.Rules.Apply.{apply_ebpf, apply_iptables, apply_rules}

module _ {S : Type 0} ⦃E : Env S⦄ ⦃O : Outside S⦄ (records : Records E O) where
  apply_ebpf-Reaches : Reaches {W = World S} Chosen apply_ebpf
  unfolding apply_ebpf
  apply_ebpf-Reaches = search (reaches_rules, runtime_save-Chosen)

  apply_iptables-Reaches : Reaches {W = World S} Chosen apply_iptables
  unfolding apply_iptables
  apply_iptables-Reaches = search (reaches_rules, runtime_save-Chosen)

  -- If a file that is written holds its text, and the JSON text of the record is read back as the
  -- record, then a run of `apply` that returns no error leaves a state in which the next `apply`
  -- and the next `clear` with the same settings take down the mode of the settings and no other.
  pub apply_rules-Chosen : (w : World S) → OkThen Chosen (apply_rules w)
  unfolding apply_rules
  apply_rules-Chosen w =
      let reaches : Reaches {W = World S} Chosen apply_rules =
        search (reaches_rules, apply_ebpf-Reaches, apply_iptables-Reaches) in
      reaches.at w
