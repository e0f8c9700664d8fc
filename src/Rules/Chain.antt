-- ===== src/Rules/Chain.antt =====
-- Chains and rules: boxctl/src/rules/exec.rs up to `del_rule`, and the entries that
-- boxctl/src/rules/batch.rs makes for them while a batch is open.
use boxproxy.Prelude.{String, Bool, true, false, not, Option, some, List, [], ◌∷◌, if◌then◌else◌}
use boxproxy.Act.{Act, pure, gets, on_option, ◌>>=◌, ◌>>◌, ignore}
use boxproxy.Rules.Names.{Family, same_family, is_box_custom_chain, RuleContext}
use boxproxy.Rules.Batch.{TableBatch, RuleBatch, entry, declare, append}
use boxproxy.Rules.Manager.{Env, World, set_batch}
use boxproxy.Rules.Command.{ipt_owned, ipt_silent_owned, ipt_try_owned, ipt_check_owned}

-- `core_bypass_variants`
abbrev pub core_bypass_variants : RuleContext → List (List String)
core_bypass_variants context =
    ("-m" ∷ "owner" ∷ "--uid-owner" ∷ context.box_uid ∷ "--gid-owner" ∷ context.box_gid ∷ "-j"
      ∷ "RETURN" ∷ [])
    ∷ ("-m" ∷ "owner" ∷ "--uid-owner" ∷ context.box_uid ∷ "-j" ∷ "RETURN" ∷ [])
    ∷ ("-m" ∷ "owner" ∷ "--gid-owner" ∷ context.box_gid ∷ "-j" ∷ "RETURN" ∷ [])
    ∷ []

module _ {S : Type 0} where
  -- Changes the entry of a table if a batch for the family is open, and says whether it did.
  unfoldable pub record_in :
      Family → String → (TableBatch → TableBatch) → Option RuleBatch → Act (World S) Bool
  unfolding ◌>>=◌ on_option set_batch
  record_in family table f batch = on_option batch (pure false) λ b.
      if not (same_family b.family family)
      then pure false
      else do set_batch (some (record b { tables = entry table f b.tables })); pure true

  unfoldable pub batch_record_chain : Family → String → String → Act (World S) Bool
  unfolding ◌>>=◌ record_in
  batch_record_chain family table chain =
      if not (is_box_custom_chain chain)
      then pure false
      else do batch ← gets (λ w. w.batch); record_in family table (declare chain) batch

  unfoldable pub batch_record_append : Family → String → String → List String → Act (World S) Bool
  unfolding ◌>>=◌ record_in
  batch_record_append family table chain args = do
    batch ← gets (λ w. w.batch)
    record_in family table (append chain args) batch

module _ {S : Type 0} ⦃E : Env S⦄ (flush : Act (World S) Unit) where
  unfoldable pub ensure_chain : Family → String → String → Act (World S) Unit
  unfolding ◌>>=◌ batch_record_chain ipt_silent_owned ipt_owned
  ensure_chain family table chain = do
    recorded ← batch_record_chain family table chain
    if recorded then pure tt else do
      ipt_silent_owned flush family ("-t" ∷ table ∷ "-N" ∷ chain ∷ [])
      ipt_owned flush family ("-t" ∷ table ∷ "-F" ∷ chain ∷ [])

  unfoldable pub cleanup_chain_fast : Family → String → String → Act (World S) Unit
  unfolding ◌>>=◌ ipt_silent_owned
  cleanup_chain_fast family table chain = do
    ipt_silent_owned flush family ("-t" ∷ table ∷ "-F" ∷ chain ∷ [])
    ipt_silent_owned flush family ("-t" ∷ table ∷ "-X" ∷ chain ∷ [])

  unfoldable pub ensure_jump : Family → String → String → String → Act (World S) Unit
  unfolding ◌>>=◌ ipt_check_owned ipt_owned
  ensure_jump family table parent target = do
    present ← ipt_check_owned flush family ("-t" ∷ table ∷ "-C" ∷ parent ∷ "-j" ∷ target ∷ [])
    if present
        then pure tt
        else ipt_owned flush family ("-t" ∷ table ∷ "-I" ∷ parent ∷ "-j" ∷ target ∷ [])

  -- The test in front of `-A`: a rule of a chain that is not ours is looked for first, a rule of
  -- ours is recorded if it can be.
  unfoldable pub present_or_recorded : Family → String → String → List String → Act (World S) Bool
  unfolding ◌>>=◌ ipt_check_owned batch_record_append
  present_or_recorded family table chain args =
      if not (is_box_custom_chain chain)
      then ipt_check_owned flush family ("-t" ∷ table ∷ "-C" ∷ chain ∷ args)
      else batch_record_append family table chain args

  unfoldable pub ensure_rule_append_owned :
      Family → String → String → List String → Act (World S) Unit
  unfolding ◌>>=◌ present_or_recorded ipt_owned
  ensure_rule_append_owned family table chain args = do
    finished ← present_or_recorded family table chain args
    if finished then pure tt else ipt_owned flush family ("-t" ∷ table ∷ "-A" ∷ chain ∷ args)

  -- The error of a failed insertion is only logged.
  unfoldable pub ensure_rule_insert : Family → String → String → List String → Act (World S) Unit
  unfolding ◌>>=◌ ipt_check_owned ipt_owned ignore
  ensure_rule_insert family table chain args = do
    present ← ipt_check_owned flush family ("-t" ∷ table ∷ "-C" ∷ chain ∷ args)
    if present
        then pure tt
        else ignore (ipt_owned flush family ("-t" ∷ table ∷ "-I" ∷ chain ∷ args))

  unfoldable pub del_rule : Family → String → String → List String → Act (World S) Unit
  unfolding ipt_silent_owned
  del_rule family table chain args =
      ipt_silent_owned flush family ("-t" ∷ table ∷ "-D" ∷ chain ∷ args)

  unfoldable pub del_jump : Family → String → String → String → Act (World S) Unit
  unfolding del_rule
  del_jump family table parent target = del_rule family table parent ("-j" ∷ target ∷ [])

  -- The first command that succeeds ends the loop.
  unfoldable pub try_variants :
      Family → String → String → String → List (List String) → Act (World S) Bool
  unfolding ◌>>=◌ ipt_try_owned
  try_variants family table chain op [] = pure false
  try_variants family table chain op (args ∷ rest) = do
    let later = try_variants family table chain op rest
    applied ← ipt_try_owned flush family ("-t" ∷ table ∷ op ∷ chain ∷ args)
    if applied then pure true else later

  unfoldable pub add_core_bypass_rule :
      Family → String → String → String → RuleContext → Act (World S) Bool
  unfolding try_variants
  add_core_bypass_rule family table chain op context =
      try_variants family table chain op (core_bypass_variants context)
