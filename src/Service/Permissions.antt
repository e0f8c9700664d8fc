-- ===== src/Service/Permissions.antt =====
-- boxctl/src/service/permissions.rs: the owner and mode of the core's program, and the user that runs
-- it. Log lines are left out.
use boxproxy.Prelude.{
  String, ℕ, Bool, false, ◌&&◌, ◌||◌, Option, none, some, List, [], ◌∷◌, ◌==◌, ◌<>◌, if◌then◌else◌,
}
use boxproxy.Prelude.Text.{trim, split_once}
use boxproxy.Prelude.Number.{parse, u32_max}
use boxproxy.Act.{Result, ok, err, Act, pure, fail, gets, attempt, ◌>>=◌, ◌>>◌, on_option}
use boxproxy.Config.{Config}
use boxproxy.Exec
use boxproxy.Rules.Manager.{Env}
use boxproxy.Service.{CoreFiles, System}
use boxproxy.Service.Stamp.{file_stamp}

unfoldable pub resolve_user_or_group : String → Option ℕ
unfolding trim parse
resolve_user_or_group value =
    let name = trim value in
    if name == "0" || name == "root"
    then some 0
    else if name == "system"
    then some 1000
    else if name == "vpn"
    then some 1016
    else if name == "shell"
    then some 2000
    else if name == "inet"
    then some 3003
    else if name == "net_raw"
    then some 3004
    else if name == "net_admin"
    then some 3005
    else parse u32_max name

-- `splitn(2, ':')`: the group is the user when no colon is there
abbrev user_and_group : String → Option (String × String) → String × String
user_and_group value none = (value, value)
user_and_group value (some parts) = parts

abbrev both_known : String → String → Option ℕ → Option ℕ → Result (ℕ × ℕ)
both_known user group none _ = err ("unknown run user: " <> user)
both_known user group (some uid) none = err ("unknown run group: " <> group)
both_known user group (some uid) (some gid) = ok (uid, gid)

unfoldable pub parse_user_group : String → Result (ℕ × ℕ)
unfolding resolve_user_or_group split_once
parse_user_group value =
    let (user, group) = user_and_group value (split_once ":" value) in
    both_known user group (resolve_user_or_group user) (resolve_user_or_group group)

abbrev pub is_text : Option String → String → Bool
is_text none t = false
is_text (some s) t = s == t

module _ {S : Type 0} ⦃E : Env S⦄ ⦃Y : System S⦄ (files : CoreFiles) where
  unfoldable pub permission_stamp : S → Option String
  unfolding file_stamp
  permission_stamp s = with_owner (file_stamp files.bin_path s)
    where
      with_owner : Option String → Option String
      with_owner none = none
      with_owner (some stamp) = some (E.config.box_user_group <> ("\n" <> (stamp <> "\n")))

abbrev pub stamp_path : Config → String → String
stamp_path config suffix = config.state_dir <> ("/" <> (config.bin_name <> suffix))

module _ {S : Type 0} ⦃E : Env S⦄ where
  unfoldable pub stamp_is_saved : String → Option String → S → Bool
  stamp_is_saved path none s = false
  stamp_is_saved path (some stamp) s = is_text (E.host.read_file path s) stamp

  unfoldable pub written : String → Result {0} Unit → Act S Unit
  written message (ok _) = pure tt
  written message (err e) = fail (message <> e)

  unfoldable pub save_stamp : String → String → Option String → Act S Unit
  unfolding ◌>>=◌ on_option written
  save_stamp path message stamp =
      on_option stamp (pure tt) (λ text. attempt (E.host.write_file path text) >>= written message)

module _ {S : Type 0} ⦃E : Env S⦄ ⦃Y : System S⦄ (files : CoreFiles) where
  unfoldable pub permission_stamp_matches : S → Bool
  unfolding permission_stamp stamp_is_saved
  permission_stamp_matches s =
      stamp_is_saved (stamp_path E.config ".permission.stamp") (permission_stamp files s) s

  unfoldable pub save_permission_stamp : Act S Unit
  unfolding ◌>>=◌ permission_stamp save_stamp
  save_permission_stamp =
      gets (permission_stamp files)
      >>= save_stamp (stamp_path E.config ".permission.stamp") "write permission stamp failed: "

  unfoldable pub prepare_permissions : Act S Unit
  unfolding ◌>>=◌ permission_stamp_matches save_permission_stamp Exec.run_ok Exec.run_ignore
  prepare_permissions =
      let chown : List String = E.config.box_user_group ∷ files.bin_path ∷ [] in
      let chmod : List String = "6755" ∷ files.bin_path ∷ [] in
      gets permission_stamp_matches >>= λ fresh.
      if fresh
      then pure tt
      else if E.runner.dry_run
      then Exec.run_ignore E.host E.runner "chown" chown
        >> Exec.run_ignore E.host E.runner "chmod" chmod
      else (Exec.run_ok E.host E.runner "chown" chown >>= λ chown_ok.
          Exec.run_ok E.host E.runner "chmod" chmod >>= λ chmod_ok.
          if chown_ok && chmod_ok then save_permission_stamp else pure tt)
