-- ===== src/Rules/Context.antt =====
-- Whom the rules are for: `prepare_context` and `probe_user_group` of
-- boxctl/src/rules/context.rs, and the search of the core's process in boxctl/src/rules/util.rs.
use Prim.Native.Char.{code}
use boxproxy.Prelude.{
  String, Bool, true, false, not, ◌&&◌, ◌||◌, Option, none, some, List, [], ◌∷◌, ◌==◌, ◌<>◌,
  if◌then◌else◌, leb, eqb,
}
use boxproxy.Prelude.Text.{trim, is_blank, lines, split, split_whitespace}
use boxproxy.Act.{Act, gets, ◌>>=◌}
use boxproxy.Rules.Names.{RuleContext}
use boxproxy.Prelude.Search.{strip_prefix}
use boxproxy.Rules.Util.{split_user_group, normalized_list}
use boxproxy.Rules.Manager.{Env, World}

-- `pid.chars().all(|ch| ch.is_ascii_digit())`
all_digits : String → Bool
all_digits String.[] = true
all_digits (String.◌∷◌ c s) = leb 48 (code c) && leb (code c) 57 && all_digits s

first_present : List String → Option String
first_present [] = none
first_present (x ∷ xs) = let rest = first_present xs in if is_blank x then rest else some x

-- `Path::file_name`: the last part between slashes that is not empty
last_present : String → List String → String
last_present d [] = d
last_present d (x ∷ xs) = last_present (if is_blank x then d else x) xs

-- the first argument of a command line, as `file_name` of its path
unfoldable pub command_name : String → Option String
unfolding first_present last_present split
command_name cmdline = elim (first_present (split (λ c. eqb (code c) 0) cmdline)) [
  | none ↦ none
  | some path ↦ some (last_present "" (split (λ c. eqb (code c) b'/') path))
]

abbrev name_is : String → Option String → Bool
name_is name none = false
name_is name (some found) = found == name

abbrev trimmed : Option String → Option String
trimmed none = none
trimmed (some text) = some (trim text)

abbrev command_of : Option String → Option String
command_of none = none
command_of (some text) = command_name text

abbrev is_listed : Option (List String) → Bool
is_listed none = false
is_listed (some _) = true

abbrev first_word : List String → Option String
first_word [] = none
first_word (x ∷ _) = some x

value_in : String → List String → Option String
value_in key [] = none
value_in key (line ∷ rest) = pick (strip_prefix key line) (value_in key rest)
  where
    pick : Option String → Option String → Option String
    pick none later = later
    pick (some text) later = elim (first_word (split_whitespace text)) [
      | none ↦ later
      | some w ↦ some w
    ]

-- `proc_status_first_value`
unfoldable pub proc_status_first_value : String → String → Option String
unfolding value_in lines strip_prefix split_whitespace
proc_status_first_value status key = value_in key (lines status)

module _ {S : Type 0} ⦃E : Env S⦄ (s : S) where
  -- `proc_pid_matches_name`. A directory is one whose names can be listed.
  unfoldable pub proc_pid_matches_name : String → String → Bool
  unfolding all_digits command_name trim
  proc_pid_matches_name name pid =
      let dir = "/proc/" <> pid in
      not (is_blank pid)
      && all_digits pid
      && is_listed (E.host.read_dir dir s)
      && (name_is name (trimmed (E.host.read_file (dir <> "/comm") s))
          || name_is name (command_of (E.host.read_file (dir <> "/cmdline") s)))

  first_match : (String → Bool) → List String → Option String
  first_match p [] = none
  first_match p (x ∷ xs) = let rest = first_match p xs in if p x then some x else rest

  entries : Option (List String) → List String
  entries none = []
  entries (some l) = l

  -- `find_proc_pid_by_name`
  unfoldable pub find_proc_pid_by_name : String → Option String
  unfolding proc_pid_matches_name first_match entries
  find_proc_pid_by_name name =
      first_match (proc_pid_matches_name name) (entries (E.host.read_dir "/proc" s))

  -- the pid in the pid file, if it is the core's
  recorded_pid : Option String → Option String
  unfolding proc_pid_matches_name
  recorded_pid none = none
  recorded_pid (some text) =
      if proc_pid_matches_name E.config.bin_name (trim text) then some (trim text) else none

  both : Option String → Option String → Option (String × String)
  both (some a) (some b) = some (a, b)
  both _ _ = none

  ids_of_status : Option String → Option (String × String)
  unfolding both proc_status_first_value
  ids_of_status none = none
  ids_of_status (some status) =
      both (proc_status_first_value status "Uid:") (proc_status_first_value status "Gid:")

  ids_of_pid : Option String → Option (String × String)
  unfolding ids_of_status
  ids_of_pid none = none
  ids_of_pid (some pid) = ids_of_status (E.host.read_file ("/proc/" <> (pid <> "/status")) s)

  or_search : Option String → Option String
  unfolding find_proc_pid_by_name
  or_search (some pid) = some pid
  or_search none = find_proc_pid_by_name E.config.bin_name

  unfoldable pub probe_user_group : Option (String × String)
  unfolding ids_of_pid or_search recorded_pid
  probe_user_group =
      if E.runner.dry_run
      then none
      else ids_of_pid (or_search (recorded_pid (E.host.read_file E.config.box_pid s)))

abbrev ids_or : Option (String × String) → String × String → String × String
ids_or (some ids) d = ids
ids_or none d = d

module _ {S : Type 0} ⦃E : Env S⦄ where
  context_at : S → RuleContext
  unfolding probe_user_group split_user_group normalized_list
  context_at s =
      let ids = ids_or (probe_user_group s) (split_user_group E.config.box_user_group) in
      record {
        box_uid = ids.0;
        box_gid = ids.1;
        selected_uids = normalized_list E.config.selected_uids;
        selected_gids = normalized_list E.config.gid_list;
        cnip_force_uids = normalized_list E.config.cnip_force_uids;
      }

  unfoldable pub prepare_context : Act (World S) RuleContext
  unfolding ◌>>=◌ context_at
  prepare_context = gets (λ w. context_at w.sys)
