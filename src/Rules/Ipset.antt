-- ===== src/Rules/Ipset.antt =====
-- boxctl/src/rules/cnip.rs: the kernel's sets of domestic addresses, which are imported from files.
use Prim.Native.Char.{code}
use boxproxy.Prelude.{
  String, ℕ, ◌+◌, Bool, true, false, not, ◌&&◌, Option, none, some, List, [], ◌∷◌, ◌==◌, ◌<>◌,
  if◌then◌else◌, any, eqb, ltb,
}
use boxproxy.Prelude.Text.{trim, is_blank, lines, split}
use boxproxy.Prelude.Search.{strip_prefix}
use boxproxy.Prelude.Number.{parse, show, u64_max}
use boxproxy.Prelude.Sort.{sort, dedup, string_le}
use boxproxy.Act.{
  Result, ok, err, Act, pure, fail, lift, gets, attempt, ignore, on_option, when, ◌>>=◌, ◌>>◌,
}
use boxproxy.Config.{Config}
use boxproxy.Exec.{Output}
use boxproxy.Rules.Names.{Capabilities}
use boxproxy.Rules.Util.{Ipv6Text, normalize_ipv4_cidr, normalize_ipv6_cidr, parse_ipv4, show_ipv4}
use boxproxy.Rules.Manager.{Env, World, on_host, run, run_with_stdin_output}
use boxproxy.Rules.Command.{command_failure_message}
use boxproxy.Rules.Cnip.{cnip_uses_ipset}
use boxproxy.Rules.Outside.{Outside}

abbrev single : (ℕ → String) → String → Option ℕ → Option String
single print suffix none = none
single print suffix (some address) = some (print address <> suffix)

abbrev or_else : Option String → Option String → Option String
or_else (some a) b = some a
or_else none b = b

unfoldable pub normalize_cnip_entry : Ipv6Text → String → String → Option String
unfolding normalize_ipv4_cidr normalize_ipv6_cidr parse_ipv4 show_ipv4
normalize_cnip_entry t value family =
    if family == "inet"
    then or_else (normalize_ipv4_cidr value) (single show_ipv4 "/32" (parse_ipv4 value))
    else if family == "inet6"
    then or_else (normalize_ipv6_cidr t value) (single t.show_ipv6 "/128" (t.parse_ipv6 value))
    else none

abbrev first_or_blank : List String → String
first_or_blank [] = ""
first_or_blank (x ∷ _) = x

-- A line without its comment.
unfoldable pub entry_text : String → String
unfolding split trim
entry_text line = trim (first_or_blank (split (λ c. eqb (code c) b'#') line))

abbrev add_entry : String → Result (List String) → Result (List String)
add_entry entry (ok entries) = ok (entry ∷ entries)
add_entry entry (err e) = err e

-- The loop over the lines, up to the first error; `number` is that of the line.
unfoldable pub collect_entries :
    Ipv6Text → String → String → ℕ → List (Result String) → Result (List String)
unfolding entry_text normalize_cnip_entry show
collect_entries t source family number [] = ok []
collect_entries t source family number (err e ∷ rest) = err ("read CNIP line failed: " <> e)
collect_entries t source family number (ok line ∷ rest) =
    let value = entry_text line in
    let later = collect_entries t source family (number + 1) rest in
    if is_blank value then later else elim (normalize_cnip_entry t value family) [
      | none ↦ err (
          "invalid "
          <> (family
              <> (" CNIP entry at " <> (source <> (":" <> (show number <> (": " <> value)))))))
      | some entry ↦ add_entry entry later
    ]

abbrev sorted_entries : Result (List String) → Result (List String)
unfolding sort dedup
sorted_entries (ok entries) = ok (dedup ◌==◌ (sort string_le entries))
sorted_entries (err e) = err e

unfoldable pub read_cnip_entries :
    Ipv6Text → String → String → Result (List (Result String)) → Result (List String)
unfolding collect_entries sort dedup
read_cnip_entries t source family (err e) =
    err ("open CNIP file " <> (source <> (" failed: " <> e)))
read_cnip_entries t source family (ok found) =
    sorted_entries (collect_entries t source family 1 found)

abbrev pub create_line : String → String → String
create_line name family =
    "create "
    <> (name <> (" hash:net family " <> (family <> " hashsize 8192 maxelem 65536 -exist\n")))

unfoldable pub add_lines : String → List String → String → String
add_lines temporary [] rest = rest
add_lines temporary (entry ∷ entries) rest =
    "add " <> (temporary <> (" " <> (entry <> ("\n" <> add_lines temporary entries rest))))

-- The set is filled under another name and takes its own at the end.
unfoldable pub ipset_restore_input : String → String → String → List String → String
unfolding add_lines
ipset_restore_input name temporary family entries =
    create_line name family
    <> (create_line temporary family
        <> ("flush "
            <> (temporary
                <> ("\n"
                    <> add_lines temporary entries (
                        "swap "
                        <> (temporary
                            <> (" " <> (name <> ("\ndestroy " <> (temporary <> "\n"))))))))))

abbrev positive : Option ℕ → Bool
positive none = false
positive (some n) = ltb 0 n

abbrev counted : Option String → Bool
unfolding trim parse
counted none = false
counted (some value) = positive (parse u64_max (trim value))

unfoldable pub says_entries : Result Output → Bool
unfolding lines trim strip_prefix parse
says_entries (ok output) =
    if output.success
    then any (λ line. counted (strip_prefix "Number of entries:" (trim line))) (lines output.stdout)
    else false
says_entries (err _) = false

abbrev stamp_of : Option (ℕ × ℕ) → Option String
unfolding show
stamp_of none = none
stamp_of (some (len, modified)) = some (show len <> (":" <> show modified))

abbrev is_stale : Option String → Option String → Bool
unfolding trim
is_stale old none = true
is_stale none (some current) = not ("" == current)
is_stale (some old) (some current) = not (trim old == current)

abbrev pub ipset_stamp_dir : Config → String
ipset_stamp_dir config = config.state_dir <> "/ipset.stamp"

abbrev pub ipset_stamp_path : Config → String → String
ipset_stamp_path config name = ipset_stamp_dir config <> ("/" <> (name <> ".stamp"))

module _ {S : Type 0} ⦃E : Env S⦄ where
  unfoldable pub ipset_has_entries : String → Act (World S) Bool
  unfolding ◌>>=◌ says_entries
  ipset_has_entries name =
      attempt (run "ipset" ("list" ∷ "-terse" ∷ name ∷ [])) >>= λ output. pure (says_entries output)

module _ {S : Type 0} ⦃E : Env S⦄ ⦃O : Outside S⦄ where
  unfoldable pub ipset_source_stamp : String → S → Option String
  unfolding show
  ipset_source_stamp source s = stamp_of (O.file_times source s)

  unfoldable pub ipset_should_reload : String → String → Act (World S) Bool
  unfolding ◌>>=◌ ipset_has_entries ipset_source_stamp trim
  ipset_should_reload name source = ipset_has_entries name >>= λ filled.
      if not filled
      then pure true
      else gets (λ w.
        is_stale (E.host.read_file (ipset_stamp_path E.config name) w.sys)
          (ipset_source_stamp source w.sys))

  -- Both errors are dropped.
  unfoldable pub write_ipset_stamp : String → String → Act (World S) Unit
  unfolding ◌>>=◌ on_option ignore ipset_source_stamp
  write_ipset_stamp name source = gets (λ w. ipset_source_stamp source w.sys) >>= λ found.
      on_option found (pure tt) (λ stamp.
        ignore (on_host (E.host.create_dir_all (ipset_stamp_dir E.config)))
        >> ignore (on_host (E.host.write_file (ipset_stamp_path E.config name) (stamp <> "\n"))))

  unfoldable pub import_ipset : String → String → List String → Act (World S) Unit
  unfolding ◌>>=◌ ipset_restore_input write_ipset_stamp command_failure_message
  import_ipset name family entries =
      run_with_stdin_output "ipset" ("restore" ∷ "-exist" ∷ [])
        (ipset_restore_input name (name <> "_next") family entries)
      >>= λ output.
          if output.success
          then pure tt
          else fail (command_failure_message "ipset" ("restore" ∷ "-exist" ∷ []) output)

  unfoldable pub restore_ipset : String → String → String → Act (World S) Unit
  unfolding ◌>>=◌ ipset_should_reload read_cnip_entries import_ipset write_ipset_stamp
  restore_ipset name family source = gets (λ w. E.host.exists source w.sys) >>= λ present.
      if not present
      then pure tt
      else (ipset_should_reload name source >>= λ due.
          if not due
          then pure tt
          else (gets (λ w. read_cnip_entries E.ipv6_text source family (O.open_lines source w.sys))
              >>= λ entries. lift entries >>= λ found.
                  import_ipset name family found >> write_ipset_stamp name source))

  unfoldable pub setup_cn_ipset_if_needed : Capabilities → Act (World S) Unit
  unfolding ◌>>=◌ restore_ipset
  setup_cn_ipset_if_needed capabilities =
      if E.config.bypass_cn_ip && cnip_uses_ipset E.config && capabilities.ipset
      then (when E.config.bypass_cn_ip_v4 (restore_ipset "cnip" "inet" E.config.cn_ip_file)
          >> when (E.config.ipv6 && E.config.bypass_cn_ip_v6)
              (restore_ipset "cnip6" "inet6" E.config.cn_ipv6_file))
      else pure tt
