-- ===== src/Rules/Vendor.antt =====
-- boxctl/src/rules/vendor_firewall.rs: the reject rules of two vendors' firewalls are deleted. Log
-- lines are left out.
pub mod Deletion
use boxproxy.Prelude.{
  String, ℕ, ◌+◌, Bool, Option, none, some, List, [], ◌∷◌, if◌then◌else◌, leb, eqb,
}
use boxproxy.Prelude.Text.{lines, split_whitespace, includes}
use boxproxy.Prelude.Number.{parse, show, u32_max}
use boxproxy.Prelude.Sort.{sort, dedup}
use boxproxy.Act.{Result, ok, err, Act, pure, attempt, ◌>>=◌}
use boxproxy.Exec.{Output}
use boxproxy.Rules.Names.{Family, v4, v6, iptables_cmd}
use boxproxy.Rules.Manager.{Env, World, run}
use boxproxy.Rules.Ops.{ipt_try_owned, ipt_check_owned}

pub record VendorFirewallStats : Type 0 where
  pub removed : ℕ
  pub failed : ℕ

-- `VendorFirewallStats::default`, and `+=`
abbrev pub no_stats : VendorFirewallStats
no_stats = record { removed = 0; failed = 0 }

abbrev add_assign : VendorFirewallStats → VendorFirewallStats → VendorFirewallStats
add_assign a b = record { removed = a.removed + b.removed; failed = a.failed + b.failed }

abbrev count : Bool → VendorFirewallStats → VendorFirewallStats
count done stats =
    if done
    then record stats { removed = stats.removed + 1 }
    else record stats { failed = stats.failed + 1 }

abbrev pub coloros_chains : List String
coloros_chains = "fw_INPUT" ∷ "fw_OUTPUT" ∷ "fw_OUTPUT_oplus_dns" ∷ []

abbrev pub zte_chain : String
zte_chain = "zte_fw_gms"

abbrev first_number : List String → Option ℕ
unfolding parse
first_number [] = none
first_number (word ∷ _) = parse u32_max word

abbrev rule_number : String → Option ℕ
unfolding includes split_whitespace parse
rule_number line = if includes "REJECT" line then first_number (split_whitespace line) else none

unfoldable pub rule_numbers : List String → List ℕ
unfolding includes split_whitespace parse
rule_numbers [] = []
rule_numbers (line ∷ rest) =
    let later = rule_numbers rest in elim (rule_number line) [ none ↦ later | some n ↦ n ∷ later ]

-- The numbers of the reject rules in a listing, the highest first, each once.
unfoldable pub reject_numbers : String → List ℕ
unfolding lines rule_numbers sort dedup
reject_numbers text = dedup eqb (sort (λ a b. leb b a) (rule_numbers (lines text)))

abbrev numbers_of : Result Output → List ℕ
unfolding reject_numbers
numbers_of (ok output) = if output.success then reject_numbers output.stdout else []
numbers_of (err _) = []

module _ {S : Type 0} ⦃E : Env S⦄ where
  unfoldable pub filter_chain_exists : Family → String → Act (World S) Bool
  filter_chain_exists family chain = ipt_check_owned family ("-t" ∷ "filter" ∷ "-nvL" ∷ chain ∷ [])

  unfoldable pub reject_rule_lines : Family → String → Act (World S) (List ℕ)
  unfolding ◌>>=◌ filter_chain_exists reject_numbers
  reject_rule_lines family chain = filter_chain_exists family chain >>= λ present.
      if present
      then (attempt
            (run (iptables_cmd family) ("-t" ∷ "filter" ∷ "-nvL" ∷ chain ∷ "--line-numbers" ∷ []))
          >>= λ output. pure (numbers_of output))
      else pure []

  -- The loop over the numbers.
  unfoldable pub delete_rules :
      Family → String → List ℕ → VendorFirewallStats → Act (World S) VendorFirewallStats
  unfolding ◌>>=◌ show
  delete_rules family chain [] stats = pure stats
  delete_rules family chain (number ∷ numbers) stats =
      ipt_try_owned family ("-t" ∷ "filter" ∷ "-D" ∷ chain ∷ show number ∷ []) >>= λ done.
      delete_rules family chain numbers (count done stats)

  unfoldable pub remove_reject_rules : Family → String → Act (World S) VendorFirewallStats
  unfolding ◌>>=◌ reject_rule_lines delete_rules
  remove_reject_rules family chain =
      reject_rule_lines family chain >>= λ numbers. delete_rules family chain numbers no_stats

  unfoldable pub clean_chains :
      List String → VendorFirewallStats → Act (World S) VendorFirewallStats
  unfolding ◌>>=◌ remove_reject_rules
  clean_chains [] stats = pure stats
  clean_chains (chain ∷ chains) stats = remove_reject_rules v4 chain >>= λ first.
      remove_reject_rules v6 chain >>= λ second.
      clean_chains chains (add_assign (add_assign stats first) second)

  unfoldable pub cleanup_coloros_firewall : Act (World S) VendorFirewallStats
  unfolding ◌>>=◌ filter_chain_exists clean_chains
  cleanup_coloros_firewall = filter_chain_exists v4 "fw_INPUT" >>= λ present.
      if present then clean_chains coloros_chains no_stats else pure no_stats

  unfoldable pub flush_zte : Family → VendorFirewallStats → Act (World S) VendorFirewallStats
  unfolding ◌>>=◌ filter_chain_exists
  flush_zte family stats = filter_chain_exists family zte_chain >>= λ present.
      if present
      then (ipt_try_owned family ("-t" ∷ "filter" ∷ "-F" ∷ zte_chain ∷ []) >>= λ done.
          pure (count done stats))
      else pure stats

  unfoldable pub cleanup_zte_firewall : Act (World S) VendorFirewallStats
  unfolding ◌>>=◌ filter_chain_exists flush_zte
  cleanup_zte_firewall = filter_chain_exists v4 zte_chain >>= λ present.
      if present then (flush_zte v4 no_stats >>= λ stats. flush_zte v6 stats) else pure no_stats

  unfoldable pub cleanup_vendor_firewall_if_needed : Act (World S) Unit
  unfolding ◌>>=◌ cleanup_coloros_firewall cleanup_zte_firewall
  cleanup_vendor_firewall_if_needed =
      if E.config.clean_vendor_firewall
      then (cleanup_coloros_firewall >>= λ _. cleanup_zte_firewall >>= λ _. pure tt)
      else pure tt
