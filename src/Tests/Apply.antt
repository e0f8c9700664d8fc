-- ===== src/Tests/Apply.antt =====
-- A device with files, and runs of the theorems about whole runs of the rule manager.
use boxproxy.Prelude.{
  String, true, false, Option, none, some, List, [], ◌∷◌, ◌==◌, if◌then◌else◌, ◌≡◌, refl, eq_iff,
}
use boxproxy.Act.{ok}
use boxproxy.Act.Reaches.{OkThen}
use boxproxy.Exec.{Host}
use boxproxy.Rules.Manager.{Env, new_manager}
use boxproxy.Rules.Outside.{Outside}
use boxproxy.Rules.Snapshot.{snapshot_fields}
use boxproxy.Rules.Snapshot.Recorded.{text_at, Records, Chosen}
use boxproxy.Rules.Apply.{apply_rules}
use boxproxy.Rules.Apply.Repeated.{apply_rules-Chosen}
use boxproxy.Rules.Vendor.{reject_numbers}
use boxproxy.Rules.Vendor.Deletion.{delete_each, others, delete_each-reject_numbers}
use boxproxy.Tests.Device.{settings}

abbrev Files : Type 0
Files = List (String × String)

abbrev content_of : String → Files → Option String
content_of path [] = none
content_of path ((name, content) ∷ rest) =
    if name == path then some content else content_of path rest

abbrev disk : Host Files
disk = record {
  spawn = λ program args stdin s. (ok (record { success = true; stdout = ""; stderr = "" }), s);
  read_file = content_of;
  read_parts = λ path s. none;
  exists = λ path s. false;
  is_file = λ path s. false;
  write_file = λ path content s. (ok tt, (path, content) ∷ s);
  write_atomic = λ path content s. (ok tt, (path, content) ∷ s);
  create_dir_all = λ path s. (ok tt, s);
  remove_file = λ path s. (ok tt, s);
  read_dir = λ path s. none;
  sleep = λ seconds s. (ok tt, s);
}

abbrev with_disk : Env Files
with_disk = record {
  config = settings;
  runner = record { dry_run = false; verbose = false };
  host = disk;
  ipv6_text = record { parse_ipv6 = λ text. none; show_ipv6 = λ n. "::" };
}

-- It knows the text of one object.
abbrev around : Outside Files
around = record {
  text_field = λ json key. text_at (snapshot_fields settings) key;
  to_json = λ fields. ok "{…}";
  to_json_pretty = λ fields. ok "{…}";
  file_times = λ path s. none;
  open_lines = λ path s. ok [];
  is_not_found = λ e. true;
  mode_supported = λ s. (ok tt, s);
}

around-Records : Records with_disk around
around-Records = record {
  stored = λ path content s done h. rw ((eq_iff path path).1 refl) refl;
  parsed = λ json h key. refl;
}

apply_rules-Chosen_example :
    OkThen
      (Chosen ⦃E = with_disk⦄ ⦃O = around⦄)
      (apply_rules ⦃E = with_disk⦄ ⦃O = around⦄ (new_manager []))
apply_rules-Chosen_example =
    apply_rules-Chosen ⦃E = with_disk⦄ ⦃O = around⦄ around-Records (new_manager [])

abbrev listing : String
listing =
    "num   pkts bytes target\n1 0 0 ACCEPT all\n2 0 0 REJECT all\n3 0 0 REJECT udp\n4 0 0 DROP all\n"

abbrev chain : List String
chain = "a" ∷ "b" ∷ "c" ∷ "d" ∷ []

listing_test :
    (reject_numbers listing ≡ (3 ∷ 2 ∷ []))
    × (delete_each (reject_numbers listing) chain ≡ ("a" ∷ "d" ∷ []))
unfolding reject_numbers
listing_test = (refl, refl)

delete_each-reject_numbers_example :
    delete_each (reject_numbers listing) chain ≡ others (reject_numbers listing) 1 chain
delete_each-reject_numbers_example = delete_each-reject_numbers listing chain
