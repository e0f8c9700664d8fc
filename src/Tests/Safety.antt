-- ===== src/Tests/Safety.antt =====
-- The operations of the rule code on the small device, and which programs they start.
use boxproxy.Prelude.{
  String, Bool, true, ◌||◌, none, List, [], ◌∷◌, contains, All, All-append, ◌==◌, ◌≡◌, refl, arith,
}
use boxproxy.Act.{ok}
use boxproxy.Rules.Outside.{Outside}
use boxproxy.Rules.Frame.{Frame, rule_programs}
use boxproxy.Rules.Frame.Own.{Owns, Tools, IsTool, matcher, listed, tool_programs}
use boxproxy.Rules.Safety.{
  RuleOp, applied, cleared, renewed, refreshed, redirect_on, taken_down, perform_all,
  perform_all-Frame, perform_all-dry_run,
}
use boxproxy.Tests.Device.{Device, settings, live, dry, context, start}

abbrev apart : Outside Device
apart = record {
  text_field = λ json key. none;
  to_json = λ fields. ok "{…}";
  to_json_pretty = λ fields. ok "{…}";
  file_times = λ path s. none;
  open_lines = λ path s. ok [];
  is_not_found = λ e. true;
  mode_supported = λ s. (ok tt, s);
}

abbrev is_known : String → Bool
is_known program =
    contains rule_programs program || contains (settings.bpf_matcher_path ∷ tool_programs) program

abbrev OnlyKnown : Device → Type 0
OnlyKnown s = All (λ program. is_known program ≡ true) s

or_left : (a b : Bool) → a ≡ true → (a || b) ≡ true
or_left a b h = ground arith

or_right : (a b : Bool) → b ≡ true → (a || b) ≡ true
or_right a b h = ground arith

tool_is_known : (program : String) → IsTool settings program → is_known program ≡ true
tool_is_known _ matcher = refl
tool_is_known _ (listed program h) =
    or_right (contains rule_programs program) _
      (or_right (settings.bpf_matcher_path == program) _ h)

live-Frame : Frame ⦃E = live true⦄ OnlyKnown
live-Frame = record {
  spawn = λ _ program args stdin ours. record {
    at = λ s h. All-append _ s (program ∷ []) h (or_left _ _ ours.listed, tt);
  };
  cache = λ _ text. record { at = λ s h. h };
  ipv6_conf = λ _ name text. record { at = λ s h. h };
  sleep = λ _ seconds. record { at = λ s h. h };
}

live-Tools : Tools ⦃E = live true⦄ OnlyKnown
live-Tools = record {
  spawn = λ _ program args stdin ours. record {
    at = λ s h. All-append _ s (program ∷ []) h (tool_is_known program ours, tt);
  };
}

live-Owns : Owns ⦃E = live true⦄ OnlyKnown
live-Owns = record {
  writes = λ path text ours. record { at = λ s h. h };
  replaces = λ path text ours. record { at = λ s h. h };
  makes = λ path ours. record { at = λ s h. h };
  removes = λ path ours. record { at = λ s h. h };
}

abbrev NoneRan : Device → Type 0
NoneRan s = s ≡ []

dry-Owns : Owns ⦃E = dry⦄ NoneRan
dry-Owns = record {
  writes = λ path text ours. record { at = λ s h. h };
  replaces = λ path text ours. record { at = λ s h. h };
  makes = λ path ours. record { at = λ s h. h };
  removes = λ path ours. record { at = λ s h. h };
}

abbrev some_ops : List RuleOp
some_ops = applied ∷ cleared ∷ renewed ∷ refreshed ∷ redirect_on context ∷ taken_down "all" ∷ []

perform_all-Frame_example : OnlyKnown (perform_all ⦃E = live true⦄ ⦃O = apart⦄ some_ops start).1.sys
perform_all-Frame_example =
    perform_all-Frame ⦃E = live true⦄ ⦃O = apart⦄ {Q = OnlyKnown} live-Frame live-Tools live-Owns
      some_ops start tt

perform_all-dry_run_example : NoneRan (perform_all ⦃E = dry⦄ ⦃O = apart⦄ some_ops start).1.sys
perform_all-dry_run_example =
    perform_all-dry_run ⦃E = dry⦄ ⦃O = apart⦄ {Q = NoneRan} dry-Owns some_ops start refl refl
