-- ===== src/Monitor/Lock/RoundTrip.antt =====
-- The lock file of boxctl/src/monitor/lock.rs is read as it was written.
use Prim.Native.Char.{Char, code}
use boxproxy.Prelude.{
  String, ℕ, Bool, true, not, ◌&&◌, none, some, List, [], ◌∷◌, ◌<>◌, ◌≡◌, refl, ◌∙◌, sym, ap, ◌≤◌,
  eqb, arith,
}
use text.Mathlib.TextLemmas.{append_assoc, cons-append, nil-append}
use boxproxy.Prelude.Text.{lines, split_once}
use boxproxy.Prelude.Text.Lines.{
  within_line, lines-line, all_chars-append, all_chars-all_chars, split_once-join,
}
use boxproxy.Prelude.Search.{all_chars}
use boxproxy.Prelude.Number.{show, u32_max, u64_max}
use boxproxy.Prelude.Number.RoundTrip.{parse-show, show-all_digits, is_digit}
use boxproxy.Monitor.Parse.{is_ascii_hexdigit}
use boxproxy.Monitor.Lock.{
  MonitorIdentity, monitor_identity_text, parse_monitor_identity, valid_monitor_token, read_fields,
  no_fields, identity_of, read_field,
}

digit-within : (c : Char) → is_digit c ≡ true → within_line c ≡ true
digit-within c h = ground arith

hexdigit-within : (c : Char) → is_ascii_hexdigit c ≡ true → within_line c ≡ true
hexdigit-within c h = ground arith

-- A line `key=value`, at the front of a text.
field_line :
    (key value rest : String)
    → all_chars within_line (key <> "=") ≡ true
    → all_chars within_line value ≡ true
    → lines ((key <> "=") <> (value <> ("\n" <> rest))) ≡ ((key <> "=") <> value) ∷ lines rest
field_line key value rest hk hv =
    ap lines (sym (append_assoc (key <> "=") value ("\n" <> rest)))
    ∙ lines-line ((key <> "=") <> value) rest
        (all_chars-append within_line (key <> "=") value hk hv)

show-within : (n : ℕ) → all_chars within_line (show n) ≡ true
show-within n = all_chars-all_chars is_digit within_line (show n) digit-within (show-all_digits n)

both_right : (a b : Bool) → (a && b) ≡ true → b ≡ true
both_right a b h = ground arith

token-within :
    (token : String) → valid_monitor_token token ≡ true → all_chars within_line token ≡ true
unfolding valid_monitor_token
token-within token h =
    all_chars-all_chars is_ascii_hexdigit within_line token hexdigit-within (both_right _ _ h)

field_parts :
    (key value : String)
    → all_chars (λ c. not (eqb (code c) b'=')) key ≡ true
    → split_once "=" ((key <> "=") <> value) ≡ some (key, value)
field_parts key value h =
    ap (split_once "=") (
      append_assoc key "=" value
      ∙ ap (λ t. key <> t)
          (cons-append "=" "" value ∙ ap (λ t. String.◌∷◌ "=" t) (nil-append value)))
    ∙ split_once-join "=" key value h

identity_lines :
    (i : MonitorIdentity)
    → valid_monitor_token i.token ≡ true
    → lines (monitor_identity_text i)
      ≡ ("pid=" <> show i.pid) ∷ ("start_time=" <> show i.start_time) ∷ ("token=" <> i.token) ∷ []
unfolding monitor_identity_text lines
identity_lines i h =
    field_line "pid" (show i.pid) _ refl (show-within i.pid)
    ∙ ap (λ l. ("pid=" <> show i.pid) ∷ l)
        (field_line "start_time" (show i.start_time) ("token=" <> (i.token <> "\n")) refl
            (show-within i.start_time)
          ∙ ap (λ l. ("start_time=" <> show i.start_time) ∷ l)
              (field_line "token" i.token "" refl (token-within i.token h)))

read_pid :
    (n : ℕ) (rest : List String)
    → n ≤ u32_max
    → read_fields (("pid=" <> show n) ∷ rest) (some no_fields)
      ≡ read_fields rest (some (record no_fields { pid = some n }))
unfolding read_fields read_field
read_pid n rest h =
    ap (λ parts. read_fields rest (read_field no_fields parts)) (field_parts "pid" (show n) refl)
    ∙ ap (λ k. read_fields rest (some (record no_fields { pid = k }))) (parse-show u32_max n h)

read_start_time :
    (p n : ℕ) (rest : List String)
    → n ≤ u64_max
    → read_fields (("start_time=" <> show n) ∷ rest) (some (record no_fields { pid = some p }))
      ≡ read_fields rest (some (record { pid = some p; start_time = some n; token = none }))
unfolding read_fields read_field
read_start_time p n rest h =
    ap (λ parts. read_fields rest (read_field (record no_fields { pid = some p }) parts))
      (field_parts "start_time" (show n) refl)
    ∙ ap (λ k. read_fields rest (some (record { pid = some p; start_time = k; token = none })))
        (parse-show u64_max n h)

read_token :
    (p n : ℕ) (token : String)
    → valid_monitor_token token ≡ true
    → read_fields
        (("token=" <> token) ∷ [])
        (some (record { pid = some p; start_time = some n; token = none }))
      ≡ some (record { pid = some p; start_time = some n; token = some token })
unfolding read_fields read_field
read_token p n token h =
    ap
      (λ parts.
        read_fields []
          (read_field (record { pid = some p; start_time = some n; token = none }) parts))
      (field_parts "token" token refl)
    ∙ rw h refl

-- The file that the monitor writes for a process id of 32 bits, a start time of 64 bits and a
-- valid token is read back as the same identity.
pub parse_monitor_identity-monitor_identity_text :
    (i : MonitorIdentity)
    → i.pid ≤ u32_max
    → i.start_time ≤ u64_max
    → valid_monitor_token i.token ≡ true
    → parse_monitor_identity (monitor_identity_text i) ≡ some i
unfolding parse_monitor_identity
parse_monitor_identity-monitor_identity_text i hp hs ht =
    ap (λ l. identity_of (read_fields l (some no_fields))) (identity_lines i ht)
    ∙ ap identity_of (
        read_pid i.pid (("start_time=" <> show i.start_time) ∷ ("token=" <> i.token) ∷ []) hp
        ∙ (read_start_time i.pid i.start_time (("token=" <> i.token) ∷ []) hs
            ∙ read_token i.pid i.start_time i.token ht))
