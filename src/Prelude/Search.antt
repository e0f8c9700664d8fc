-- ===== src/Prelude/Search.antt =====
-- Finding a text in another: `strip_prefix`, `split_once`, `trim_matches` and `take_while` of `str`.
use Prim.Native.Char.{Char, code}
use Prim.Native.String.{String}
use mathlib.Core.Bool.{Bool, true, ◌&&◌}
use mathlib.Core.Option.{Option, none, some}
use mathlib.Core.Path.{◌≡◌, refl}
use boxproxy.Prelude.Tests.{eqb, if◌then◌else◌}
use boxproxy.Prelude.Text.{cons_before}

-- `strip_prefix`
unfoldable pub strip_prefix : String → String → Option String
strip_prefix String.[] s = some s
strip_prefix (String.◌∷◌ c p) String.[] = none
strip_prefix (String.◌∷◌ c p) (String.◌∷◌ d s) =
    let rest = strip_prefix p s in if eqb (code c) (code d) then rest else none

-- `trim_end_matches(':')`
unfoldable pub trim_end_colons : String → String
trim_end_colons String.[] = ""
trim_end_colons (String.◌∷◌ c s) = push (trim_end_colons s)
  where
    push : String → String
    push String.[] = if eqb (code c) b':' then "" else String.◌∷◌ c ""
    push (String.◌∷◌ d r) = String.◌∷◌ c (String.◌∷◌ d r)

abbrev or_split :
    Char → String → Option (String × String) → Option String → Option (String × String)
or_split c s later (some rest) = some ("", rest)
or_split c s later none = cons_before c later

-- `str::split_once` at a text that is not empty
unfoldable pub split_once_at : String → String → Option (String × String)
unfolding strip_prefix
split_once_at sep String.[] = none
split_once_at sep (String.◌∷◌ c s) =
    or_split c s (split_once_at sep s) (strip_prefix sep (String.◌∷◌ c s))

-- `chars().all(p)`
abbrev pub all_chars : (Char → Bool) → String → Bool
all_chars p String.[] = true
all_chars p (String.◌∷◌ c s) = p c && all_chars p s

-- `chars().take_while(p)`
unfoldable pub take_while : (Char → Bool) → String → String
take_while p String.[] = ""
take_while p (String.◌∷◌ c s) = let rest = take_while p s in if p c then String.◌∷◌ c rest else ""

drop_quotes : String → String
drop_quotes String.[] = ""
drop_quotes (String.◌∷◌ c s) =
    let rest = drop_quotes s in if eqb (code c) 34 then rest else String.◌∷◌ c s

drop_end_quotes : String → String
drop_end_quotes String.[] = ""
drop_end_quotes (String.◌∷◌ c s) = push (drop_end_quotes s)
  where
    push : String → String
    push String.[] = if eqb (code c) 34 then "" else String.◌∷◌ c ""
    push (String.◌∷◌ d r) = String.◌∷◌ c (String.◌∷◌ d r)

-- `trim_matches('"')`
unfoldable pub trim_quotes : String → String
unfolding drop_quotes drop_end_quotes
trim_quotes s = drop_end_quotes (drop_quotes s)

split_once_at_test : split_once_at ": " "2: wlan0: <UP>" ≡ some ("2", "wlan0: <UP>")
unfolding split_once_at
split_once_at_test = refl

trim_quotes_test : trim_quotes "\"home\"" ≡ "home"
unfolding trim_quotes
trim_quotes_test = refl
