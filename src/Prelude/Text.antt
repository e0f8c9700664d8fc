-- ===== src/Prelude/Text.antt =====
-- The parts of Rust's `str` that the program uses, over the native texts.
pub mod Lines
pub mod Trim
use Prim.Native.Char.{Char, code}
use Prim.Native.String.{String, ◌++◌ as ◌<>◌}
use mathlib.Core.Bool.{Bool, true, false, ◌&&◌, ◌||◌}
use mathlib.Core.Option.{Option, none, some}
use mathlib.Core.List.{List, [], ◌∷◌}
use mathlib.Core.Path.{◌≡◌, refl}
use boxproxy.Prelude.Tests.{leb, eqb, if◌then◌else◌}

-- `str::is_empty`
abbrev pub is_blank : String → Bool
is_blank String.[] = true
is_blank (String.◌∷◌ _ _) = false

-- `{b}`
abbrev pub show_bool : Bool → String
show_bool true = "true"
show_bool false = "false"

-- `char::is_whitespace`: the characters with the White_Space property.
unfoldable pub is_whitespace : Char → Bool
is_whitespace c =
    let n = code c in
    eqb n 32
    || (leb 9 n && leb n 13)
    || eqb n 133
    || eqb n 160
    || eqb n 5760
    || (leb 8192 n && leb n 8202)
    || eqb n 8232
    || eqb n 8233
    || eqb n 8239
    || eqb n 8287
    || eqb n 12288

unfoldable pub trim_start : String → String
unfolding is_whitespace
trim_start String.[] = String.[]
trim_start (String.◌∷◌ c s) =
    let rest = trim_start s in if is_whitespace c then rest else String.◌∷◌ c s

-- Drops a character from the end when nothing is left behind it.
abbrev push_back : Char → String → String
push_back c String.[] = if is_whitespace c then String.[] else String.◌∷◌ c String.[]
push_back c (String.◌∷◌ d s) = String.◌∷◌ c (String.◌∷◌ d s)

unfoldable pub trim_end : String → String
unfolding is_whitespace
trim_end String.[] = String.[]
trim_end (String.◌∷◌ c s) = push_back c (trim_end s)

-- `str::trim`
unfoldable pub trim : String → String
unfolding trim_start trim_end
trim s = trim_end (trim_start s)

-- `[String]::join`
unfoldable pub join : String → List String → String
join sep [] = ""
join sep (x ∷ []) = x
join sep (x ∷ y ∷ r) = x <> (sep <> join sep (y ∷ r))

-- `str::starts_with`, `str::ends_with` and `str::contains`
abbrev pub starts : String → String → Bool
starts String.[] s = true
starts (String.◌∷◌ c p) String.[] = false
starts (String.◌∷◌ c p) (String.◌∷◌ d s) = eqb (code c) (code d) && starts p s

unfoldable pub ends : String → String → Bool
ends p String.[] = is_blank p
ends p (String.◌∷◌ c s) = ends p s || starts p (String.◌∷◌ c s) && starts (String.◌∷◌ c s) p

unfoldable pub includes : String → String → Bool
includes p String.[] = is_blank p
includes p (String.◌∷◌ c s) = includes p s || starts p (String.◌∷◌ c s)

-- The character of `to` at the place where `from` has `c`, and `c` where it has none.
translate : String → String → Char → Char
translate (String.◌∷◌ a from) (String.◌∷◌ b to) c =
    let rest = translate from to c in if eqb (code a) (code c) then b else rest
translate _ _ c = c

unfoldable pub to_lower : Char → Char
unfolding translate
to_lower = translate "ABCDEFGHIJKLMNOPQRSTUVWXYZ" "abcdefghijklmnopqrstuvwxyz"

-- `str::to_ascii_lowercase`
unfoldable pub to_ascii_lowercase : String → String
unfolding to_lower
to_ascii_lowercase String.[] = String.[]
to_ascii_lowercase (String.◌∷◌ c s) = String.◌∷◌ (to_lower c) (to_ascii_lowercase s)

abbrev push_char : Bool → Char → List String → List String
push_char true c pieces = "" ∷ pieces
push_char false c [] = String.◌∷◌ c "" ∷ []
push_char false c (p ∷ pieces) = String.◌∷◌ c p ∷ pieces

abbrev pub cons_before : Char → Option (String × String) → Option (String × String)
cons_before c none = none
cons_before c (some (a, b)) = some (String.◌∷◌ c a, b)

-- `str::split` at a character, for `is_sep`
unfoldable pub split : (Char → Bool) → String → List String
split is_sep String.[] = "" ∷ []
split is_sep (String.◌∷◌ c s) = push_char (is_sep c) c (split is_sep s)

-- A return at the end of a line goes with its line feed.
strip_return : String → String
strip_return String.[] = ""
strip_return (String.◌∷◌ c s) =
    let rest = strip_return s in if is_blank s && eqb (code c) 13 then "" else String.◌∷◌ c rest

-- `str::lines` splits at line feeds and drops the empty piece behind the last one.
drop_last_blank : List String → List String
unfolding strip_return
drop_last_blank [] = []
drop_last_blank (x ∷ []) = if is_blank x then [] else x ∷ []
drop_last_blank (x ∷ y ∷ r) = strip_return x ∷ drop_last_blank (y ∷ r)

drop_blanks : List String → List String
drop_blanks [] = []
drop_blanks (x ∷ xs) = let rest = drop_blanks xs in if is_blank x then rest else x ∷ rest

unfoldable pub lines : String → List String
unfolding split strip_return drop_last_blank
lines s = drop_last_blank (split (λ c. eqb (code c) 10) s)

-- `str::split_whitespace`
unfoldable pub split_whitespace : String → List String
unfolding split drop_blanks is_whitespace
split_whitespace s = drop_blanks (split is_whitespace s)

-- `str::split_once` at a character
unfoldable pub split_once : Char → String → Option (String × String)
split_once d String.[] = none
split_once d (String.◌∷◌ c s) =
    let rest = split_once d s in if eqb (code c) (code d) then some ("", s) else cons_before c rest

lines_test : lines "a b\n\nc\n" ≡ "a b" ∷ "" ∷ "c" ∷ []
unfolding lines
lines_test = refl

words_test : split_whitespace " a  b\tc " ≡ "a" ∷ "b" ∷ "c" ∷ []
unfolding split_whitespace
words_test = refl

ends_test : (ends "_PRE" "A_PRE" ≡ true) × (ends "_PRE" "_PRE_" ≡ false)
unfolding ends
ends_test = (refl, refl)

split_once_test : split_once ":" "a:b:c" ≡ some ("a", "b:c")
unfolding split_once
split_once_test = refl

trim_test : trim "  a b\n" ≡ "a b"
unfolding trim
trim_test = refl

starts_test : starts "BOX_" "BOX_LOCAL" ≡ true
starts_test = refl

join_test : join ", " ("a" ∷ "b" ∷ []) ≡ "a, b"
unfolding join
join_test = refl
