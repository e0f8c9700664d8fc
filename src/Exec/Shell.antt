-- ===== src/Exec/Shell.antt =====
-- The printing of commands: `shell_quote` and `shell_join` of boxctl/src/exec.rs.
use Prim.Native.Char.{Char, code}
use boxproxy.Prelude.{
  String, Bool, true, ◌&&◌, ◌||◌, List, [], ◌∷◌, map, leb, eqb, if◌then◌else◌, ◌<>◌, ◌≡◌, refl,
}
use boxproxy.Prelude.Text.{join}

-- `ch.is_ascii_alphanumeric() || "-_./:@%+=".contains(ch)`
is_plain : Char → Bool
is_plain c =
    let n = code c in
    (leb 48 n && leb n 57)
    || (leb 65 n && leb n 90)
    || (leb 97 n && leb n 122)
    || eqb n b'-'
    || eqb n b'_'
    || eqb n b'.'
    || eqb n b'/'
    || eqb n b':'
    || eqb n b'@'
    || eqb n b'%'
    || eqb n b'+'
    || eqb n b'='

all_plain : String → Bool
all_plain String.[] = true
all_plain (String.◌∷◌ c s) = is_plain c && all_plain s

-- `value.replace('\'', "'\\''")`
escape : String → String
escape String.[] = ""
escape (String.◌∷◌ c s) =
    let rest = escape s in if eqb (code c) 39 then "'\\''" <> rest else String.◌∷◌ c rest

unfoldable pub shell_quote : String → String
unfolding is_plain all_plain escape
shell_quote value = if all_plain value then value else "'" <> (escape value <> "'")

unfoldable pub shell_join : String → List String → String
unfolding shell_quote join
shell_join program args = join " " (shell_quote program ∷ map shell_quote args)

shell_join_test : shell_join "ip" ("rule" ∷ "it's" ∷ []) ≡ "ip rule 'it'\\''s'"
unfolding shell_join
shell_join_test = refl
