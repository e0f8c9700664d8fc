-- ===== src/Prelude/Number.antt =====
-- Numbers as text: Rust's `parse` of unsigned integers, and `Display` and `LowerHex`.
pub mod RoundTrip
use Prim.Native.Char.{Char, code, nul}
use boxproxy.Prelude.Tests.{leb, eqb, if◌then◌else◌}
use Prim.Native.Nat.{ℕ, zero, suc, ◌+◌, ◌-◌, ◌*◌, ◌/◌, ◌%◌, ◌^◌, ◌≤◌}
use Prim.Native.String.{String}
use mathlib.Core.Path.{◌≡◌, refl}
use mathlib.Core.Bool.{◌&&◌}
use mathlib.Core.Option.{Option, none, some}
use native.Mathlib.Omega.{arith}

-- The digits of `parse`, with no more than `max` as the value so far.
unfoldable pub parse_digits : ℕ → ℕ → String → Option ℕ
parse_digits max n String.[] = some n
parse_digits max n (String.◌∷◌ c s) =
    let d = code c - 48 in
    let rest = parse_digits max (n * 10 + d) s in
    if leb 48 (code c) && leb (code c) 57 && leb (n * 10 + d) max then rest else none

parse_unsigned : ℕ → String → Option ℕ
parse_unsigned max String.[] = none
parse_unsigned max (String.◌∷◌ c s) = parse_digits max 0 (String.◌∷◌ c s)

-- `str::parse` for an unsigned type whose greatest value is `max`: one `+` may stand in front.
unfoldable pub parse : ℕ → String → Option ℕ
unfolding parse_digits parse_unsigned
parse max String.[] = none
parse max (String.◌∷◌ c s) =
    if eqb (code c) b'+' then parse_unsigned max s else parse_unsigned max (String.◌∷◌ c s)

abbrev pub u8_max : ℕ
u8_max = 2 ^ 8 - 1

abbrev pub u16_max : ℕ
u16_max = 2 ^ 16 - 1

abbrev pub u32_max : ℕ
u32_max = 2 ^ 32 - 1

abbrev pub u64_max : ℕ
u64_max = 2 ^ 64 - 1

nth_char : String → ℕ → Char
nth_char String.[] n = nul
nth_char (String.◌∷◌ c s) zero = c
nth_char (String.◌∷◌ c s) (suc n) = nth_char s n

digit : ℕ → Char
unfolding nth_char
digit = nth_char "0123456789abcdef"

-- The digits of `n` in a base, in front of `out`; the fuel is above `n`.
show_onto : ℕ → ℕ → ℕ → String → String
show_onto base zero n out = out
show_onto base (suc fuel) n out =
    let shown : String = String.◌∷◌ (digit (n % base)) out in
    let more = show_onto base fuel (n / base) shown in if eqb (n / base) 0 then shown else more

-- `{n}`
unfoldable pub show : ℕ → String
unfolding show_onto digit
show n = show_onto 10 (suc n) n ""

-- `{n:x}`
unfoldable pub hex : ℕ → String
unfolding show_onto digit
hex n = show_onto 16 (suc n) n ""

parse_digits_bound :
    (max n : ℕ) (s : String) (m : ℕ) → n ≤ max → parse_digits max n s ≡ some m → m ≤ max
unfolding parse_digits
parse_digits_bound max n String.[] m h e = ground arith
parse_digits_bound max n (String.◌∷◌ c s) m h e =
    ground (arith, parse_digits_bound max (n * 10 + (code c - 48)) s m)

-- A number that was parsed is in the range of its type.
pub parse-le : (max : ℕ) (s : String) (m : ℕ) → parse max s ≡ some m → m ≤ max
unfolding parse
parse-le max String.[] m e = ground arith
parse-le max (String.◌∷◌ c String.[]) m e =
    ground (arith, parse_digits_bound max 0 (String.◌∷◌ c String.[]) m)
parse-le max (String.◌∷◌ c (String.◌∷◌ d s)) m e = ground (
  arith,
  parse_digits_bound max 0 (String.◌∷◌ c (String.◌∷◌ d s)) m,
  parse_digits_bound max 0 (String.◌∷◌ d s) m,
)

hex_test : hex 16777216 ≡ "1000000"
unfolding hex
hex_test = refl

parse_test : (parse u16_max "+65535" ≡ some 65535) × (parse u16_max "65536" ≡ none)
unfolding parse
parse_test = (refl, refl)
