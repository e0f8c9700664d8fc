-- ===== src/Service/Stamp.antt =====
-- boxctl/src/service/stamp.rs: a text that changes with a file, on a Unix system.
use boxproxy.Prelude.{
  String, ℕ, zero, suc, ◌/◌, ◌%◌, ◌^◌, Option, none, some, ◌<>◌, if◌then◌else◌, eqb, ◌≡◌, refl,
}
use boxproxy.Prelude.Number.{show}
use boxproxy.Service.{Metadata, System}

-- `{:o}`, the digits in front of `out`; the fuel is above `n`
octal_onto : ℕ → ℕ → String → String
unfolding show
octal_onto zero n out = out
octal_onto (suc fuel) n out =
    let shown = show (n % 8) <> out in
    let more = octal_onto fuel (n / 8) shown in if eqb (n / 8) 0 then shown else more

unfoldable pub octal : ℕ → String
unfolding octal_onto
octal n = octal_onto (suc n) n ""

unfoldable pub ownership_stamp : Metadata → String
unfolding show octal
ownership_stamp m =
    show m.uid
    <> (":"
        <> (show m.gid
            <> (":"
                <> (octal (m.mode % 2 ^ 12) <> (":" <> (show m.len <> (":" <> show m.modified)))))))

stamp_of : Option Metadata → Option String
unfolding ownership_stamp
stamp_of none = none
stamp_of (some m) = some (ownership_stamp m)

module _ {S : Type 0} ⦃Y : System S⦄ where
  unfoldable pub file_stamp : String → S → Option String
  unfolding stamp_of
  file_stamp path s = stamp_of (Y.metadata path s)

octal_test : octal 3565 ≡ "6755"
unfolding octal
octal_test = refl
