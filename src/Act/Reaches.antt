-- ===== src/Act/Reaches.antt =====
-- What holds of the state in which an action ends when it returns no `Err`.
use boxproxy.Prelude.{String, Bool, true, false, if◌then◌else◌, ◌≡◌, refl, arith}
use boxproxy.Act.{Result, ok, err, Act, map_err, relabel, ◌>>=◌}
use boxproxy.Act.Ends.{bind-Ends}

abbrev pub OkThen {ℓ} : {W A : Type ℓ} → (W → Type ℓ) → Result A × W → Type ℓ
OkThen P (ok _, w) = P w
OkThen P (err _, _) = Unit

pub record Reaches {ℓ} {W A : Type ℓ} (P : W → Type ℓ) (m : Act W A) : Type ℓ where
  pub at : (w : W) → OkThen P (m w)

module _ {ℓ} {W A B : Type ℓ} {P : W → Type ℓ} where
  pub Reaches-bind :
      (m : Act W A) (f : A → Act W B)
      → ((a : A) (w : W) → (m w).0 ≡ ok a → OkThen P (f a (m w).1))
      → Reaches P (m >>= f)
  Reaches-bind m f h = record {
    at = λ w. bind-Ends (OkThen P) m f w (λ a eq. h a w eq) (λ e _. tt);
  }

  -- What holds at the end of the last step holds at the end.
  pub Reaches-then :
      (m : Act W A) (f : A → Act W B) → ((a : A) → Reaches P (f a)) → Reaches P (m >>= f)
  Reaches-then m f h = Reaches-bind m f (λ a w _. (h a).at (m w).1)

module _ {ℓ} {W A : Type ℓ} {P : W → Type ℓ} where
  pub Reaches-if :
      (b : Bool) (m n : Act W A)
      → (b ≡ true → Reaches P m)
      → (b ≡ false → Reaches P n)
      → Reaches P (if b then m else n)
  Reaches-if true m n on off = on refl
  Reaches-if false m n on off = off refl

module _ {W A : Type 0} (P : W → Type 0) where
  relabel-OkThen :
      (message : String) (r : Result A) (w : W)
      → ((a : A) → r ≡ ok a → P w)
      → OkThen P (relabel message r w)
  unfolding ◌>>=◌
  relabel-OkThen message (ok a) w h = h a refl
  relabel-OkThen message (err e) w h = tt

  pub map_err-OkThen :
      (message : String) (m : Act W A) (w : W)
      → ((a : A) → (m w).0 ≡ ok a → P (m w).1)
      → OkThen P (map_err message m w)
  unfolding map_err ◌>>=◌
  map_err-OkThen message m w h = relabel-OkThen message (m w).0 (m w).1 h

module _ {W A : Type 0} where
  relabel-ok :
      (message : String) (r : Result A) (w : W) (a : A) → (relabel message r w).0 ≡ ok a → r ≡ ok a
  unfolding ◌>>=◌
  relabel-ok message (ok b) w a h = h
  relabel-ok message (err e) w a h = ground arith

  -- What succeeds with another label succeeds.
  pub map_err-ok :
      (message : String) (m : Act W A) (w : W) (a : A)
      → (map_err message m w).0 ≡ ok a
      → (m w).0 ≡ ok a
  unfolding map_err ◌>>=◌
  map_err-ok message m w a h = relabel-ok message (m w).0 (m w).1 a h

pub ruleset reaches_rules = (Reaches-then, Reaches-if)
