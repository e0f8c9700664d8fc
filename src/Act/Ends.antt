-- ===== src/Act/Ends.antt =====
-- What holds of the result and the state in which an action ends, split at its first step.
use boxproxy.Prelude.{String, Bool, true, false, if◌then◌else◌, ◌≡◌, refl}
use boxproxy.Act.{Result, ok, err, Act, lift, ◌>>=◌}

module _ {ℓ} {W A B : Type ℓ} (Q : Result B × W → Type ℓ) where
  continue-Ends :
      (r : Result A) (w : W) (f : A → Act W B)
      → ((a : A) → r ≡ ok a → Q (f a w))
      → ((e : String) → r ≡ err e → Q (err e, w))
      → Q ((lift r >>= f) w)
  unfolding ◌>>=◌
  continue-Ends (ok a) w f on_ok on_err = on_ok a refl
  continue-Ends (err e) w f on_ok on_err = on_err e refl

  pub bind-Ends :
      (m : Act W A) (f : A → Act W B) (w : W)
      → ((a : A) → (m w).0 ≡ ok a → Q (f a (m w).1))
      → ((e : String) → (m w).0 ≡ err e → Q (err e, (m w).1))
      → Q ((m >>= f) w)
  unfolding ◌>>=◌
  bind-Ends m f w on_ok on_err = continue-Ends (m w).0 (m w).1 f on_ok on_err

module _ {ℓ} {W A : Type ℓ} (Q : Result A × W → Type ℓ) where
  pub if-Ends :
      (b : Bool) (m n : Act W A) (w : W)
      → (b ≡ true → Q (m w))
      → (b ≡ false → Q (n w))
      → Q ((if b then m else n) w)
  if-Ends true m n w on off = on refl
  if-Ends false m n w on off = off refl
