-- ===== src/Act/Returns.antt =====
-- What an action returns when it returns no `Err`, from every state.
use boxproxy.Prelude.{◌≡◌, refl, Bool, true, false, if◌then◌else◌}
use boxproxy.Act.{Result, ok, err, Act, pure, lift, attempt, ◌>>=◌}

abbrev pub OkOr {ℓ} : {A : Type ℓ} → (A → Type ℓ) → Result A → Type ℓ
OkOr P (ok a) = P a
OkOr P (err _) = Unit

pub record Returns {ℓ} {W A : Type ℓ} (P : A → Type ℓ) (m : Act W A) : Type ℓ where
  pub at : (w : W) → OkOr P (m w).0

module _ {ℓ} {W A : Type ℓ} {P : A → Type ℓ} where
  pub Returns-pure : (a : A) → P a → Returns {W = W} P (pure a)
  unfolding pure
  Returns-pure a h = record { at = λ w. h }

  pub Returns-attempt : (m : Act W A) → Returns P m → Returns (OkOr P) (attempt m)
  unfolding attempt
  Returns-attempt m k = record { at = λ w. k.at w }

  pub Returns-if :
      (b : Bool) (m n : Act W A)
      → (b ≡ true → Returns P m)
      → (b ≡ false → Returns P n)
      → Returns P (if b then m else n)
  Returns-if true m n km kn = km refl
  Returns-if false m n km kn = kn refl

module _ {ℓ} {W A B : Type ℓ} {P : A → Type ℓ} {R : B → Type ℓ} where
  Returns-continue :
      (r : Result A) (f : A → Act W B)
      → ((a : A) → P a → Returns R (f a))
      → (w : W) → OkOr P r
      → OkOr R ((lift r >>= f) w).0
  unfolding ◌>>=◌
  Returns-continue (ok a) f kf w h = (kf a h).at w
  Returns-continue (err e) f kf w h = tt

  pub Returns-bind :
      (m : Act W A) (f : A → Act W B)
      → Returns P m
      → ((a : A) → P a → Returns R (f a))
      → Returns R (m >>= f)
  unfolding ◌>>=◌
  Returns-bind m f km kf = record {
    at = λ w. let (r, w') = m w in Returns-continue r f kf w' (km.at w);
  }

always {ℓ} : {A : Type ℓ} (r : Result A) → OkOr (λ _. Unit) r
always (ok a) = tt
always (err e) = tt

module _ {ℓ} {W A B : Type ℓ} {R : B → Type ℓ} where
  -- Where nothing is known of the first action.
  pub Returns-then :
      (m : Act W A) (f : A → Act W B) → ((a : A) → Returns R (f a)) → Returns R (m >>= f)
  Returns-then m f k = Returns-bind m f (record { at = λ w. always (m w).0 }) (λ a _. k a)
