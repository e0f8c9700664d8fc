-- ===== src/Act/Total.antt =====
-- Actions that return no `Err`, as the Rust functions with no `Result` in their type.
use boxproxy.Prelude.{
  ◌≡◌, refl, Bool, true, false, List, [], ◌∷◌, if◌then◌else◌, Option, none, some,
}
use boxproxy.Act.{
  Result, ok, err, is_ok, Act, pure, lift, gets, attempt, modify, on_option, ◌>>=◌, for_each,
  ignore, succeeds,
}

pub record Total {ℓ} {W A : Type ℓ} (m : Act W A) : Type ℓ where
  pub at : (w : W) → is_ok (m w).0 ≡ true

module _ {ℓ} {W A : Type ℓ} where
  pub Total-pure : (a : A) → Total {W = W} (pure a)
  unfolding pure
  Total-pure a = record { at = λ w. refl }

  pub Total-gets : (f : W → A) → Total (gets f)
  unfolding gets
  Total-gets f = record { at = λ w. refl }

  pub Total-attempt : (m : Act W A) → Total (attempt m)
  unfolding attempt
  Total-attempt m = record { at = λ w. refl }

  pub Total-if :
      (b : Bool) (m n : Act W A)
      → (b ≡ true → Total m)
      → (b ≡ false → Total n)
      → Total (if b then m else n)
  Total-if true m n km kn = km refl
  Total-if false m n km kn = kn refl

module _ {ℓ} {W A B : Type ℓ} where
  Total-continue :
      (r : Result A) (f : A → Act W B)
      → ((a : A) → Total (f a))
      → (w : W) → is_ok r ≡ true
      → is_ok ((lift r >>= f) w).0 ≡ true
  unfolding ◌>>=◌
  Total-continue (ok a) f kf w h = (kf a).at w
  Total-continue (err e) f kf w h = h

  pub Total-bind :
      (m : Act W A) (f : A → Act W B) → Total m → ((a : A) → Total (f a)) → Total (m >>= f)
  unfolding ◌>>=◌
  Total-bind m f km kf = record {
    at = λ w. let (r, w') = m w in Total-continue r f kf w' (km.at w);
  }

module _ {ℓ κ} {W B : Type ℓ} {A : Type κ} where
  pub Total-on_option :
      (o : Option A) (n : Act W B) (s : A → Act W B)
      → Total n
      → ((a : A) → Total (s a))
      → Total (on_option o n s)
  unfolding on_option
  Total-on_option none n s kn ks = kn
  Total-on_option (some a) n s kn ks = ks a

module _ {W : Type 0} where
  pub Total-modify : (f : W → W) → Total (modify f)
  unfolding modify
  Total-modify f = record { at = λ w. refl }

  pub Total-for_each {ℓ} :
      {A : Type ℓ} (xs : List A) (body : A → Act W Unit)
      → ((x : A) → Total (body x))
      → Total (for_each xs body)
  unfolding for_each
  Total-for_each [] body k = Total-pure tt
  Total-for_each (x ∷ xs) body k = Total-bind (body x) _ (k x) (λ _. Total-for_each xs body k)

  pub Total-ignore : {A : Type 0} (m : Act W A) → Total (ignore m)
  unfolding ignore
  Total-ignore m = Total-bind (attempt m) _ (Total-attempt m) (λ r. Total-pure tt)

  pub Total-succeeds : {A : Type 0} (m : Act W A) → Total (succeeds m)
  unfolding succeeds
  Total-succeeds m = Total-bind (attempt m) _ (Total-attempt m) (λ r. Total-pure (is_ok r))

pub ruleset total_rules = (
  Total-pure, Total-gets, Total-attempt, Total-if, Total-bind, Total-on_option, Total-modify,
  Total-for_each, Total-ignore, Total-succeeds,
)
