-- ===== src/Act/Keeps.antt =====
-- Invariants of actions, with one rule for each way to build an action; `search keeps_rules`
-- walks a `do` block with them.
use boxproxy.Prelude.{
  ◌≡◌, refl, Bool, true, false, List, [], ◌∷◌, if◌then◌else◌, Option, none, some,
}
use boxproxy.Prelude.{String}
use boxproxy.Act.{
  Result, ok, err, is_ok, Act, pure, fail, lift, gets, attempt, modify, on_option, ◌>>=◌, for_each,
  ignore, succeeds, map_err, relabel,
}

-- `m` keeps `P`, whether it returns or fails.
pub record Keeps {ℓ} {W A : Type ℓ} (P : W → Type ℓ) (m : Act W A) : Type ℓ where
  pub at : (w : W) → P w → P (m w).1

module _ {ℓ} {W A : Type ℓ} {P : W → Type ℓ} where
  -- An action that leaves the state alone keeps everything.
  unmoved : (m : Act W A) → ((w : W) → (m w).1 ≡ w) → Keeps P m
  unmoved m same = record { at = λ w h. rw (same w) h }

  pub Keeps-attempt : (m : Act W A) → Keeps P m → Keeps P (attempt m)
  unfolding attempt
  Keeps-attempt m kept = record { at = λ w h. kept.at w h }

  pub Keeps-gets : (read : W → A) → Keeps P (gets read)
  unfolding gets
  Keeps-gets read = unmoved (gets read) (λ w. refl)

  pub Keeps-pure : (a : A) → Keeps P (pure a)
  unfolding pure
  Keeps-pure a = unmoved (pure a) (λ w. refl)

  pub Keeps-lift : (result : Result A) → Keeps P (lift result)
  unfolding lift
  Keeps-lift result = unmoved (lift result) (λ w. refl)

  pub Keeps-fail : (message : String) → Keeps P (fail {A = A} message)
  unfolding fail
  Keeps-fail message = unmoved (fail message) (λ w. refl)

  pub Keeps-if :
      (test : Bool) (m other : Act W A)
      → (test ≡ true → Keeps P m)
      → (test ≡ false → Keeps P other)
      → Keeps P (if test then m else other)
  Keeps-if true m other on off = on refl
  Keeps-if false m other on off = off refl

module _ {ℓ} {W A B : Type ℓ} {P : W → Type ℓ} where
  Keeps-continue :
      (r : Result A) (f : A → Act W B)
      → ((a : A) → Keeps P (f a))
      → (w : W) → P w
      → P ((lift r >>= f) w).1
  unfolding ◌>>=◌
  Keeps-continue (ok a) f kf w h = (kf a).at w h
  Keeps-continue (err e) f kf w h = h

  pub Keeps-bind :
      (m : Act W A) (f : A → Act W B) → Keeps P m → ((a : A) → Keeps P (f a)) → Keeps P (m >>= f)
  unfolding ◌>>=◌
  Keeps-bind m f km kf = record {
    at = λ w h. let (r, w') = m w in Keeps-continue r f kf w' (km.at w h);
  }

module _ {ℓ κ} {W B : Type ℓ} {P : W → Type ℓ} {A : Type κ} where
  pub Keeps-on_option :
      (o : Option A) (n : Act W B) (s : A → Act W B)
      → Keeps P n
      → ((a : A) → o ≡ some a → Keeps P (s a))
      → Keeps P (on_option o n s)
  unfolding on_option
  Keeps-on_option none n s kn ks = kn
  Keeps-on_option (some a) n s kn ks = ks a refl

module _ {W : Type 0} {P : W → Type 0} where
  pub Keeps-modify : (f : W → W) → ((w : W) → P w → P (f w)) → Keeps P (modify f)
  unfolding modify
  Keeps-modify f k = record { at = k }

  pub Keeps-for_each {ℓ} :
      {A : Type ℓ} (xs : List A) (body : A → Act W Unit)
      → ((x : A) → Keeps P (body x))
      → Keeps P (for_each xs body)
  unfolding for_each
  Keeps-for_each [] body k = Keeps-pure tt
  Keeps-for_each (x ∷ xs) body k = Keeps-bind (body x) _ (k x) (λ _. Keeps-for_each xs body k)

  pub Keeps-ignore : {A : Type 0} (m : Act W A) → Keeps P m → Keeps P (ignore m)
  unfolding ignore
  Keeps-ignore m k = Keeps-bind (attempt m) _ (Keeps-attempt m k) (λ r. Keeps-pure tt)

  pub Keeps-succeeds : {A : Type 0} (m : Act W A) → Keeps P m → Keeps P (succeeds m)
  unfolding succeeds
  Keeps-succeeds m k = Keeps-bind (attempt m) _ (Keeps-attempt m k) (λ r. Keeps-pure (is_ok r))

module _ {W A : Type 0} {P : W → Type 0} where
  Keeps-relabel : (message : String) (r : Result A) → Keeps P (relabel message r)
  Keeps-relabel message (ok a) = Keeps-pure a
  Keeps-relabel message (err e) = Keeps-fail _

  pub Keeps-map_err : (message : String) (m : Act W A) → Keeps P m → Keeps P (map_err message m)
  unfolding map_err
  Keeps-map_err message m k = Keeps-bind (attempt m) _ (Keeps-attempt m k) (Keeps-relabel message)

pub ruleset keeps_rules = (
  Keeps-pure, Keeps-fail, Keeps-lift, Keeps-gets, Keeps-attempt, Keeps-if, Keeps-bind,
  Keeps-on_option, Keeps-for_each, Keeps-ignore, Keeps-succeeds, Keeps-map_err,
)
