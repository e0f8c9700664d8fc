-- ===== src/Act/Agree.antt =====
-- Two actions that do the same on every state that meets `P`, and keep `P`.
use boxproxy.Prelude.{
  ◌≡◌, refl, ap, ◌∙◌, Bool, true, false, List, [], ◌∷◌, if◌then◌else◌, Option, none, some,
}
use boxproxy.Act.{
  Result, ok, err, is_ok, Act, pure, lift, attempt, on_option, ◌>>=◌, for_each, ignore, succeeds,
}
use boxproxy.Act.Keeps.{Keeps, Keeps-pure}

pub record Agree {ℓ} {W A : Type ℓ} (P : W → Type ℓ) (m n : Act W A) : Type ℓ where
  pub same : (w : W) → P w → m w ≡ n w
  pub keeps : (w : W) → P w → P (m w).1

module _ {ℓ} {W A : Type ℓ} {P : W → Type ℓ} where
  pub Agree-refl : (m : Act W A) → Keeps P m → Agree P m m
  Agree-refl m k = record { same = λ w h. refl; keeps = λ w h. k.at w h }

  pub Agree-attempt : (m n : Act W A) → Agree P m n → Agree P (attempt m) (attempt n)
  unfolding attempt
  Agree-attempt m n a = record {
    same = λ w h. ap (λ p. (ok p.0, p.1)) (a.same w h);
    keeps = λ w h. a.keeps w h;
  }

  pub Agree-if :
      (b : Bool) (m n m' n' : Act W A)
      → (b ≡ true → Agree P m m')
      → (b ≡ false → Agree P n n')
      → Agree P (if b then m else n) (if b then m' else n')
  Agree-if true m n m' n' am an = am refl
  Agree-if false m n m' n' am an = an refl

module _ {ℓ} {W A B : Type ℓ} {P : W → Type ℓ} where
  Agree-continue :
      (r : Result A) (f g : A → Act W B)
      → ((a : A) → Agree P (f a) (g a))
      → (w : W) → P w
      → ((lift r >>= f) w ≡ (lift r >>= g) w) × P ((lift r >>= f) w).1
  unfolding ◌>>=◌
  Agree-continue (ok a) f g k w h = ((k a).same w h, (k a).keeps w h)
  Agree-continue (err e) f g k w h = (refl, h)

  pub Agree-bind :
      (m n : Act W A) (f g : A → Act W B)
      → Agree P m n
      → ((a : A) → Agree P (f a) (g a))
      → Agree P (m >>= f) (n >>= g)
  unfolding ◌>>=◌
  Agree-bind m n f g a k = record {
    same = λ w h.
        let (r, w') = m w in
        (Agree-continue r f g k w' (a.keeps w h)).0 ∙ ap (λ p. (lift p.0 >>= g) p.1) (a.same w h);
    keeps = λ w h. let (r, w') = m w in (Agree-continue r f g k w' (a.keeps w h)).1;
  }

module _ {ℓ κ} {W B : Type ℓ} {P : W → Type ℓ} {A : Type κ} where
  pub Agree-on_option :
      (o : Option A) (n n' : Act W B) (s s' : A → Act W B)
      → Agree P n n'
      → ((a : A) → Agree P (s a) (s' a))
      → Agree P (on_option o n s) (on_option o n' s')
  unfolding on_option
  Agree-on_option none n n' s s' kn ks = kn
  Agree-on_option (some a) n n' s s' kn ks = ks a

module _ {W : Type 0} {P : W → Type 0} where
  pub Agree-for_each {ℓ} :
      {A : Type ℓ} (xs : List A) (f g : A → Act W Unit)
      → ((x : A) → Agree P (f x) (g x))
      → Agree P (for_each xs f) (for_each xs g)
  unfolding for_each
  Agree-for_each [] f g k = Agree-refl (pure tt) (Keeps-pure tt)
  Agree-for_each (x ∷ xs) f g k = Agree-bind (f x) (g x) _ _ (k x) (λ _. Agree-for_each xs f g k)

  pub Agree-ignore : {A : Type 0} (m n : Act W A) → Agree P m n → Agree P (ignore m) (ignore n)
  unfolding ignore
  Agree-ignore m n a =
      Agree-bind (attempt m) (attempt n) _ _ (Agree-attempt m n a)
        (λ r. Agree-refl (pure tt) (Keeps-pure tt))

  pub Agree-succeeds :
      {A : Type 0} (m n : Act W A) → Agree P m n → Agree P (succeeds m) (succeeds n)
  unfolding succeeds
  Agree-succeeds m n a =
      Agree-bind (attempt m) (attempt n) _ _ (Agree-attempt m n a)
        (λ r. Agree-refl (pure (is_ok r)) (Keeps-pure (is_ok r)))

pub ruleset agree_rules = (
  Agree-attempt, Agree-if, Agree-bind, Agree-on_option, Agree-for_each, Agree-ignore,
  Agree-succeeds, Agree-refl,
)
