-- ===== src/Act.antt =====
-- Rust functions that change state and may return `Err`: the error is a text, as in the
-- crate's `Result<T>`, and what was changed before an `Err` stays changed.
pub mod Keeps
pub mod Agree
pub mod Total
pub mod Returns
pub mod Ends
pub mod Reaches
use boxproxy.Prelude.{
  String, Bool, true, false, Option, none, some, List, [], ◌∷◌, ◌<>◌, if◌then◌else◌,
}

pub data Result {ℓ} (A : Type ℓ) : Type ℓ where
  ok : A → Result A
  err : String → Result A

abbrev pub is_ok {ℓ} : {A : Type ℓ} → Result A → Bool
is_ok (ok _) = true
is_ok (err _) = false

abbrev pub Act {ℓ} : Type ℓ → Type ℓ → Type ℓ
Act W A = W → Result A × W

module _ {ℓ} {W A : Type ℓ} where
  unfoldable pub pure : A → Act W A
  pure a w = (ok a, w)

  pub fail : String → Act W A
  fail e w = (err e, w)

  pub lift : Result A → Act W A
  lift r w = (r, w)

  pub gets : (W → A) → Act W A
  gets f w = (ok (f w), w)

  -- The `Result` of an action as a value: `.is_ok()`, `let _ = …`, or a `match` on it.
  unfoldable pub attempt : Act W A → Act W (Result A)
  attempt m w = let (r, w') = m w in (ok r, w')

module _ {W : Type 0} where
  pub modify : (W → W) → Act W Unit
  modify f w = (ok tt, f w)

module _ {ℓ} {W A B : Type ℓ} where
  abbrev continue : Result A → (A → Act W B) → Act W B
  continue (ok a) f w = f a w
  continue (err e) f w = (err e, w)

  infixl 10 ◌>>=◌ ◌>>◌
  -- Rust's `?` after every step. Opening this opens the primitive actions too.
  unfoldable pub ◌>>=◌ : Act W A → (A → Act W B) → Act W B
  unfolding pure fail lift gets modify attempt
  ◌>>=◌ m f w = let (r, w') = m w in continue r f w'

  abbrev pub ◌>>◌ : Act W A → Act W B → Act W B
  m >> n = m >>= λ _. n

module _ {ℓ κ} {W B : Type ℓ} {A : Type κ} where
  -- `match o { None => n, Some(a) => s(a) }`
  unfoldable pub on_option : Option A → Act W B → (A → Act W B) → Act W B
  on_option none n s = n
  on_option (some a) n s = s a

module _ {W : Type 0} where
  -- `for x in xs { body(x)?; }`
  unfoldable pub for_each {ℓ} : {A : Type ℓ} → List A → (A → Act W Unit) → Act W Unit
  unfolding ◌>>=◌
  for_each [] body = pure tt
  for_each (x ∷ xs) body = let rest = for_each xs body in body x >> rest

  -- `if b { m }`
  abbrev pub when : Bool → Act W Unit → Act W Unit
  when b m = if b then m else pure tt

  -- `let _ = m;`
  unfoldable pub ignore : {A : Type 0} → Act W A → Act W Unit
  unfolding ◌>>=◌
  ignore m = attempt m >>= λ _. pure tt

  -- `m.is_ok()`
  unfoldable pub succeeds : {A : Type 0} → Act W A → Act W Bool
  unfolding ◌>>=◌
  succeeds m = attempt m >>= λ r. pure (is_ok r)

module _ {W A : Type 0} where
  abbrev pub relabel : String → Result A → Act W A
  relabel message (ok a) = pure a
  relabel message (err e) = fail (message <> e)

  -- `m.map_err(|err| format!("{message}{err}"))`
  unfoldable pub map_err : String → Act W A → Act W A
  unfolding ◌>>=◌
  map_err message m = attempt m >>= relabel message
