-- ===== src/Prelude/Text/Lines.antt =====
-- `lines` of a text that was written line by line.
use Prim.Native.Char.{Char, code}
use Prim.Native.String.{String, ◌++◌ as ◌<>◌}
use mathlib.Core.Path.{◌≡◌, refl, sym, ◌∙◌, ap}
use mathlib.Core.Logic.{inl, inr}
use mathlib.Core.Bool.{Bool, true, false, not, ◌&&◌}
use mathlib.Core.List.{List, [], ◌∷◌}
use mathlib.Core.Option.{some}
use text.Mathlib.TextLemmas.{nil-append, cons-append}
use Prim.Native.Nat.{ℕ}
use native.Mathlib.Omega.{arith}
use boxproxy.Prelude.Tests.{eqb, Bool-cases}
use boxproxy.Prelude.Search.{all_chars}
use boxproxy.Prelude.Text.{
  is_blank, push_char, split, strip_return, drop_last_blank, lines, split_once,
}

abbrev pub is_newline : Char → Bool
is_newline c = eqb (code c) 10

abbrev pub within_line : Char → Bool
within_line c = not (is_newline c) && not (eqb (code c) 13)

same : (n : ℕ) → eqb n n ≡ true
same n = ground arith

and_false : (b : Bool) → (b && false) ≡ false
and_false true = refl
and_false false = refl

no_return : (c : Char) → within_line c ≡ true → eqb (code c) 13 ≡ false
no_return c h = ground arith

head_within :
    (c : Char) (s : String) → all_chars within_line (String.◌∷◌ c s) ≡ true → within_line c ≡ true
head_within c s h = ground arith

tail_within :
    (c : Char) (s : String)
    → all_chars within_line (String.◌∷◌ c s) ≡ true
    → all_chars within_line s ≡ true
tail_within c s h = ground arith

strip_return_lem : (a : String) → all_chars within_line a ≡ true → strip_return a ≡ a
unfolding strip_return
strip_return_lem String.[] h = refl
strip_return_lem (String.◌∷◌ c a) h =
    rw
      (
        no_return c (head_within c a h),
        and_false (is_blank a),
        strip_return_lem a (tail_within c a h),
      )
      refl

split-line :
    (a rest : String)
    → all_chars within_line a ≡ true
    → split is_newline (a <> ("\n" <> rest)) ≡ a ∷ split is_newline rest
unfolding split
split-line String.[] rest h =
    rw (nil-append ("\n" <> rest), cons-append "\n" "" rest, nil-append rest) refl
split-line (String.◌∷◌ c a) rest h = elim (Bool-cases (is_newline c)) [
  | inl ends ↦ grind arith
  | inr inside ↦
      rw (cons-append c a ("\n" <> rest), inside, split-line a rest (tail_within c a h)) refl
]

abbrev IsCons : List String → Type 0
IsCons [] = ⊥
IsCons (_ ∷ _) = Unit

push_char-IsCons : (b : Bool) (c : Char) (l : List String) → IsCons (push_char b c l)
push_char-IsCons true c l = tt
push_char-IsCons false c [] = tt
push_char-IsCons false c (_ ∷ _) = tt

split-IsCons : (s : String) → IsCons (split is_newline s)
unfolding split
split-IsCons String.[] = tt
split-IsCons (String.◌∷◌ c s) = push_char-IsCons (is_newline c) c (split is_newline s)

drop-cons :
    (a : String) (l : List String)
    → IsCons l
    → drop_last_blank (a ∷ l) ≡ strip_return a ∷ drop_last_blank l
unfolding drop_last_blank
drop-cons a [] h = elim h [ ]
drop-cons a (b ∷ l) h = refl

pub lines-line :
    (a rest : String)
    → all_chars within_line a ≡ true
    → lines (a <> ("\n" <> rest)) ≡ a ∷ lines rest
unfolding lines
lines-line a rest h =
    ap drop_last_blank (split-line a rest h)
    ∙ drop-cons a (split is_newline rest) (split-IsCons rest)
    ∙ ap (λ first. first ∷ drop_last_blank (split is_newline rest)) (strip_return_lem a h)

pub all_chars-append :
    (p : Char → Bool) (a b : String)
    → all_chars p a ≡ true
    → all_chars p b ≡ true
    → all_chars p (a <> b) ≡ true
all_chars-append p String.[] b ha hb = rw (nil-append b) hb
all_chars-append p (String.◌∷◌ c a) b ha hb = elim (Bool-cases (p c)) [
  | inl holds ↦ rw (cons-append c a b, holds) (all_chars-append p a b (sym (rw holds refl) ∙ ha) hb)
  | inr fails ↦ grind arith
]

pub all_chars-all_chars :
    (p q : Char → Bool) (s : String)
    → ((c : Char) → p c ≡ true → q c ≡ true)
    → all_chars p s ≡ true
    → all_chars q s ≡ true
all_chars-all_chars p q String.[] weaker h = refl
all_chars-all_chars p q (String.◌∷◌ c s) weaker h = elim (Bool-cases (p c)) [
  | inl holds ↦ rw (weaker c holds) (all_chars-all_chars p q s weaker (sym (rw holds refl) ∙ h))
  | inr fails ↦ grind arith
]

pub split_once-join :
    (d : Char) (a v : String)
    → all_chars (λ c. not (eqb (code c) (code d))) a ≡ true
    → split_once d (a <> String.◌∷◌ d v) ≡ some (a, v)
unfolding split_once
split_once-join d String.[] v h = rw (nil-append (String.◌∷◌ d v), same (code d)) refl
split_once-join d (String.◌∷◌ c a) v h = elim (Bool-cases (eqb (code c) (code d))) [
  | inl found ↦ grind arith
  | inr other ↦
      rw (cons-append c a (String.◌∷◌ d v), other, split_once-join d a v (sym (rw other refl) ∙ h))
        refl
]
