-- ===== src/Control/Started.antt =====
-- How a start of boxctl/src/control.rs ends, and what its error names.
use boxproxy.Prelude.{String, Bool, true, false, ◌<>◌, ◌≡◌, ◌≢◌, ◌⊎◌}
use boxproxy.Act.{Result, ok, err}
use boxproxy.Control.{Parts, start_both, stop_both_back}

-- `x` stands somewhere in the text.
abbrev pub Includes : String → String → Type 0
Includes text x = (before : String) × (after : String) × (text ≡ before <> (x <> after))

-- A part that failed is in the text, behind its label.
abbrev pub Names : String → String → Result {0} Unit → Type 0
Names text label (ok _) = Unit
Names text label (err e) = Includes text (label <> e)

module _ {S : Type 0} ⦃P : Parts S⦄ where
  -- The start is taken back from a state: both parts are stopped there, nothing else is done, and
  -- the text names what could not be undone.
  abbrev pub TakenBack : String → S → S → Type 0
  TakenBack text s s' =
      let ((core, rules), undone) = stop_both_back s in
      (s' ≡ undone) × Names text "stop core: " core × Names text "clear rules: " rules

  -- How a start ends, with its state before and its result and state behind.
  pub data Started (manage : Bool) (s : S) : Result {0} Unit × S → Type 0 where
    unsynced : (e : String) (s1 : S) → P.sync s ≡ (err e, s1) → Started manage s (err e, s1)
    up :
        (s1 s2 : S)
        → P.sync s ≡ (ok tt, s1)
        → start_both s1 ≡ ((ok tt, ok tt), s2)
        → manage ≡ false
        → Started manage s (ok tt, s2)
    watched :
        (s1 s2 s3 : S)
        → P.sync s ≡ (ok tt, s1)
        → start_both s1 ≡ ((ok tt, ok tt), s2)
        → manage ≡ true
        → P.run_monitor s2 ≡ (ok tt, s3)
        → Started manage s (ok tt, s3)
    unwatched :
        (s1 s2 s3 s' : S) (e text : String)
        → P.sync s ≡ (ok tt, s1)
        → start_both s1 ≡ ((ok tt, ok tt), s2)
        → manage ≡ true
        → P.run_monitor s2 ≡ (err e, s3)
        → Includes text ("start monitor failed: " <> e)
        → TakenBack text s3 s'
        → Started manage s (err text, s')
    half_up :
        (s1 s2 s' : S) (core rules : Result {0} Unit) (text : String)
        → P.sync s ≡ (ok tt, s1)
        → start_both s1 ≡ ((core, rules), s2)
        → (core ≢ ok tt) ⊎ (rules ≢ ok tt)
        → Names text "start core failed: " core
        → Names text "apply rules failed: " rules
        → TakenBack text s2 s'
        → Started manage s (err text, s')
