-- ===== src/Rules/Flush/Sweep.antt =====
-- What a flush leaves of the tables of a batch.
use boxproxy.Prelude.{String, true, ◌&&◌, some, none, List, [], ◌∷◌, is_empty, ◌≡◌, refl, arith}
use boxproxy.Act.{Result, ok, err, Act, lift, pure, ◌>>=◌}
use boxproxy.Act.Returns.{OkOr, Returns, Returns-pure, Returns-if, Returns-then}
use boxproxy.Rules.Manager.{set_batch}
use boxproxy.Rules.Names.{Family}
use boxproxy.Rules.Batch.{TableBatch, Tables, RuleBatch, drain}
use boxproxy.Rules.Manager.{Env, World}
use boxproxy.Rules.Flush.{
  flush_table, after_table, flush_tables, flush_with, flush_batch, end_batch, flush_at,
}

-- Nothing of the table is pending.
abbrev pub IsSettled : TableBatch → Type 0
IsSettled tb = (tb.decls ≡ []) × (tb.appends ≡ [])

both_nil {ℓ κ} :
    {A : Type ℓ} {B : Type κ} (xs : List A) (ys : List B)
    → (is_empty xs && is_empty ys) ≡ true
    → (xs ≡ []) × (ys ≡ [])
both_nil [] [] h = (refl, refl)
both_nil [] (y ∷ ys) h = ground arith
both_nil (x ∷ xs) ys h = ground arith

drain-IsSettled : (tb : TableBatch) → IsSettled (drain tb)
unfolding drain
drain-IsSettled tb = (refl, refl)

module _ {S : Type 0} ⦃E : Env S⦄ (nested : Act (World S) Unit) (family : Family) where
  -- The tables and the state before the loop of a flush, what it returned, and the tables and the
  -- state after it: the rules of each table in turn are applied and the table is settled, until one
  -- fails, with the error that is returned; that one stays as it was with all that come after it.
  pub data Swept : Tables → World S → Result (Unit {0}) → Tables → World S → Type 0 where
    nothing_left : {w : World S} → Swept [] w (ok tt) [] w
    swept :
        {table : String} {tb tb' : TableBatch} {rest rest' : Tables} {r : Result (Unit {0})}
        {w w' : World S}
        → (flush_table nested family table tb w).0 ≡ ok tb'
        → IsSettled tb'
        → Swept rest (flush_table nested family table tb w).1 r rest' w'
        → Swept ((table, tb) ∷ rest) w r ((table, tb') ∷ rest') w'
    stopped_at :
        {table : String} {tb : TableBatch} {rest : Tables} {e : String} {w : World S}
        → (flush_table nested family table tb w).0 ≡ err e
        → Swept
            ((table, tb) ∷ rest)
            w
            (err e)
            ((table, tb) ∷ rest)
            (flush_table nested family table tb w).1

  -- What the loop answers, beside what it did.
  abbrev Answer : Tables → World S → Result (Result (Unit {0}) × Tables) × World S → Type 0
  Answer tables w (ok (r, tables'), w') = Swept tables w r tables' w'
  Answer tables w (err e, w') = ⊥

  flush_table-Returns :
      (table : String) (tb : TableBatch)
      → Returns {W = World S} IsSettled (flush_table nested family table tb)
  unfolding flush_table
  flush_table-Returns table tb =
      search (Returns-if, Returns-then, Returns-pure, both_nil, drain-IsSettled) depth 12

  next :
      (table : String) (tb tb' : TableBatch) (rest : Tables) (w : World S)
      (answer : Result (Result (Unit {0}) × Tables) × World S)
      → (flush_table nested family table tb w).0 ≡ ok tb'
      → IsSettled tb'
      → Answer rest (flush_table nested family table tb w).1 answer
      → Answer
          ((table, tb) ∷ rest)
          w
          ((lift answer.0 >>= λ done. pure (done.0, (table, tb') ∷ done.1)) answer.1)
  unfolding ◌>>=◌
  next table tb tb' rest w (ok (r, tables), w') returned settled h = swept returned settled h
  next table tb tb' rest w (err e, w') returned settled h = elim h [ ]

  after_table-Answer :
      (table : String) (tb : TableBatch) (rest : Tables) (w : World S) (r : Result TableBatch)
      (later : Act (World S) (Result Unit × Tables))
      → (flush_table nested family table tb w).0 ≡ r
      → OkOr IsSettled r
      → ((w' : World S) → Answer rest w' (later w'))
      → Answer
          ((table, tb) ∷ rest)
          w
          (after_table table tb rest later r (flush_table nested family table tb w).1)
  unfolding after_table ◌>>=◌
  after_table-Answer table tb rest w (ok tb') later returned settled h =
      next table tb tb' rest w (later (flush_table nested family table tb w).1) returned settled
        (h _)
  after_table-Answer table tb rest w (err e) later returned settled h = stopped_at returned

  flush_tables-Answer :
      (tables : Tables) (w : World S) → Answer tables w (flush_tables nested family tables w)
  unfolding flush_tables ◌>>=◌
  flush_tables-Answer [] w = nothing_left
  flush_tables-Answer ((table, tb) ∷ rest) w =
      after_table-Answer table tb rest w (flush_table nested family table tb w).0
        (flush_tables nested family rest) refl ((flush_table-Returns table tb).at w)
        (flush_tables-Answer rest)

module _ {S : Type 0} ⦃E : Env S⦄ where
  -- The loop ran on the tables of the batch, which was taken away before it, and what it left of
  -- the tables is put back.
  abbrev pub SweptTo : RuleBatch → World S → Result (Unit {0}) × World S → Type 0
  SweptTo b w out =
      (tables : Tables) × (w' : World S) × Swept (flush_at 1) b.family b.tables
        (record w { batch = none }) out.0 tables w'
      × (out.1 ≡ record w' { batch = some (record b { tables = tables }) })

  put_back :
      (b : RuleBatch) (w : World S) (p : Result (Result (Unit {0}) × Tables) × World S)
      → Answer (flush_at 1) b.family b.tables (record w { batch = none }) p
      → SweptTo b w (
          (lift p.0 >>= λ done.
          set_batch (some (record b { tables = done.1 })) >>= λ _. lift done.0)
            p.1)
  unfolding ◌>>=◌ set_batch
  put_back b w (ok (r, tables), w') h = (tables, w', h, refl)
  put_back b w (err e, w') h = elim h [ ]

  -- A flush of an open batch takes the tables in turn until one fails. If none fails it returns
  -- success and every table is settled. If one fails it returns the error of that table, the tables
  -- before that one are settled, and that one and the later ones are pending as they were.
  pub flush_batch-Swept :
      (b : RuleBatch) (w : World S) → w.batch ≡ some b → SweptTo b w (flush_batch w)
  unfolding flush_batch flush_at flush_with
  flush_batch-Swept b w h = rw h (
      put_back b w _
        (flush_tables-Answer (flush_at 1) b.family b.tables (record w { batch = none })))

  -- Closing a batch returns what its flush returns, and no batch is open afterwards.
  pub end_batch-flush_batch :
      (w : World S) → ((end_batch w).0 ≡ (flush_batch w).0) × ((end_batch w).1.batch ≡ none)
  unfolding end_batch
  end_batch-flush_batch w = (refl, refl)
