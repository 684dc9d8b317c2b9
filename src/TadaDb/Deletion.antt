-- ===== src/TadaDb/Deletion.antt =====
-- `delete` of a test: which rows go.
use ldms_test.Base.{
  ◌≡◌, ◌≢◌, refl, sym, ap, ◌∙◌, subst, Text, Bool, false, not, List, [], ◌∷◌, ok, contains, text_eq,
  text_beq, text_beq_iff, eq_refl, false≢true, All, arith, Bool-cases, inl, inr,
}
use ldms_test.Base.Dict
use ldms_test.Base.Dict.{Dict}
use ldms_test.Base.Strings.{text}
use ldms_test.Base.Outcome.{done}
use ldms_test.Sql.{Cell, shown, Row}
use ldms_test.Sql.Engine.{
  Connection, then_, filter, columns, matches, filter-keep, filter-skip, IsEngine, AreColumns,
  Reordered,
}
use ldms_test.Objects.{Object, params, delete_row}
use ldms_test.Objects.Order.{attribute}
use ldms_test.Objects.Rows.{IsModel, HasWidth}
use ldms_test.Objects.Creation.{objects, make_all_lem}
use ldms_test.TadaDb.{test_model, assertion_model, assertions, delete_all, delete_test}
use ldms_test.TadaDb.Left.{
  reordered-All, without_each-reordered, without_each, IsReadBack, of_test, left_rows,
}

-- Rows of another table stay.
abbrev pub OnlyIn : {Db : Type 0} → Connection Db → List Text → Db → Db → Type 0
OnlyIn conn ts db db' = (t : Text) → contains t ts ≡ false → conn.rows db' t ≡ conn.rows db t

assertion_model-IsModel : IsModel assertion_model
unfolding contains text_beq Dict.keys
assertion_model-IsModel = (refl, (refl, tt))

tables_differ : test_model.table ≢ assertion_model.table
unfolding text_beq
tables_differ e = absurd (false≢true ((text_beq_iff test_model.table assertion_model.table).1 e))

not_listed :
    (t : Text)
    → contains t (test_model.table ∷ assertion_model.table ∷ []) ≡ false
    → (t ≢ test_model.table) × (t ≢ assertion_model.table)
unfolding contains
not_listed t h = (λ e. ground (arith, eq_refl t, e), λ e. ground (arith, eq_refl t, e))

test_id-AreColumns : (id : Cell) → AreColumns assertion_model ((text "test_id", shown id) ∷ [])
unfolding contains text_beq Dict.keys Dict.lookup
test_id-AreColumns id = (λ e. cc, (refl, tt), (refl, tt))

module _ {Db : Type 0} (conn : Connection Db) (engine : IsEngine conn assertion_model) where
  delete_all_lem :
      (os : List Object) (db : Db)
      → All (λ o. AreColumns assertion_model (params o.obj_id)) os
      → (db' : Db) × (delete_all conn os db ≡ (done tt, db'))
        × (conn.rows db' assertion_model.table
            ≡ without_each conn.stored
                (columns assertion_model)
                os
                (conn.rows db assertion_model.table))
        × ((t : Text) → t ≢ assertion_model.table → conn.rows db' t ≡ conn.rows db t)
  unfolding delete_all delete_row then_
  delete_all_lem [] db c = (db, refl, refl, λ t h. refl)
  delete_all_lem (o ∷ os) db c =
      let (d, p, q, s) = engine.delete_law (params o.obj_id) db c.0 in
      let (e, p', q', s') = delete_all_lem os d c.1 in
      (
        e,
        rw p p',
        q' ∙ ap (without_each conn.stored (columns assertion_model) os) q,
        λ t h. s' t h ∙ s t h,
      )

  HasWidth-selected :
      (p : Row → Bool) (rows : List Row)
      → All (IsReadBack conn.stored) rows
      → All (HasWidth assertion_model) (filter p rows)
  HasWidth-selected p [] h = tt
  HasWidth-selected p (r ∷ rows) h = elim (Bool-cases (p r)) [
    | inl e ↦
        subst (All (HasWidth assertion_model)) (filter-keep p r rows e)
          (h.0.0, HasWidth-selected p rows h.1)
    | inr e ↦
        subst (All (HasWidth assertion_model)) (filter-skip p r rows e)
          (HasWidth-selected p rows h.1)
  ]

  objects-AreColumns :
      (rows : List Row)
      → All (λ o. AreColumns assertion_model (params o.obj_id)) (objects assertion_model rows)
  unfolding params contains Dict.lookup text_beq Dict.keys
  objects-AreColumns [] = tt
  objects-AreColumns (r ∷ rows) =
      ((λ e. cc, (refl, (refl, tt)), (refl, (refl, tt))), objects-AreColumns rows)

  -- The assertions of the test are found, in some order.
  assertions_lem :
      (o : Object) (id : Cell) (db : Db)
      → attribute (text "test_id") o ≡ ok id
      → All (IsReadBack conn.stored) (conn.rows db assertion_model.table)
      → (found : List Row) × (assertions conn o db ≡ (done (objects assertion_model found), db))
        × Reordered found (filter (of_test conn.stored id) (conn.rows db assertion_model.table))
  unfolding assertions then_ Dict.keys Dict.values
  assertions_lem o id db h w =
      let rows = conn.rows db assertion_model.table in
      let (found, p, q) =
        engine.select_law ((text "test_id", shown id) ∷ []) db (test_id-AreColumns id) in
      (
        found,
        rw h (
            rw p (
              rw
                (make_all_lem assertion_model found assertion_model-IsModel (
                  reordered-All (HasWidth assertion_model) q
                    (HasWidth-selected (of_test conn.stored id) rows w)))
                refl)),
        q,
      )

  -- When the keys of the assertions read back as they are stored, and the key of the test is made of
  -- columns, deleting a test succeeds: it
  -- removes from the table of assertions the rows of the test, from the table of tests the rows
  -- with the key of the object, and nothing else, in these tables and in others.
  pub delete_test_lem :
      (tests : IsEngine conn test_model) (o : Object) (id : Cell) (db : Db)
      → attribute (text "test_id") o ≡ ok id
      → AreColumns test_model (params o.obj_id)
      → All (IsReadBack conn.stored) (conn.rows db assertion_model.table)
      → (db' : Db) × (delete_test conn o db ≡ (done tt, db'))
        × (conn.rows db' assertion_model.table
            ≡ filter (λ r. not (of_test conn.stored id r)) (conn.rows db assertion_model.table))
        × (conn.rows db' test_model.table
            ≡ filter
                (λ r. not (matches conn.stored (columns test_model) (params o.obj_id) r))
                (conn.rows db test_model.table))
        × OnlyIn conn (test_model.table ∷ assertion_model.table ∷ []) db db'
  unfolding delete_test delete_row then_ contains
  delete_test_lem tests o id db h key w =
      let (found, x, y) = assertions_lem o id db h w in
      let (d, p, q, s) =
        delete_all_lem (objects assertion_model found) db (objects-AreColumns found) in
      let (e, p', q', s') = tests.delete_law (params o.obj_id) d key in
      (
        e,
        rw x (rw p (rw p' refl)),
        s' assertion_model.table (λ f. tables_differ (sym f))
            ∙ q
            ∙ without_each-reordered conn.stored (columns assertion_model) y _
            ∙ left_rows conn.stored id _ w,
        q' ∙ ap (filter _) (s test_model.table tables_differ),
        λ t f. s' t (not_listed t f).0 ∙ s t (not_listed t f).1,
      )
