-- ===== src/Objects/Creation.antt =====
-- `get` and `create`: an object is made once.
use ldms_test.Base.{
  ◌≡◌, ◌≢◌, refl, ap, ◌∙◌, ℕ, suc, Text, List, [], ◌∷◌, ok, database_error, text_eq, All,
}
use ldms_test.Base.Dict.{Dict}
use ldms_test.Base.Outcome.{done, raised}
use ldms_test.Sql.{Cell, Model, Row}
use ldms_test.Sql.Engine.{
  Connection, then_, filter, columns, matches, new_row, Added, IsEngine, AreColumns, Reordered,
  same, behind, swapped, then,
}
use ldms_test.Objects.{
  Object, id_from_dict, make_all, params, find, keywords, create_id, insert, create_by, one_of, get,
  create,
}
use ldms_test.Objects.Rows.{
  object, IsModel, HasWidth, make_lem, length-new_row, key_of-params, matches-new_row, matches-key,
  matches-given, filter-none, filter-Added,
}

abbrev pub objects : Model → List Row → List Object
objects m [] = []
objects m (r ∷ rs) = object m r ∷ objects m rs

pub make_all_lem :
    (m : Model) (rs : List Row)
    → IsModel m
    → All (HasWidth m) rs
    → make_all m rs ≡ ok (objects m rs)
unfolding make_all
make_all_lem m [] h w = refl
make_all_lem m (r ∷ rs) h w = rw (make_lem m r h w.0) (rw (make_all_lem m rs h w.1) refl)

module _ {Db : Type 0} (conn : Connection Db) (m : Model) where
  -- The rows that have the values asked for.
  abbrev pub selected : Dict Text Cell → Db → List Row
  selected kwargs db =
      filter (matches conn.stored (columns m) (params kwargs)) (conn.rows db m.table)

  -- What holds once the row for some values was inserted.
  abbrev pub Inserted : Dict Text Cell → Db → Db → Type 0
  Inserted kwargs db db' =
      Added (new_row conn.stored (params kwargs) (columns m)) (conn.rows db m.table)
        (conn.rows db' m.table)
      × ((t : Text) → t ≢ m.table → conn.rows db' t ≡ conn.rows db t)

  abbrev pub made : Dict Text Cell → Object
  made kwargs = object m (new_row conn.stored (params kwargs) (columns m))

reordered_none : {xs ys : List Row} → Reordered xs ys → ys ≡ [] → xs ≡ []
reordered_none (same xs) h = h
reordered_none (behind r p) h = cc
reordered_none (swapped r s xs) h = cc
reordered_none (then p q) h = reordered_none p (reordered_none q h)

reordered_one : {xs ys : List Row} (r : Row) → Reordered xs ys → ys ≡ r ∷ [] → xs ≡ r ∷ []
reordered_one r (same xs) h = h
reordered_one r (behind s {xs} {ys} p) h =
    rw (reordered_none p (tails ys [] s r h)) (ap (λ x. x ∷ []) (heads ys [] s r h))
  where
    tails : (as_ bs : List Row) (a b : Row) → a ∷ as_ ≡ b ∷ bs → as_ ≡ bs
    tails as_ bs a b e = cc

    heads : (as_ bs : List Row) (a b : Row) → a ∷ as_ ≡ b ∷ bs → a ≡ b
    heads as_ bs a b e = cc
reordered_one r (swapped s t xs) h = cc
reordered_one r (then p q) h = reordered_one r p (reordered_one r q h)

module _ {Db : Type 0} (conn : Connection Db) (m : Model) (engine : IsEngine conn m)
    (im : IsModel m) where
  -- When exactly one row has the values asked for, `get` returns the object for it and changes
  -- nothing.
  pub get-one :
      (fuel : ℕ) (kwargs : Dict Text Cell) (db : Db) (r : Row)
      → AreColumns m (params kwargs)
      → selected conn m kwargs db ≡ r ∷ []
      → HasWidth m r
      → get conn m (suc fuel) kwargs db ≡ (done (object m r), db)
  unfolding get find then_ one_of
  get-one fuel kwargs db r c e w =
      let (rs, p, q) = engine.select_law (params kwargs) db c in
      rw p (rw (reordered_one r q e) (rw (make_all_lem m (r ∷ []) im (w, tt)) refl))

  get-none :
      (fuel : ℕ) (kwargs : Dict Text Cell) (db : Db)
      → AreColumns m (params kwargs)
      → selected conn m kwargs db ≡ []
      → get conn m (suc fuel) kwargs db ≡ create_by conn m (get conn m fuel) (keywords kwargs) db
  unfolding get find then_ one_of make_all
  get-none fuel kwargs db c e =
      let (rs, p, q) = engine.select_law (params kwargs) db c in rw p (rw (reordered_none q e) refl)

  module _ (kwargs id : Dict Text Cell) (db : Db) (has_id : id_from_dict m.ids kwargs ≡ ok id)
      (fresh : selected conn m id db ≡ []) (given : AreColumns m (params kwargs))
      (key : AreColumns m (params id)) where
    inserted :
        (db' : Db) × (insert conn m (keywords kwargs) db ≡ (done [], db'))
        × Inserted conn m kwargs db db'
    unfolding insert
    inserted =
        let (db', p, q, r) =
          engine.insert_law (params kwargs) (params id) db given key
            (key_of-params m.ids kwargs id has_id) fresh in
        (db', p, (q, r))

    -- `create` by keywords that give a primary key that no row has: one row is added, with the
    -- values given and NULL for the other columns, no other table is changed, and the object for
    -- that row is returned.
    pub create-fresh :
        (fuel : ℕ)
        → (db' : Db) × (create conn m (suc fuel) (keywords kwargs) db
            ≡ (done (made conn m kwargs), db'))
          × Inserted conn m kwargs db db'
    unfolding create create_by create_id then_
    create-fresh fuel =
        let (db', p, q) = inserted in
        let row = new_row conn.stored (params kwargs) (columns m) in
        let one : selected conn m id db' ≡ row ∷ [] =
          filter-Added (matches conn.stored (columns m) (params id)) row (conn.rows db m.table)
            (conn.rows db' m.table) (q.0) fresh
            (matches-new_row conn.stored engine.stored_value (columns m) m.ids kwargs id im
              has_id) in
        (
          db',
          rw has_id (
              rw p (
                get-one fuel id db' row key one
                  (length-new_row conn.stored (params kwargs) (columns m)))),
          q,
        )

    -- `get` by values of columns that give a primary key that no row has makes the object, adding
    -- exactly its row; a second `get` by the same values returns the same object and changes
    -- nothing.
    pub get_once :
        (fuel : ℕ)
        → (db' : Db) × (get conn m (suc (suc fuel)) kwargs db ≡ (done (made conn m kwargs), db'))
          × Inserted conn m kwargs db db'
          × (get conn m (suc fuel) kwargs db' ≡ (done (made conn m kwargs), db'))
    unfolding create
    get_once fuel =
        let (db', p, q) = create-fresh fuel in
        let row = new_row conn.stored (params kwargs) (columns m) in
        let none_yet : selected conn m kwargs db ≡ [] =
          filter-none (matches conn.stored (columns m) (params id))
            (matches conn.stored (columns m) (params kwargs)) (conn.rows db m.table)
            (λ r. matches-key conn.stored engine.stored_value (columns m) m.ids kwargs id r has_id)
            fresh in
        let one : selected conn m kwargs db' ≡ row ∷ [] =
          filter-Added (matches conn.stored (columns m) (params kwargs)) row (conn.rows db m.table)
            (conn.rows db' m.table) (q.0) none_yet
            (matches-given conn.stored engine.stored_value (columns m) (params kwargs) (given.2)
              (given.1)) in
        (
          db',
          get-none (suc fuel) kwargs db given none_yet ∙ p,
          q,
          get-one fuel kwargs db' row given one
              (length-new_row conn.stored (params kwargs) (columns m)),
        )

  -- `create` by keywords that give the primary key of a row raises, and changes nothing.
  pub create-duplicate :
      (fuel : ℕ) (kwargs id : Dict Text Cell) (db : Db)
      → id_from_dict m.ids kwargs ≡ ok id
      → AreColumns m (params kwargs)
      → AreColumns m (params id)
      → selected conn m id db ≢ []
      → create conn m fuel (keywords kwargs) db ≡ (raised database_error, db)
  unfolding create create_by create_id insert then_
  create-duplicate fuel kwargs id db has_id given key taken = rw has_id (
      rw
        (engine.insert_duplicate_law (params kwargs) (params id) db given key
          (key_of-params m.ids kwargs id has_id) taken)
        refl)
