-- ===== src/Objects.antt =====
-- The class `SQLModel` of TADA.py: objects that stand for the rows of a table. `paramstyle`, the
-- texts of the statements and `commit` of the connection have no part in the results; what is
-- executed is a `Statement`, whose text is in Sql.
pub mod Rows
pub mod Creation
pub mod Commit
pub mod Order
use ldms_test.Base.{
  ℕ, zero, suc, Text, Bool, true, false, not, List, [], ◌∷◌, ◌++◌, Option, none, some, Result, ok,
  err, key_error, value_error, index_error, attribute_error, type_error, contains, text_eq, length,
  map, ◌==◌, get_elem?,
}
use ldms_test.Base.{◌>>=◌ as ◌>>=ᵣ◌}
use ldms_test.Base.Dict
use ldms_test.Base.Dict.{Dict}
use ldms_test.Base.Strings.{text}
use ldms_test.Base.Outcome.{Outcome, done, raised, running, of_result}
use ldms_test.Sql.{
  Cell, null, str, int, shown, Model, Row, Statement, select, select_first, insert_cols, insert_row,
  update, delete,
}
use ldms_test.Sql.Engine.{Connection, Query, ◌>>=◌, then_, pure, fail, lift, zip, columns}

-- `_obj_id`, and the attributes that columns have given
pub record Object : Type 0 where
  pub obj_id : Dict Text Cell
  pub attrs : Dict Text Cell

-- `tuple.index`
index_of : Text → List Text → Result ℕ
index_of k [] = err value_error
index_of k (c ∷ cs) =
    let rest = index_of k cs in elim (c == k) [ true ↦ ok zero | false ↦ rest >>=ᵣ λ i. ok (suc i) ]

-- `data[i]`
elem : ℕ → Row → Result Cell
elem i r = elim (get_elem? r i) [ none ↦ err index_error | some c ↦ ok c ]

-- `__id_from_data` of a sequence
unfoldable pub id_from_data : List Text → List Text → Row → Result (Dict Text Cell)
unfolding index_of elem
id_from_data names [] r = ok []
id_from_data names (k ∷ ks) r = index_of k names >>=ᵣ λ i.
    elem i r >>=ᵣ λ v. id_from_data names ks r >>=ᵣ λ rest. ok ((k, v) ∷ rest)

-- `{ k: obj[k] for k in cls.__ids__ }`
unfoldable pub id_from_dict : List Text → Dict Text Cell → Result (Dict Text Cell)
id_from_dict [] d = ok []
id_from_dict (k ∷ ks) d = elim (Dict.lookup k d) [
  | none ↦ err key_error
  | some v ↦ id_from_dict ks d >>=ᵣ λ rest. ok ((k, v) ∷ rest)
]

-- `__init__`
unfoldable pub make : Model → Row → Result Object
unfolding id_from_data
make m r = id_from_data (columns m) m.ids r >>=ᵣ λ id.
    ok (record { obj_id = id; attrs = zip (columns m) r })

unfoldable pub make_all : Model → List Row → Result (List Object)
unfolding make
make_all m [] = ok []
make_all m (r ∷ rs) = make m r >>=ᵣ λ o. make_all m rs >>=ᵣ λ os. ok (o ∷ os)

-- The values as parameters, `map(str, ...)`.
unfoldable pub params : Dict Text Cell → Dict Text Text
unfolding shown
params [] = []
params ((k, v) ∷ d) = (k, shown v) ∷ params d

shown_all : Row → List Text
unfolding shown
shown_all [] = []
shown_all (v ∷ r) = shown v ∷ shown_all r

-- `__iter__`: the columns in order, with the attributes
unfoldable pub as_dict : Object → List Text → Result (Dict Text Cell)
as_dict o [] = ok []
as_dict o (k ∷ ks) = elim (Dict.lookup k o.attrs) [
  | none ↦ err attribute_error
  | some v ↦ as_dict o ks >>=ᵣ λ rest. ok ((k, v) ∷ rest)
]

-- The columns that `commit` writes: not those of the key, and none that is `None`.
unfoldable pub changes : Dict Text Cell → Dict Text Cell → Dict Text Cell
changes id [] = []
changes id ((k, v) ∷ d) =
    let rest = changes id d in
    elim (contains k (Dict.keys id)) [
      | true ↦ rest
      | false ↦ elim v [ null ↦ rest | w ↦ (k, w) ∷ rest ]
    ]

-- What `create` is called with: keywords or a dict, or the values of all columns.
pub data Args : Type 0 where
  keywords : Dict Text Cell → Args
  values : Row → Args

module _ {Db : Type 0} (conn : Connection Db) (m : Model) where
  -- `find`
  unfoldable pub find : Dict Text Cell → Query Db (List Object)
  unfolding make_all params
  find kwargs =
      conn.execute (select m.table (Dict.keys (params kwargs))) (Dict.values (params kwargs))
      >>= λ rs. lift (make_all m rs)

  -- `find_first`
  unfoldable pub find_first : Option Text → Dict Text Cell → Query Db (Option Object)
  unfolding make params
  find_first order kwargs =
      conn.execute (select_first m.table (Dict.keys (params kwargs)) order)
        (Dict.values (params kwargs))
      >>= first
    where
      first : List Row → Query Db (Option Object)
      first [] = pure none
      first (r ∷ rs) = lift (make m r >>=ᵣ λ o. ok (some o))

  -- What `create` executes, and the key of the object that it then gets.
  create_id : Args → Result (Dict Text Cell)
  unfolding id_from_dict id_from_data
  create_id (keywords kwargs) = id_from_dict m.ids kwargs
  create_id (values r) = id_from_data (columns m) m.ids r

  insert : Args → Query Db (List Row)
  unfolding params shown_all
  insert (keywords kwargs) =
      conn.execute (insert_cols m.table (Dict.keys (params kwargs))) (Dict.values (params kwargs))
  insert (values r) = conn.execute (insert_row m.table (length r)) (shown_all r)

  -- `create` beside `get`, which call each other
  create_by : (Dict Text Cell → Query Db Object) → Args → Query Db Object
  unfolding create_id insert
  create_by get args = lift (create_id args) >>= λ id. insert args >>= λ rs. get id

  one_of : Query Db Object → List Object → Query Db Object
  one_of create [] = create
  one_of create (o ∷ []) = pure o
  one_of create (o ∷ (p ∷ os)) = fail key_error

  -- `get`; the fuel bounds the calls of `get` by `create`.
  unfoldable pub get : ℕ → Dict Text Cell → Query Db Object
  unfolding find one_of create_by
  get zero kwargs = λ db. (running, db)
  get (suc fuel) kwargs = find kwargs >>= one_of (create_by (get fuel) (keywords kwargs))

  unfoldable pub create : ℕ → Args → Query Db Object
  unfolding get create_by
  create fuel args = create_by (get fuel) args

  -- `_query`, with `fetchone`
  unfoldable pub query : Object → Query Db (Option Row)
  unfolding params
  query o =
      conn.execute (select m.table (Dict.keys (params o.obj_id))) (Dict.values (params o.obj_id))
      >>= λ rs. pure (elim rs [ [] ↦ none | r ∷ rest ↦ some r ])

  -- `_on_data_update`; `zip` of `None` raises
  on_data_update : Object → Option Row → Result Object
  on_data_update o none = err type_error
  on_data_update o (some r) = ok (record o { attrs = Dict.update o.attrs (zip (columns m) r) })

  unfoldable pub reload : Object → Query Db Object
  unfolding query on_data_update
  reload o = query o >>= λ r. lift (on_data_update o r)

  unfoldable pub commit : Object → Query Db (Unit {0})
  unfolding as_dict changes params
  commit o = lift (as_dict o (columns m)) >>= λ d.
      conn.execute
        (update m.table (Dict.keys (params (changes o.obj_id d))) (Dict.keys (params o.obj_id)))
        (Dict.values (params (changes o.obj_id d)) ++ Dict.values (params o.obj_id))
      >>= λ rs. pure tt

  -- `delete`
  unfoldable pub delete_row : Object → Query Db (Unit {0})
  unfolding params
  delete_row o =
      conn.execute (delete m.table (Dict.keys (params o.obj_id))) (Dict.values (params o.obj_id))
      >>= λ rs. pure tt
