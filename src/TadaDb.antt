-- ===== src/TadaDb.antt =====
-- The tables of tests and assertions of TADA.py, and the class `TADA_DB`. The log has no part in
-- the results.
pub mod Order
pub mod Latest
mod Left
pub mod Deletion
pub mod Drivers
mod Examples
use ldms_test.Base.{
  ℕ, Text, Bool, true, false, List, [], ◌∷◌, Option, none, some, Result, ok, err, name_error,
  type_error, text_eq,
}
use ldms_test.Base.{◌>>=◌ as ◌>>=ᵣ◌}
use ldms_test.Base.Dict
use ldms_test.Base.Dict.{Dict}
use ldms_test.Base.Strings.{text}
use ldms_test.Base.Outcome.{Outcome}
use ldms_test.Sql.{Cell, shown, Model, Row, create_table, drop_table, select}
use ldms_test.Sql.Engine.{Connection, Query, ◌>>=◌, pure, fail, lift}
use ldms_test.Objects.{Object, Args, keywords, make_all, find, find_first, get, create, delete_row}
use ldms_test.Objects.Order.{attribute}
use ldms_test.TadaDb.Order.{before, cells_eq}

-- `TADATestModel`
abbrev pub test_model : Model
test_model = record {
  table = text "TADATest";
  cols =
      (text "test_id", text "VARCHAR(64)")
      ∷ (text "test_suite", text "TEXT")
      ∷ (text "test_type", text "TEXT")
      ∷ (text "test_name", text "TEXT")
      ∷ (text "test_user", text "TEXT")
      ∷ (text "commit_id", text "TEXT")
      ∷ (text "test_desc", text "TEXT")
      ∷ (text "test_start", text "INTEGER")
      ∷ (text "test_finish", text "INTEGER")
      ∷ [];
  ids = text "test_id" ∷ [];
}

-- `TADAAssertionModel`
abbrev pub assertion_model : Model
assertion_model = record {
  table = text "TADAAssertion";
  cols =
      (text "test_id", text "VARCHAR(64)")
      ∷ (text "assert_id", text "VARCHAR(64)")
      ∷ (text "assert_result", text "TEXT")
      ∷ (text "assert_cond", text "TEXT")
      ∷ (text "assert_desc", text "TEXT")
      ∷ [];
  ids = text "test_id" ∷ text "assert_id" ∷ [];
}

-- `equivalent`: Python 3 has no `cmp`.
unfoldable pub equivalent : Object → Object → Result Bool
equivalent a b = err name_error

-- `objs.sort(key = ...)`, by insertion that keeps the order of equal keys
insert_sorted : Cell × Object → List (Cell × Object) → Result (List (Cell × Object))
insert_sorted x [] = ok (x ∷ [])
insert_sorted x (y ∷ ys) =
    let rest = insert_sorted x ys in
    before (y.0) (x.0) >>=ᵣ λ b. elim b [
      | true ↦ rest >>=ᵣ λ r. ok (y ∷ r)
      | false ↦ ok (x ∷ y ∷ ys)
    ]

sort_by_start : List (Cell × Object) → Result (List (Cell × Object))
unfolding insert_sorted
sort_by_start [] = ok []
sort_by_start (x ∷ xs) = sort_by_start xs >>=ᵣ λ ys. insert_sorted x ys

with_start : List Object → Result (List (Cell × Object))
with_start [] = ok []
with_start (o ∷ os) =
    attribute (text "test_start") o >>=ᵣ λ s. with_start os >>=ᵣ λ rest. ok ((s, o) ∷ rest)

attributes : List Text → Object → Result (List Cell)
attributes [] o = ok []
attributes (k ∷ ks) o = attribute k o >>=ᵣ λ v. attributes ks o >>=ᵣ λ vs. ok (v ∷ vs)

-- The tuple of attributes that tells the tests apart.
unfoldable pub test_key : Object → Result (List Cell)
unfolding attributes
test_key o =
    attributes
      (text "test_suite"
        ∷ text "test_type"
        ∷ text "test_name"
        ∷ text "test_user"
        ∷ text "commit_id"
        ∷ [])
      o

-- The loop that fills `_objs`.
keep_last : Dict (List Cell) Object → List (Cell × Object) → Result (Dict (List Cell) Object)
unfolding test_key
keep_last d [] = ok d
keep_last d ((s, o) ∷ os) = test_key o >>=ᵣ λ k. keep_last (Dict.insert k o d) os

-- `_objs` of `findTests`
unfoldable pub newest : List Object → Result (Dict (List Cell) Object)
unfolding keep_last with_start sort_by_start
newest objs = with_start objs >>=ᵣ λ xs. sort_by_start xs >>=ᵣ λ ys. keep_last [] ys

module _ {Db : Type 0} (conn : Connection Db) where
  -- `assertions`
  unfoldable pub assertions : Object → Query Db (List Object)
  unfolding make_all
  assertions o = lift (attribute (text "test_id") o) >>= λ id.
      conn.execute (select assertion_model.table (text "test_id" ∷ [])) (shown id ∷ []) >>= λ rs.
      lift (make_all assertion_model rs)

  -- `getAssertion`
  unfoldable pub get_assertion : ℕ → Object → Cell → Query Db Object
  get_assertion fuel o assert_id = lift (attribute (text "test_id") o) >>= λ id.
      get conn assertion_model fuel ((text "test_id", id) ∷ (text "assert_id", assert_id) ∷ [])

  delete_all : List Object → Query Db (Unit {0})
  delete_all [] = pure tt
  delete_all (a ∷ rest) = delete_row conn assertion_model a >>= λ _. delete_all rest

  -- `delete` of a test: first its assertions
  unfoldable pub delete_test : Object → Query Db (Unit {0})
  unfolding delete_all
  delete_test o = assertions o >>= λ found. delete_all found >>= λ _. delete_row conn test_model o

  -- `init_tables` and `drop_tables`
  execute_each : List Model → (Model → Query Db (List Row)) → Query Db (Unit {0})
  execute_each [] f = pure tt
  execute_each (m ∷ ms) f = f m >>= λ _. execute_each ms f

  unfoldable pub init_tables : Query Db (Unit {0})
  unfolding execute_each
  init_tables =
      execute_each (test_model ∷ assertion_model ∷ []) (λ m. conn.execute (create_table m) [])

  unfoldable pub drop_tables : Query Db (Unit {0})
  unfolding execute_each
  drop_tables =
      execute_each (test_model ∷ assertion_model ∷ []) (λ m. conn.execute (drop_table m.table) [])

  -- `createTest`
  unfoldable pub create_test : ℕ → Args → Query Db Object
  create_test fuel args = create conn test_model fuel args

  -- `findTests`
  unfoldable pub find_tests : Bool → Dict Text Cell → Query Db (List Object)
  unfolding newest
  find_tests latest kwargs = find conn test_model kwargs >>= λ objs. elim latest [
    | false ↦ pure objs
    | true ↦ lift (newest objs >>=ᵣ λ d. ok (Dict.values d))
  ]

  -- `findFirst`
  unfoldable pub first_test : Option Text → Dict Text Cell → Query Db (Option Object)
  first_test order kwargs = find_first conn test_model order kwargs

  -- `getTest`
  unfoldable pub get_test : ℕ → Dict Text Cell → Query Db Object
  get_test fuel kwargs = get conn test_model fuel kwargs

  -- `purgeOldTests`: `sort` of Python 3 takes no `cmp`.
  unfoldable pub purge_old_tests : Query Db (Unit {0})
  purge_old_tests = find_tests false [] >>= λ objs. fail type_error
