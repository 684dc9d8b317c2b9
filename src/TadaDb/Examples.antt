-- ===== src/TadaDb/Examples.antt =====
-- Tests of the database classes of TADA.py on concrete tables.
use ldms_test.Base.{
  ◌≡◌, ◌≢◌, refl, Text, true, false, not, List, [], ◌∷◌, some, ok, text_beq, text_eq, contains, All,
  ◌⊎◌,
}
use mathlib.Core.List.{Mem}
use ldms_test.Base.Dict
use ldms_test.Base.Dict.{Dict, NodupKeys}
use ldms_test.Base.Strings.{text}
use ldms_test.Base.Outcome.{done}
use ldms_test.Sql.{Cell, null, str, Model, Row, shown}
use ldms_test.Sql.Engine.{Connection, filter, zip, at, columns, matches, cell_beq, IsEngine}
use ldms_test.Sql.Memory.{Memory, memory, memory-IsEngine}
use ldms_test.Objects.{Object, id_from_dict, params, as_dict, changes, commit, get}
use ldms_test.Objects.Rows.{object}
use ldms_test.Objects.Creation.{selected, made, Inserted, get_once}
use ldms_test.Objects.Commit.{value_after, written, commit-writes}
use ldms_test.Objects.Order.{attribute, compare, compare-order, cell_cmp, text_cmp}
use ldms_test.TadaDb.{test_model, assertion_model, test_key, newest, delete_test}
use ldms_test.TadaDb.Order.{cells_eq, before, same_list}
use ldms_test.TadaDb.Latest.{IsNotLater, newest_lem}
use ldms_test.TadaDb.Deletion.{OnlyIn, delete_test_lem}
use ldms_test.TadaDb.Left.{of_test}
use Prim.Native.Nat.Ordering.{lt, eq, gt}

abbrev models : Text → Model
models t = elim (text_beq t (text "TADATest")) [ true ↦ test_model | false ↦ assertion_model ]

abbrev db_conn : Connection Memory
db_conn = memory models

abbrev tests_engine : IsEngine db_conn test_model
unfolding text_beq
tests_engine = memory-IsEngine models test_model refl

abbrev cells : List Text → Row
cells [] = []
cells (s ∷ ss) = str s ∷ cells ss

abbrev test_row : Text → Text → Row
test_row id start =
    cells
      (id ∷ text "s" ∷ text "t" ∷ text "n" ∷ text "u" ∷ text "c" ∷ text "d" ∷ start ∷ text "9" ∷ [])

abbrev assertion_row : Text → Text → Row
assertion_row id n = cells (id ∷ n ∷ text "passed" ∷ text "none" ∷ text "cond" ∷ [])

abbrev test_a : Object
test_a = object test_model (test_row (text "a") (text "1"))

abbrev test_b : Object
test_b = object test_model (test_row (text "b") (text "2"))

-- Two tests_engine, with two assertions and one.
abbrev tables : Memory
tables t = elim (text_beq t (text "TADATest")) [
  | true ↦ test_row (text "a") (text "1") ∷ test_row (text "b") (text "2") ∷ []
  | false ↦
      assertion_row (text "a") (text "1")
      ∷ assertion_row (text "b") (text "1")
      ∷ assertion_row (text "a") (text "2")
      ∷ []
]

abbrev names : List Text
names = columns test_model

compare-order_example :
    (compare names test_b test_a ≡ ok gt)
    × (lt ≡ eq → All (λ k. attribute k test_a ≡ attribute k test_b) names)
    × ((d : Object) → lt ≡ lt → compare names test_b d ≡ ok lt → compare names test_a d ≡ ok lt)
unfolding compare attribute cell_cmp Dict.lookup Dict.keys text_beq
compare-order_example = compare-order names test_a test_b lt refl

newest_lem_example :
    NodupKeys ((cells (text "s" ∷ text "t" ∷ text "n" ∷ text "u" ∷ text "c" ∷ []), test_b) ∷ [])
    × All
        (λ (k, p). (test_key p ≡ ok k) × Mem p (test_b ∷ test_a ∷ []))
        ((cells (text "s" ∷ text "t" ∷ text "n" ∷ text "u" ∷ text "c" ∷ []), test_b) ∷ [])
    × All
        (λ o.
          (k : List Cell) × (p : Object) × (test_key o ≡ ok k)
          × (Dict.lookup k
                ((cells (text "s" ∷ text "t" ∷ text "n" ∷ text "u" ∷ text "c" ∷ []), test_b) ∷ [])
              ≡ some p)
          × ((o ≡ p) ⊎ IsNotLater o p))
        (test_b ∷ test_a ∷ [])
unfolding newest attribute before test_key Dict.lookup Dict.keys Dict.insert text_beq text_cmp
    same_list
newest_lem_example =
    newest_lem (test_b ∷ test_a ∷ [])
      ((cells (text "s" ∷ text "t" ∷ text "n" ∷ text "u" ∷ text "c" ∷ []), test_b) ∷ []) refl

abbrev assertions_engine : IsEngine db_conn assertion_model
unfolding text_beq
assertions_engine = memory-IsEngine models assertion_model refl

abbrev id_a : Cell
id_a = str (text "a")

delete_test_lem_example :
    (db' : Memory) × (delete_test db_conn test_a tables ≡ (done tt, db'))
    × (db' assertion_model.table
        ≡ filter (λ r. not (of_test db_conn.stored id_a r)) (tables assertion_model.table))
    × (db' test_model.table
        ≡ filter
            (λ r. not (matches db_conn.stored names (params test_a.obj_id) r))
            (tables test_model.table))
    × OnlyIn db_conn (test_model.table ∷ assertion_model.table ∷ []) tables db'
unfolding attribute params contains Dict.lookup Dict.keys text_beq shown
delete_test_lem_example =
    delete_test_lem db_conn assertions_engine tests_engine test_a id_a tables refl
      ((λ e. cc), (refl, tt), (refl, tt))
      (
        (refl, ((λ e. cc, refl), ((λ e. cc, refl), tt))),
        (
          (refl, ((λ e. cc, refl), ((λ e. cc, refl), tt))),
          ((refl, ((λ e. cc, refl), ((λ e. cc, refl), tt))), tt),
        ),
      )

-- The test with another name.
abbrev renamed : Object
renamed = record {
  obj_id = test_a.obj_id;
  attrs =
      zip names
        (str (text "a") ∷ null ∷ null ∷ str (text "x") ∷ null ∷ null ∷ null ∷ null ∷ null ∷ []);
}

commit-writes_example :
    (db' : Memory) × (r' : Row) × (commit db_conn test_model renamed tables ≡ (done tt, db'))
    × (selected db_conn test_model renamed.obj_id db' ≡ r' ∷ [])
    × (filter
          (λ x. not (matches db_conn.stored names (params renamed.obj_id) x))
          (db' test_model.table)
        ≡ filter
            (λ x. not (matches db_conn.stored names (params renamed.obj_id) x))
            (tables test_model.table))
    × ((k : Text) (v : Cell)
        → contains k names ≡ true
        → Dict.lookup k renamed.attrs ≡ some v
        → at k (zip names r')
          ≡ value_after db_conn.stored k
              (written (contains k (Dict.keys renamed.obj_id)) v)
              (at k (zip names (test_row (text "a") (text "1")))))
    × ((t : Text) → t ≢ test_model.table → db' t ≡ tables t)
unfolding as_dict changes matches cell_beq params shown Dict.lookup Dict.keys contains text_beq
commit-writes_example =
    commit-writes db_conn test_model tests_engine
      (refl, (refl, (refl, (refl, (refl, (refl, (refl, (refl, (refl, tt))))))))) renamed
      renamed.attrs tables (test_row (text "a") (text "1")) refl ((λ e. cc), (refl, tt), (refl, tt))
      ((λ e. cc), (refl, tt), (refl, tt)) (refl, tt) refl refl

abbrev new_test : Dict Text Cell
new_test = (text "test_id", str (text "c")) ∷ (text "test_name", str (text "x")) ∷ []

get_once_example :
    (db' : Memory) × (get db_conn test_model 2 new_test tables
      ≡ (done (made db_conn test_model new_test), db'))
    × Inserted db_conn test_model new_test tables db'
    × (get db_conn test_model 1 new_test db' ≡ (done (made db_conn test_model new_test), db'))
unfolding id_from_dict matches cell_beq params shown Dict.lookup Dict.keys contains text_beq
get_once_example =
    get_once db_conn test_model tests_engine (refl, tt) new_test
      ((text "test_id", str (text "c")) ∷ []) tables refl refl
      ((λ e. cc), (refl, (refl, tt)), (refl, (refl, tt))) ((λ e. cc), (refl, tt), (refl, tt)) 0
