-- ===== src/Sql/Engine.antt =====
-- The connection to a database, and what the methods of TADA.py rely on: the meaning of the
-- statements on tables. A method maps the state of the database to its outcome and the state that
-- it leaves, also where it raises.
use ldms_test.Base.{
  ◌≡◌, ◌≢◌, Text, Bool, true, false, List, [], ◌∷◌, ◌++◌, Option, none, some, Exc, Result,
  database_error, text_beq, text_eq, map, ◌&&◌, not, refl, sym, ap, ◌∙◌, Bool-cases, inl, inr, All,
  contains,
}
use ldms_test.Base.Dict
use ldms_test.Base.Dict.{Dict, NodupKeys}
use ldms_test.Base.Int.{int_beq}
use ldms_test.Base.Outcome.{Outcome, done, raised, running, of_result}
use ldms_test.Sql.{Cell, null, str, int, Model, Row, Statement, select, insert_cols, update, delete}

-- `cur.execute(sql, params)`, with the rows that it fetches.
pub record Connection (Db : Type 0) : Type 0 where
  pub execute : Statement → List Text → Db → Outcome (List Row) × Db
  -- the rows of a table, in the order of their row ids
  pub rows : Db → Text → List Row
  -- the value that a parameter stands for in a column
  pub stored : Text → Text → Cell

abbrev pub Query : Type 0 → Type 0 → Type 0
Query Db A = Db → Outcome A × Db

unfoldable pub then_ : {Db A B : Type 0} → (A → Query Db B) → Outcome A × Db → Outcome B × Db
then_ f (done a, db) = f a db
then_ f (raised e, db) = (raised e, db)
then_ f (running, db) = (running, db)

infixl 5 ◌>>=◌
abbrev pub ◌>>=◌ : {Db A B : Type 0} → Query Db A → (A → Query Db B) → Query Db B
unfolding then_
(m >>= f) db = then_ f (m db)

abbrev pub pure : {Db A : Type 0} → A → Query Db A
pure a db = (done a, db)

abbrev pub fail : {Db A : Type 0} → Exc → Query Db A
fail e db = (raised e, db)

abbrev pub lift : {Db A : Type 0} → Result A → Query Db A
lift r db = (of_result r, db)

-- Equality of SQL, where a NULL is equal to nothing.
unfoldable pub cell_beq : Cell → Cell → Bool
cell_beq (str s) (str t) = text_beq s t
cell_beq (int m) (int n) = int_beq m n
cell_beq _ _ = false

abbrev pub filter {ℓ} : {A : Type ℓ} → (A → Bool) → List A → List A
filter p [] = []
filter p (x ∷ xs) = elim (p x) [ true ↦ x ∷ filter p xs | false ↦ filter p xs ]

module _ {ℓ} {A : Type ℓ} (p : A → Bool) where
  pub filter-keep : (x : A) (xs : List A) → p x ≡ true → x ∷ filter p xs ≡ filter p (x ∷ xs)
  filter-keep x xs h = rw (h, filter) refl

  pub filter-skip : (x : A) (xs : List A) → p x ≡ false → filter p xs ≡ filter p (x ∷ xs)
  filter-skip x xs h = rw (h, filter) refl

  pub filter-append : (xs ys : List A) → filter p (xs ++ ys) ≡ filter p xs ++ filter p ys
  filter-append [] ys = refl
  filter-append (x ∷ xs) ys = elim (Bool-cases (p x)) [
    | inl e ↦
        sym (filter-keep x (xs ++ ys) e)
        ∙ ap (λ l. x ∷ l) (filter-append xs ys)
        ∙ ap (λ l. l ++ filter p ys) (filter-keep x xs e)
    | inr e ↦
        sym (filter-skip x (xs ++ ys) e)
        ∙ filter-append xs ys
        ∙ ap (λ l. l ++ filter p ys) (filter-skip x xs e)
  ]

-- Names and values, as far as both go.
abbrev pub zip {ℓ κ} : {A : Type ℓ} {B : Type κ} → List A → List B → List (A × B)
zip [] ys = []
zip (x ∷ xs) [] = []
zip (x ∷ xs) (y ∷ ys) = (x, y) ∷ zip xs ys

-- The value of a column.
abbrev pub at : Text → Dict Text Cell → Cell
at k r = elim (Dict.lookup k r) [ none ↦ null | some c ↦ c ]

abbrev pub columns : Model → List Text
columns m = Dict.keys m.cols

-- `WHERE k1=p1 and ...` for the columns and parameters of a list.
unfoldable pub matches : (stored : Text → Text → Cell) → List Text → Dict Text Text → Row → Bool
unfolding cell_beq
matches stored names [] r = true
matches stored names ((k, p) ∷ ks) r =
    cell_beq (at k (zip names r)) (stored k p) && matches stored names ks r

-- The row that is inserted: the columns that are given, and NULL for the others.
unfoldable pub new_row : (stored : Text → Text → Cell) → Dict Text Text → List Text → Row
new_row stored given [] = []
new_row stored given (c ∷ cs) =
    elim (Dict.lookup c given) [ none ↦ null | some p ↦ stored c p ] ∷ new_row stored given cs

-- The row that an update leaves.
unfoldable pub set_row : (stored : Text → Text → Cell) → Dict Text Text → List Text → Row → Row
set_row stored given [] r = r
set_row stored given (c ∷ cs) [] = []
set_row stored given (c ∷ cs) (v ∷ r) =
    elim (Dict.lookup c given) [ none ↦ v | some p ↦ stored c p ] ∷ set_row stored given cs r

-- A row after an update with these columns and conditions.
abbrev pub updated :
    (stored : Text → Text → Cell) → List Text → (set key : Dict Text Text) → Row → Row
updated stored names set key r = elim (matches stored names key r) [
  | true ↦ set_row stored set names r
  | false ↦ r
]

-- The parameters of the primary key.
abbrev pub key_of : List Text → Dict Text Text → Option (Dict Text Text)
key_of [] given = some []
key_of (k ∷ ks) given = elim (Dict.lookup k given) [
  | none ↦ none
  | some p ↦ elim (key_of ks given) [ none ↦ none | some key ↦ some ((k, p) ∷ key) ]
]

-- One row was added to a table, at some place.
abbrev pub Added : Row → List Row → List Row → Type 0
Added r old new =
    (front : List Row) × (back : List Row) × (old ≡ front ++ back) × (new ≡ front ++ (r ∷ back))

-- Parameters for columns of the table, at least one and none twice.
abbrev pub AreColumns : Model → Dict Text Text → Type 0
AreColumns m given =
    (given ≢ []) × NodupKeys given × All (λ (k, _). contains k (columns m) ≡ true) given

-- The same rows in another order.
pub data Reordered : List Row → List Row → Type 0 where
  same : (xs : List Row) → Reordered xs xs
  behind : (r : Row) {xs ys : List Row} → Reordered xs ys → Reordered (r ∷ xs) (r ∷ ys)
  swapped : (r s : Row) (xs : List Row) → Reordered (r ∷ s ∷ xs) (s ∷ r ∷ xs)
  then : {xs ys zs : List Row} → Reordered xs ys → Reordered ys zs → Reordered xs zs

-- What SQL says of the statements on the table of a model that exists. A select gives the rows in
-- any order.
pub record IsEngine {Db : Type 0} (conn : Connection Db) (m : Model) : Type 0 where
  pub stored_value : (k p : Text) → conn.stored k p ≢ null
  pub select_law :
      (given : Dict Text Text) (db : Db)
      → AreColumns m given
      → (rs : List Row) × (conn.execute (select m.table (Dict.keys given)) (Dict.values given) db
          ≡ (done rs, db))
        × Reordered rs (filter (matches conn.stored (columns m) given) (conn.rows db m.table))
  pub insert_law :
      (given : Dict Text Text) (key : Dict Text Text) (db : Db)
      → AreColumns m given
      → AreColumns m key
      → key_of m.ids given ≡ some key
      → filter (matches conn.stored (columns m) key) (conn.rows db m.table) ≡ []
      → (db' : Db) × (conn.execute (insert_cols m.table (Dict.keys given)) (Dict.values given) db
          ≡ (done [], db'))
        × Added
            (new_row conn.stored given (columns m))
            (conn.rows db m.table)
            (conn.rows db' m.table)
        × ((t : Text) → t ≢ m.table → conn.rows db' t ≡ conn.rows db t)
  -- a second row with the primary key
  pub insert_duplicate_law :
      (given : Dict Text Text) (key : Dict Text Text) (db : Db)
      → AreColumns m given
      → AreColumns m key
      → key_of m.ids given ≡ some key
      → filter (matches conn.stored (columns m) key) (conn.rows db m.table) ≢ []
      → conn.execute (insert_cols m.table (Dict.keys given)) (Dict.values given) db
        ≡ (raised database_error, db)
  -- that sets no column of the primary key
  pub update_law :
      (set key : Dict Text Text) (db : Db)
      → AreColumns m set
      → AreColumns m key
      → All (λ k. Dict.lookup k set ≡ none) m.ids
      → (db' : Db) × (conn.execute
            (update m.table (Dict.keys set) (Dict.keys key))
            (Dict.values set ++ Dict.values key)
            db
          ≡ (done [], db'))
        × (conn.rows db' m.table
            ≡ map (updated conn.stored (columns m) set key) (conn.rows db m.table))
        × ((t : Text) → t ≢ m.table → conn.rows db' t ≡ conn.rows db t)
  pub delete_law :
      (key : Dict Text Text) (db : Db)
      → AreColumns m key
      → (db' : Db) × (conn.execute (delete m.table (Dict.keys key)) (Dict.values key) db
          ≡ (done [], db'))
        × (conn.rows db' m.table
            ≡ filter (λ r. not (matches conn.stored (columns m) key r)) (conn.rows db m.table))
        × ((t : Text) → t ≢ m.table → conn.rows db' t ≡ conn.rows db t)
