-- ===== src/Sql.antt =====
-- The SQL statements that the class `SQLModel` of TADA.py writes, as data and as the text that is
-- sent, and the tables that the database gives them meaning on.
pub mod Engine
pub mod Placeholders
pub mod Memory
use ldms_test.Base.{
  ℕ, zero, suc, ◌+◌, Text, Bool, true, false, List, [], ◌∷◌, ◌++◌, Option, none, some, length,
  text_beq, map,
}
use ldms_test.Base.Dict
use ldms_test.Base.Dict.{Dict}
use ldms_test.Base.Int.{ℤ, int_text}
use ldms_test.Base.Strings.{text, join}

-- A value of a column, as an attribute of an object.
pub data Cell : Type 0 where
  null : Cell
  str : Text → Cell
  int : ℤ → Cell

-- `str(v)`
unfoldable pub shown : Cell → Text
shown null = text "None"
shown (str s) = s
shown (int z) = int_text z

-- `__table__`, `__cols__` (names and types) and `__ids__`
pub record Model : Type 0 where
  pub table : Text
  pub cols : Dict Text Text
  pub ids : List Text

abbrev pub Row : Type 0
Row = List Cell

pub data Statement : Type 0 where
  create_table : Model → Statement
  drop_table : Text → Statement
  -- table, and the columns that are compared with parameters
  select : Text → List Text → Statement
  -- the same, and the column that gives the order
  select_first : Text → List Text → Option Text → Statement
  -- table, and the columns that are given
  insert_cols : Text → List Text → Statement
  -- table, and the number of values
  insert_row : Text → ℕ → Statement
  -- table, the columns that are set, and those that are compared
  update : Text → List Text → List Text → Statement
  delete : Text → List Text → Statement

-- `[qparam] * n`
unfoldable pub repeat : ℕ → Text → List Text
repeat zero q = []
repeat (suc n) q = q ∷ repeat n q

column_type : Text × Text → Text
column_type (name, type) = name ++ (b' ' ∷ type)

-- `"{}={}".format(k, qparam)`
equation : Text → Text → Text
equation q k = k ++ (b'=' ∷ q)

-- `conn_qparam`, by the parameter style of the database module
unfoldable pub conn_qparam : Text → Text
conn_qparam style = elim (text_beq style (text "qmark")) [ true ↦ text "?" | false ↦ text "%s" ]

primary_key : List Text → Text
primary_key [] = []
primary_key (k ∷ ks) = text ", PRIMARY KEY(" ++ (join (text ",") (k ∷ ks) ++ text ")")

conditions : Text → List Text → Text
unfolding equation
conditions q ks = join (text " and ") (map (equation q) ks)

-- ` where ...` of `find`, which is left out if there is no condition
where_part : Text → List Text → Text
unfolding conditions
where_part q [] = []
where_part q (k ∷ ks) = text " where " ++ conditions q (k ∷ ks)

first_where : Text → List Text → Text
unfolding conditions
first_where q [] = []
first_where q (k ∷ ks) = text "WHERE " ++ conditions q (k ∷ ks)

order_part : Option Text → Text
order_part none = []
order_part (some []) = []
order_part (some (c ∷ k)) = text "ORDER BY " ++ (c ∷ k)

-- `_sql_create_statement`
unfoldable pub create_sql : Model → Text
unfolding column_type primary_key
create_sql m =
    text "CREATE TABLE IF NOT EXISTS "
    ++ (m.table
        ++ (text " ("
            ++ (join (text ",") (map column_type m.cols) ++ (primary_key m.ids ++ text ")"))))

-- The text of `find`, and of `_query`, which has a condition
unfoldable pub select_sql : Text → Text → List Text → Text
unfolding where_part
select_sql q t ks = text "SELECT * FROM " ++ (t ++ where_part q ks)

-- The text of `find_first`
unfoldable pub first_sql : Text → Text → List Text → Option Text → Text
unfolding first_where order_part
first_sql q t ks order =
    text "SELECT * FROM " ++ (t ++ (b' ' ∷ (first_where q ks ++ (b' ' ∷ order_part order))))

-- The texts of `create`
unfoldable pub insert_sql : Text → Text → List Text → Text
insert_sql q t ks =
    text "INSERT INTO "
    ++ (t
        ++ (text " ("
            ++ (join (text ",") ks
                ++ (text ") VALUES (" ++ (join (text ",") (repeat (length ks) q) ++ text ")")))))

unfoldable pub insert_values_sql : Text → Text → ℕ → Text
insert_values_sql q t n =
    text "INSERT INTO " ++ (t ++ (text " VALUES (" ++ (join (text ",") (repeat n q) ++ text ")")))

-- The text of `commit`
unfoldable pub update_sql : Text → Text → List Text → List Text → Text
unfolding equation conditions
update_sql q t set ks =
    text "UPDATE "
    ++ (t
        ++ (text " SET "
            ++ (join (text ", ") (map (equation q) set) ++ (text " WHERE " ++ conditions q ks))))

-- The text of `delete`
unfoldable pub delete_sql : Text → Text → List Text → Text
unfolding conditions
delete_sql q t ks = text "DELETE FROM " ++ (t ++ (text " WHERE " ++ conditions q ks))

-- The text of a statement, with `q` where a parameter stands.
unfoldable pub sql : Text → Statement → Text
unfolding create_sql select_sql first_sql insert_sql insert_values_sql update_sql delete_sql
sql q (create_table m) = create_sql m
sql q (drop_table t) = text "DROP TABLE IF EXISTS " ++ t
sql q (select t ks) = select_sql q t ks
sql q (select_first t ks order) = first_sql q t ks order
sql q (insert_cols t ks) = insert_sql q t ks
sql q (insert_row t n) = insert_values_sql q t n
sql q (update t set ks) = update_sql q t set ks
sql q (delete t ks) = delete_sql q t ks

-- How many parameters a statement takes.
unfoldable pub arity : Statement → ℕ
arity (create_table m) = 0
arity (drop_table t) = 0
arity (select t ks) = length ks
arity (select_first t ks order) = length ks
arity (insert_cols t ks) = length ks
arity (insert_row t n) = n
arity (update t set ks) = length set + length ks
arity (delete t ks) = length ks
