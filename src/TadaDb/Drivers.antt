-- ===== src/TadaDb/Drivers.antt =====
-- How TADA.py connects to a database: the module for a driver, and what its `connect` is called
-- with.
use ldms_test.Base.{
  Text, Bool, true, false, [], ◌∷◌, ◌++◌, none, some, Result, ok, err, type_error, runtime_error,
  text_eq, ◌>>=◌, zero,
}
use ldms_test.Base.Dict
use ldms_test.Base.Dict.{Dict}
use ldms_test.Base.Int.{pos}
use ldms_test.Base.Strings.{text}
use ldms_test.Sql.{Cell, null, str, int, shown}

-- The arguments of `connect`
pub data Call : Type 0 where
  path : Cell → Call
  named : Dict Text Cell → Call

-- A keyword argument with its default.
abbrev keyword : Text → Cell → Dict Text Cell → Cell
keyword k default kwargs = elim (Dict.lookup k kwargs) [ none ↦ default | some v ↦ v ]

truthy : Cell → Bool
truthy null = false
truthy (str []) = false
truthy (str (c ∷ s)) = true
truthy (int (pos zero)) = false
truthy (int n) = true

-- `db_loc`, which the log shows
unfoldable pub db_loc : Text → Cell → Text
unfolding truthy shown
db_loc host port = elim (truthy port) [ true ↦ host ++ (b':' ∷ shown port) | false ↦ host ]

unfoldable pub sqlite_connect : Dict Text Cell → Result Call
sqlite_connect kwargs = elim (Dict.lookup (text "db_path") kwargs) [
  | none ↦ err type_error
  | some p ↦ ok (path p)
]

unfoldable pub pgsql_connect : Dict Text Cell → Result Call
pgsql_connect kwargs = ok (
    named (
      (text "host", keyword (text "db_host") (str (text "localhost")) kwargs)
      ∷ (text "port", keyword (text "db_port") null kwargs)
      ∷ (text "user", keyword (text "db_user") null kwargs)
      ∷ (text "password", keyword (text "db_password") null kwargs)
      ∷ (text "database", keyword (text "db_database") null kwargs)
      ∷ []))

-- `{ k:v for k,v in _kwargs.items() if v != None }`
unfoldable pub given_only : Dict Text Cell → Dict Text Cell
given_only [] = []
given_only ((k, v) ∷ d) =
    let rest = given_only d in
    elim v [ null ↦ rest | str s ↦ (k, str s) ∷ rest | int n ↦ (k, int n) ∷ rest ]

unfoldable pub mysql_connect : Dict Text Cell → Result Call
unfolding given_only
mysql_connect kwargs = ok (
    named (
      given_only (
        (text "host", keyword (text "db_host") (str (text "localhost")) kwargs)
        ∷ (text "port", keyword (text "db_port") null kwargs)
        ∷ (text "user", keyword (text "db_user") null kwargs)
        ∷ (text "passwd", keyword (text "db_password") null kwargs)
        ∷ (text "db", keyword (text "db_database") null kwargs)
        ∷ [])))

-- `DB_CONN_TBL`
abbrev pub db_conn_tbl : Dict Text ((Dict Text Cell → Result Call) × Text)
db_conn_tbl =
    (text "sqlite", (sqlite_connect, text "sqlite3"))
    ∷ (text "mysql", (mysql_connect, text "MySQLdb"))
    ∷ (text "pgsql", (pgsql_connect, text "psycopg2"))
    ∷ (text "postgres", (pgsql_connect, text "psycopg2"))
    ∷ (text "postgresql", (pgsql_connect, text "psycopg2"))
    ∷ []

-- `__init__` of `TADA_DB` up to `init_tables`: the module that is imported, and the call
unfoldable pub connect : Text → Dict Text Cell → Result (Text × Call)
connect driver kwargs = elim (Dict.lookup driver db_conn_tbl) [
  | none ↦ err runtime_error
  | some (f, name) ↦ f kwargs >>= λ c. ok (name, c)
]
