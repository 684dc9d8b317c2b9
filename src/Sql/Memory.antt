-- ===== src/Sql/Memory.antt =====
-- A database of tables in memory, each with the columns of a model, which meets the laws of an engine.
use ldms_test.Base.{
  ◌≡◌, ◌≢◌, refl, sym, ap, Text, true, false, not, List, [], ◌∷◌, ◌++◌, append-nil, Option, none,
  some, database_error, text_eq, text_beq_iff, eq_refl, ◌==◌, length, take, drop, map, arith,
}
use ldms_test.Base.Dict
use ldms_test.Base.Dict.{Dict}
use ldms_test.Base.Outcome.{Outcome, done, raised}
use ldms_test.Sql.{
  Cell, str, Model, Row, Statement, create_table, drop_table, select, select_first, insert_cols,
  insert_row, update, delete,
}
use ldms_test.Sql.Engine.{
  Connection, filter, zip, columns, matches, new_row, updated, key_of, IsEngine, same,
}

abbrev pub Memory : Type 0
Memory = Text → List Row

-- Every value is kept as the text of its parameter.
abbrev pub as_text : Text → Text → Cell
as_text k p = str p

-- `t` with other rows
abbrev pub with_rows : Text → List Row → Memory → Memory
with_rows t rs db u = elim (u == t) [ true ↦ rs | false ↦ db u ]

-- An insert with the rows that have the same key.
put : List Row → Text → Row → Memory → Outcome (List Row) × Memory
put [] t r db = (done [], with_rows t (db t ++ (r ∷ [])) db)
put (s ∷ rs) t r db = (raised database_error, db)

key_or_all : Option (Dict Text Text) → Dict Text Text
key_or_all none = []
key_or_all (some key) = key

change : Text → Model → Dict Text Text → Dict Text Text → Memory → Outcome (List Row) × Memory
change t m [] key db = (raised database_error, db)
change t m (s ∷ set) key db =
    (done [], with_rows t (map (updated as_text (columns m) (s ∷ set) key) (db t)) db)

unfoldable pub run : (Text → Model) → Statement → List Text → Memory → Outcome (List Row) × Memory
unfolding put key_or_all change
run models (create_table n) ps db = (done [], db)
run models (drop_table t) ps db = (done [], with_rows t [] db)
run models (select t ks) ps db =
    (done (filter (matches as_text (columns (models t)) (zip ks ps)) (db t)), db)
run models (select_first t ks order) ps db =
    (done (filter (matches as_text (columns (models t)) (zip ks ps)) (db t)), db)
run models (insert_cols t ks) ps db =
    let given = zip ks ps in
    put
      (filter (matches as_text (columns (models t)) (key_or_all (key_of (models t).ids given)))
        (db t))
      t (new_row as_text given (columns (models t))) db
run models (insert_row t n) ps db = (done [], with_rows t (db t ++ (map str ps ∷ [])) db)
run models (update t set ks) ps db =
    change t (models t) (zip set (take (length set) ps)) (zip ks (drop (length set) ps)) db
run models (delete t ks) ps db = (
  done [],
  with_rows t (filter (λ r. not (matches as_text (columns (models t)) (zip ks ps) r)) (db t)) db,
)

abbrev pub memory : (Text → Model) → Connection Memory
memory models = record { execute = run models; rows = λ db t. db t; stored = as_text }

zip-keys-values : (d : Dict Text Text) → zip (Dict.keys d) (Dict.values d) ≡ d
unfolding Dict.keys Dict.values
zip-keys-values [] = refl
zip-keys-values ((k, p) ∷ d) = ap (λ e. (k, p) ∷ e) (zip-keys-values d)

take-values :
    (d : Dict Text Text) (ps : List Text)
    → take (length (Dict.keys d)) (Dict.values d ++ ps) ≡ Dict.values d
unfolding Dict.keys Dict.values
take-values [] ps = refl
take-values ((k, p) ∷ d) ps = ap (λ e. p ∷ e) (take-values d ps)

drop-values :
    (d : Dict Text Text) (ps : List Text) → drop (length (Dict.keys d)) (Dict.values d ++ ps) ≡ ps
unfolding Dict.keys Dict.values
drop-values [] ps = refl
drop-values ((k, p) ∷ d) ps = drop-values d ps

with_rows_self : (t : Text) (rs : List Row) (db : Memory) → with_rows t rs db t ≡ rs
with_rows_self t rs db = ground (arith, eq_refl t)

with_rows_other : (t u : Text) (rs : List Row) (db : Memory) → u ≢ t → with_rows t rs db u ≡ db u
with_rows_other t u rs db h = ground (arith, text_beq_iff u t)

-- The database in memory is an engine for each of its tables.
pub memory-IsEngine :
    (models : Text → Model) (m : Model) → models m.table ≡ m → IsEngine (memory models) m
unfolding run put key_or_all change
memory-IsEngine models m own = record {
  stored_value = λ k p h. cc;
  select_law = λ given db _. (
    filter (matches as_text (columns m) given) (db m.table),
    rw own (rw (zip-keys-values given) refl),
    same _,
  );
  insert_law = λ given key db _ _ e f. (
    with_rows m.table (db m.table ++ (new_row as_text given (columns m) ∷ [])) db,
    rw own (rw (zip-keys-values given) (rw e (rw f refl))),
    (db m.table, [], sym (append-nil (db m.table)), with_rows_self m.table _ db),
    λ t h. with_rows_other m.table t _ db h,
  );
  insert_duplicate_law =
      λ given key db _ _ e f. rw own (rw (zip-keys-values given) (rw e (taken m given db _ f)));
  update_law = λ set key db h _ _. (
    with_rows m.table (map (updated as_text (columns m) set key) (db m.table)) db,
    rw own (
        rw (take-values set (Dict.values key)) (
          rw (drop-values set (Dict.values key))
            (rw (zip-keys-values set) (rw (zip-keys-values key) (changed m set key db h.0))))),
    with_rows_self m.table _ db,
    λ t h. with_rows_other m.table t _ db h,
  );
  delete_law = λ key db _. (
    with_rows m.table (filter (λ r. not (matches as_text (columns m) key r)) (db m.table)) db,
    rw own (rw (zip-keys-values key) refl),
    with_rows_self m.table _ db,
    λ t h. with_rows_other m.table t _ db h,
  );
}
  where
    taken :
        (m : Model) (given : Dict Text Text) (db : Memory) (rs : List Row)
        → rs ≢ []
        → put rs m.table (new_row as_text given (columns m)) db ≡ (raised database_error, db)
    taken m given db [] h = absurd (h refl)
    taken m given db (r ∷ rs) h = refl

    changed :
        (m : Model) (set key : Dict Text Text) (db : Memory)
        → set ≢ []
        → change m.table m set key db
          ≡ (done [], with_rows m.table (map (updated as_text (columns m) set key) (db m.table)) db)
    changed m [] key db h = absurd (h refl)
    changed m (s ∷ set) key db h = refl
