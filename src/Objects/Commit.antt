-- ===== src/Objects/Commit.antt =====
-- `commit`: which columns of which row are written.
use ldms_test.Base.{
  ◌≡◌, ◌≢◌, refl, sym, ap, ◌∙◌, Text, Bool, true, false, not, List, [], ◌∷◌, Option, none, some, ok,
  contains, text_eq, text_beq_iff, eq_refl, All, arith, map, if◌then◌else◌, Option-cases,
  Result-cases, Bool-cases, inl, inr, length,
}
use ldms_test.Base.Dict
use ldms_test.Base.Dict.{Dict, NodupKeys}
use ldms_test.Base.Outcome.{done}
use ldms_test.Sql.{Cell, null, str, int, shown, Model, Row}
use ldms_test.Sql.Engine.{
  Connection, then_, filter, zip, at, columns, matches, set_row, updated, IsEngine, AreColumns,
}
use ldms_test.Objects.{Object, params, as_dict, changes, commit}
use ldms_test.Objects.Rows.{lookup-params}
use ldms_test.Objects.Creation.{selected}

-- No name is listed twice.
abbrev pub IsDistinct : List Text → Type 0
IsDistinct [] = Unit
IsDistinct (k ∷ ks) = (contains k ks ≡ false) × IsDistinct ks

as_dict-step :
    (o : Object) (k : Text) (ks : List Text) (d : Dict Text Cell)
    → as_dict o (k ∷ ks) ≡ ok d
    → (v : Cell) × (rest : Dict Text Cell) × (Dict.lookup k o.attrs ≡ some v)
      × (as_dict o ks ≡ ok rest)
      × (d ≡ (k, v) ∷ rest)
unfolding as_dict
as_dict-step o k ks d h = elim (Option-cases (Dict.lookup k o.attrs)) [
  | inl e ↦ ground (arith, e)
  | inr (v, e) ↦ elim (Result-cases (as_dict o ks)) [
    | inl (rest, f) ↦ (v, rest, e, f, ground (arith, e, f))
    | inr (x, f) ↦ ground (arith, e, f)
  ]
]

lookup-as_dict :
    (o : Object) (ks : List Text) (d : Dict Text Cell) (k : Text)
    → as_dict o ks ≡ ok d
    → Dict.lookup k d ≡ (if contains k ks then Dict.lookup k o.attrs else none)
unfolding contains Dict.lookup
lookup-as_dict o [] d k h = rw (sym (nothing d h)) refl
  where
    nothing : (e : Dict Text Cell) → as_dict o [] ≡ ok e → [] ≡ e
    nothing e h = unfold as_dict in cc h
lookup-as_dict o (j ∷ ks) d k h =
    let (v, rest, p, q, r) = as_dict-step o j ks d h in
    rw r (ground (arith, lookup-as_dict o ks rest k q, text_beq_iff j k, p))

as_dict-NodupKeys :
    (o : Object) (ks : List Text) (d : Dict Text Cell)
    → IsDistinct ks
    → as_dict o ks ≡ ok d
    → NodupKeys d
as_dict-NodupKeys o [] d u h = rw (sym (nothing d h)) tt
  where
    nothing : (e : Dict Text Cell) → as_dict o [] ≡ ok e → [] ≡ e
    nothing e h = unfold as_dict in cc h
as_dict-NodupKeys o (k ∷ ks) d u h =
    let (v, rest, p, q, r) = as_dict-step o k ks d h in
    rw r (lookup-as_dict o ks rest k q ∙ rw (u.0) refl, as_dict-NodupKeys o ks rest u.1 q)

-- What of an attribute is written.
abbrev pub written : Bool → Cell → Option Cell
written true v = none
written false v = elim v [ null ↦ none | w ↦ some w ]

changes-none :
    (id d : Dict Text Cell) (k : Text)
    → Dict.lookup k d ≡ none
    → Dict.lookup k (changes id d) ≡ none
unfolding changes Dict.lookup
changes-none id [] k h = refl
changes-none id ((j, v) ∷ d) k h = elim v [
  | null ↦ ground (arith, changes-none id d k)
  | str s ↦ ground (arith, changes-none id d k)
  | int z ↦ ground (arith, changes-none id d k)
]

lookup-changes :
    (id d : Dict Text Cell) (k : Text) (v : Cell)
    → NodupKeys d
    → Dict.lookup k d ≡ some v
    → Dict.lookup k (changes id d) ≡ written (contains k (Dict.keys id)) v
unfolding changes Dict.lookup
lookup-changes id [] k v u h = cc
lookup-changes id ((j, null) ∷ d) k v u h =
    ground (arith, lookup-changes id d k v u.1, changes-none id d k, text_beq_iff j k, u.0)
lookup-changes id ((j, str s) ∷ d) k v u h =
    ground (arith, lookup-changes id d k v u.1, changes-none id d k, text_beq_iff j k, u.0)
lookup-changes id ((j, int z) ∷ d) k v u h =
    ground (arith, lookup-changes id d k v u.1, changes-none id d k, text_beq_iff j k, u.0)

changes-key :
    (id d : Dict Text Cell) (k : Text)
    → contains k (Dict.keys id) ≡ true
    → Dict.lookup k (changes id d) ≡ none
unfolding changes Dict.lookup
changes-key id [] k h = refl
changes-key id ((j, null) ∷ d) k h = ground (arith, changes-key id d k)
changes-key id ((j, str s) ∷ d) k h = ground (arith, changes-key id d k, text_beq_iff j k)
changes-key id ((j, int z) ∷ d) k h = ground (arith, changes-key id d k, text_beq_iff j k)

-- The value of a column after an update.
abbrev pub value_after : (Text → Text → Cell) → Text → Option Cell → Cell → Cell
value_after stored k none old = old
value_after stored k (some w) old = stored k (shown w)

lookup-params-none :
    (d : Dict Text Cell) (k : Text) → Dict.lookup k d ≡ none → Dict.lookup k (params d) ≡ none
unfolding params Dict.lookup
lookup-params-none [] k h = refl
lookup-params-none ((j, w) ∷ d) k h = ground (arith, lookup-params-none d k)

at-set_row :
    (stored : Text → Text → Cell) (given : Dict Text Text) (names : List Text) (r : Row) (k : Text)
    → Dict.lookup k given ≡ none
    → at k (zip names (set_row stored given names r)) ≡ at k (zip names r)
unfolding set_row Dict.lookup
at-set_row stored given [] r k h = refl
at-set_row stored given (c ∷ cs) [] k h = refl
at-set_row stored given (c ∷ cs) (v ∷ r) k h =
    ground (arith, text_beq_iff c k, at-set_row stored given cs r k)

at-set_row-given :
    (stored : Text → Text → Cell) (given : Dict Text Text) (names : List Text) (r : Row)
    (k p : Text)
    → contains k names ≡ true
    → length r ≡ length names
    → Dict.lookup k given ≡ some p
    → at k (zip names (set_row stored given names r)) ≡ stored k p
unfolding set_row Dict.lookup contains
at-set_row-given stored given [] r k p c w h = cc
at-set_row-given stored given (c ∷ cs) [] k p d w h = absurd (omega arith)
at-set_row-given stored given (c ∷ cs) (v ∷ r) k p d w h =
    ground (arith, text_beq_iff c k, at-set_row-given stored given cs r k p)

-- An update that sets no column of the key keeps which rows match it.
matches-set_row :
    (stored : Text → Text → Cell) (given key : Dict Text Text) (names : List Text) (r : Row)
    → All (λ (k, _). Dict.lookup k given ≡ none) key
    → matches stored names key (set_row stored given names r) ≡ matches stored names key r
unfolding matches
matches-set_row stored given [] names r h = refl
matches-set_row stored given ((k, p) ∷ key) names r h =
    rw (at-set_row stored given names r k h.0)
      (rw (matches-set_row stored given key names r h.1) refl)

filter-updated :
    (stored : Text → Text → Cell) (given key : Dict Text Text) (names : List Text) (rs : List Row)
    → All (λ (k, _). Dict.lookup k given ≡ none) key
    → filter (matches stored names key) (map (updated stored names given key) rs)
      ≡ map (set_row stored given names) (filter (matches stored names key) rs)
filter-updated stored given key names [] h = refl
filter-updated stored given key names (r ∷ rs) h = elim (Bool-cases (matches stored names key r)) [
  | inl e ↦ ground (
    arith,
    e,
    matches-set_row stored given key names r h,
    filter-updated stored given key names rs h,
  )
  | inr e ↦ ground (arith, e, filter-updated stored given key names rs h)
]

-- A column of a row that is updated with the changes.
at-changed :
    (stored : Text → Text → Cell) (names : List Text) (r : Row) (given : Dict Text Cell) (k : Text)
    (o : Option Cell)
    → contains k names ≡ true
    → length r ≡ length names
    → Dict.lookup k given ≡ o
    → at k (zip names (set_row stored (params given) names r))
      ≡ value_after stored k o (at k (zip names r))
at-changed stored names r given k none c w h =
    at-set_row stored (params given) names r k (lookup-params-none given k h)
at-changed stored names r given k (some v) c w h =
    at-set_row-given stored (params given) names r k (shown v) c w (lookup-params given k v h)

-- No column of the key is among the changes.
key_kept :
    (id rest d : Dict Text Cell)
    → All (λ (k, _). contains k (Dict.keys id) ≡ true) rest
    → All (λ (k, _). Dict.lookup k (params (changes id d)) ≡ none) (params rest)
unfolding params
key_kept id [] d h = tt
key_kept id ((k, v) ∷ rest) d h =
    (lookup-params-none (changes id d) k (changes-key id d k h.0), key_kept id rest d h.1)

keys-contained : (id : Dict Text Cell) → All (λ (k, _). contains k (Dict.keys id) ≡ true) id
unfolding contains Dict.keys
keys-contained [] = tt
keys-contained ((k, v) ∷ id) = (rw eq_refl refl, further id (keys-contained id))
  where
    further :
        (ds : Dict Text Cell)
        → All (λ (j, _). contains j (Dict.keys id) ≡ true) ds
        → All (λ (j, _). contains j (k ∷ Dict.keys id) ≡ true) ds
    further [] a = tt
    further ((j, w) ∷ ds) a = (ground (arith, a.0), further ds a.1)

-- An update leaves the rows that do not match.
filter-others :
    (stored : Text → Text → Cell) (given key : Dict Text Text) (names : List Text) (rs : List Row)
    → All (λ (k, _). Dict.lookup k given ≡ none) key
    → filter (λ r. not (matches stored names key r)) (map (updated stored names given key) rs)
      ≡ filter (λ r. not (matches stored names key r)) rs
filter-others stored given key names [] h = refl
filter-others stored given key names (r ∷ rs) h = elim (Bool-cases (matches stored names key r)) [
  | inl e ↦ ground (
    arith,
    e,
    matches-set_row stored given key names r h,
    filter-others stored given key names rs h,
  )
  | inr e ↦ ground (arith, e, filter-others stored given key names rs h)
]

-- No column of the key is set.
keys-none :
    (id d : Dict Text Cell) (ks : List Text)
    → All (λ k. contains k (Dict.keys id) ≡ true) ks
    → All (λ k. Dict.lookup k (params (changes id d)) ≡ none) ks
keys-none id d [] h = tt
keys-none id d (k ∷ ks) h =
    (lookup-params-none (changes id d) k (changes-key id d k h.0), keys-none id d ks h.1)

module _ {Db : Type 0} (conn : Connection Db) (m : Model) (engine : IsEngine conn m)
    (distinct : IsDistinct (columns m)) where
  -- When one row has the key of an object, which has a value for each column of the primary key, an
  -- attribute beside the key is not `None`, and these attributes and the key are of columns, none
  -- twice, `commit` changes that row only: the rows without
  -- the key stay as they are, in their order, and so do other tables. One row has the key
  -- afterwards. In it a column has the value of the attribute, and a column of the key, and one
  -- whose attribute is `None`, has the value that it had.
  pub commit-writes :
      (o : Object) (d : Dict Text Cell) (db : Db) (r : Row)
      → as_dict o (columns m) ≡ ok d
      → AreColumns m (params (changes o.obj_id d))
      → AreColumns m (params o.obj_id)
      → All (λ k. contains k (Dict.keys o.obj_id) ≡ true) m.ids
      → selected conn m o.obj_id db ≡ r ∷ []
      → length r ≡ length (columns m)
      → (db' : Db) × (r' : Row) × (commit conn m o db ≡ (done tt, db'))
        × (selected conn m o.obj_id db' ≡ r' ∷ [])
        × (filter
              (λ x. not (matches conn.stored (columns m) (params o.obj_id) x))
              (conn.rows db' m.table)
            ≡ filter
                (λ x. not (matches conn.stored (columns m) (params o.obj_id) x))
                (conn.rows db m.table))
        × ((k : Text) (v : Cell)
            → contains k (columns m) ≡ true
            → Dict.lookup k o.attrs ≡ some v
            → at k (zip (columns m) r')
              ≡ value_after conn.stored k
                  (written (contains k (Dict.keys o.obj_id)) v)
                  (at k (zip (columns m) r)))
        × ((t : Text) → t ≢ m.table → conn.rows db' t ≡ conn.rows db t)
  unfolding commit then_
  commit-writes o d db r h some_change has_key full one w =
      let set = params (changes o.obj_id d) in
      let key = params o.obj_id in
      let kept = key_kept o.obj_id o.obj_id d (keys-contained o.obj_id) in
      let (db', p, q, s) =
        engine.update_law set key db some_change has_key (keys-none o.obj_id d m.ids full) in
      (
        db',
        set_row conn.stored set (columns m) r,
        rw h (rw p refl),
        ap (filter (matches conn.stored (columns m) key)) q
            ∙ filter-updated conn.stored set key (columns m) (conn.rows db m.table) kept
            ∙ ap (map (set_row conn.stored set (columns m))) one,
        ap (filter (λ x. not (matches conn.stored (columns m) key x))) q
            ∙ filter-others conn.stored set key (columns m) (conn.rows db m.table) kept,
        λ k v c e. at-changed conn.stored (columns m) r (changes o.obj_id d) k _ c w (
            lookup-changes o.obj_id d k v (as_dict-NodupKeys o (columns m) d distinct h)
              (lookup-as_dict o (columns m) d k h ∙ rw c e)),
        s,
      )
