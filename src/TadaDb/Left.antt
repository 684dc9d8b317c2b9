-- ===== src/TadaDb/Left.antt =====
-- Which rows of the assertions deleting the objects of a test leaves.
use ldms_test.Base.{
  ◌≡◌, ◌≢◌, refl, sym, ap, ◌∙◌, subst, Text, Bool, true, false, not, List, [], ◌∷◌, text_eq,
  text_beq_iff, All, arith, Bool-cases, inl, inr, ◌&&◌, ◌||◌,
}
use ldms_test.Base.Strings.{text}
use ldms_test.Sql.{Cell, null, str, int, shown, Row}
use ldms_test.Sql.Engine.{
  Reordered, same, behind, swapped, then, filter, zip, at, columns, matches, cell_beq, filter-keep,
  filter-skip,
}
use ldms_test.Objects.{Object, params}
use ldms_test.Objects.Rows.{object, HasWidth, cell_beq_self}
use ldms_test.Objects.Creation.{objects}
use ldms_test.TadaDb.Order.{int_beq_iff}
use ldms_test.TadaDb.{assertion_model}

-- The rows that deleting objects leaves, one after the other.
abbrev pub without_each : (Text → Text → Cell) → List Text → List Object → List Row → List Row
without_each stored names [] rows = rows
without_each stored names (o ∷ os) rows =
    without_each stored names os (filter (λ r. not (matches stored names (params o.obj_id) r)) rows)

filter-filter :
    (p q : Row → Bool) (rs : List Row) → filter p (filter q rs) ≡ filter (λ r. q r && p r) rs
filter-filter p q [] = refl
filter-filter p q (r ∷ rs) = ground (arith, filter-filter p q rs)

-- Some object has the key of a row.
abbrev pub hit : (Text → Text → Cell) → List Text → List Object → Row → Bool
hit stored names [] r = false
hit stored names (o ∷ os) r = matches stored names (params o.obj_id) r || hit stored names os r

filter-same :
    (p q : Row → Bool) (rs : List Row) → All (λ r. p r ≡ q r) rs → filter p rs ≡ filter q rs
filter-same p q [] h = refl
filter-same p q (r ∷ rs) h = ground (arith, h.0, filter-same p q rs h.1)

without_each-hit :
    (stored : Text → Text → Cell) (names : List Text) (os : List Object) (rows : List Row)
    → without_each stored names os rows ≡ filter (λ r. not (hit stored names os r)) rows
without_each-hit stored names [] rows = sym (all_kept rows)
  where
    all_kept : (rs : List Row) → filter (λ r. true) rs ≡ rs
    all_kept [] = refl
    all_kept (r ∷ rs) = ap (λ l. r ∷ l) (all_kept rs)
without_each-hit stored names (o ∷ os) rows =
    without_each-hit stored names os _
    ∙ filter-filter _ _ rows
    ∙ filter-same
        (λ r. not (matches stored names (params o.obj_id) r) && not (hit stored names os r))
        (λ r. not (hit stored names (o ∷ os) r)) rows (All-of_each rows)
  where
    All-of_each :
        (rs : List Row)
        → All
            (λ r.
              (not (matches stored names (params o.obj_id) r) && not (hit stored names os r))
              ≡ not (hit stored names (o ∷ os) r))
            rs
    All-of_each [] = tt
    All-of_each (r ∷ rs) = (ground arith, All-of_each rs)

pub reordered-All : (P : Row → Type 0) {xs ys : List Row} → Reordered xs ys → All P ys → All P xs
reordered-All P (same xs) a = a
reordered-All P (behind r p) a = (a.0, reordered-All P p a.1)
reordered-All P (swapped r s xs) a = (a.1.0, (a.0, a.1.1))
reordered-All P (then p q) a = reordered-All P p (reordered-All P q a)

hit-reordered :
    (stored : Text → Text → Cell) (names : List Text) (r : Row) {xs ys : List Row}
    → Reordered xs ys
    → hit stored names (objects assertion_model xs) r
      ≡ hit stored names (objects assertion_model ys) r
hit-reordered stored names r (same xs) = refl
hit-reordered stored names r (behind s p) =
    ap (λ b. matches stored names (params (object assertion_model s).obj_id) r || b)
      (hit-reordered stored names r p)
hit-reordered stored names r (swapped s t xs) = ground arith
hit-reordered stored names r (then p q) =
    hit-reordered stored names r p ∙ hit-reordered stored names r q

-- Which rows are left does not depend on the order of the objects.
pub without_each-reordered :
    (stored : Text → Text → Cell) (names : List Text) {xs ys : List Row}
    → Reordered xs ys
    → (rows : List Row)
    → without_each stored names (objects assertion_model xs) rows
      ≡ without_each stored names (objects assertion_model ys) rows
without_each-reordered stored names {xs} {ys} p rows =
    without_each-hit stored names (objects assertion_model xs) rows
    ∙ filter-same _ _ rows (each rows)
    ∙ sym (without_each-hit stored names (objects assertion_model ys) rows)
  where
    each :
        (rs : List Row)
        → All
            (λ r.
              not (hit stored names (objects assertion_model xs) r)
              ≡ not (hit stored names (objects assertion_model ys) r))
            rs
    each [] = tt
    each (r ∷ rs) = (ap not (hit-reordered stored names r p), each rs)

cell_beq-eq : (c d : Cell) → cell_beq c d ≡ true → c ≡ d
unfolding cell_beq
cell_beq-eq (str s) (str t) h = ap str ((text_beq_iff s t).0 h)
cell_beq-eq (int m) (int n) h = ap int ((int_beq_iff m n).0 h)
cell_beq-eq null d h = cc
cell_beq-eq (str s) null h = cc
cell_beq-eq (str s) (int n) h = cc
cell_beq-eq (int m) null h = cc
cell_beq-eq (int m) (str t) h = cc

-- A row of assertions whose key, written to the table, would be the key it has.
abbrev pub IsReadBack : (Text → Text → Cell) → Row → Type 0
IsReadBack stored r =
    HasWidth assertion_model r
    × All
        (λ k.
          (at k (zip (columns assertion_model) r) ≢ null)
          × (stored k (shown (at k (zip (columns assertion_model) r)))
              ≡ at k (zip (columns assertion_model) r)))
        assertion_model.ids

module _ (stored : Text → Text → Cell) (id : Cell) where
  -- The rows of the test.
  abbrev pub of_test : Row → Bool
  of_test r = matches stored (columns assertion_model) ((text "test_id", shown id) ∷ []) r

  abbrev pub their_objects : List Row → List Object
  their_objects rows = objects assertion_model (filter of_test rows)

  own_key :
      (r : Row)
      → IsReadBack stored r
      → matches stored (columns assertion_model) (params (object assertion_model r).obj_id) r ≡ true
  unfolding matches params
  own_key r (w, ((a, b), ((c, d), e))) =
      rw b (rw d (rw (cell_beq_self _ a) (rw (cell_beq_self _ c) refl)))

  -- The key of a row of the test is no key of a row of another test.
  foreign_key :
      (s r : Row)
      → of_test s ≡ true
      → of_test r ≡ false
      → IsReadBack stored s
      → matches stored (columns assertion_model) (params (object assertion_model s).obj_id) r
        ≡ false
  unfolding matches params
  foreign_key s r t f (w, ((a, b), rest)) =
      let e =
        cell_beq-eq (at (text "test_id") (zip (columns assertion_model) s))
          (stored (text "test_id") (shown id)) (ground arith) in
      rw b (rw e (ground arith))

  further :
      (o : Object) (os : List Object) (rows : List Row)
      → All (λ r. of_test r ≡ true → hit stored (columns assertion_model) os r ≡ true) rows
      → All (λ r. of_test r ≡ true → hit stored (columns assertion_model) (o ∷ os) r ≡ true) rows
  further o os [] h = tt
  further o os (r ∷ rows) h = (λ t. rw (h.0 t) (ground arith), further o os rows h.1)

  hit_own :
      (rows : List Row)
      → All (IsReadBack stored) rows
      → All
          (λ r.
            of_test r ≡ true → hit stored (columns assertion_model) (their_objects rows) r ≡ true)
          rows
  hit_own [] h = tt
  hit_own (r ∷ rows) h = elim (Bool-cases (of_test r)) [
    | inl e ↦
        subst
          (λ l.
            All
              (λ x.
                of_test x ≡ true
                → hit stored (columns assertion_model) (objects assertion_model l) x ≡ true)
              (r ∷ rows))
          (filter-keep of_test r rows e)
          (
            λ t. rw (own_key r h.0) refl,
            further (object assertion_model r) (their_objects rows) rows (hit_own rows h.1),
          )
    | inr e ↦
        subst
          (λ l.
            All
              (λ x.
                of_test x ≡ true
                → hit stored (columns assertion_model) (objects assertion_model l) x ≡ true)
              (r ∷ rows))
          (filter-skip of_test r rows e) (λ t. absurd (ground (arith, e, t)), hit_own rows h.1)
  ]

  hit_foreign :
      (rows : List Row) (r : Row)
      → All (IsReadBack stored) rows
      → of_test r ≡ false
      → hit stored (columns assertion_model) (their_objects rows) r ≡ false
  hit_foreign [] r h f = refl
  hit_foreign (s ∷ rows) r h f = elim (Bool-cases (of_test s)) [
    | inl e ↦
        subst (λ l. hit stored (columns assertion_model) (objects assertion_model l) r ≡ false)
          (filter-keep of_test s rows e) (rw (foreign_key s r e f h.0) (hit_foreign rows r h.1 f))
    | inr e ↦
        subst (λ l. hit stored (columns assertion_model) (objects assertion_model l) r ≡ false)
          (filter-skip of_test s rows e) (hit_foreign rows r h.1 f)
  ]

  -- Deleting the assertions of a test one by one leaves the rows that are not of the test.
  pub left_rows :
      (rows : List Row)
      → All (IsReadBack stored) rows
      → without_each stored (columns assertion_model) (their_objects rows) rows
        ≡ filter (λ r. not (of_test r)) rows
  left_rows rows h =
      without_each-hit stored (columns assertion_model) (their_objects rows) rows
      ∙ filter-same _ _ rows (each rows (hit_own rows h))
    where
      each :
          (rs : List Row)
          → All
              (λ r.
                of_test r ≡ true
                → hit stored (columns assertion_model) (their_objects rows) r ≡ true)
              rs
          → All
              (λ r.
                not (hit stored (columns assertion_model) (their_objects rows) r) ≡ not (of_test r))
              rs
      each [] a = tt
      each (r ∷ rs) a = (
        elim (Bool-cases (of_test r)) [
          | inl e ↦ rw e (rw (a.0 e) refl)
          | inr e ↦ rw e (rw (hit_foreign rows r h e) refl)
        ],
        each rs a.1,
      )
