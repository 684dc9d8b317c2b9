-- ===== src/Objects/Rows.antt =====
-- Rows and their primary keys, as objects read them.
use ldms_test.Base.{
  ◌≡◌, ◌≢◌, refl, sym, subst, ℕ, zero, suc, Text, Bool, true, List, [], ◌∷◌, ◌++◌, Option, none,
  some, ok, contains, text_eq, text_beq_iff, eq_refl, length, ◌==◌, arith, Bool-cases, Option-cases,
  Result-cases, inl, inr, All, nat_eq, nat_beq_iff, if◌then◌else◌,
}
use ldms_test.Base.Dict
use ldms_test.Base.Dict.{Dict, NodupKeys}
use ldms_test.Base.Int.{ℤ, pos, negsuc, int_beq}
use ldms_test.Sql.{Cell, null, str, int, Model, Row, shown}
use ldms_test.Sql.Engine.{filter, zip, at, columns, cell_beq, matches, new_row, key_of, Added}
use ldms_test.Objects.{Object, index_of, elem, id_from_data, id_from_dict, make, params}

-- The primary key of a row: its values of the columns of the key.
abbrev pub picked : List Text → List Text → Row → Dict Text Cell
picked names [] r = []
picked names (k ∷ ks) r = (k, at k (zip names r)) ∷ picked names ks r

-- The object that stands for a row.
abbrev pub object : Model → Row → Object
object m r = record { obj_id = picked (columns m) m.ids r; attrs = zip (columns m) r }

-- The key is made of columns.
abbrev pub IsModel : Model → Type 0
IsModel m = All (λ k. contains k (columns m) ≡ true) m.ids

-- A row has a value for each column.
abbrev pub HasWidth : Model → Row → Type 0
HasWidth m r = length r ≡ length (columns m)

found :
    (k : Text) (names : List Text) (r : Row)
    → contains k names ≡ true
    → length r ≡ length names
    → (i : ℕ) × (index_of k names ≡ ok i) × (elem i r ≡ ok (at k (zip names r)))
unfolding index_of elem contains Dict.lookup
found k [] r h w = cc
found k (c ∷ cs) [] h w = absurd (omega arith)
found k (c ∷ cs) (v ∷ r) h w = elim (Bool-cases (c == k)) [
  | inl e ↦ (zero, ground arith, ground arith)
  | inr e ↦
      let (i, p, q) = found k cs r (ground arith) (omega arith) in
      (suc i, ground (arith, p), ground (arith, q))
]

pub id_from_data_lem :
    (names ks : List Text) (r : Row)
    → All (λ k. contains k names ≡ true) ks
    → length r ≡ length names
    → id_from_data names ks r ≡ ok (picked names ks r)
unfolding id_from_data
id_from_data_lem names [] r h w = refl
id_from_data_lem names (k ∷ ks) r h w =
    let (i, p, q) = found k names r h.0 w in
    rw p (rw q (rw (id_from_data_lem names ks r h.1 w) refl))

pub make_lem : (m : Model) (r : Row) → IsModel m → HasWidth m r → make m r ≡ ok (object m r)
unfolding make
make_lem m r h w = rw (id_from_data_lem (columns m) m.ids r h w) refl

-- `at` at the head of a row, and behind it
pub at-head :
    (k c : Text) (cs : List Text) (v : Cell) (r : Row)
    → at k (zip (c ∷ cs) (v ∷ r)) ≡ (if c == k then v else at k (zip cs r))
unfolding Dict.lookup
at-head k c cs v r = ground arith

unfoldable pub stored_or_null : (Text → Text → Cell) → Text → Option Text → Cell
stored_or_null stored k none = null
stored_or_null stored k (some p) = stored k p

pub at-new_row :
    (stored : Text → Text → Cell) (given : Dict Text Text) (names : List Text) (k : Text)
    → contains k names ≡ true
    → at k (zip names (new_row stored given names)) ≡ stored_or_null stored k (Dict.lookup k given)
unfolding new_row contains stored_or_null Dict.lookup
at-new_row stored given [] k h = cc
at-new_row stored given (c ∷ cs) k h =
    ground (arith, text_beq_iff c k, at-new_row stored given cs k)

pub length-new_row :
    (stored : Text → Text → Cell) (given : Dict Text Text) (names : List Text)
    → length (new_row stored given names) ≡ length names
unfolding new_row
length-new_row stored given [] = refl
length-new_row stored given (c ∷ cs) = omega (arith, length-new_row stored given cs)

int_beq_self : (z : ℤ) → int_beq z z ≡ true
unfolding int_beq
int_beq_self (pos n) = ground (arith, nat_beq_iff n n)
int_beq_self (negsuc n) = ground (arith, nat_beq_iff n n)

pub cell_beq_self : (c : Cell) → c ≢ null → cell_beq c c ≡ true
unfolding cell_beq
cell_beq_self null h = absurd (h refl)
cell_beq_self (str s) h = (text_beq_iff s s).1 refl
cell_beq_self (int z) h = int_beq_self z

pub lookup-params :
    (d : Dict Text Cell) (k : Text) (v : Cell)
    → Dict.lookup k d ≡ some v
    → Dict.lookup k (params d) ≡ some (shown v)
unfolding Dict.lookup params
lookup-params [] k v h = cc
lookup-params ((j, w) ∷ d) k v h = ground (arith, lookup-params d k v)

pub key_of-params :
    (ks : List Text) (d id : Dict Text Cell)
    → id_from_dict ks d ≡ ok id
    → key_of ks (params d) ≡ some (params id)
unfolding id_from_dict params
key_of-params [] d id h = cc
key_of-params (k ∷ ks) d id h = elim (Option-cases (Dict.lookup k d)) [
  | inl e ↦ ground (arith, e)
  | inr (v, e) ↦ elim (Result-cases (id_from_dict ks d)) [
    | inl (rest, f) ↦ ground (arith, e, f, lookup-params d k v e, key_of-params ks d rest f)
    | inr (x, f) ↦ ground (arith, e, f)
  ]
]

-- What a row must have to match a primary key.
id-step :
    (k : Text) (ks : List Text) (d id : Dict Text Cell)
    → id_from_dict (k ∷ ks) d ≡ ok id
    → (v : Cell) × (rest : Dict Text Cell) × (Dict.lookup k d ≡ some v)
      × (id_from_dict ks d ≡ ok rest)
      × (id ≡ (k, v) ∷ rest)
unfolding id_from_dict
id-step k ks d id h = elim (Option-cases (Dict.lookup k d)) [
  | inl e ↦ ground (arith, e)
  | inr (v, e) ↦ elim (Result-cases (id_from_dict ks d)) [
    | inl (rest, f) ↦ (v, rest, e, f, ground (arith, e, f))
    | inr (x, f) ↦ ground (arith, e, f)
  ]
]

module _ (stored : Text → Text → Cell) (value : (k p : Text) → stored k p ≢ null)
    (names : List Text) where
  -- The row that was inserted matches its own key.
  pub matches-new_row :
      (ks : List Text) (d id : Dict Text Cell)
      → All (λ k. contains k names ≡ true) ks
      → id_from_dict ks d ≡ ok id
      → matches stored names (params id) (new_row stored (params d) names) ≡ true
  unfolding matches params
  matches-new_row [] d id h e = rw (sym (empty id e)) refl
    where
      empty : (i : Dict Text Cell) → id_from_dict [] d ≡ ok i → [] ≡ i
      empty i e = unfold id_from_dict in cc e
  matches-new_row (k ∷ ks) d id h e =
      let (v, rest, p, q, r) = id-step k ks d id e in
      rw r (
        rw (matches-new_row ks d rest h.1 q) (
          rw (at-new_row stored (params d) names k h.0) (
            rw (lookup-params d k v p) (
              unfold stored_or_null in
              rw (cell_beq_self (stored k (shown v)) (value k (shown v))) refl))))

  -- A row that has the values asked for has the key asked for.
  pub matches-at :
      (given : Dict Text Text) (r : Row) (k p : Text)
      → matches stored names given r ≡ true
      → Dict.lookup k given ≡ some p
      → cell_beq (at k (zip names r)) (stored k p) ≡ true
  unfolding matches Dict.lookup
  matches-at [] r k p m h = cc
  matches-at ((j, q) ∷ given) r k p m h = ground (arith, matches-at given r k p, text_beq_iff j k)

  pub matches-key :
      (ks : List Text) (d id : Dict Text Cell) (r : Row)
      → id_from_dict ks d ≡ ok id
      → matches stored names (params d) r ≡ true
      → matches stored names (params id) r ≡ true
  unfolding matches params
  matches-key [] d id r e m = rw (sym (empty id e)) refl
    where
      empty : (i : Dict Text Cell) → id_from_dict [] d ≡ ok i → [] ≡ i
      empty i e = unfold id_from_dict in cc e
  matches-key (k ∷ ks) d id r e m =
      let (v, rest, p, q, s) = id-step k ks d id e in
      rw s (
        rw (matches-key ks d rest r q m)
          (rw (matches-at (params d) r k (shown v) m (lookup-params d k v p)) refl))

-- Each entry of a dict is what is looked up.
entries-lookup :
    (given : Dict Text Text) → NodupKeys given → All (λ (k, p). Dict.lookup k given ≡ some p) given
unfolding Dict.lookup
entries-lookup [] u = tt
entries-lookup ((k, p) ∷ given) u = (rw eq_refl refl, behind given (entries-lookup given u.1))
  where
    behind :
        (ds : Dict Text Text)
        → All (λ (j, q). Dict.lookup j given ≡ some q) ds
        → All (λ (j, q). Dict.lookup j ((k, p) ∷ given) ≡ some q) ds
    behind [] a = tt
    behind ((j, q) ∷ ds) a = (ground (arith, a.0, u.0, text_beq_iff k j), behind ds a.1)

-- The row that was inserted has the values that were given.
pub matches-given :
    (stored : Text → Text → Cell) (value : (k p : Text) → stored k p ≢ null) (names : List Text)
    (given : Dict Text Text)
    → All (λ (k, _). contains k names ≡ true) given
    → NodupKeys given
    → matches stored names given (new_row stored given names) ≡ true
unfolding matches stored_or_null
matches-given stored value names given cols u = each given cols (entries-lookup given u)
  where
    each :
        (ds : Dict Text Text)
        → All (λ (k, _). contains k names ≡ true) ds
        → All (λ (k, p). Dict.lookup k given ≡ some p) ds
        → matches stored names ds (new_row stored given names) ≡ true
    each [] c a = refl
    each ((k, p) ∷ ds) c a =
        rw (at-new_row stored given names k c.0)
          (rw (a.0) (rw (cell_beq_self (stored k p) (value k p)) (each ds c.1 a.1)))

pub filter-none {ℓ} :
    {A : Type ℓ} (p q : A → Bool) (xs : List A)
    → ((x : A) → q x ≡ true → p x ≡ true)
    → filter p xs ≡ []
    → filter q xs ≡ []
filter-none p q [] i h = refl
filter-none p q (x ∷ xs) i h = elim (Bool-cases (q x)) [
  | inl e ↦ ground (arith, i x e)
  | inr e ↦ elim (Bool-cases (p x)) [
    | inl f ↦ ground (arith, f)
    | inr f ↦ ground (arith, e, f, filter-none p q xs i)
  ]
]

pub filter-Added :
    (p : Row → Bool) (r : Row) (old new : List Row)
    → Added r old new
    → filter p old ≡ []
    → p r ≡ true
    → filter p new ≡ r ∷ []
filter-Added p r old new (front, back, e, f) h k =
    rw f (among front back (subst (λ l. filter p l ≡ []) e h))
  where
    among : (xs ys : List Row) → filter p (xs ++ ys) ≡ [] → filter p (xs ++ (r ∷ ys)) ≡ r ∷ []
    among [] ys h = ground (arith, k, h)
    among (x ∷ xs) ys h = elim (Bool-cases (p x)) [
      | inl g ↦ ground (arith, g)
      | inr g ↦ ground (arith, g, among xs ys)
    ]
