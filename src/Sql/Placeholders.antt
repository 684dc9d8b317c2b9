-- ===== src/Sql/Placeholders.antt =====
-- How many places for parameters the text of a statement has.
use ldms_test.Base.{
  ◌≡◌, refl, ℕ, zero, suc, ◌+◌, Text, true, false, List, [], ◌∷◌, ◌++◌, Option, none, some, All,
  arith, length, nat_beq, map, ap, ◌∙◌,
}
use ldms_test.Base.Strings.{text, join}
use ldms_test.Base.Dict.{Dict}
use ldms_test.Sql.{
  Statement, create_table, drop_table, select, select_first, insert_cols, insert_row, update,
  delete, repeat, equation, conditions, where_part, first_where, order_part, sql, select_sql,
  first_sql, insert_sql, insert_values_sql, update_sql, delete_sql, create_sql, column_type,
  primary_key, arity,
}

-- The number of question marks.
abbrev pub marks : Text → ℕ
marks [] = 0
marks (c ∷ s) = elim (nat_beq c b'?') [ true ↦ suc (marks s) | false ↦ marks s ]

abbrev pub IsPlain : Text → Type 0
IsPlain s = marks s ≡ 0

marks-append : (s t : Text) → marks (s ++ t) ≡ marks s + marks t
marks-append [] t = omega arith
marks-append (c ∷ s) t = ground (arith, marks-append s t)

-- One mark for each item that has one, and none in the separator.
marks-join :
    (sep : Text) (ss : List Text)
    → IsPlain sep
    → All (λ s. marks s ≡ 1) ss
    → marks (join sep ss) ≡ length ss
unfolding join
marks-join sep [] h a = refl
marks-join sep (s ∷ []) h a = a.0
marks-join sep (s ∷ (t ∷ ss)) h a = ground (
  arith,
  marks-append s (sep ++ join sep (t ∷ ss)),
  marks-append sep (join sep (t ∷ ss)),
  marks-join sep (t ∷ ss) h a.1,
  a.0,
)

IsPlain-join : (sep : Text) (ss : List Text) → IsPlain sep → All IsPlain ss → IsPlain (join sep ss)
unfolding join
IsPlain-join sep [] h a = refl
IsPlain-join sep (s ∷ []) h a = a.0
IsPlain-join sep (s ∷ (t ∷ ss)) h a = ground (
  arith,
  marks-append s (sep ++ join sep (t ∷ ss)),
  marks-append sep (join sep (t ∷ ss)),
  IsPlain-join sep (t ∷ ss) h a.1,
  a.0,
)

-- The number of marks of a text behind a part without any, and in front of one.
marks_behind : (s t : Text) → IsPlain s → marks (s ++ t) ≡ marks t
marks_behind s t h = omega (arith, marks-append s t, h)

marks-equations :
    (ks : List Text) → All IsPlain ks → All (λ s. marks s ≡ 1) (map (equation (text "?")) ks)
unfolding equation
marks-equations [] h = tt
marks-equations (k ∷ ks) h = (marks_behind k (b'=' ∷ b'?' ∷ []) h.0, marks-equations ks h.1)

length-equations : (q : Text) (ks : List Text) → length (map (equation q) ks) ≡ length ks
length-equations q [] = refl
length-equations q (k ∷ ks) = ap suc (length-equations q ks)

marks-joined :
    (sep : Text) (ks : List Text)
    → IsPlain sep
    → All IsPlain ks
    → marks (join sep (map (equation (text "?")) ks)) ≡ length ks
marks-joined sep ks p h =
    marks-join sep (map (equation (text "?")) ks) p (marks-equations ks h)
    ∙ length-equations (text "?") ks

marks-conditions : (ks : List Text) → All IsPlain ks → marks (conditions (text "?") ks) ≡ length ks
unfolding conditions
marks-conditions ks h = marks-joined (text " and ") ks refl h

marks-repeat : (n : ℕ) → All (λ s. marks s ≡ 1) (repeat n (text "?"))
unfolding repeat
marks-repeat zero = tt
marks-repeat (suc n) = (refl, marks-repeat n)

length-repeat : (n : ℕ) (q : Text) → length (repeat n q) ≡ n
unfolding repeat
length-repeat zero q = refl
length-repeat (suc n) q = ap suc (length-repeat n q)

-- `?,?,...,?)`
marks-places : (n : ℕ) → marks (join (text ",") (repeat n (text "?")) ++ text ")") ≡ n
marks-places n = omega (
  arith,
  marks-append (join (text ",") (repeat n (text "?"))) (text ")"),
  marks-join (text ",") (repeat n (text "?")) refl (marks-repeat n),
  length-repeat n (text "?"),
)

marks-where :
    (ks : List Text)
    → All IsPlain ks
    → (marks (where_part (text "?") ks) ≡ length ks)
      × (marks (first_where (text "?") ks) ≡ length ks)
unfolding where_part first_where
marks-where [] h = (refl, refl)
marks-where (k ∷ ks) h = (marks-conditions (k ∷ ks) h, marks-conditions (k ∷ ks) h)

IsPlain-columns :
    (d : Dict Text Text) → All (λ (n, t). IsPlain n × IsPlain t) d → All IsPlain (map column_type d)
unfolding column_type
IsPlain-columns [] h = tt
IsPlain-columns ((n, t) ∷ d) h = (marks_behind n (b' ' ∷ t) h.0.0 ∙ h.0.1, IsPlain-columns d h.1)

IsPlain-key : (ks : List Text) → All IsPlain ks → IsPlain (primary_key ks)
unfolding primary_key
IsPlain-key [] h = refl
IsPlain-key (k ∷ ks) h =
    marks_behind (join (text ",") (k ∷ ks)) (text ")") (IsPlain-join (text ",") (k ∷ ks) refl h)

abbrev pub IsPlainName : Option Text → Type 0
IsPlainName none = Unit
IsPlainName (some k) = IsPlain k

IsPlain-order : (order : Option Text) → IsPlainName order → IsPlain (order_part order)
unfolding order_part
IsPlain-order none h = refl
IsPlain-order (some []) h = refl
IsPlain-order (some (c ∷ k)) h = h

-- No name or type that a statement is made of has a question mark.
abbrev pub HasPlainNames : Statement → Type 0
HasPlainNames (create_table m) =
    IsPlain m.table × All (λ (n, t). IsPlain n × IsPlain t) m.cols × All IsPlain m.ids
HasPlainNames (drop_table t) = IsPlain t
HasPlainNames (select t ks) = IsPlain t × All IsPlain ks
HasPlainNames (select_first t ks order) = IsPlain t × All IsPlain ks × IsPlainName order
HasPlainNames (insert_cols t ks) = IsPlain t × All IsPlain ks
HasPlainNames (insert_row t n) = IsPlain t
HasPlainNames (update t set ks) = IsPlain t × All IsPlain set × All IsPlain ks
HasPlainNames (delete t ks) = IsPlain t × All IsPlain ks

-- With names that have no question mark, the text of a statement has exactly as many places for
-- parameters as the statement takes, whatever the statement.
pub marks-sql : (st : Statement) → HasPlainNames st → marks (sql (text "?") st) ≡ arity st
unfolding sql create_sql select_sql first_sql insert_sql insert_values_sql update_sql delete_sql
    arity
marks-sql (create_table m) (t, cs, ks) =
    marks_behind m.table _ t
    ∙ marks_behind (join (text ",") (map column_type m.cols)) _
        (IsPlain-join (text ",") (map column_type m.cols) refl (IsPlain-columns m.cols cs))
    ∙ marks_behind (primary_key m.ids) (text ")") (IsPlain-key m.ids ks)
marks-sql (drop_table t) h = h
marks-sql (select t ks) (h, a) = marks_behind t (where_part (text "?") ks) h ∙ (marks-where ks a).0
marks-sql (select_first t ks order) (h, a, o) =
    marks_behind t _ h
    ∙ marks-append (first_where (text "?") ks) (b' ' ∷ order_part order)
    ∙ omega (arith, (marks-where ks a).1, IsPlain-order order o)
marks-sql (insert_cols t ks) (h, a) =
    marks_behind t _ h
    ∙ marks_behind (join (text ",") ks) _ (IsPlain-join (text ",") ks refl a)
    ∙ marks-places (length ks)
marks-sql (insert_row t n) h = marks_behind t _ h ∙ marks-places n
marks-sql (update t set ks) (h, a, b) =
    marks_behind t _ h
    ∙ marks-append (join (text ", ") (map (equation (text "?")) set)) _
    ∙ omega (arith, marks-joined (text ", ") set refl a, marks-conditions ks b)
marks-sql (delete t ks) (h, a) = marks_behind t _ h ∙ marks-conditions ks a
