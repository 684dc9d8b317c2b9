-- ===== src/Objects/Order.antt =====
-- `__cmp__` of the class `SQLModel`, which orders objects column by column, `None` first.
use ldms_test.Base.{
  ◌≡◌, refl, ℕ, Text, List, [], ◌∷◌, none, some, Result, ok, err, type_error, attribute_error,
  arith, ltb, nat_eq, if◌then◌else◌, ◌>>=◌, text_eq, ◌∙◌, ap, sym, All, >>=-eq-ok,
}
use ldms_test.Base.Dict
use ldms_test.Base.Dict.{Dict}
use ldms_test.Base.Int.{ℤ, pos, negsuc}
use ldms_test.Sql.{Cell, null, str, int}
use ldms_test.Objects.{Object}
use Prim.Native.Nat.{Ordering}
use Prim.Native.Nat.Ordering.{lt, eq, gt}

-- The result of a comparison: -1, 0 or 1
unfoldable pub nat_cmp : ℕ → ℕ → Ordering
nat_cmp m n = if ltb m n then lt else if ltb n m then gt else eq

unfoldable pub text_cmp : Text → Text → Ordering
unfolding nat_cmp
text_cmp [] [] = eq
text_cmp [] (d ∷ t) = lt
text_cmp (c ∷ s) [] = gt
text_cmp (c ∷ s) (d ∷ t) =
    let rest = text_cmp s t in elim (nat_cmp c d) [ lt ↦ lt | gt ↦ gt | eq ↦ rest ]

unfoldable pub int_cmp : ℤ → ℤ → Ordering
unfolding nat_cmp
int_cmp (pos m) (pos n) = nat_cmp m n
int_cmp (pos m) (negsuc n) = gt
int_cmp (negsuc m) (pos n) = lt
int_cmp (negsuc m) (negsuc n) = nat_cmp n m

-- A column: `None` first, and `<` of a text and a number raises.
unfoldable pub cell_cmp : Cell → Cell → Result Ordering
unfolding text_cmp int_cmp
cell_cmp null null = ok eq
cell_cmp null (str t) = ok lt
cell_cmp null (int n) = ok lt
cell_cmp (str s) null = ok gt
cell_cmp (int m) null = ok gt
cell_cmp (str s) (str t) = ok (text_cmp s t)
cell_cmp (int m) (int n) = ok (int_cmp m n)
cell_cmp (str s) (int n) = err type_error
cell_cmp (int m) (str t) = err type_error

-- `getattr(self, k)`
unfoldable pub attribute : Text → Object → Result Cell
attribute k o = elim (Dict.lookup k o.attrs) [ none ↦ err attribute_error | some v ↦ ok v ]

unless_eq : Ordering → Result Ordering → Result Ordering
unless_eq lt rest = ok lt
unless_eq gt rest = ok gt
unless_eq eq rest = rest

-- `__cmp__` over the names of the columns
unfoldable pub compare : List Text → Object → Object → Result Ordering
unfolding cell_cmp attribute unless_eq
compare [] a b = ok eq
compare (k ∷ ks) a b =
    let rest = compare ks a b in
    attribute k a >>= λ v. attribute k b >>= λ w. cell_cmp v w >>= λ c. unless_eq c rest

abbrev pub flip : Ordering → Ordering
flip lt = gt
flip eq = eq
flip gt = lt

nat_cmp-flip : (m n : ℕ) → nat_cmp n m ≡ flip (nat_cmp m n)
unfolding nat_cmp
nat_cmp-flip m n = ground arith

text_cmp-flip : (s t : Text) → text_cmp t s ≡ flip (text_cmp s t)
unfolding text_cmp
text_cmp-flip [] [] = refl
text_cmp-flip [] (d ∷ t) = refl
text_cmp-flip (c ∷ s) [] = refl
text_cmp-flip (c ∷ s) (d ∷ t) = ground (arith, nat_cmp-flip c d, text_cmp-flip s t)

cell_cmp-flip : (v w : Cell) (c : Ordering) → cell_cmp v w ≡ ok c → cell_cmp w v ≡ ok (flip c)
unfolding cell_cmp int_cmp
cell_cmp-flip null null c h = ground arith
cell_cmp-flip null (str t) c h = ground arith
cell_cmp-flip null (int n) c h = ground arith
cell_cmp-flip (str s) null c h = ground arith
cell_cmp-flip (int m) null c h = ground arith
cell_cmp-flip (str s) (str t) c h = ground (arith, text_cmp-flip s t)
cell_cmp-flip (int (pos m)) (int (pos n)) c h = ground (arith, nat_cmp-flip m n)
cell_cmp-flip (int (pos m)) (int (negsuc n)) c h = ground arith
cell_cmp-flip (int (negsuc m)) (int (pos n)) c h = ground arith
cell_cmp-flip (int (negsuc m)) (int (negsuc n)) c h = ground (arith, nat_cmp-flip n m)
cell_cmp-flip (str s) (int n) c h = cc
cell_cmp-flip (int m) (str t) c h = cc

nat_cmp-eq : (m n : ℕ) → nat_cmp m n ≡ eq → m ≡ n
unfolding nat_cmp
nat_cmp-eq m n h = ground arith

text_cmp-eq : (s t : Text) → text_cmp s t ≡ eq → s ≡ t
unfolding text_cmp
text_cmp-eq [] [] h = refl
text_cmp-eq [] (d ∷ t) h = cc
text_cmp-eq (c ∷ s) [] h = cc
text_cmp-eq (c ∷ s) (d ∷ t) h = ground (arith, nat_cmp-eq c d, text_cmp-eq s t)

cell_cmp-eq : (v w : Cell) → cell_cmp v w ≡ ok eq → v ≡ w
unfolding cell_cmp int_cmp
cell_cmp-eq null null h = refl
cell_cmp-eq null (str t) h = cc
cell_cmp-eq null (int n) h = cc
cell_cmp-eq (str s) null h = cc
cell_cmp-eq (int m) null h = cc
cell_cmp-eq (str s) (str t) h = ground (arith, text_cmp-eq s t)
cell_cmp-eq (int (pos m)) (int (pos n)) h = ground (arith, nat_cmp-eq m n)
cell_cmp-eq (int (pos m)) (int (negsuc n)) h = cc
cell_cmp-eq (int (negsuc m)) (int (pos n)) h = cc
cell_cmp-eq (int (negsuc m)) (int (negsuc n)) h = ground (arith, nat_cmp-eq n m)
cell_cmp-eq (str s) (int n) h = cc
cell_cmp-eq (int m) (str t) h = cc

nat_cmp_trans : (l m n : ℕ) → nat_cmp l m ≡ lt → nat_cmp m n ≡ lt → nat_cmp l n ≡ lt
unfolding nat_cmp
nat_cmp_trans l m n h k = ground arith

text_cmp_trans : (r s t : Text) → text_cmp r s ≡ lt → text_cmp s t ≡ lt → text_cmp r t ≡ lt
unfolding text_cmp nat_cmp
text_cmp_trans [] s (d ∷ t) h k = refl
text_cmp_trans [] [] [] h k = cc
text_cmp_trans [] (c ∷ s) [] h k = cc
text_cmp_trans (b ∷ r) [] t h k = cc
text_cmp_trans (b ∷ r) (c ∷ s) [] h k = cc
text_cmp_trans (b ∷ r) (c ∷ s) (d ∷ t) h k = ground (arith, text_cmp_trans r s t)

int_cmp_trans : (l m n : ℤ) → int_cmp l m ≡ lt → int_cmp m n ≡ lt → int_cmp l n ≡ lt
unfolding int_cmp nat_cmp
int_cmp_trans (pos l) (pos m) (pos n) h k = ground arith
int_cmp_trans (pos l) (pos m) (negsuc n) h k = cc
int_cmp_trans (pos l) (negsuc m) n h k = cc
int_cmp_trans (negsuc l) m (pos n) h k = refl
int_cmp_trans (negsuc l) (pos m) (negsuc n) h k = cc
int_cmp_trans (negsuc l) (negsuc m) (negsuc n) h k = ground arith

cell_cmp_trans : (u v w : Cell) → cell_cmp u v ≡ ok lt → cell_cmp v w ≡ ok lt → cell_cmp u w ≡ ok lt
unfolding cell_cmp
cell_cmp_trans null v (str t) h k = refl
cell_cmp_trans null v (int n) h k = refl
cell_cmp_trans null null null h k = cc
cell_cmp_trans null (str s) null h k = cc
cell_cmp_trans null (int m) null h k = cc
cell_cmp_trans (str r) null w h k = cc
cell_cmp_trans (str r) (str s) null h k = cc
cell_cmp_trans (str r) (str s) (str t) h k = ground (arith, text_cmp_trans r s t)
cell_cmp_trans (str r) (str s) (int n) h k = cc
cell_cmp_trans (str r) (int m) w h k = cc
cell_cmp_trans (int l) null w h k = cc
cell_cmp_trans (int l) (str s) w h k = cc
cell_cmp_trans (int l) (int m) null h k = cc
cell_cmp_trans (int l) (int m) (str t) h k = cc
cell_cmp_trans (int l) (int m) (int n) h k = ground (arith, int_cmp_trans l m n)

-- What a comparison that does not raise has read of the first column.
compare-step :
    (k : Text) (ks : List Text) (a b : Object) (c : Ordering)
    → compare (k ∷ ks) a b ≡ ok c
    → (v : Cell) × (w : Cell) × (x : Ordering) × (attribute k a ≡ ok v)
      × (attribute k b ≡ ok w)
      × (cell_cmp v w ≡ ok x)
      × (unless_eq x (compare ks a b) ≡ ok c)
unfolding compare
compare-step k ks a b c h =
    let (v, p, h1) = >>=-eq-ok (attribute k a) _ h in
    let (w, q, h2) = >>=-eq-ok (attribute k b) _ h1 in
    let (x, r, h3) = >>=-eq-ok (cell_cmp v w) _ h2 in (v, w, x, p, q, r, h3)

-- Two columns in a row: the rest decides where they are equal.
columns_trans :
    (x y : Ordering) (u v w : Cell) (r s t : Result Ordering)
    → cell_cmp u v ≡ ok x
    → cell_cmp v w ≡ ok y
    → unless_eq x r ≡ ok lt
    → unless_eq y s ≡ ok lt
    → (r ≡ ok lt → s ≡ ok lt → t ≡ ok lt)
    → (cell_cmp u w >>= λ c. unless_eq c t) ≡ ok lt
unfolding unless_eq
columns_trans lt lt u v w r s t p q f g h = rw (cell_cmp_trans u v w p q) refl
columns_trans lt eq u v w r s t p q f g h = rw (sym (cell_cmp-eq v w q)) (rw p refl)
columns_trans eq lt u v w r s t p q f g h = rw (cell_cmp-eq u v p) (rw q refl)
columns_trans eq eq u v w r s t p q f g h = rw (cell_cmp-eq u v p) (rw q (h f g))
columns_trans gt y u v w r s t p q f g h = cc
columns_trans x gt u v w r s t p q f g h = cc

compare_trans :
    (ks : List Text) (a b d : Object)
    → compare ks a b ≡ ok lt
    → compare ks b d ≡ ok lt
    → compare ks a d ≡ ok lt
unfolding compare
compare_trans [] a b d h k = cc
compare_trans (j ∷ ks) a b d h k =
    let (u, v, x, p, q, e, f) = compare-step j ks a b lt h in
    let (v', w, y, p', q', e', f') = compare-step j ks b d lt k in
    rw p (
      rw q' (
        columns_trans x y u v w (compare ks a b) (compare ks b d) (compare ks a d) e
          (same_column v v' w y q p' e') f f' (compare_trans ks a b d)))
  where
    same_column :
        (v v' w : Cell) (y : Ordering)
        → attribute j b ≡ ok v
        → attribute j b ≡ ok v'
        → cell_cmp v' w ≡ ok y
        → cell_cmp v w ≡ ok y
    same_column v v' w y p q e = cc

-- The first columns compared the other way round.
columns_flip :
    (x c : Ordering) (v w : Cell) (r s : Result Ordering)
    → cell_cmp v w ≡ ok x
    → unless_eq x r ≡ ok c
    → (r ≡ ok c → s ≡ ok (flip c))
    → (cell_cmp w v >>= λ y. unless_eq y s) ≡ ok (flip c)
unfolding unless_eq
columns_flip lt c v w r s p f h = rw (cell_cmp-flip v w lt p) cc
columns_flip eq c v w r s p f h = rw (cell_cmp-flip v w eq p) (h f)
columns_flip gt c v w r s p f h = rw (cell_cmp-flip v w gt p) cc

columns_eq :
    (x : Ordering) (v w : Cell) (r : Result Ordering)
    → cell_cmp v w ≡ ok x
    → unless_eq x r ≡ ok eq
    → (v ≡ w) × (r ≡ ok eq)
unfolding unless_eq
columns_eq lt v w r p f = cc
columns_eq eq v w r p f = (cell_cmp-eq v w p, f)
columns_eq gt v w r p f = cc

compare-flip :
    (ks : List Text) (a b : Object) (c : Ordering)
    → compare ks a b ≡ ok c
    → compare ks b a ≡ ok (flip c)
unfolding compare
compare-flip [] a b c h = ground arith
compare-flip (k ∷ ks) a b c h =
    let (v, w, x, p, q, e, f) = compare-step k ks a b c h in
    rw p (rw q (columns_flip x c v w (compare ks a b) (compare ks b a) e f (compare-flip ks a b c)))

compare-eq :
    (ks : List Text) (a b : Object)
    → compare ks a b ≡ ok eq
    → All (λ k. attribute k a ≡ attribute k b) ks
compare-eq [] a b h = tt
compare-eq (k ∷ ks) a b h =
    let (v, w, x, p, q, e, f) = compare-step k ks a b eq h in
    let (g, i) = columns_eq x v w (compare ks a b) e f in (p ∙ ap ok g ∙ sym q, compare-eq ks a b i)

-- Objects whose comparison does not raise compare the other way round with the opposite result,
-- and agree in every column if the result is 0. An object that is smaller than a second one, which
-- is smaller than a third, is smaller than the third.
pub compare-order :
    (ks : List Text) (a b : Object) (c : Ordering)
    → compare ks a b ≡ ok c
    → (compare ks b a ≡ ok (flip c))
      × (c ≡ eq → All (λ k. attribute k a ≡ attribute k b) ks)
      × ((d : Object) → c ≡ lt → compare ks b d ≡ ok lt → compare ks a d ≡ ok lt)
compare-order ks a b c h = (
  compare-flip ks a b c h,
  λ e. compare-eq ks a b (h ∙ ap ok e),
  λ d e k. compare_trans ks a b d (h ∙ ap ok e) k,
)
