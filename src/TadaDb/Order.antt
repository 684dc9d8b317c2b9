-- ===== src/TadaDb/Order.antt =====
-- `==` and `<` of Python for the values of a column.
use ldms_test.Base.{
  ◌≡◌, ◌↔◌, refl, Text, Bool, true, false, List, [], ◌∷◌, Result, ok, err, type_error, arith,
  text_beq, text_beq_iff, ◌&&◌, Eq, nat_beq_iff,
}
use ldms_test.Base.Int.{ℤ, pos, negsuc, int_beq}
use ldms_test.Sql.{Cell, null, str, int}
use ldms_test.Objects.Order.{nat_cmp, text_cmp, int_cmp}
use Prim.Native.Nat.{Ordering}
use Prim.Native.Nat.Ordering.{lt, eq, gt}

unfoldable pub same : Cell → Cell → Bool
unfolding int_beq
same null null = true
same (str s) (str t) = text_beq s t
same (int m) (int n) = int_beq m n
same _ _ = false

unfoldable pub same_list : List Cell → List Cell → Bool
unfolding same
same_list [] [] = true
same_list (c ∷ cs) (d ∷ ds) = same c d && same_list cs ds
same_list _ _ = false

pub int_beq_iff : (m n : ℤ) → (int_beq m n ≡ true) ↔ (m ≡ n)
unfolding int_beq
int_beq_iff (pos m) (pos n) = ground (arith, nat_beq_iff m n)
int_beq_iff (pos m) (negsuc n) = (λ h. cc, λ h. cc)
int_beq_iff (negsuc m) (pos n) = (λ h. cc, λ h. cc)
int_beq_iff (negsuc m) (negsuc n) = ground (arith, nat_beq_iff m n)

same_iff : (c d : Cell) → (same c d ≡ true) ↔ (c ≡ d)
unfolding same
same_iff null null = (λ _. refl, λ _. refl)
same_iff (str s) (str t) = ground (arith, text_beq_iff s t)
same_iff (int m) (int n) = ground (arith, int_beq_iff m n)
same_iff null (str t) = (λ h. cc, λ h. cc)
same_iff null (int n) = (λ h. cc, λ h. cc)
same_iff (str s) null = (λ h. cc, λ h. cc)
same_iff (str s) (int n) = (λ h. cc, λ h. cc)
same_iff (int m) null = (λ h. cc, λ h. cc)
same_iff (int m) (str t) = (λ h. cc, λ h. cc)

pub same_list_iff : (cs ds : List Cell) → (same_list cs ds ≡ true) ↔ (cs ≡ ds)
unfolding same_list
same_list_iff [] [] = (λ _. refl, λ _. refl)
same_list_iff [] (d ∷ ds) = (λ h. cc, λ h. cc)
same_list_iff (c ∷ cs) [] = (λ h. cc, λ h. cc)
same_list_iff (c ∷ cs) (d ∷ ds) = ground (arith, same_iff c d, same_list_iff cs ds)

-- Equality of tuples.
instance abbrev pub cells_eq : Eq (List Cell)
cells_eq = record { eqb = same_list; eqb_iff = same_list_iff }

is_lt : Ordering → Bool
is_lt lt = true
is_lt eq = false
is_lt gt = false

-- `<`, which `None` has with nothing
unfoldable pub before : Cell → Cell → Result Bool
unfolding is_lt
before (str s) (str t) = ok (is_lt (text_cmp s t))
before (int m) (int n) = ok (is_lt (int_cmp m n))
before _ _ = err type_error

text_le_trans :
    (r s t : Text)
    → is_lt (text_cmp s r) ≡ false
    → is_lt (text_cmp t s) ≡ false
    → is_lt (text_cmp t r) ≡ false
unfolding text_cmp is_lt nat_cmp
text_le_trans [] s [] h k = refl
text_le_trans [] s (d ∷ t) h k = refl
text_le_trans (b ∷ r) [] t h k = cc
text_le_trans (b ∷ r) (c ∷ s) [] h k = cc
text_le_trans (b ∷ r) (c ∷ s) (d ∷ t) h k = ground (arith, text_le_trans r s t)

int_le_trans :
    (l m n : ℤ)
    → is_lt (int_cmp m l) ≡ false
    → is_lt (int_cmp n m) ≡ false
    → is_lt (int_cmp n l) ≡ false
unfolding int_cmp is_lt nat_cmp
int_le_trans (pos l) (pos m) (pos n) h k = ground arith
int_le_trans (pos l) (pos m) (negsuc n) h k = cc
int_le_trans (pos l) (negsuc m) n h k = cc
int_le_trans (negsuc l) m (pos n) h k = refl
int_le_trans (negsuc l) (pos m) (negsuc n) h k = cc
int_le_trans (negsuc l) (negsuc m) (negsuc n) h k = ground arith

-- Not before one that is not before the first.
pub before_trans :
    (a b c : Cell) → before b a ≡ ok false → before c b ≡ ok false → before c a ≡ ok false
unfolding before
before_trans (str r) (str s) (str t) h k = ground (arith, text_le_trans r s t)
before_trans (int l) (int m) (int n) h k = ground (arith, int_le_trans l m n)
before_trans null (str s) c h k = cc
before_trans null (int s) c h k = cc
before_trans null null c h k = cc
before_trans a null c h k = cc
before_trans a b null h k = cc
before_trans (str r) (int s) c h k = cc
before_trans (int r) (str s) c h k = cc
before_trans (str r) (str s) (int t) h k = cc
before_trans (int r) (int s) (str t) h k = cc

text_lt-asym : (s t : Text) → is_lt (text_cmp s t) ≡ true → is_lt (text_cmp t s) ≡ false
unfolding text_cmp is_lt nat_cmp
text_lt-asym [] [] h = refl
text_lt-asym [] (d ∷ t) h = refl
text_lt-asym (c ∷ s) [] h = cc
text_lt-asym (c ∷ s) (d ∷ t) h = ground (arith, text_lt-asym s t)

int_lt-asym : (m n : ℤ) → is_lt (int_cmp m n) ≡ true → is_lt (int_cmp n m) ≡ false
unfolding int_cmp is_lt nat_cmp
int_lt-asym (pos m) (pos n) h = ground arith
int_lt-asym (pos m) (negsuc n) h = cc
int_lt-asym (negsuc m) (pos n) h = refl
int_lt-asym (negsuc m) (negsuc n) h = ground arith

pub before-asym : (a b : Cell) → before a b ≡ ok true → before b a ≡ ok false
unfolding before
before-asym (str s) (str t) h = ground (arith, text_lt-asym s t)
before-asym (int m) (int n) h = ground (arith, int_lt-asym m n)
before-asym null b h = cc
before-asym (str s) null h = cc
before-asym (int s) null h = cc
before-asym (str s) (int n) h = cc
before-asym (int s) (str n) h = cc
