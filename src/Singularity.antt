-- ===== src/Singularity.antt =====
-- runtime/singularity.py, the class `HexRanges`: sorted ranges of numbers. An entry [a, b] is a pair;
-- the lists that entries are in the source are changed in place, also those that `union` shares with
-- its arguments, which shows only where ranges overlap. `inv` is given bounds, as in its one call.
pub mod Ranges
pub mod Hex
pub mod Addresses
pub mod Containers
mod Examples
use ldms_test.Base.{
  ℕ, zero, suc, ◌+◌, ◌-◌, ◌*◌, ◌/◌, ◌%◌, Text, Bool, true, false, List, [], ◌∷◌, ◌++◌, Option, none,
  some, ltb, leb, ◌==◌, ◌&&◌, if◌then◌else◌, nat_eq, text_eq,
}
use ldms_test.Base.Strings.{text}

abbrev pub Entry : Type 0
Entry = ℕ × ℕ

-- `<=` on the lists [a, b]
unfoldable pub entry_le : Entry → Entry → Bool
entry_le (a, b) (c, d) = if ltb a c then true else (a == c && leb b d)

-- `insort`: behind the entries that are not after it
unfoldable pub insort : Entry → List Entry → List Entry
unfolding entry_le
insort x [] = x ∷ []
insort x (e ∷ es) = if entry_le e x then e ∷ insort x es else x ∷ (e ∷ es)

-- `list.sort`
unfoldable pub sort : List Entry → List Entry
unfolding insort
sort [] = []
sort (e ∷ es) = insort e (sort es)

-- The loop of `prune`, with the last entry of `tmp`
unfoldable pub prune_from : Entry → List Entry → List Entry
prune_from (a, b) [] = (a, b) ∷ []
prune_from (a, b) ((c, d) ∷ es) =
    let kept = (a, b) ∷ prune_from (c, d) es in
    let merged = prune_from (a, d) es in elim (ltb b c) [ true ↦ kept | false ↦ merged ]

prune_sorted : List Entry → List Entry
unfolding prune_from
prune_sorted [] = []
prune_sorted (e ∷ es) = prune_from e es

unfoldable pub prune : List Entry → List Entry
unfolding prune_sorted sort
prune es = prune_sorted (sort es)

unfoldable pub concat : List (List Entry) → List Entry
concat [] = []
concat (r ∷ rs) = r ++ concat rs

unfoldable pub union : List (List Entry) → List Entry
unfolding concat prune
union rs = prune (concat rs)

-- `ins` once `bisect` has found the place: the entry before it, and those after it
unfoldable pub place : Option Entry → Entry → List Entry → List Entry
place none ent [] = ent ∷ []
place none (a, b) ((c, d) ∷ es) = if leb c b then (a, d) ∷ es else (a, b) ∷ ((c, d) ∷ es)
place (some (x, y)) (a, b) [] = if leb a y then (x, b) ∷ [] else (x, y) ∷ ((a, b) ∷ [])
place (some (x, y)) (a, b) ((c, d) ∷ es) =
    if leb a y
    then (if leb c b then (x, d) ∷ es else (x, b) ∷ ((c, d) ∷ es))
    else (if leb c b then (x, y) ∷ ((a, d) ∷ es) else (x, y) ∷ ((a, b) ∷ ((c, d) ∷ es)))

emit : Option Entry → List Entry → List Entry
emit none es = es
emit (some e) es = e ∷ es

-- `bisect`, with the entry that was passed last
unfoldable pub ins_from : Option Entry → Entry → List Entry → List Entry
unfolding place emit entry_le
ins_from l ent [] = place l ent []
ins_from l ent (e ∷ es) =
    let later = emit l (ins_from (some e) ent es) in
    elim (entry_le e ent) [ true ↦ later | false ↦ place l ent (e ∷ es) ]

unfoldable pub ins : Entry → List Entry → List Entry
unfolding ins_from
ins ent es = ins_from none ent es

-- The loop of `inv`: `l`, the entries left, and `_new`. `l <= ent[0] - 1` is `l < ent[0]`.
unfoldable pub inv_from : ℕ → ℕ → List Entry → List Entry → List Entry
unfolding ins
inv_from l last [] new = if leb l last then ins (l, last) new else new
inv_from l last ((a, b) ∷ es) new =
    inv_from (b + 1) last es (if ltb l a then ins (l, a - 1) new else new)

unfoldable pub inv : ℕ → ℕ → List Entry → List Entry
unfolding inv_from
inv first last es = inv_from first last es []

-- `range(a, a + n)`
unfoldable pub numbers_from : ℕ → ℕ → List ℕ
numbers_from a zero = []
numbers_from a (suc n) = a ∷ numbers_from (a + 1) n

-- `__iter__`
unfoldable pub numbers : List Entry → List ℕ
unfolding numbers_from
numbers [] = []
numbers ((a, b) ∷ es) = numbers_from a (b + 1 - a) ++ numbers es

-- A digit of `[0-9A-F]`, in either case
unfoldable pub hex_digit : ℕ → Option ℕ
hex_digit c =
    if leb b'0' c && leb c b'9'
    then some (c - b'0')
    else if leb b'A' c && leb c b'F'
    then some (c - b'A' + 10)
    else if leb b'a' c && leb c b'f'
    then some (c - b'a' + 10)
    else none

-- How much of the pattern has been read: nothing, the first number, the number and a dash, and both
pub data Match : Type 0 where
  outside : Match
  first : ℕ → Match
  dash : ℕ → Match
  second : ℕ → ℕ → Match

digit : Match → ℕ → Match
digit outside v = first v
digit (first a) v = first (a * 16 + v)
digit (dash a) v = second a v
digit (second a b) v = second a (b * 16 + v)

-- "," or the end of the text, after a match
found : Match → List Entry → List Entry
found (first a) es = (a, a) ∷ es
found (second a b) es = (a, b) ∷ es
found outside es = es
found (dash a) es = es

-- "-": a number that has no part in a match may still be the first of the next one
dashed : Match → Match
dashed (first a) = dash a
dashed (second a b) = dash b
dashed outside = outside
dashed (dash a) = outside

-- Any other character; "$" also stands before a line feed at the end.
unfoldable pub scan : Match → Text → List Entry
unfolding digit found dashed
scan m [] = found m []
scan m (c ∷ s) =
    let on_digit = λ (v : ℕ). scan (digit m v) s in
    let on_comma = found m (scan outside s) in
    let on_dash = scan (dashed m) s in
    let on_other = found (if c == 10 && (s == []) then m else outside) (scan outside s) in
    elim (hex_digit c) [
      | some v ↦ on_digit v
      | none ↦ elim (c == b',') [
        | true ↦ on_comma
        | false ↦ elim (c == b'-') [ true ↦ on_dash | false ↦ on_other ]
      ]
    ]

-- `RE.findall`, with the numbers read and the second taken from the first where it is missing
unfoldable pub find_all : Text → List Entry
unfolding scan hex_digit
find_all s = scan outside s

insort_all : List Entry → List Entry → List Entry
unfolding insort
insort_all [] es = es
insort_all (x ∷ xs) es = insort_all xs (insort x es)

-- `__init__`
unfoldable pub hex_ranges : Text → List Entry
unfolding find_all insort_all prune
hex_ranges s = prune (insort_all (find_all s) [])

-- "{:X}"
unfoldable pub hex_char : ℕ → ℕ
hex_char v = if ltb v 10 then b'0' + v else b'A' + (v - 10)

unfoldable pub hex_from : ℕ → ℕ → Text
unfolding hex_char
hex_from zero n = []
hex_from (suc fuel) n =
    let rest = hex_from fuel (n / 16) ++ (hex_char (n % 16) ∷ []) in
    if ltb n 16 then hex_char n ∷ [] else rest

-- A number has at most one digit more than its value.
unfoldable pub hex : ℕ → Text
unfolding hex_from
hex n = hex_from (suc n) n

unfoldable pub entry_text : Entry → Text
unfolding hex
entry_text (a, b) = if a == b then hex a else hex a ++ (b'-' ∷ hex b)

-- `__str__`
unfoldable pub to_str : List Entry → Text
unfolding entry_text
to_str [] = []
to_str (e ∷ []) = entry_text e
to_str (e ∷ (f ∷ es)) = entry_text e ++ (b',' ∷ to_str (f ∷ es))
