-- ===== src/Base/Strings.antt =====
-- Python's `str` as code points, with the methods that the program calls.
use Prim.Native.Nat.{ℕ, zero, suc, ◌+◌, ◌-◌, ◌*◌, ◌/◌, ◌%◌, ◌<◌}
use Prim.Native.Char.{code}
use Prim.Native.String.{String}
use mathlib.Core.Path.{◌≡◌, refl, ap, ◌∙◌}
use mathlib.Core.Bool.{Bool, true, false, ◌&&◌}
use mathlib.Core.Option.{Option, none, some}
use mathlib.Core.List.{List, [], ◌∷◌, ◌++◌}
use native.Mathlib.Omega.{arith}
use ldms_test.Base.Tests.{ltb, if◌then◌else◌}
use ldms_test.Base.Equality.{Text, ◌==◌, nat_eq}
use ldms_test.Base.Lists.{All}

-- A literal.
abbrev pub text : String → Text
text String.[] = []
text (String.◌∷◌ c s) = code c ∷ text s

-- `sep.join(parts)`
unfoldable pub join : Text → List Text → Text
join sep [] = []
join sep (p ∷ []) = p
join sep (p ∷ (q ∷ ps)) = p ++ (sep ++ join sep (q ∷ ps))

-- `s.split(c, 1)`: what stands before the first `c`, and what stands after it if there is one
unfoldable pub split_once : ℕ → Text → Text × Option Text
split_once c [] = ([], none)
split_once c (d ∷ s) = let (a, b) = split_once c s in if d == c then ([], some s) else (d ∷ a, b)

abbrev pub Lacks : ℕ → Text → Type 0
Lacks c = All (λ d. (d == c) ≡ false)

-- The same as a test, which proves it of a literal by `refl`.
abbrev pub lacks : ℕ → Text → Bool
lacks c [] = true
lacks c (d ∷ s) = if d == c then false else lacks c s

pub Lacks-of_lacks : (c : ℕ) (s : Text) → lacks c s ≡ true → Lacks c s
Lacks-of_lacks c [] h = tt
Lacks-of_lacks c (d ∷ s) h = (ground arith, Lacks-of_lacks c s (ground arith))

abbrev pub all_lack : ℕ → List Text → Bool
all_lack c [] = true
all_lack c (s ∷ ss) = if lacks c s then all_lack c ss else false

pub All-of_all_lack : (c : ℕ) (ss : List Text) → all_lack c ss ≡ true → All (Lacks c) ss
All-of_all_lack c [] h = tt
All-of_all_lack c (s ∷ ss) h =
    (Lacks-of_lacks c s (ground arith), All-of_all_lack c ss (ground arith))

pub split_once-append : (c : ℕ) (a b : Text) → Lacks c a → split_once c (a ++ (c ∷ b)) ≡ (a, some b)
unfolding split_once
split_once-append c [] b h = ground arith
split_once-append c (d ∷ a) b h = ground (arith, split_once-append c a b h.1)

-- `str.endswith`, on the reversed texts
unfoldable pub starts_with : Text → Text → Bool
starts_with s [] = true
starts_with [] (d ∷ p) = false
starts_with (c ∷ s) (d ∷ p) = c == d && starts_with s p

unfoldable pub decimal_from : ℕ → ℕ → Text
decimal_from zero n = []
decimal_from (suc fuel) n =
    let rest = decimal_from fuel (n / 10) ++ ((48 + n % 10) ∷ []) in
    if ltb n 10 then (48 + n) ∷ [] else rest

-- `str(n)`; a number has at most one digit more than its value
unfoldable pub decimal : ℕ → Text
unfolding decimal_from
decimal n = decimal_from (suc n) n

unfoldable pub value_from : ℕ → Text → ℕ
value_from a [] = a
value_from a (c ∷ s) = value_from (a * 10 + (c - 48)) s

value_from-append :
    (a : ℕ) (s : Text) (c : ℕ) → value_from a (s ++ (c ∷ [])) ≡ value_from a s * 10 + (c - 48)
unfolding value_from
value_from-append a [] c = refl
value_from-append a (d ∷ s) c = value_from-append (a * 10 + (d - 48)) s c

value_from-decimal_from : (fuel n : ℕ) → n < fuel → value_from 0 (decimal_from fuel n) ≡ n
unfolding decimal_from value_from
value_from-decimal_from zero n h = elim h [ ]
value_from-decimal_from (suc fuel) n h = ground (
  arith,
  value_from-append 0 (decimal_from fuel (n / 10)) (48 + n % 10),
  value_from-decimal_from fuel (n / 10),
)

pub value_from-decimal : (n : ℕ) → value_from 0 (decimal n) ≡ n
unfolding decimal
value_from-decimal n = value_from-decimal_from (suc n) n (omega arith)

-- Two numbers that print alike are equal.
pub decimal-injective : (m n : ℕ) → decimal m ≡ decimal n → m ≡ n
unfolding decimal
decimal-injective m n h = omega (
  arith,
  ap (value_from 0) h,
  value_from-decimal_from (suc m) m (omega arith),
  value_from-decimal_from (suc n) n (omega arith),
)

decimal_example : decimal 9862 ≡ text "9862"
unfolding decimal
decimal_example = refl

cons_first : ℕ → List Text → List Text
cons_first d [] = (d ∷ []) ∷ []
cons_first d (p ∷ ps) = (d ∷ p) ∷ ps

-- `s.split(c)`
unfoldable pub split : ℕ → Text → List Text
unfolding cons_first
split c [] = [] ∷ []
split c (d ∷ s) = let parts = split c s in if d == c then [] ∷ parts else cons_first d parts

pub split-cons : (c : ℕ) (a s : Text) → Lacks c a → split c (a ++ (c ∷ s)) ≡ a ∷ split c s
unfolding split
split-cons c [] s h = ground arith
split-cons c (d ∷ a) s h = ground (arith, split-cons c a s h.1)

pub split_one : (c : ℕ) (a : Text) → Lacks c a → split c a ≡ a ∷ []
unfolding split
split_one c [] h = refl
split_one c (d ∷ a) h = ground (arith, split_one c a h.1)

pub split-join :
    (c : ℕ) (part : Text) (parts : List Text)
    → Lacks c part
    → All (Lacks c) parts
    → split c (join (c ∷ []) (part ∷ parts)) ≡ part ∷ parts
unfolding join
split-join c part [] h hs = split_one c part h
split-join c part (p ∷ ps) h hs =
    split-cons c part _ h ∙ ap (λ ps. part ∷ ps) (split-join c p ps hs.0 hs.1)

-- `s.splitlines()`, where lines end by newlines only
lines_of : Text → List Text → List Text
lines_of [] [] = []
lines_of (c ∷ s) [] = (c ∷ s) ∷ []
lines_of s (p ∷ ps) = s ∷ lines_of p ps

split_lines : List Text → List Text
unfolding lines_of
split_lines [] = []
split_lines (p ∷ ps) = lines_of p ps

unfoldable pub splitlines : Text → List Text
unfolding split split_lines
splitlines s = split_lines (split b'\n' s)

-- Each line, and a newline behind it.
abbrev pub newlines : List Text → Text
newlines [] = []
newlines (l ∷ ls) = l ++ (b'\n' ∷ newlines ls)

split-newlines :
    (ls : List Text) → All (Lacks b'\n') ls → split b'\n' (newlines ls) ≡ ls ++ ([] ∷ [])
unfolding split
split-newlines [] hs = refl
split-newlines (l ∷ ls) hs =
    split-cons b'\n' l (newlines ls) hs.0 ∙ ap (λ ps. l ∷ ps) (split-newlines ls hs.1)

lines_of-ended : (l : Text) (ls : List Text) → lines_of l (ls ++ ([] ∷ [])) ≡ l ∷ ls
unfolding lines_of
lines_of-ended l [] = refl
lines_of-ended l (p ∷ ps) = ap (λ ps. l ∷ ps) (lines_of-ended p ps)

split_lines-ended : (ls : List Text) → split_lines (ls ++ ([] ∷ [])) ≡ ls
unfolding split_lines lines_of
split_lines-ended [] = refl
split_lines-ended (l ∷ ls) = lines_of-ended l ls

pub splitlines-newlines : (ls : List Text) → All (Lacks b'\n') ls → splitlines (newlines ls) ≡ ls
unfolding splitlines
splitlines-newlines ls hs = ap split_lines (split-newlines ls hs) ∙ split_lines-ended ls

drop_while : ℕ → Text → Text
drop_while c [] = []
drop_while c (d ∷ s) = let rest = drop_while c s in if d == c then rest else d ∷ s

cons_unless : ℕ → ℕ → Text → Text
cons_unless c d [] = if d == c then [] else d ∷ []
cons_unless c d (x ∷ xs) = d ∷ (x ∷ xs)

drop_last_while : ℕ → Text → Text
drop_last_while c [] = []
drop_last_while c (d ∷ s) = cons_unless c d (drop_last_while c s)

-- `s.strip(c)`
unfoldable pub strip : ℕ → Text → Text
unfolding drop_while drop_last_while cons_unless
strip c s = drop_last_while c (drop_while c s)
