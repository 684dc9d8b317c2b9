-- ===== src/TadaDb/Latest.antt =====
-- `findTests` with `latest`: one test of each kind, the newest.
use ldms_test.Base.{
  ◌≡◌, refl, sym, ap, ◌∙◌, Bool, true, false, List, [], ◌∷◌, some, ok, All, ◌⊎◌, inl, inr, ◌>>=◌,
  >>=-eq-ok, Bool-cases, text_eq, ◌==◌,
}
use mathlib.Core.List.{Mem}
use mathlib.Core.List.{mem-cons_self, mem-cons_of_mem}
use ldms_test.Base.Dict
use ldms_test.Base.Dict.{Dict, NodupKeys, lookup-insert, insert-NodupKeys}
use ldms_test.Base.Strings.{text}
use ldms_test.Sql.{Cell}
use ldms_test.Objects.{Object}
use ldms_test.Objects.Order.{attribute}
use ldms_test.TadaDb.Order.{before, before_trans, before-asym, cells_eq, same_list_iff}
use ldms_test.TadaDb.{insert_sorted, sort_by_start, with_start, test_key, keep_last, newest}

-- The test did not start later than the other.
abbrev pub IsNotLater : Object → Object → Type 0
IsNotLater o p =
    (s : Cell) × (t : Cell) × (attribute (text "test_start") o ≡ ok s)
    × (attribute (text "test_start") p ≡ ok t)
    × (before t s ≡ ok false)

abbrev IsSorted : List (Cell × Object) → Type 0
IsSorted [] = Unit
IsSorted ((s, _) ∷ xs) = All (λ (t, _). before t s ≡ ok false) xs × IsSorted xs

All-map :
    {A : Type 0} (P Q : A → Type 0) (xs : List A) → ((x : A) → P x → Q x) → All P xs → All Q xs
All-map P Q [] f h = tt
All-map P Q (x ∷ xs) f h = (f x h.0, All-map P Q xs f h.1)

ok-injective : {A : Type 0} {a b : A} → ok a ≡ ok b → a ≡ b
ok-injective h = cc

-- What an insertion leaves, by what it compares.
inserted :
    (x y : Cell × Object) (ys zs : List (Cell × Object))
    → insert_sorted x (y ∷ ys) ≡ ok zs
    → ((r : List (Cell × Object)) × (before (y.0) (x.0) ≡ ok true)
        × (insert_sorted x ys ≡ ok r)
        × (zs ≡ y ∷ r))
      ⊎ ((before (y.0) (x.0) ≡ ok false) × (zs ≡ x ∷ y ∷ ys))
unfolding insert_sorted
inserted x y ys zs h = let (b, p, h1) = >>=-eq-ok (before (y.0) (x.0)) _ h in by b p h1
  where
    by :
        (b : Bool)
        → before (y.0) (x.0) ≡ ok b
        → elim b [ true ↦ insert_sorted x ys >>= λ r. ok (y ∷ r) | false ↦ ok (x ∷ y ∷ ys) ] ≡ ok zs
        → ((r : List (Cell × Object)) × (before (y.0) (x.0) ≡ ok true)
            × (insert_sorted x ys ≡ ok r)
            × (zs ≡ y ∷ r))
          ⊎ ((before (y.0) (x.0) ≡ ok false) × (zs ≡ x ∷ y ∷ ys))
    by true p h = let (r, q, e) = >>=-eq-ok (insert_sorted x ys) _ h in inl (r, p, q, cc)
    by false p h = inr (p, cc)

inserted-nil :
    (x : Cell × Object) (zs : List (Cell × Object)) → insert_sorted x [] ≡ ok zs → x ∷ [] ≡ zs
unfolding insert_sorted
inserted-nil x zs h = cc

-- Both ways, an insertion keeps what holds of all.
inserted-All :
    (P : Cell × Object → Type 0) (x : Cell × Object) (ys zs : List (Cell × Object))
    → insert_sorted x ys ≡ ok zs
    → (P x → All P ys → All P zs) × (All P zs → P x × All P ys)
inserted-All P x [] zs h = rw (sym (inserted-nil x zs h)) (λ p q. (p, tt), λ q. (q.0, tt))
inserted-All P x (y ∷ ys) zs h = elim (inserted x y ys zs h) [
  | inl (r, p, q, e) ↦
      let (f, g) = inserted-All P x ys r q in
      rw e (λ a b. (b.0, f a b.1), λ a. let (c, d) = g a.1 in (c, (a.0, d)))
  | inr (p, e) ↦ rw e (λ a b. (a, b), λ a. a)
]

insert_sorted-IsSorted :
    (x : Cell × Object) (ys zs : List (Cell × Object))
    → insert_sorted x ys ≡ ok zs
    → IsSorted ys
    → IsSorted zs
insert_sorted-IsSorted x [] zs h s = rw (sym (inserted-nil x zs h)) (tt, tt)
insert_sorted-IsSorted x (y ∷ ys) zs h s = elim (inserted x y ys zs h) [
  | inl (r, p, q, e) ↦ rw e (
    (inserted-All (λ z. before (z.0) (y.0) ≡ ok false) x ys r q).0 (before-asym (y.0) (x.0) p) s.0,
    insert_sorted-IsSorted x ys r q s.1,
  )
  | inr (p, e) ↦ rw e (
    (
      p,
      All-map (λ z. before (z.0) (y.0) ≡ ok false) (λ z. before (z.0) (x.0) ≡ ok false) ys
          (λ z q. before_trans (x.0) (y.0) (z.0) p q) s.0,
    ),
    s,
  )
]

sort_by_start-IsSorted : (xs ys : List (Cell × Object)) → sort_by_start xs ≡ ok ys → IsSorted ys
unfolding sort_by_start
sort_by_start-IsSorted [] ys h = rw (sym (ok-injective h)) tt
sort_by_start-IsSorted (x ∷ xs) ys h =
    let (r, p, q) = >>=-eq-ok (sort_by_start xs) _ h in
    insert_sorted-IsSorted x r ys q (sort_by_start-IsSorted xs r p)

sort_by_start-All :
    (P : Cell × Object → Type 0) (xs ys : List (Cell × Object))
    → sort_by_start xs ≡ ok ys
    → (All P xs → All P ys) × (All P ys → All P xs)
unfolding sort_by_start
sort_by_start-All P [] ys h = rw (sym (ok-injective h)) (λ a. a, λ a. a)
sort_by_start-All P (x ∷ xs) ys h =
    let (r, p, q) = >>=-eq-ok (sort_by_start xs) _ h in
    let (f, g) = inserted-All P x r ys q in
    let (f', g') = sort_by_start-All P xs r p in
    (λ a. f a.0 (f' a.1), λ a. let (b, c) = g a in (b, g' c))

-- What an entry of the dict holds after the loop: the test before it, or a later one.
keep_last-kept :
    (Q : Object → Type 0) (k : List Cell) (xs : List (Cell × Object))
    (d d' : Dict (List Cell) Object) (p : Object)
    → keep_last d xs ≡ ok d'
    → All (λ (_, o). Q o) xs
    → Dict.lookup k d ≡ some p
    → Q p
    → (p' : Object) × (Dict.lookup k d' ≡ some p') × Q p'
unfolding keep_last
keep_last-kept Q k [] d d' p h a l q = rw (sym (ok-injective h)) (p, l, q)
keep_last-kept Q k ((s, o) ∷ xs) d d' p h a l q =
    let (j, e, h1) = >>=-eq-ok (test_key o) _ h in
    elim (Bool-cases (j == k)) [
      | inl f ↦
          keep_last-kept Q k xs (Dict.insert j o d) d' o h1 a.1 (lookup-insert k j o d ∙ rw f refl)
            a.0
      | inr f ↦
          keep_last-kept Q k xs (Dict.insert j o d) d' p h1 a.1 (lookup-insert k j o d ∙ rw f l) q
    ]

-- For each test that was read an entry: itself, or one that did not start earlier.
keep_last-newest :
    (xs : List (Cell × Object)) (d d' : Dict (List Cell) Object)
    → keep_last d xs ≡ ok d'
    → IsSorted xs
    → All (λ (s, o). attribute (text "test_start") o ≡ ok s) xs
    → All
        (λ (_, o).
          (k : List Cell) × (p : Object) × (test_key o ≡ ok k)
          × (Dict.lookup k d' ≡ some p)
          × ((o ≡ p) ⊎ IsNotLater o p))
        xs
unfolding keep_last
keep_last-newest [] d d' h s a = tt
keep_last-newest ((s, o) ∷ xs) d d' h sorted a =
    let (k, e, h1) = >>=-eq-ok (test_key o) _ h in
    let (p, l, q) =
      keep_last-kept (λ p. (o ≡ p) ⊎ IsNotLater o p) k xs (Dict.insert k o d) d' o h1
        (later xs sorted.0 a.1) (lookup-insert k k o d ∙ rw ((same_list_iff k k).1 refl) refl)
        (inl refl) in
    ((k, p, e, l, q), keep_last-newest xs (Dict.insert k o d) d' h1 sorted.1 a.1)
  where
    later :
        (ys : List (Cell × Object))
        → All (λ (t, _). before t s ≡ ok false) ys
        → All (λ (t, p). attribute (text "test_start") p ≡ ok t) ys
        → All (λ (_, p). (o ≡ p) ⊎ IsNotLater o p) ys
    later [] b c = tt
    later ((t, p) ∷ ys) b c = (inr (s, t, a.0, c.0, b.0), later ys b.1 c.1)

insert-All :
    (P : List Cell × Object → Type 0) (k : List Cell) (o : Object) (d : Dict (List Cell) Object)
    → ((j : List Cell) → j ≡ k → P (j, o))
    → All P d
    → All P (Dict.insert k o d)
unfolding Dict.insert
insert-All P k o [] p a = (p k refl, tt)
insert-All P k o ((j, q) ∷ d) p a = elim (Bool-cases (j == k)) [
  | inl e ↦ rw (e, Dict.insert) (p j ((same_list_iff j k).0 e), a.1)
  | inr e ↦ rw (e, Dict.insert) (a.0, insert-All P k o d p a.1)
]

-- The entries: each has the key of its test, which is among those that were read, and none twice.
keep_last-entries :
    (P : Object → Type 0) (xs : List (Cell × Object)) (d d' : Dict (List Cell) Object)
    → keep_last d xs ≡ ok d'
    → All (λ (_, o). P o) xs
    → NodupKeys d
    → All (λ (k, p). (test_key p ≡ ok k) × P p) d
    → NodupKeys d' × All (λ (k, p). (test_key p ≡ ok k) × P p) d'
unfolding keep_last
keep_last-entries P [] d d' h a u e = rw (sym (ok-injective h)) (u, e)
keep_last-entries P ((s, o) ∷ xs) d d' h a u e =
    let (k, f, h1) = >>=-eq-ok (test_key o) _ h in
    keep_last-entries P xs (Dict.insert k o d) d' h1 a.1 (insert-NodupKeys k o d u)
      (insert-All (λ (k, p). (test_key p ≡ ok k) × P p) k o d (λ j g. (f ∙ ap ok (sym g), a.0)) e)

with_start-All :
    (P : Object → Type 0) (os : List Object) (xs : List (Cell × Object))
    → with_start os ≡ ok xs
    → All (λ (s, o). attribute (text "test_start") o ≡ ok s) xs
      × (All P os → All (λ (_, o). P o) xs)
      × (All (λ (_, o). P o) xs → All P os)
unfolding with_start
with_start-All P [] xs h = rw (sym (ok-injective h)) (tt, λ a. a, λ a. a)
with_start-All P (o ∷ os) xs h =
    let (s, p, h1) = >>=-eq-ok (attribute (text "test_start") o) _ h in
    let (r, q, h2) = >>=-eq-ok (with_start os) _ h1 in
    let (f, g, i) = with_start-All P os r q in
    rw (sym (ok-injective h2)) ((p, f), λ a. (a.0, g a.1), λ a. (a.0, i a.1))

members : (os : List Object) → All (λ o. Mem o os) os
members [] = tt
members (o ∷ os) = (
  mem-cons_self,
  All-map (λ p. Mem p os) (λ p. Mem p (o ∷ os)) os (λ p m. mem-cons_of_mem o m) (members os),
)

-- When the newest tests are found, each is one of the tests given, under its own suite, type, name,
-- user and commit, and no two share these. For each test given, one with the same five is found
-- that is that test itself, or did not start earlier.
pub newest_lem :
    (os : List Object) (d : Dict (List Cell) Object)
    → newest os ≡ ok d
    → NodupKeys d
      × All (λ (k, p). (test_key p ≡ ok k) × Mem p os) d
      × All
          (λ o.
            (k : List Cell) × (p : Object) × (test_key o ≡ ok k)
            × (Dict.lookup k d ≡ some p)
            × ((o ≡ p) ⊎ IsNotLater o p))
          os
unfolding newest
newest_lem os d h =
    let (xs, p, h1) = >>=-eq-ok (with_start os) _ h in
    let (ys, q, h2) = >>=-eq-ok (sort_by_start xs) _ h1 in
    let (starts, given, back) = with_start-All (λ o. Mem o os) os xs p in
    let (u, e) =
      keep_last-entries (λ o. Mem o os) ys [] d h2
        ((sort_by_start-All (λ (_, o). Mem o os) xs ys q).0 (given (members os))) tt tt in
    (
      u,
      e,
      (with_start-All _ os xs p).2 (
          (sort_by_start-All _ xs ys q).1 (
            keep_last-newest ys [] d h2 (sort_by_start-IsSorted xs ys q) (
              (sort_by_start-All (λ (s, o). attribute (text "test_start") o ≡ ok s) xs ys q).0
                starts))),
    )
