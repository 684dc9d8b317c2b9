-- ===== src/Compare/Same.antt =====
-- `obj_xeq` of an object with itself, and what decides the comparison of two `XCmp` objects.
use ldms_test.Base.{
  ◌≡◌, refl, ap, Text, Bool, true, none, some, List, [], ◌∷◌, ◌==◌, nat_eq, text_eq, ℕ, Bool-cases,
  text_beq_iff, eq_refl, All, Result, ok, arith, inl, inr,
}
use ldms_test.Base.Dict
use ldms_test.Base.Dict.{Dict, NodupKeys}
use ldms_test.Base.Int.{ℤ, pos, negsuc, int_beq}
use ldms_test.Compare.{
  Obj, Items, Fields, none_, num, str, bytes, list, dict, address, xcmp, nil, cons, end, field,
  Class, elements_of, entries, class_beq, scalar_eq, listed, pop_first, sort, keys_eq, compare_keys,
  addr_xeq, as_ipv6, obj_xeq, items_xeq, field_xeq, attrs_xeq, insert_sorted, text_ltb,
}

-- No attribute of an `XCmp` object is listed twice, at any depth.
unfoldable mutual
  pub WellKeyed : Obj → Type 0
  WellKeyed (list as_) = WellKeyedItems as_
  WellKeyed (dict fs) = WellKeyedFields fs
  WellKeyed (xcmp c fs) = NodupKeys (entries fs) × WellKeyedFields fs
  WellKeyed _ = Unit {0}

  pub WellKeyedItems : Items → Type 0
  WellKeyedItems nil = Unit {0}
  WellKeyedItems (cons a as_) = WellKeyed a × WellKeyedItems as_

  pub WellKeyedFields : Fields → Type 0
  WellKeyedFields end = Unit {0}
  WellKeyedFields (field k v fs) = WellKeyed v × WellKeyedFields fs

keys_eq_refl : (ks : List Text) → keys_eq ks ks ≡ true
keys_eq_refl [] = refl
keys_eq_refl (k ∷ ks) = ground (arith, eq_refl k, keys_eq_refl ks)

class_beq_refl : (c : Class) → class_beq c c ≡ true
unfolding class_beq
class_beq_refl c = ground arith

int_beq_refl : (n : ℤ) → int_beq n n ≡ true
unfolding int_beq
int_beq_refl (pos n) = ground arith
int_beq_refl (negsuc n) = ground arith

addr_xeq_refl : (a : ℕ × ℕ × List ℕ) → addr_xeq a a ≡ true
unfolding addr_xeq
addr_xeq_refl a = ground (arith, eq_refl a.2)

All-insert_sorted :
    (P : Text → Type 0) (k : Text) (ks : List Text) → P k → All P ks → All P (insert_sorted k ks)
unfolding insert_sorted
All-insert_sorted P k [] p h = (p, tt)
All-insert_sorted P k (j ∷ ks) p h = elim (Bool-cases (text_ltb j k)) [
  | inl less ↦ rw less (h.0, All-insert_sorted P k ks p h.1)
  | inr not_less ↦ rw not_less (p, h)
]

All-sort : (P : Text → Type 0) (ks : List Text) → All P ks → All P (sort ks)
unfolding sort
All-sort P [] h = tt
All-sort P (k ∷ ks) h = All-insert_sorted P k (sort ks) h.0 (All-sort P ks h.1)

-- The key is there.
abbrev Listed : Fields → Text → Type 0
Listed fs k = (w : Obj) × (Dict.lookup k (entries fs) ≡ some w)

Listed-field :
    (j : Text) (v : Obj) (fs : Fields) (ks : List Text)
    → All (Listed fs) ks
    → All (Listed (field j v fs)) ks
unfolding entries Dict.lookup
Listed-field j v fs [] h = tt
Listed-field j v fs (k ∷ ks) h = (one k h.0, Listed-field j v fs ks h.1)
  where
    one : (k : Text) → Listed fs k → Listed (field j v fs) k
    one k (w, found) = elim (Bool-cases (j == k)) [
      | inl same ↦ (v, ground (arith, same))
      | inr other ↦ (w, ground (arith, other, found))
    ]

Listed-keys : (fs : Fields) → All (Listed fs) (Dict.keys (entries fs))
unfolding entries Dict.keys Dict.lookup
Listed-keys end = tt
Listed-keys (field k v fs) =
    ((v, rw eq_refl refl), Listed-field k v fs (Dict.keys (entries fs)) (Listed-keys fs))

-- Every attribute is found in `d` with its value.
abbrev Found : Dict Text Obj → Fields → Type 0
Found d end = Unit {0}
Found d (field k v fs) = (Dict.lookup k d ≡ some v) × Found d fs

compare_keys-All :
    (same : Text → Obj → Result Bool) (fs : Fields) (ks : List Text)
    → All (Listed fs) ks
    → ((k : Text) (w : Obj) → Dict.lookup k (entries fs) ≡ some w → same k w ≡ ok true)
    → compare_keys same ks (entries fs) ≡ ok true
unfolding compare_keys
compare_keys-All same fs [] h e = refl
compare_keys-All same fs (k ∷ ks) ((w, found), h) e =
    ground (arith, found, e k w found, compare_keys-All same fs ks h e)

Found-field :
    (d : Dict Text Obj) (k : Text) (v : Obj) (fs : Fields)
    → Dict.lookup k (entries fs) ≡ none
    → Found d fs
    → Found ((k, v) ∷ d) fs
unfolding entries Dict.lookup
Found-field d k v end fresh h = tt
Found-field d k v (field j w fs) fresh h = (
  ground (arith, h.0, text_beq_iff k j, text_beq_iff j k, fresh),
  Found-field d k v fs (ground (arith, fresh)) h.1,
)

Found-self : (fs : Fields) → NodupKeys (entries fs) → Found (entries fs) fs
unfolding entries Dict.lookup
Found-self end u = tt
Found-self (field k v fs) u =
    (rw eq_refl refl, Found-field (entries fs) k v fs u.0 (Found-self fs u.1))

mutual
  unfolding obj_xeq elements_of listed pop_first scalar_eq entries Dict.lookup WellKeyed

  same_obj : (a : Obj) → WellKeyed a → obj_xeq a a ≡ ok true
  same_obj none_ h = refl
  same_obj (num n) h = ap ok (int_beq_refl n)
  same_obj (str s) h = ap ok (eq_refl s)
  same_obj (bytes s) h = ap ok (eq_refl s)
  same_obj (list as_) h = rw eq_refl (same_items as_ h)
  same_obj (address f p s) h = ap ok (addr_xeq_refl (as_ipv6 f p s))
  same_obj (dict fs) h = rw keys_eq_refl (
      compare_keys-All (field_xeq fs) fs (sort (Dict.keys (entries fs)))
        (All-sort (Listed fs) (Dict.keys (entries fs)) (Listed-keys fs)) (same_field fs h))
  same_obj (xcmp c fs) h = rw class_beq_refl (same_attrs fs h.1 (entries fs) (Found-self fs h.0))

  same_items : (as_ : Items) → WellKeyedItems as_ → items_xeq as_ (elements_of as_) ≡ ok true
  same_items nil h = refl
  same_items (cons a as_) h = rw (same_obj a h.0) (same_items as_ h.1)

  same_field :
      (fs : Fields)
      → WellKeyedFields fs
      → (k : Text) (w : Obj) → Dict.lookup k (entries fs) ≡ some w
      → field_xeq fs k w ≡ ok true
  same_field end h k w found = cc
  same_field (field j v fs) h k w found =
      ground (arith, found, same_obj v h.0, same_field fs h.1 k w)

  same_attrs :
      (fs : Fields)
      → WellKeyedFields fs
      → (d : Dict Text Obj) → Found d fs
      → attrs_xeq fs d ≡ ok true
  same_attrs end h d found = refl
  same_attrs (field k v fs) h d found =
      ground (arith, found.0, same_obj v h.0, same_attrs fs h.1 d found.1)

-- `obj_xeq` accepts an object beside itself, however deep lists, dicts and objects are nested in
-- it, where no object has an attribute twice: the search of `list_xeq` for each element never
-- goes astray, and no exception is raised.
pub obj_xeq_self : (a : Obj) → WellKeyed a → obj_xeq a a ≡ ok true
obj_xeq_self = same_obj
