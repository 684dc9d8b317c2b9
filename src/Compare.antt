-- ===== src/Compare.antt =====
-- The comparison of statistics in LDMS_Test.py: `obj_xeq`, `list_xeq`, `dict_xeq` and the classes
-- derived from `XCmp`, and the class `StreamData`. An object is compared loosely: an attribute
-- that is `None` on either side is passed over.
-- Integers and `bool` are one type of numbers, as Python's `==` has it; a `bytes` is the list of
-- its numbers. The keys of a `dict` are texts. An object of a class is its class and attributes;
-- those of an `LdmsAddr` have their declared types.
pub mod Stream
pub mod Lists
pub mod Same
pub mod Loose
mod Examples
use ldms_test.Base.{
  ℕ, zero, suc, Text, Bool, true, false, not, ◌&&◌, ◌||◌, Option, none, some, List, [], ◌∷◌, ◌++◌,
  ◌==◌, nat_eq, text_eq, if◌then◌else◌, length, map, Result, ok, err, type_error, attribute_error,
  key_error, ◌>>=◌, ltb,
}
use ldms_test.Base.Dict
use ldms_test.Base.Dict.{Dict}
use ldms_test.Base.Int.{ℤ, pos, int_beq}
use ldms_test.Base.Strings.{text}

-- The classes that derive from `XCmp` and have its `xeq`.
pub data Class : Type 0 where
  time_spec stream_counters stream_src_stats : Class
  stream_client_pair_stats stream_stats stream_client_stats : Class

mutual
  pub data Obj : Type 0 where
    none_ : Obj
    num : ℤ → Obj
    str : Text → Obj
    bytes : List ℕ → Obj
    list : Items → Obj
    dict : Fields → Obj
    -- family, port, addr
    address : ℕ → ℕ → List ℕ → Obj
    xcmp : Class → Fields → Obj

  pub data Items : Type 0 where
    nil : Items
    cons : Obj → Items → Items

  pub data Fields : Type 0 where
    end : Fields
    field : Text → Obj → Fields → Fields

unfoldable pub elements_of : Items → List Obj
elements_of nil = []
elements_of (cons a as_) = a ∷ elements_of as_

unfoldable pub entries : Fields → Dict Text Obj
entries end = []
entries (field k v fs) = (k, v) ∷ entries fs

unfoldable pub class_beq : Class → Class → Bool
class_beq time_spec time_spec = true
class_beq stream_counters stream_counters = true
class_beq stream_src_stats stream_src_stats = true
class_beq stream_client_pair_stats stream_client_pair_stats = true
class_beq stream_stats stream_stats = true
class_beq stream_client_stats stream_client_stats = true
class_beq _ _ = false

-- `a == b` where `a` is no list, dict or `XCmp`
unfoldable pub scalar_eq : Obj → Obj → Bool
scalar_eq none_ none_ = true
scalar_eq (num m) (num n) = int_beq m n
scalar_eq (str s) (str t) = s == t
scalar_eq (bytes s) (bytes t) = s == t
scalar_eq _ _ = false

-- `len(l1)` and `list(l1)` of the right side of `list_xeq`
unfoldable pub listed : Obj → Result (List Obj)
listed (list as_) = ok (elements_of as_)
listed (dict fs) = ok (map str (Dict.keys (entries fs)))
listed (str s) = ok (map (λ c. str (c ∷ [])) s)
listed (bytes s) = ok (map (λ c. num (pos c)) s)
listed _ = err type_error

-- The inner loop of `list_xeq` and `lx.pop(i)`: the list without the first element that `same`
-- accepts, or `none` for the `return False` of its `else`.
unfoldable pub pop_first : (Obj → Result Bool) → List Obj → Result (Option (List Obj))
pop_first same [] = ok none
pop_first same (b ∷ lx) = do
  found ← same b
  let rest = pop_first same lx >>= λ r. ok (elim r [ none ↦ none | some lx' ↦ some (b ∷ lx') ])
  if found then ok (some lx) else rest

-- `k.sort()` of texts
text_ltb : Text → Text → Bool
text_ltb [] [] = false
text_ltb [] (d ∷ t) = true
text_ltb (c ∷ s) [] = false
text_ltb (c ∷ s) (d ∷ t) = if ltb c d then true else if c == d then text_ltb s t else false

insert_sorted : Text → List Text → List Text
insert_sorted k [] = k ∷ []
insert_sorted k (j ∷ ks) = if text_ltb j k then j ∷ insert_sorted k ks else k ∷ (j ∷ ks)

pub sort : List Text → List Text
unfolding insert_sorted text_ltb
sort [] = []
sort (k ∷ ks) = insert_sorted k (sort ks)

abbrev keys_eq : List Text → List Text → Bool
keys_eq [] [] = true
keys_eq [] (k ∷ ks) = false
keys_eq (j ∷ js) [] = false
keys_eq (j ∷ js) (k ∷ ks) = j == k && keys_eq js ks

-- The loop of `dict_xeq` over the sorted keys.
unfoldable pub compare_keys : (Text → Obj → Result Bool) → List Text → Dict Text Obj → Result Bool
compare_keys same [] d = ok true
compare_keys same (k ∷ ks) d = elim (Dict.lookup k d) [
  | none ↦ err key_error
  | some w ↦ do
    found ← same k w
    let rest = compare_keys same ks d
    if found then rest else ok false
]

-- `LdmsAddr.as_ipv6`; 10 is `AF_INET6`
abbrev pub mapped_prefix : List ℕ
mapped_prefix = 0 ∷ 0 ∷ 0 ∷ 0 ∷ 0 ∷ 0 ∷ 0 ∷ 0 ∷ 0 ∷ 0 ∷ 255 ∷ 255 ∷ []

unfoldable pub as_ipv6 : ℕ → ℕ → List ℕ → ℕ × ℕ × List ℕ
as_ipv6 family port addr =
    if family == 10 then (family, port, addr) else (10, port, mapped_prefix ++ addr)

-- `LdmsAddr.xeq`: no attribute is `None`.
unfoldable pub addr_xeq : ℕ × ℕ × List ℕ → ℕ × ℕ × List ℕ → Bool
addr_xeq (f, p, s) (g, q, t) = f == g && p == q && s == t

unfoldable pub is_none : Obj → Bool
is_none none_ = true
is_none _ = false

-- `list_xeq` and `XCmp.xeq` are the cases of lists and of objects.
unfoldable mutual
  pub obj_xeq : Obj → Obj → Result Bool
  obj_xeq (list as_) b = do
    lx ← listed b
    let rest = items_xeq as_ lx
    if length (elements_of as_) == length lx then rest else ok false
  obj_xeq (dict fs) (dict gs) =
      let ks = sort (Dict.keys (entries fs)) in
      let rest = compare_keys (field_xeq fs) ks (entries gs) in
      if keys_eq ks (sort (Dict.keys (entries gs))) then rest else ok false
  obj_xeq (dict fs) _ = err attribute_error
  obj_xeq (xcmp c fs) (xcmp d gs) =
      let rest = attrs_xeq fs (entries gs) in if class_beq c d then rest else err type_error
  obj_xeq (xcmp c fs) _ = err type_error
  obj_xeq (address f p s) (address g q t) = ok (addr_xeq (as_ipv6 f p s) (as_ipv6 g q t))
  obj_xeq (address f p s) _ = err attribute_error
  obj_xeq none_ b = ok (scalar_eq none_ b)
  obj_xeq (num n) b = ok (scalar_eq (num n) b)
  obj_xeq (str s) b = ok (scalar_eq (str s) b)
  obj_xeq (bytes s) b = ok (scalar_eq (bytes s) b)

  -- The outer loop of `list_xeq`.
  pub items_xeq : Items → List Obj → Result Bool
  items_xeq nil lx = ok true
  items_xeq (cons a as_) lx = do
    found ← pop_first (obj_xeq a) lx
    elim found [ none ↦ ok false | some lx' ↦ items_xeq as_ lx' ]

  -- `obj_xeq(d0[k], v1)`
  pub field_xeq : Fields → Text → Obj → Result Bool
  field_xeq end k w = err key_error
  field_xeq (field j v fs) k w =
      let rest = field_xeq fs k w in let here = obj_xeq v w in if j == k then here else rest

  -- The loop of `XCmp.xeq`, over the attributes of `self`.
  pub attrs_xeq : Fields → Dict Text Obj → Result Bool
  attrs_xeq end gs = ok true
  attrs_xeq (field k v fs) gs = elim (Dict.lookup k gs) [
    | none ↦ err attribute_error
    | some w ↦
        let rest = attrs_xeq fs gs in
        let tested = obj_xeq v w >>= λ found. (if found then rest else ok false) in
        if is_none v || is_none w then rest else tested
  ]
