-- ===== src/Compare/Stream.antt =====
-- The class `StreamData`: its slots, `__init__`, `as_list` and `__eq__`. The values of the slots
-- are of a type with an equality, and `None`.
pub mod Laws
use ldms_test.Base.{
  ℕ, Text, Bool, true, false, Option, none, some, List, [], ◌∷◌, ◌==◌, nat_eq, text_eq, Eq,
  contains, length, if◌then◌else◌, Result, ok, err, value_error, attribute_error, ◌>>=◌,
}
use ldms_test.Base.Dict
use ldms_test.Base.Dict.{Dict}
use ldms_test.Base.Strings.{text}

abbrev pub slots : List Text
slots =
    text "name"
    ∷ text "src"
    ∷ text "tid"
    ∷ text "uid"
    ∷ text "gid"
    ∷ text "perm"
    ∷ text "is_json"
    ∷ text "data"
    ∷ []

-- The slots without `tid`.
abbrev pub cmp_fields : List Text
cmp_fields =
    text "name"
    ∷ text "src"
    ∷ text "uid"
    ∷ text "gid"
    ∷ text "perm"
    ∷ text "is_json"
    ∷ text "data"
    ∷ []

-- The slots that are set, with `none` for `None`.
abbrev pub StreamData : Type 0 → Type 0
StreamData V = Dict Text (Option V)

module _ {V : Type 0} where
  set_attr : Text → Option V → StreamData V → Result (StreamData V)
  set_attr k v s = if contains k slots then ok (Dict.insert k v s) else err attribute_error

  set_all : Dict Text (Option V) → StreamData V → Result (StreamData V)
  set_all [] s = ok s
  set_all ((k, v) ∷ kvs) s = do s' ← set_attr k v s; set_all kvs s'

  zip_slots : List Text → List (Option V) → Dict Text (Option V)
  zip_slots [] vs = []
  zip_slots (k ∷ ks) [] = []
  zip_slots (k ∷ ks) (v ∷ vs) = (k, v) ∷ zip_slots ks vs

  blank : List Text → Dict Text (Option V)
  blank [] = []
  blank (k ∷ ks) = (k, none) ∷ blank ks

  -- `__init__(*args, **kwargs)`
  unfoldable pub init : List (Option V) → Dict Text (Option V) → Result (StreamData V)
  unfolding set_attr set_all zip_slots blank
  init (a ∷ args) (kv ∷ kwargs) = err value_error
  init [] [] = do s ← set_all (blank slots) []; err value_error
  init [] (kv ∷ kwargs) = do s ← set_all (blank slots) []; set_all (kv ∷ kwargs) s
  init (a ∷ args) [] = do
    s ← set_all (blank slots) []
    let rest = set_all (zip_slots slots (a ∷ args)) s
    if length (a ∷ args) == length slots then rest else err value_error

  unfoldable pub get_attr : StreamData V → Text → Result (Option V)
  get_attr s k = elim (Dict.lookup k s) [ none ↦ err attribute_error | some v ↦ ok v ]

  get_all : StreamData V → List Text → Result (List (Option V))
  get_all s [] = ok []
  get_all s (k ∷ ks) = do v ← get_attr s k; vs ← get_all s ks; ok (v ∷ vs)

  unfoldable pub as_list : StreamData V → Result (List (Option V))
  unfolding get_all get_attr
  as_list s = get_all s slots

module _ {V : Type 0} ⦃e : Eq V⦄ where
  -- The test of one field.
  agree : Option V → Option V → Bool
  agree none w = true
  agree (some a) none = true
  agree (some a) (some b) = a == b

  -- The loop of `__eq__` on another `StreamData`.
  unfoldable pub eq_fields : List Text → StreamData V → StreamData V → Result Bool
  unfolding agree
  eq_fields [] s t = ok true
  eq_fields (k ∷ ks) s t = do
    v ← get_attr s k
    w ← get_attr t k
    let rest = eq_fields ks s t
    if agree v w then rest else ok false

  -- `__eq__`; `none` is an object of another type
  unfoldable pub stream_eq : StreamData V → Option (StreamData V) → Result Bool
  stream_eq s none = ok false
  stream_eq s (some t) = eq_fields cmp_fields s t
