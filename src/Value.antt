-- ===== src/Value.antt =====
-- The objects that specs are made of: JSON-like values of Python, and `deep_copy` of LDMS_Test.py.
-- Keys of a `dict` are texts. A float is kept as the text that `str` gives for it, the only use
-- that the program makes of it. `null` stands for `None`, and for every object whose type the
-- dispatch tables lack.
pub mod Laws
use ldms_test.Base.{
  ℕ, zero, suc, ◌+◌, Text, Bool, true, false, Option, none, some, List, [], ◌∷◌, max, Result, ok,
  err, type_error, ◌>>=◌, ◌==◌, ◌||◌, text_eq, not,
}
use ldms_test.Base.Dict.{Dict}
use ldms_test.Base.Strings.{text}
use ldms_test.Base.Int.{ℤ, pos, int_text}

mutual
  pub data Value : Type 0 where
    null : Value
    bool : Bool → Value
    int : ℤ → Value
    float : Text → Value
    str : Text → Value
    list : Items → Value
    tuple : Items → Value
    dict : Fields → Value

  pub data Items : Type 0 where
    nil : Items
    cons : Value → Items → Items

  pub data Fields : Type 0 where
    end : Fields
    field : Text → Value → Fields → Fields

-- The items of a `dict` as a list, and back.
unfoldable pub items : Fields → Dict Text Value
items end = []
items (field k v fs) = (k, v) ∷ items fs

unfoldable pub of_items : Dict Text Value → Fields
of_items [] = end
of_items ((k, v) ∷ d) = field k v (of_items d)

-- `str(v)` of a primitive; the program asks for no other
unfoldable pub str_of : Value → Text
str_of (bool true) = text "True"
str_of (bool false) = text "False"
str_of (int z) = int_text z
str_of (float s) = s
str_of (str s) = s
str_of _ = []

-- `type(v) in PRIMITIVES`
unfoldable pub is_primitive : Value → Bool
is_primitive (bool b) = true
is_primitive (int z) = true
is_primitive (float s) = true
is_primitive (str s) = true
is_primitive _ = false

-- Python's truth value.
unfoldable pub truthy : Value → Bool
truthy null = false
truthy (bool b) = b
truthy (int z) = not (is_zero z)
  where
    is_zero : ℤ → Bool
    is_zero (pos zero) = true
    is_zero _ = false
truthy (float s) = not (s == text "0.0" || s == text "-0.0")
truthy (str []) = false
truthy (str (c ∷ s)) = true
truthy (list nil) = false
truthy (list (cons v xs)) = true
truthy (tuple nil) = false
truthy (tuple (cons v xs)) = true
truthy (dict end) = false
truthy (dict (field k v fs)) = true

-- `deep_copy`: the tables copy containers by building them anew.
unfoldable mutual
  pub deep_copy : Value → Result Value
  deep_copy null = err type_error
  deep_copy (bool b) = ok (bool b)
  deep_copy (int z) = ok (int z)
  deep_copy (float s) = ok (float s)
  deep_copy (str s) = ok (str s)
  deep_copy (list xs) = do ys ← deep_copy_items xs; ok (list ys)
  deep_copy (tuple xs) = do ys ← deep_copy_items xs; ok (tuple ys)
  deep_copy (dict fs) = do gs ← deep_copy_fields fs; ok (dict gs)

  pub deep_copy_items : Items → Result Items
  deep_copy_items nil = ok nil
  deep_copy_items (cons v xs) = do w ← deep_copy v; ys ← deep_copy_items xs; ok (cons w ys)

  pub deep_copy_fields : Fields → Result Fields
  deep_copy_fields end = ok end
  deep_copy_fields (field k v fs) = do w ← deep_copy v; gs ← deep_copy_fields fs; ok (field k w gs)

-- How deep the containers of a value are nested; a scalar has depth 1.
unfoldable mutual
  pub depth : Value → ℕ
  depth (list xs) = suc (depth_items xs)
  depth (tuple xs) = suc (depth_items xs)
  depth (dict fs) = suc (depth_fields fs)
  depth _ = 1

  pub depth_items : Items → ℕ
  depth_items nil = 0
  depth_items (cons v xs) = max (depth v) (depth_items xs)

  pub depth_fields : Fields → ℕ
  depth_fields end = 0
  depth_fields (field k v fs) = max (depth v) (depth_fields fs)
