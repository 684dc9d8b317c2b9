-- ===== src/Scale/Requests.antt =====
-- scalability/ldmsdutils.py, `req` of the class LDMSD: the command and the attributes that a line of
-- text is made into before it is sent. `is_space` says which characters `split` of Python splits at,
-- and `known` which names `LDMSD_Req_Attr` has a number for; for others it raises a `KeyError`.
pub mod Lines
mod Examples
use ldms_test.Base.{
  ℕ, Text, Bool, true, false, not, List, [], ◌∷◌, ◌++◌, Option, none, some, text_eq, contains, ◌==◌,
  ◌&&◌, ◌||◌,
}
use ldms_test.Base.Strings.{text, join, split_once}

pub data Attr : Type 0 where
  -- name and value
  attr : Text → Option Text → Attr
  -- the attribute `STRING`
  string : Text → Attr

pub record Request : Type 0 where
  pub verb : Text
  pub attrs : List Attr

-- Whether an argument is kept as text
unfoldable pub is_kept : (Text → Bool) → Text → Text → Bool
is_kept known verb name =
    (verb == text "config" && not (name == text "name"))
    || ((verb == text "env")
        || ((verb == text "auth_add" && not (contains name (text "name" ∷ text "plugin" ∷ [])))
            || not (known name)))

-- `args.split()`: the word read so far, reversed, and the rest
end_word : Text → List Text → List Text
end_word [] ws = ws
end_word (c ∷ w) ws = (c ∷ w) ∷ ws

unfoldable pub words_from : (ℕ → Bool) → Text → Text → List Text
unfolding end_word
words_from is_space word [] = end_word word []
words_from is_space word (c ∷ s) =
    let closed = words_from is_space [] s in
    let longer = words_from is_space (word ++ (c ∷ [])) s in
    elim (is_space c) [ true ↦ end_word word closed | false ↦ longer ]

unfoldable pub words : (ℕ → Bool) → Text → List Text
unfolding words_from
words is_space s = words_from is_space [] s

-- The loop over the arguments: those that became attributes, and those kept as text
unfoldable pub sort_args : (Text → Bool) → Text → List Text → List Attr × List Text
unfolding is_kept
sort_args known verb [] = ([], [])
sort_args known verb (w ∷ ws) =
    let (attrs, texts) = sort_args known verb ws in
    elim (is_kept known verb ((split_once b'=' w).0)) [
      | true ↦ (attrs, w ∷ texts)
      | false ↦ (attr ((split_once b'=' w).0) ((split_once b'=' w).1) ∷ attrs, texts)
    ]

with_string : List Attr → List Text → List Attr
with_string attrs [] = attrs
with_string attrs (t ∷ ts) = attrs ++ (string (join (text " ") (t ∷ ts)) ∷ [])

attributes_of : (Text → Bool) → Text → List Text → List Attr
unfolding sort_args with_string
attributes_of known verb ws =
    let (attrs, texts) = sort_args known verb ws in with_string attrs texts

arguments : (ℕ → Bool) → Option Text → List Text
unfolding words
arguments is_space none = []
arguments is_space (some s) = words is_space s

-- `LDMSD_Request(...)` of `req`
unfoldable pub request : (ℕ → Bool) → (Text → Bool) → Text → Request
unfolding attributes_of arguments
request is_space known line =
    let verb = (split_once b' ' line).0 in
    record {
      verb = verb;
      attrs = attributes_of known verb (arguments is_space ((split_once b' ' line).1));
    }
