-- ===== src/Spec/Expand.antt =====
-- Template extension: `_expand` and its kin of the class `Spec`.
pub mod Chain
pub mod Settled
use ldms_test.Base.{
  ℕ, zero, suc, Text, Bool, true, false, not, Option, none, some, List, [], ◌∷◌, ◌&&◌, ◌==◌,
  text_eq, if◌then◌else◌, key_error, type_error, attribute_error, runtime_error,
}
use ldms_test.Base.Dict
use ldms_test.Base.Dict.{Dict}
use ldms_test.Base.Strings.{text}
use ldms_test.Base.Outcome.{Outcome, done, raised, running, ◌>>=◌}
use ldms_test.Value.{
  Value, Items, Fields, null, bool, int, float, str, list, tuple, dict, nil, cons, end, field,
  items, of_items, truthy,
}

abbrev pub max_depth : ℕ
max_depth = 64

abbrev pub extends : Text
extends = text "!extends"

-- Whether `hash` accepts a value.
mutual
  hashable : Value → Bool
  hashable (list xs) = false
  hashable (dict fs) = false
  hashable (tuple xs) = hashable_items xs
  hashable _ = true

  hashable_items : Items → Bool
  hashable_items nil = true
  hashable_items (cons v xs) = hashable v && hashable_items xs

-- `self.templates.get(ext)`, with the `KeyError` for a missing template; the keys are texts
unfoldable pub template : Value → Value → Outcome Value
unfolding hashable
template (dict ts) (str name) = elim (Dict.lookup name (items ts)) [
  | none ↦ raised key_error
  | some null ↦ raised key_error
  | some t ↦ done t
]
template (dict ts) ext = if hashable ext then raised key_error else raised type_error
template templates ext = raised attribute_error

-- `_temp.get("!extends")` of an appended template
unfoldable pub parent : Value → Outcome (Dict Text Value × Option Value)
parent (dict fs) = done (items fs, Dict.lookup extends (items fs))
parent v = raised attribute_error

-- The loop `while ext`: the templates that are appended to `lst`, in the order of the loop.
unfoldable pub chain : ℕ → Value → Option Value → Outcome (List (Dict Text Value))
unfolding truthy
chain zero templates ext = running
chain (suc fuel) templates none = done []
chain (suc fuel) templates (some ext) =
    let rest = do
      t ← template templates ext
      (d, next) ← parent t
      ds ← chain fuel templates next
      done (d ∷ ds)
    in if truthy ext then rest else done []

-- The loop `while lst`: what was appended last is put in first.
unfoldable pub overlay : List (Dict Text Value) → Dict Text Value
overlay [] = []
overlay (d ∷ ds) = Dict.update (overlay ds) d

-- Both loops, and the removal of the keyword.
unfoldable pub merge : ℕ → Value → Dict Text Value → Outcome (Dict Text Value)
merge fuel templates d = do
  ds ← chain fuel templates (Dict.lookup extends d)
  done (Dict.erase extends (overlay (d ∷ ds)))

-- `[ f(x) for x in lst ]`
unfoldable pub traverse : (Value → Outcome Value) → Items → Outcome Items
traverse f nil = done nil
traverse f (cons v xs) = do w ← f v; ys ← traverse f xs; done (cons w ys)

-- `{ k: f(v) for k, v in d.items() }`
unfoldable pub traverse_dict : (Value → Outcome Value) → Dict Text Value → Outcome Fields
traverse_dict f [] = done end
traverse_dict f ((k, v) ∷ d) = do w ← f v; fs ← traverse_dict f d; done (field k w fs)

-- `_expand(obj, lvl)` with `left` for `MAX_DEPTH + 1 - lvl`
unfoldable pub expand : ℕ → Value → ℕ → Value → Outcome Value
expand fuel templates zero v = raised runtime_error
expand fuel templates (suc left) null = raised type_error
expand fuel templates (suc left) (bool b) = done (bool b)
expand fuel templates (suc left) (int z) = done (int z)
expand fuel templates (suc left) (float s) = done (float s)
expand fuel templates (suc left) (str s) = done (str s)
expand fuel templates (suc left) (list xs) = do
  ys ← traverse (expand fuel templates left) xs
  done (list ys)
expand fuel templates (suc left) (tuple xs) = do
  ys ← traverse (expand fuel templates left) xs
  done (tuple ys)
expand fuel templates (suc left) (dict fs) = do
  d ← merge fuel templates (items fs)
  gs ← traverse_dict (expand fuel templates left) d
  done (dict gs)
