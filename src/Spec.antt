-- ===== src/Spec.antt =====
-- The class `Spec` of LDMS_Test.py: a dict whose objects extend templates and refer to variables.
-- `Expand` is the template extension, `Subst` the substitution of `%VAR%`, and this module puts
-- them together as `__init__` does.
pub mod Expand
pub mod Subst
mod Examples
use ldms_test.Base.{
  ℕ, zero, suc, Text, Bool, true, false, Option, none, some, List, [], ◌∷◌, ◌==◌, text_eq,
  if◌then◌else◌, Result, ok, err, attribute_error,
}
use ldms_test.Base.Dict
use ldms_test.Base.Dict.{Dict}
use ldms_test.Base.Strings.{text}
use ldms_test.Base.Outcome.{Outcome, done, raised, running, of_result, ◌>>=◌}
use ldms_test.Value.{Value, Fields, str, dict, end, items, of_items, deep_copy, is_primitive}
use Expand.{expand, max_depth}
use Subst.{Vars, subst, bind_primitives}

pub record Spec : Type 0 where
  pub templates : Value
  -- the items of the dict itself
  pub entries : Dict Text Value
  pub vars : Vars

-- `_dict.get("templates", {})`
templates_of : Dict Text Value → Value
templates_of d = elim (Dict.lookup (text "templates") d) [ none ↦ dict end | some t ↦ t ]

-- The loops of `_start_expand` and `_start_subst`: every item but the templates, in order.
each : (Value → Outcome Value) → Dict Text Value → Outcome (Dict Text Value)
each f [] = done []
each f ((k, v) ∷ d) =
    if k == text "templates"
    then (do d' ← each f d; done ((k, v) ∷ d'))
    else do w ← f v; d' ← each f d; done ((k, w) ∷ d')

-- `_start_expand`
start_expand : ℕ → Spec → Outcome Spec
unfolding each expand
start_expand fuel s = do
  d ← each (expand fuel s.templates (suc max_depth)) s.entries
  done (record s { entries = d })

-- `_start_subst`
start_subst : ℕ → Spec → Outcome Spec
unfolding each subst bind_primitives
start_subst fuel s = do
  let vars = Dict.insert [] (str (text "%")) (bind_primitives [] s.entries)
  d ← each (subst fuel vars) s.entries
  done (record s { entries = d; vars = vars })

-- `__init__` on the items of a dict; the fuel bounds each `while` loop.
unfoldable pub init : ℕ → Fields → Outcome Spec
unfolding templates_of start_expand start_subst deep_copy
init fuel fs = do
  v ← of_result (deep_copy (dict fs))
  let d = copied v
  s ← start_expand fuel (record { templates = templates_of d; entries = d; vars = [] })
  start_subst fuel s
  where
    copied : Value → Dict Text Value
    copied (dict gs) = items gs
    copied _ = []
