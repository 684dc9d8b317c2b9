-- ===== src/Compare/Examples.antt =====
-- Runs of the comparisons, and their theorems at concrete data.
use ldms_test.Base.{ℕ, ◌≡◌, ◌↔◌, true, Option, none, some, List, [], ◌∷◌, ok, nat_eq}
use ldms_test.Base.Int.{pos}
use ldms_test.Base.Strings.{text}
use ldms_test.Compare.{
  Obj, Items, Fields, num, list, xcmp, nil, cons, end, field, time_spec, elements_of, obj_xeq,
}
use ldms_test.Compare.Lists.{list_xeq-Perm}
use ldms_test.Compare.Stream.{StreamData}
use mathlib.Core.List.{Perm}

abbrev time_fields : Obj → Obj → Fields
time_fields sec nsec = field (text "tv_sec") sec (field (text "tv_nsec") nsec end)

abbrev time : Obj → Obj → Obj
time sec nsec = xcmp time_spec (time_fields sec nsec)

abbrev one : Obj
one = num (pos 1)

abbrev two : Obj
two = num (pos 2)

abbrev port : ℕ
port = 411

abbrev numbers : Items
numbers = cons one (cons two (cons one nil))

abbrev shuffled : Items
shuffled = cons two (cons one (cons one nil))

list_xeq-Perm_example :
    (obj_xeq (list numbers) (list shuffled) ≡ ok true)
    ↔ Perm (elements_of numbers) (elements_of shuffled)
list_xeq-Perm_example = list_xeq-Perm numbers shuffled (tt, (tt, (tt, tt)))

abbrev stream : StreamData ℕ
stream =
    (text "name", some 1)
    ∷ (text "src", none)
    ∷ (text "tid", some 3)
    ∷ (text "uid", some 4)
    ∷ (text "gid", some 5)
    ∷ (text "perm", some 6)
    ∷ (text "is_json", some 7)
    ∷ (text "data", some 8)
    ∷ []

abbrev one_arg : List (Option ℕ)
one_arg = some 1 ∷ []
