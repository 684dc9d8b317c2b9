-- ===== src/LdmsdConfig/Examples.antt =====
-- A run of `get_ldmsd_config`, and its theorems at concrete data.
use ldms_test.Base.{◌≡◌, refl, Text, none, [], String, text_beq, text_eq}
use ldms_test.Base.Dict
use ldms_test.Base.Dict.{Dict}
use ldms_test.Base.Strings.{text, join, Lacks-of_lacks}
use ldms_test.Base.Outcome.{done}
use ldms_test.Value.{
  Value, Fields, str, list, dict, nil, cons, end, field, items, of_items, str_of, is_primitive,
  truthy, deep_copy,
}
use ldms_test.Spec
use ldms_test.Spec.Expand.{expand, traverse, traverse_dict, merge, chain, overlay}
use ldms_test.Spec.Subst.{subst, subst_str, sub}
use ldms_test.LdmsdConfig.{
  is_new, shown, attributes, named_line, sampler, commands, get_ldmsd_config,
}
use ldms_test.LdmsdConfig.Attributes.{IsClean}

-- No container is printed below.
no_repr : Value → Text
no_repr v = []

abbrev at : String → String → Fields → Fields
at k s fs = field (text k) (str (text s)) fs

abbrev sampler_spec : Fields
sampler_spec = at "plugin" "meminfo" (
    at "exclusive_thread" "1" (
      at "interval" "" (
        at "start" "y"
          (field (text "config") (list (cons (str (text "instance=%host%")) nil)) end))))

abbrev agg : Fields
agg = at "name" "n1" (at "xprt" "sock" end)

abbrev daemon : Fields
daemon = at "host" "n1" (
    field (text "samplers") (list (cons (dict sampler_spec) nil))
      (field (text "prdcrs") (list (cons (dict agg) nil)) end))

abbrev old_config : Text
old_config =
    text
      "load name=meminfo\nconfig name=meminfo instance=n1 exclusive_thread=1\nstart name=meminfo  \nprdcr_add name=n1 xprt=sock\n"

unversioned : get_ldmsd_config no_repr 3 daemon none ≡ done old_config
unfolding get_ldmsd_config commands Spec.init expand traverse traverse_dict merge chain overlay
    subst subst_str sub named_line shown attributes is_new sampler Dict.lookup Dict.insert
    Dict.update Dict.erase text_beq items of_items str_of is_primitive truthy deep_copy join
unversioned = refl

agg_items : Dict Text Value
agg_items = items agg

agg-IsClean : IsClean no_repr (items agg)
unfolding items shown is_primitive str_of
agg-IsClean = (
  (
    Lacks-of_lacks b' ' (text "name") refl,
    Lacks-of_lacks b'=' (text "name") refl,
    Lacks-of_lacks b' ' (text "n1") refl,
  ),
  (
    (
      Lacks-of_lacks b' ' (text "xprt") refl,
      Lacks-of_lacks b'=' (text "xprt") refl,
      Lacks-of_lacks b' ' (text "sock") refl,
    ),
    tt,
  ),
)
