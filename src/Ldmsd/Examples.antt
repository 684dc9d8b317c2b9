-- ===== src/Ldmsd/Examples.antt =====
-- Witnesses: a daemon with a port and two variables.
use ldms_test.Base.{
  ◌≡◌, refl, ap, Text, none, some, List, [], ◌∷◌, ◌++◌, Result, ok, text_eq, text_beq, ◌>>=◌,
}
use ldms_test.Base.Dict
use ldms_test.Base.Dict.{Dict}
use ldms_test.Base.Int.{ℤ, pos}
use ldms_test.Base.Outcome.{done}
use ldms_test.Base.Strings.{text, split_once, decimal}
use ldms_test.Value.{
  Value, list, nil, cons, str, int, items, of_items, truthy, str_of, is_primitive, deep_copy,
}
use ldms_test.LdmsdConfig.{
  Version, get_ldmsd_config, shown, item, get_or, is_text, commands, sampler, is_new, attributes,
  named_line, prdcr_listen_line,
}
use ldms_test.Spec
use ldms_test.Spec.Expand.{expand, traverse, traverse_dict, merge, chain, overlay, template, parent}
use ldms_test.Spec.Subst.{subst, subst_str, sub, fill, bind_primitives, pieces, subst_loop}
use ldms_test.Runtime.{
  Request, exec, Runtime, run, next, ask, lift, lift_outcome, when, pure, write_file,
}
use ldms_test.Runtime.{◌>>=◌ as ◌>>=ₐ◌}
use ldms_test.Ldmsd.{
  env_dict, merged_env, get_ldmsd_cmd, ldmsd_version, launch_ldmsd, await_port, port_of,
  cond_timedwait, check_listen,
}
use ldms_test.Ldmsd.Launch.{IsVersion, prepared, launch_ldmsd-configured}

abbrev own_env : Value
own_env = list (cons (str (text "A=1")) nil)

abbrev cluster_env : Value
cluster_env = list (cons (str (text "A=0")) (cons (str (text "B=2")) nil))

abbrev daemon : Dict Text Value
daemon = (text "env", own_env) ∷ []

abbrev own : Dict Text Value
own = (text "A", str (text "1")) ∷ []

abbrev cluster : Dict Text Value
cluster = (text "A", str (text "0")) ∷ ((text "B", str (text "2")) ∷ [])

abbrev merged : Dict Text Value
merged = (text "A", str (text "1")) ∷ ((text "B", str (text "2")) ∷ [])

own_read : env_dict (get_or (list nil) (text "env") daemon) ≡ ok own
unfolding env_dict get_or Dict.lookup Dict.update Dict.insert split_once text_beq
own_read = refl

cluster_read : env_dict cluster_env ≡ ok cluster
unfolding env_dict Dict.lookup Dict.update Dict.insert split_once text_beq
cluster_read = refl

merged_read : merged_env daemon cluster_env ≡ ok merged
unfolding merged_env env_dict get_or Dict.lookup Dict.update Dict.insert split_once text_beq
merged_read = refl

abbrev spec : Dict Text Value
spec =
    (text "config_file", str (text "c"))
    ∷ ((text "log_file", str (text "l"))
        ∷ ((text "log_level", str (text "I"))
            ∷ ((text "env", list nil) ∷ ((text "listen_port", int (pos 4)) ∷ []))))

abbrev works : Runtime
works = record { reply = λ h r. (0, []); int = λ s. ok 0 }

abbrev v4 : Version
v4 = record { major = 4; minor = 4; patch = 2 }

abbrev four : Text → Result Version
four s = ok v4

abbrev number : Value → Result ℤ
number v = ok (pos 4)

abbrev no_repr : Value → Text
no_repr v = []

configured : get_ldmsd_config no_repr 9 (of_items spec) (some v4) ≡ done []
unfolding get_ldmsd_config commands Spec.init expand traverse traverse_dict merge chain overlay
    template parent subst subst_str sub fill bind_primitives pieces subst_loop Dict.lookup
    Dict.erase Dict.update Dict.insert text_beq items of_items str_of is_primitive truthy shown
    sampler is_new attributes named_line prdcr_listen_line item get_or is_text deep_copy split_once
    decimal
configured = refl

abbrev left : List Request
left = (run (launch_ldmsd works no_repr four number 9 1 none spec) []).1

ended : (run (launch_ldmsd works no_repr four number 9 1 none spec) []).0 ≡ done tt
unfolding launch_ldmsd ldmsd_version run ◌>>=ₐ◌ next ask lift lift_outcome when pure write_file
    get_ldmsd_cmd item env_dict await_port port_of cond_timedwait check_listen truthy text_beq
    Dict.lookup Dict.update
ended = rw configured refl

launched : run (launch_ldmsd works no_repr four number 9 1 none spec) [] ≡ (done tt, left)
launched = ap (λ o. (o, left)) ended

launch_ldmsd-configured_example :
    (ver : Version) × (cfg : Text) × (path : Value) × (cmd : Text) × (env : Dict Text Value)
    × (rest : List Request) × IsVersion works no_repr four number 9 1 spec none [] ver
    × (get_ldmsd_config no_repr 9 (of_items spec) (some ver) ≡ done cfg)
    × (item (text "config_file") spec ≡ ok path)
    × (get_ldmsd_cmd no_repr spec ≡ ok cmd)
    × ((item (text "env") spec >>= env_dict) ≡ ok env)
    × ((works.reply (prepared none [] (shown no_repr path) cfg) (exec cmd env none)).0 ≡ 0)
    × (left ≡ prepared none [] (shown no_repr path) cfg ++ (exec cmd env none ∷ rest))
launch_ldmsd-configured_example =
    launch_ldmsd-configured works no_repr four number 9 1 spec none [] left launched
