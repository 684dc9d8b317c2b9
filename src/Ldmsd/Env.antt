-- ===== src/Ldmsd/Env.antt =====
-- Which environment a daemon is started with.
use ldms_test.Base.{◌≡◌, refl, ◌∙◌, ap, Text, none, some, [], sym, subst, ok, >>=-eq-ok, text_eq}
use ldms_test.Base.Dict
use ldms_test.Base.Dict.{Dict, NodupKeys, lookup-update, update-NodupKeys}
use ldms_test.Base.Strings.{text}
use ldms_test.Value.{Value, list, nil, dict, items}
use ldms_test.LdmsdConfig.{get_or}
use ldms_test.Ldmsd.{env_dict, pairs, merged_env}

-- The keys of the dicts in a value are distinct, as they are in Python.
abbrev pub IsEnv : Value → Type 0
IsEnv (dict fs) = NodupKeys (items fs)
IsEnv v = Unit

ok-injective : (x y : Dict Text Value) → ok x ≡ ok y → x ≡ y
ok-injective x y h = cc

env_dict-NodupKeys : (v : Value) (d : Dict Text Value) → IsEnv v → env_dict v ≡ ok d → NodupKeys d
unfolding env_dict
env_dict-NodupKeys (dict fs) d u h = subst NodupKeys (ok-injective (items fs) d h) u
env_dict-NodupKeys (list xs) d u h =
    let (ps, p, k) = >>=-eq-ok (pairs xs) _ h in
    subst NodupKeys (ok-injective _ d k) (update-NodupKeys [] ps tt)
env_dict-NodupKeys v d u h = cc

-- A variable of the environment of ldmsd has the value that the daemon's own "env" gives it, and
-- where that has none, the value of the "env" of the cluster, in either form: as a list of texts
-- NAME=VALUE or as a dict.
pub merged_env-own_first :
    (d : Dict Text Value) (cluster_env : Value) (own cluster env : Dict Text Value) (k : Text)
    → IsEnv (get_or (list nil) (text "env") d)
    → env_dict (get_or (list nil) (text "env") d) ≡ ok own
    → env_dict cluster_env ≡ ok cluster
    → merged_env d cluster_env ≡ ok env
    → Dict.lookup k env
      ≡ elim (Dict.lookup k own) [ none ↦ Dict.lookup k cluster | some v ↦ some v ]
unfolding merged_env
merged_env-own_first d cluster_env own cluster env k u p q h =
    ap (Dict.lookup k)
      (sym (ok-injective (Dict.update cluster own) env (sym (rw p (rw q refl)) ∙ h)))
    ∙ lookup-update k own cluster (env_dict-NodupKeys _ own u p)
