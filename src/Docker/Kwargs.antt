-- ===== src/Docker/Kwargs.antt =====
-- runtime/docker.py, `spec_to_kwargs` of the class DockerCluster: what the spec of a cluster asks
-- `__create` for. `glob` gives the paths that match below a prefix, `json` what `json.dumps` gives.
use ldms_test.Base.{
  Text, true, false, List, [], ◌∷◌, ◌++◌, Result, ok, err, type_error, ◌>>=◌, text_eq, drop, length,
}
use ldms_test.Base.Dict
use ldms_test.Base.Dict.{Dict}
use ldms_test.Base.Strings.{text, join, starts_with}
use ldms_test.Value.{Value, null, str, list, dict, nil, end, items, of_items, truthy}
use ldms_test.LdmsdConfig.{item, get_or, elements}
use ldms_test.Ldmsd.{env_dict}

pub record Kwargs : Type 0 where
  pub name : Value
  pub image : Value
  pub mounts : List Value
  pub nodes : List Value
  pub env : Dict Text Value
  pub labels : Dict Text Text
  pub node_aliases : List (Value × Value)
  pub cap_add : Value
  pub cap_drop : Value
  pub subnet : Value
  pub host_binds : List (Value × Value)

-- `s.replace(old, new, 1)`, of an `old` that is not empty
unfoldable pub replace_first : Text → Text → Text → Text
replace_first old new [] = []
replace_first old new (c ∷ s) =
    let later = c ∷ replace_first old new s in
    elim (starts_with (c ∷ s) old) [ true ↦ new ++ drop (length old) (c ∷ s) | false ↦ later ]

replace_all : Text → List Text → List Text
unfolding replace_first
replace_all prefix [] = []
replace_all prefix (p ∷ ps) = replace_first prefix (text "/opt/ovis") p ∷ replace_all prefix ps

-- A node, which has to be a `dict`
node_items : Value → Result (Dict Text Value)
node_items (dict fs) = ok (items fs)
node_items v = err type_error

unfoldable pub hostnames_of : List Value → Result (List Value)
unfolding node_items item
hostnames_of [] = ok []
hostnames_of (v ∷ vs) = do
  d ← node_items v
  h ← item (text "hostname") d
  hs ← hostnames_of vs
  ok (h ∷ hs)

-- The nodes that have a true value of a key, with it: `host_binds` and `node_aliases`. Where a host
-- name stands twice, the dict has the later item.
unfoldable pub named_with : Text → List Value → Result (List (Value × Value))
unfolding node_items item get_or truthy
named_with key [] = ok []
named_with key (v ∷ vs) = do
  d ← node_items v
  let a = get_or null key d
  let rest = named_with key vs
  elim (truthy a) [
    | true ↦ item (text "hostname") d >>= λ h. rest >>= λ r. ok ((h, a) ∷ r)
    | false ↦ rest
  ]

python_path : Text → Text
python_path [] =
    text "/opt/ovis/lib/python3.6/site-packages:/opt/ovis/lib64/python3.6/site-packages"
python_path (c ∷ s) = c ∷ s

-- The variables of OVIS
unfoldable pub ovis_env : Text → Dict Text Value
ovis_env pythonpath =
    (
      text "PATH",
      str (
          text
            "/opt/ovis/bin:/opt/ovis/sbin:/usr/local/bin:/usr/local/sbin:/usr/bin:/usr/sbin:/bin:/sbin"),
    )
    ∷ ((text "LD_LIBRARY_PATH", str (text "/opt/ovis/lib:/opt/ovis/lib64"))
        ∷ ((
          text "ZAP_LIBPATH",
          str (
              text
                "/opt/ovis/lib/ovis-ldms:/opt/ovis/lib64/ovis-ldms:/opt/ovis/lib/ovis-lib:/opt/ovis/lib64/ovis-lib"),
        )
            ∷ ((
              text "LDMSD_PLUGIN_LIBPATH",
              str (text "/opt/ovis/lib/ovis-ldms:/opt/ovis/lib64/ovis-ldms"),
            )
                ∷ ((text "PYTHONPATH", str pythonpath) ∷ []))))

module _ (glob : Text → List Text) (json : Value → Text) where
  -- `mounts` and `_PYTHONPATH` for the key "ovis_prefix"; `prefix + ...` wants a text.
  of_prefix : Value → Result (List Value × Text)
  unfolding replace_all python_path
  of_prefix (str (c ∷ s)) = ok (
    str ((c ∷ s) ++ text ":/opt/ovis:ro") ∷ [],
    python_path (join (text ":") (replace_all (c ∷ s) (glob (c ∷ s)))),
  )
  of_prefix v = elim (truthy v) [ true ↦ err type_error | false ↦ ok ([], python_path []) ]

  unfoldable pub spec_to_kwargs : Dict Text Value → Result Kwargs
  unfolding of_prefix hostnames_of named_with ovis_env item get_or
  spec_to_kwargs spec = do
    name ← item (text "name") spec
    nodes ← item (text "nodes") spec
    (own, pythonpath) ← of_prefix (get_or null (text "ovis_prefix") spec)
    mounts ← elements (get_or (list nil) (text "mounts") spec)
    vs ← elements nodes
    hostnames ← hostnames_of vs
    binds ← named_with (text "binds") vs
    aliases ← named_with (text "aliases") vs
    env ← env_dict (get_or (dict end) (text "env") spec)
    ok (record {
      name = name;
      image = get_or (str (text "ovis-centos-build")) (text "image") spec;
      mounts = own ++ mounts;
      nodes = hostnames;
      env = Dict.update (ovis_env pythonpath) env;
      labels = (text "LDMSDCluster.spec", json (dict (of_items spec))) ∷ [];
      node_aliases = aliases;
      cap_add = get_or (list nil) (text "cap_add") spec;
      cap_drop = get_or (list nil) (text "cap_drop") spec;
      subnet = get_or null (text "subnet") spec;
      host_binds = binds;
    })
