-- ===== src/Docker/Params.antt =====
-- runtime/docker.py, `__create` of the class DockerCluster: the parameters of each container. The
-- names of the cluster and of its nodes are texts. `update_other` is `dict.update` with what is not a
-- `dict`: the entries when it ends, and whether it ended without an exception. What all containers
-- have alike (the entry point, `tty`, `detach` and the limits) is left out.
use ldms_test.Base.{
  Text, Bool, true, false, List, [], ◌∷◌, ◌++◌, Option, none, some, Result, ok, err, value_error,
  ◌>>=◌, text_eq,
}
use ldms_test.Base.Dict
use ldms_test.Base.Dict.{Dict}
use ldms_test.Base.Strings.{text, split}
use ldms_test.Value.{Value, Items, null, str, list, tuple, dict, nil, cons, items, of_items, truthy}
use ldms_test.LdmsdConfig.{get_or, is_text}

pub record Params : Type 0 where
  pub image : Value
  pub name : Text
  pub environment : Dict Text Value
  pub volumes : Value
  pub cap_add : Value
  pub cap_drop : Value
  pub hostname : Text
  pub tmpfs : Value
  pub atstart : Value
  pub ports : Option Value

-- The entry of `volumes` for SRC:DEST:MODE
volume : List Text → Result (Text × Value)
volume (src ∷ (dst ∷ (mo ∷ []))) =
    ok (src, dict (of_items ((text "bind", str dst) ∷ ((text "mode", str mo) ∷ []))))
volume _ = err value_error

volume_items : List Text → Dict Text Value → Result (Dict Text Value)
unfolding volume
volume_items [] d = ok d
volume_items (m ∷ ms) d =
    volume (split b':' m) >>= λ (src, v). volume_items ms (Dict.insert src v d)

unfoldable pub volumes_of : List Text → Result Value
unfolding volume_items
volumes_of mounts = volume_items mounts [] >>= λ d. ok (dict (of_items d))

module _ (update_other : Value → Dict Text Value → Dict Text Value × Bool) where
  updated : Value → Dict Text Value → Dict Text Value × Bool
  updated (dict fs) d = (Dict.update d (items fs), true)
  updated v d = update_other v d

  -- The node's own settings, up to an exception of `update`
  own_settings : Dict Text Value → Dict Text Value → Params → Params
  unfolding updated get_or
  own_settings env node p =
      let (d, done) = updated (get_or (dict (of_items env)) (text "env") node) p.environment in
      record p {
        tmpfs = get_or null (text "tmpfs") node;
        image = get_or p.image (text "image") node;
        volumes = get_or p.volumes (text "mounts") node;
        environment = d;
        atstart = elim done [ true ↦ get_or p.atstart (text "atstart") node | false ↦ p.atstart ];
      }

  -- The loop over the nodes of the spec: the first with this host name. An exception ends it.
  from_nodes : Dict Text Value → Items → Params → Params
  unfolding own_settings is_text
  from_nodes env nil p = p
  from_nodes env (cons (dict fs) vs) p =
      let rest = from_nodes env vs p in
      elim (Dict.lookup (text "hostname") (items fs)) [
        | none ↦ p
        | some v ↦ elim (is_text p.hostname v) [
          | true ↦ own_settings env (items fs) p
          | false ↦ rest
        ]
      ]
  from_nodes env (cons _ vs) p = p

  from_value : Dict Text Value → Value → Params → Params
  unfolding from_nodes
  from_value env (list vs) p = from_nodes env vs p
  from_value env (tuple vs) p = from_nodes env vs p
  from_value env _ p = p

  -- The `try` statement; `spec` is `None`, or an object with these items.
  from_spec : Dict Text Value → Option (Dict Text Value) → Params → Params
  unfolding from_value
  from_spec env none p = p
  from_spec env (some spec) p = elim (Dict.lookup (text "nodes") spec) [
    | none ↦ p
    | some v ↦ from_value env v p
  ]

  bound_ports : Option Value → Option Value
  unfolding truthy
  bound_ports none = none
  bound_ports (some v) = elim (truthy v) [ true ↦ some v | false ↦ none ]

  -- `cont_param` of a node
  unfoldable pub cont_param :
      (spec : Option (Dict Text Value)) (host_binds env : Dict Text Value)
      → (cluster : Text) (image volumes cap_add cap_drop atstart : Value) (node : Text) → Params
  unfolding from_spec bound_ports
  cont_param spec host_binds env cluster image volumes cap_add cap_drop atstart node =
      from_spec env spec (record {
        image = image;
        name = cluster ++ (b'-' ∷ node);
        environment = env;
        volumes = volumes;
        cap_add = cap_add;
        cap_drop = cap_drop;
        hostname = node;
        tmpfs = null;
        atstart = atstart;
        ports = bound_ports (Dict.lookup node host_binds);
      })
