-- ===== src/Ldmsd.antt =====
-- `ldmsd_spec`, `get_ldmsd_cmd` and `start_ldmsd` of the class `LDMSDContainer`, with `env_dict`
-- and `cond_timedwait` of LDMS_Test.py. `repr` stands for what `str` gives for containers and
-- `None`, `version` for the numbers that a regular expression finds in the output of `ldmsd -V`,
-- `checks` for the number of rounds for which the clock stays below a timeout.
pub mod Launch
pub mod Env
mod Examples
use ldms_test.Base.{
  ℕ, zero, suc, Text, Bool, true, false, List, [], ◌∷◌, ◌++◌, ◌==◌, nat_eq, text_eq, text_beq,
  Option, none, some, Result, ok, err, ◌>>=◌, key_error, type_error, value_error, attribute_error,
  index_error, runtime_error, ◌&&◌, not,
}
use ldms_test.Base.Dict
use ldms_test.Base.Dict.{Dict}
use ldms_test.Base.Int.{ℤ, pos, negsuc}
use ldms_test.Base.Strings.{text, split_once}
use ldms_test.Value.{
  Value, Items, Fields, null, bool, int, float, str, list, tuple, dict, nil, cons, items, of_items,
  truthy, deep_copy,
}
use ldms_test.LdmsdConfig.{Version, get_ldmsd_config, shown, item, get_or, is_text}
use ldms_test.Runtime.{
  Runtime, Request, exec, Act, pure, fail, lift, lift_outcome, exec_run, when, ask, write_file,
  hexadecimal,
}
use ldms_test.Runtime.{◌>>=◌ as ◌>>=ₐ◌}

-- `e.split("=", 1)`, as an item of a dict
pair : Value → Result (Text × Value)
pair (str s) =
    let (a, b) = split_once b'=' s in elim b [ none ↦ err value_error | some v ↦ ok (a, str v) ]
pair v = err attribute_error

pairs : Items → Result (List (Text × Value))
unfolding pair
pairs nil = ok []
pairs (cons v vs) = do p ← pair v; ps ← pairs vs; ok (p ∷ ps)

unfoldable pub env_dict : Value → Result (Dict Text Value)
unfolding pairs
env_dict (dict fs) = ok (items fs)
env_dict (list xs) = pairs xs >>= λ ps. ok (Dict.update [] ps)
env_dict v = err type_error

-- `d.setdefault(k, v)`
set_default : Text → Value → Dict Text Value → Dict Text Value
set_default k v d = elim (Dict.lookup k d) [ none ↦ Dict.insert k v d | some w ↦ d ]

unfoldable pub fields : Value → Result (Dict Text Value)
fields (dict fs) = ok (items fs)
fields v = err type_error

-- `next((d for d in daemons if d["type"] == "ldmsd"), None)`
unfoldable pub find_ldmsd : List (Dict Text Value) → Result (Option (Dict Text Value))
unfolding item is_text
find_ldmsd [] = ok none
find_ldmsd (d ∷ ds) =
    let rest = find_ldmsd ds in
    item (text "type") d >>= λ t. elim (is_text (text "ldmsd") t) [
      | true ↦ ok (some d)
      | false ↦ rest
    ]

-- The environment of a daemon over that of the cluster.
unfoldable pub merged_env : Dict Text Value → Value → Result (Dict Text Value)
unfolding env_dict get_or
merged_env d cluster_env = do
  w ← env_dict (get_or (list nil) (text "env") d)
  v ← env_dict cluster_env
  ok (Dict.update v w)

spec_of : Value → Option (Dict Text Value) → Result (Dict Text Value)
unfolding merged_env set_default fields
spec_of cluster_env none = ok []
spec_of cluster_env (some d) = do
  copy ← deep_copy (dict (of_items d))
  dspec ← fields copy
  env ← merged_env dspec cluster_env
  ok (
      set_default (text "config_file") (str (text "/etc/ldmsd.conf")) (
        set_default (text "listen_auth") (str (text "none")) (
          set_default (text "log_level") (str (text "INFO")) (
            set_default (text "log_file") (str (text "/var/log/ldmsd.log"))
              (Dict.insert (text "env") (dict (of_items env)) dspec)))))

-- `cluster_env` is the key "env" of the spec of the cluster, or an empty list.
unfoldable pub ldmsd_spec : Value → List (Dict Text Value) → Result (Dict Text Value)
unfolding find_ldmsd spec_of
ldmsd_spec cluster_env daemons = find_ldmsd daemons >>= spec_of cluster_env

has : Text → Dict Text Value → Bool
has k d = elim (Dict.lookup k d) [ none ↦ false | some v ↦ true ]

module _ (repr : Value → Text) where
  -- An option of the command line, unless the spec has a key of the field's name.
  option : Text → Text → Dict Text Value → Text
  unfolding shown
  option field value d = elim (Dict.lookup field d) [ none ↦ value | some v ↦ shown repr v ]

  unfoldable pub get_ldmsd_cmd : Dict Text Value → Result Text
  unfolding option item has shown get_or
  get_ldmsd_cmd d = do
    let xprt : Text = elim (has (text "listen_xprt") d && has (text "listen_port") d) [
      | true ↦
          text "-x "
          ++ (shown repr (get_or null (text "listen_xprt") d)
              ++ (b':' ∷ shown repr (get_or null (text "listen_port") d)))
      | false ↦ []
    ]
    let auth : Text = elim (has (text "listen_auth") d) [
      | true ↦ text "-a " ++ shown repr (get_or null (text "listen_auth") d)
      | false ↦ []
    ]
    config_file ← item (text "config_file") d
    log_file ← item (text "log_file") d
    log_level ← item (text "log_level") d
    ok (
        text "ldmsd "
        ++ (option (text "XPRT_OPT") xprt d
            ++ (b' '
                ∷ (option (text "AUTH_OPT") auth d
                    ++ (text " -c "
                        ++ (shown repr config_file
                            ++ (text " -l "
                                ++ (shown repr log_file
                                    ++ (text " -v " ++ (shown repr log_level ++ text " &"))))))))))

-- `lstn[0].get("port")`
first_port : Value → Result Value
unfolding get_or
first_port (list (cons (dict fs) vs)) = ok (get_or null (text "port") (items fs))
first_port (tuple (cons (dict fs) vs)) = ok (get_or null (text "port") (items fs))
first_port (list (cons v vs)) = err attribute_error
first_port (tuple (cons v vs)) = err attribute_error
first_port (str s) = err attribute_error
first_port (dict fs) = err key_error
first_port v = err type_error

unless_false : Value → Result Value
unless_false v = elim (truthy v) [ true ↦ ok v | false ↦ err runtime_error ]

-- The port that is waited for: "listen_port", or that of the first entry of "listen".
unfoldable pub port_of : Dict Text Value → Result Value
unfolding get_or first_port unless_false
port_of d =
    let port = get_or null (text "listen_port") d in
    let listen = get_or null (text "listen") d in
    elim (truthy port) [
      | true ↦ ok port
      | false ↦ elim (truthy listen) [
        | true ↦ first_port listen >>= unless_false
        | false ↦ err runtime_error
      ]
    ]

hex : ℤ → Text
unfolding hexadecimal
hex (pos n) = hexadecimal n
hex (negsuc n) = b'-' ∷ hexadecimal (suc n)

-- `cond_timedwait`
unfoldable pub cond_timedwait : ℕ → Act Bool → Act Bool
cond_timedwait zero cond = pure false
cond_timedwait (suc checks) cond = cond >>=ₐ λ b. when b (pure true) (cond_timedwait checks cond)

abbrev pub listen_command : ℤ → Text
unfolding hex
listen_command port = text "grep ':\\<" ++ (hex port ++ text "\\>' /proc/net/tcp")

-- `number` is Python's `int` of a value.
module _ (rt : Runtime) (repr : Value → Text) (version : Text → Result Version)
    (number : Value → Result ℤ) (fuel checks : ℕ) where
  unfoldable pub check_listen : ℤ → Act Bool
  unfolding ask listen_command
  check_listen port = exec_run rt (listen_command port) >>=ₐ λ reply. pure (reply.0 == 0)

  -- What follows the command: the port is waited for, and it does not matter whether it comes.
  unfoldable pub await_port : Dict Text Value → Act (Unit {0})
  unfolding port_of cond_timedwait check_listen
  await_port d = lift (port_of d) >>=ₐ λ v.
      lift (number v) >>=ₐ λ port. cond_timedwait checks (check_listen port) >>=ₐ λ seen. pure tt

  -- `ldmsd_version`, a property that is kept once it was computed
  unfoldable pub ldmsd_version : (kept : Option Version) → Act Version
  unfolding ask
  ldmsd_version (some ver) = pure ver
  ldmsd_version none = exec_run rt (text "ldmsd -V") >>=ₐ λ reply. lift (version reply.1)

  -- `start_ldmsd` with the spec that counts, which is not empty
  unfoldable pub launch_ldmsd : (kept : Option Version) → Dict Text Value → Act (Unit {0})
  unfolding ask ldmsd_version get_ldmsd_cmd item env_dict await_port
  launch_ldmsd kept d = ldmsd_version kept >>=ₐ λ ver.
      lift_outcome (get_ldmsd_config repr fuel (of_items d) (some ver)) >>=ₐ λ cfg.
      lift (item (text "config_file") d) >>=ₐ λ path. write_file rt (shown repr path) cfg >>=ₐ λ _.
      lift (get_ldmsd_cmd repr d) >>=ₐ λ cmd. lift (item (text "env") d >>= env_dict) >>=ₐ λ env.
      ask rt (exec cmd env none) >>=ₐ λ started.
      when (started.0 == 0) (await_port d) (fail runtime_error)

  unfoldable pub launch_unless_empty : (kept : Option Version) → Dict Text Value → Act (Unit {0})
  unfolding launch_ldmsd
  launch_unless_empty kept [] = pure tt
  launch_unless_empty kept (e ∷ d) = launch_ldmsd kept (e ∷ d)

  -- `override` is the argument `spec_override`; `kept` is the version where it was computed before.
  unfoldable pub start_ldmsd :
      (kept : Option Version)
      → Value
      → List (Dict Text Value)
      → (override : Dict Text Value) → Act (Unit {0})
  unfolding ask ldmsd_spec fields launch_unless_empty
  start_ldmsd kept cluster_env daemons override = exec_run rt (text "pgrep -c ldmsd") >>=ₐ λ found.
      when (found.0 == 0) (pure tt) (
        lift (ldmsd_spec cluster_env daemons >>= λ s. deep_copy (dict (of_items s)) >>= fields)
        >>=ₐ λ spec. launch_unless_empty kept (Dict.update spec override))
