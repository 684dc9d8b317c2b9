-- ===== src/Singularity/Containers.antt =====
-- runtime/singularity.py, the classes SContainer and SCluster: commands for a container, the reply of
-- its shell, and the hosts of new containers. Bytes are numbers; `quote` is `shlex.quote`, `int` is
-- `int` of bytes and `decode` the method of bytes, which raises where they are no UTF-8. The shell ends its reply to a command with "\xFFRC", the exit code and "\xFFEND\n".
pub mod Replies
pub mod Counts
pub mod Hosts
mod Examples
use ldms_test.Base.{
  ℕ, zero, suc, ◌+◌, Text, Bool, true, false, List, [], ◌∷◌, ◌++◌, Option, none, some, leb, ◌==◌,
  if◌then◌else◌, nat_eq, text_eq, length, take, drop, Result, ok, err, value_error, runtime_error,
  key_error, index_error, ◌>>=◌,
}
use ldms_test.Base.Dict
use ldms_test.Base.Dict.{Dict}
use ldms_test.Base.Strings.{text, join, split, split_once, starts_with}

-- `__append`
append_to : Text → List Text → Dict Text Text → Dict Text Text
append_to var ents env =
    let old : Text = elim (Dict.lookup var env) [ none ↦ [] | some v ↦ v ] in
    Dict.insert var (old ++ (b':' ∷ join (text ":") ents)) env

-- The variables of a command, from those of the cluster, those given and the host name
unfoldable pub command_env : Dict Text Text → Dict Text Text → Text → Dict Text Text
unfolding append_to
command_env cluster_env own hostname =
    let e1 = Dict.update cluster_env own in
    let e2 =
      append_to (text "PATH")
        (text "/opt/ovis/bin"
          ∷ (text "/opt/ovis/sbin"
              ∷ (text "/usr/local/bin"
                  ∷ (text "/usr/local/sbin"
                      ∷ (text "/usr/bin"
                          ∷ (text "/usr/sbin" ∷ (text "/bin" ∷ (text "/sbin" ∷ []))))))))
        e1 in
    let e3 =
      append_to (text "LD_LIBRARY_PATH") (text "/opt/ovis/lib" ∷ (text "/opt/ovis/lib64" ∷ []))
        e2 in
    let e4 =
      append_to (text "ZAP_LIBPATH")
        (text "/opt/ovis/lib/ovis-ldms"
          ∷ (text "/opt/ovis/lib64/ovis-ldms"
              ∷ (text "/opt/ovis/lib/ovis-lib" ∷ (text "/opt/ovis/lib64/ovis-lib" ∷ []))))
        e3 in
    let e5 =
      append_to (text "LDMSD_PLUGIN_LIBPATH")
        (text "/opt/ovis/lib/ovis-ldms" ∷ (text "/opt/ovis/lib64/ovis-ldms" ∷ [])) e4 in
    let e6 =
      append_to (text "PYTHONPATH")
        (text "/opt/ovis/lib/python3.6/site-packages"
          ∷ (text "/opt/ovis/lib64/python3.6/site-packages" ∷ []))
        e5 in
    elim (Dict.lookup (text "HOSTNAME") e6) [
      | none ↦ Dict.insert (text "HOSTNAME") hostname e6
      | some h ↦ e6
    ]

module _ (quote : Text → Text) where
  env_options : Dict Text Text → Text
  env_options [] = []
  env_options ((k, v) ∷ env) =
      b' ' ∷ (quote (text "--env=" ++ (k ++ (b'=' ∷ v))) ++ env_options env)

  quoted : List Text → List Text
  quoted [] = []
  quoted (c ∷ cs) = quote c ∷ quoted cs

  -- A command as a list, or as a text
  unfoldable pub command_text : List Text → Text
  unfolding quoted
  command_text cs = join (text " ") (quoted cs)

  as_user : Option Text → Text → Text
  as_user none cmd = cmd
  as_user (some user) cmd = text "runuser " ++ (user ++ (text " -s /bin/bash -c " ++ quote cmd))

  -- `_prep_scmd` of a command as a text; an empty `ssh` stands for this host.
  unfoldable pub prep_scmd : Dict Text Text → Option Text → Text → Text → Text → Text
  unfolding env_options as_user
  prep_scmd env user instance ssh cmd =
      let scmd =
        text "singularity exec "
        ++ (env_options env ++ (text " instance://" ++ (instance ++ (b' ' ∷ as_user user cmd)))) in
      if ssh == [] then scmd else ssh ++ (b' ' ∷ quote scmd)

-- "\xFFRC" and "\xFFEND\n"
abbrev pub rc_mark : Text
rc_mark = 255 ∷ text "RC"

abbrev pub end_mark : Text
end_mark = 255 ∷ text "END\n"

-- `endswith`
unfoldable pub ends_with : Text → Text → Bool
ends_with p [] = p == []
ends_with p (c ∷ s) = let later = ends_with p s in if p == (c ∷ s) then true else later

-- The loop of `_exec_run` over what the shell has to read; `none` where it has to read on.
unfoldable pub read_reply : Text → List Text → Option Text
unfolding ends_with
read_reply got [] = if ends_with end_mark got then some got else none
read_reply got (b ∷ chunks) =
    let rest = read_reply (got ++ b) chunks in if ends_with end_mark got then some got else rest

-- A mark further on comes first.
later_mark : ℕ → Option (Text × Text) → Option (Text × Text) → Option (Text × Text)
later_mark c here none = here
later_mark c here (some (a, b)) = some (c ∷ a, b)

-- `b[:idx]` and `b[idx+3:]` for `idx = b.rindex("\xFFRC")`
unfoldable pub split_last : Text → Option (Text × Text)
unfolding later_mark
split_last [] = none
split_last (c ∷ s) =
    later_mark c (if starts_with (c ∷ s) rc_mark then some ([], drop 3 (c ∷ s)) else none)
      (split_last s)

first_part : List Text → Text
first_part [] = []
first_part (p ∷ ps) = p

of_parts : (Text → Result ℕ) → (Text → Result Text) → Option (Text × Text) → Result (ℕ × Text)
unfolding first_part
of_parts int decode none = err value_error
of_parts int decode (some (out, rest)) = do
  rc ← int (first_part (split 255 rest))
  s ← decode out
  ok (rc, s)

-- The exit code and the output of a reply
unfoldable pub exec_result :
    (Text → Result ℕ) → (decode : Text → Result Text) → Text → Result (ℕ × Text)
unfolding split_last of_parts
exec_result int decode b = of_parts int decode (split_last b)

with_value : Text × Option Text → Result (Text × Text)
with_value (k, none) = err value_error
with_value (k, some v) = ok (k, v)

-- `dict( s.split('=', 1) for s in ... if s )`
unfoldable pub env_items : List Text → Result (List (Text × Text))
unfolding with_value
env_items [] = ok []
env_items ([] ∷ ss) = env_items ss
env_items ((c ∷ s) ∷ ss) =
    with_value (split_once b'=' (c ∷ s)) >>= λ kv. env_items ss >>= λ kvs. ok (kv ∷ kvs)

-- `get_env`, of the result of `env -0`
unfoldable pub get_env : ℕ × Text → Result (Dict Text Text)
unfolding env_items
get_env (zero, out) = env_items (split 0 out) >>= λ kvs. ok (Dict.update [] kvs)
get_env (suc rc, out) = err runtime_error

-- The first address of /proc/PID/net/fib_trie that is one of a host: `match` is what `IP_RE` finds.
unfoldable pub host_address : (Text → Option Text) → List Text → Option Text
host_address match [] = none
host_address match (l ∷ ls) =
    let rest = host_address match ls in
    elim (match l) [
      | none ↦ rest
      | some addr ↦
          if ends_with (text ".0") addr
          then rest
          else if starts_with addr (text "127.")
          then rest
          else if ends_with (text ".255") addr
          then rest
          else some addr
    ]

-- `SCluster._create`: the containers of each host
-- `heap[cont.ssh_host]`
of_host : Option ℕ → Result ℕ
of_host none = err key_error
of_host (some n) = ok n

unfoldable pub count_existing : List Text → Dict Text ℕ → Result (Dict Text ℕ)
unfolding of_host
count_existing [] heap = ok heap
count_existing (h ∷ hs) heap =
    of_host (Dict.lookup h heap) >>= λ n. count_existing hs (Dict.insert h (suc n) heap)

unfoldable pub empty_heap : List Text → Dict Text ℕ → Dict Text ℕ
empty_heap [] heap = heap
empty_heap (h ∷ hs) heap = empty_heap hs (Dict.insert ((split_once b':' h).0) 0 heap)

-- One more container on a host
unfoldable pub one_more : Text → Dict Text ℕ → Dict Text ℕ
one_more h [] = []
one_more h ((k, m) ∷ heap) = if k == h then (k, suc m) ∷ heap else (k, m) ∷ one_more h heap

-- The loop over the nodes: the host of each, and the containers of each host when it ends. `pick` is
-- the host of the first entry of the heap.
unfoldable pub choose_hosts :
    (Dict Text ℕ → Text) → List Text → Dict Text ℕ → Result (List Text × Dict Text ℕ)
unfolding one_more
choose_hosts pick [] heap = ok ([], heap)
choose_hosts pick (node ∷ nodes) [] = err index_error
choose_hosts pick (node ∷ nodes) (e ∷ heap) = do
  let h = pick (e ∷ heap)
  (hosts, last) ← choose_hosts pick nodes (one_more h (e ∷ heap))
  ok (h ∷ hosts, last)

-- The hosts of the nodes of a new cluster, from the hosts of the containers that run
unfoldable pub place_nodes :
    (Dict Text ℕ → Text)
    → (sing_hosts existing nodes : List Text) → Result (List Text × Dict Text ℕ)
unfolding empty_heap count_existing choose_hosts
place_nodes pick sing_hosts existing nodes =
    count_existing existing (empty_heap sing_hosts []) >>= λ heap. choose_hosts pick nodes heap
