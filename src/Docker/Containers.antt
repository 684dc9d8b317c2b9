-- ===== src/Docker/Containers.antt =====
-- runtime/docker.py, the classes Container and DockerCluster: the state of containers, what is read
-- back from a socket, and the container of a name. `running` says what the container answers at each
-- check, and `rounds` for how many checks the clock stays within the timeout.
pub mod Names
mod Examples
use ldms_test.Base.{
  ℕ, zero, suc, ◌+◌, Text, Bool, true, false, List, [], ◌∷◌, ◌++◌, Option, none, some, drop,
  if◌then◌else◌, ◌==◌, nat_eq, text_eq, Result, ok, err, Exc, key_error, runtime_error, type_error,
  ◌>>=◌,
}
use ldms_test.Base.Dict
use ldms_test.Base.Dict.{Dict}
use ldms_test.Base.Strings.{text}
use ldms_test.Cluster.{Aliases, alias_list}

pub record Cont : Type 0 where
  pub name : Text
  pub hostname : Text
  -- attrs["State"]["Status"], if there is such an item
  pub status : Option Text
  -- the networks, with the addresses
  pub interfaces : List (Text × Text × Option Text)

unfoldable pub is_running : Cont → Bool
is_running c = elim c.status [ none ↦ false | some s ↦ s == text "running" ]

-- The loop of `wait_running`, from check `i` on
unfoldable pub wait_from : (ℕ → Bool) → ℕ → ℕ → Bool
wait_from running i zero = running i
wait_from running i (suc rounds) =
    let rest = wait_from running (suc i) rounds in if running i then true else rest

unfoldable pub wait_running : (ℕ → Bool) → ℕ → Bool
unfolding wait_from
wait_running running rounds = wait_from running 0 rounds

-- `is_running` of a cluster
unfoldable pub all_running : List Cont → Bool
unfolding is_running
all_running [] = true
all_running (c ∷ cs) = if is_running c then all_running cs else false

find_interface : Text → List (Text × Text × Option Text) → Option (Text × Option Text)
find_interface net [] = none
find_interface net ((name, addr, addr6) ∷ rest) =
    if name == net then some (addr, addr6) else find_interface net rest

-- `get_ip_addr` and `get_ipv6_addr`; without a cluster an exception is caught.
unfoldable pub get_ip_addr : Option Text → Cont → Option Text
unfolding find_interface
get_ip_addr none c = none
get_ip_addr (some net) c = elim (find_interface net c.interfaces) [
  | none ↦ none
  | some (addr, addr6) ↦ some addr
]

unfoldable pub get_ipv6_addr : Option Text → Cont → Option Text
unfolding find_interface
get_ipv6_addr none c = none
get_ipv6_addr (some net) c = elim (find_interface net c.interfaces) [
  | none ↦ none
  | some (addr, addr6) ↦ addr6
]

-- What the socket gives back: `pipe` and `write_file`, behind a header of 8 bytes.
unfoldable pub pipe_result : Text → ℕ × Text
pipe_result [] = (0, [])
pipe_result (c ∷ ret) = (if c == 1 then 0 else c, drop 8 (c ∷ ret))

unfoldable pub write_result : Text → Result (Unit {0})
write_result ret = if drop 8 ret == text "true" then ok tt else err runtime_error

unfoldable pub read_result : ℕ → Text → Result Text
read_result zero output = ok output
read_result (suc rc) output = err runtime_error

-- The loop of `read` of a terminal: `chunks` are what `recv` gives, with nothing for an exception that
-- says that there is no data yet, and an empty text at the end.
unfoldable pub read_tty : Bool → List (Option Text) → Text
read_tty active [] = []
read_tty active (some [] ∷ chunks) = []
read_tty active (some (c ∷ s) ∷ chunks) = (c ∷ s) ++ read_tty true chunks
read_tty true (none ∷ chunks) = read_tty false chunks
read_tty false (none ∷ chunks) = []

-- `attrs.get("Labels")` of a network, as the names of the labels: `__init__` of DockerCluster
unfoldable pub check_labels : Option (List Text) → Result (Unit {0})
check_labels none = err type_error
check_labels (some []) = err type_error
check_labels (some (l ∷ ls)) =
    let rest = check_labels (some ls) in if l == text "DockerCluster" then ok tt else rest

unfoldable pub by_hostname : List Cont → Dict Text Cont → Dict Text Cont
by_hostname [] d = d
by_hostname (c ∷ cs) d = by_hostname cs (Dict.insert c.hostname c d)

unfoldable pub add_names : Cont → List Text → Dict Text Cont → Dict Text Cont
add_names c [] d = d
add_names c (n ∷ ns) d = add_names c ns (Dict.insert n c d)

-- `cont_dict[k]`
known : Option Cont → Result Cont
known none = err key_error
known (some c) = ok c

unfoldable pub add_aliases : Dict Text Aliases → Dict Text Cont → Result (Dict Text Cont)
unfolding add_names alias_list known
add_aliases [] d = ok d
add_aliases ((k, v) ∷ rest) d =
    known (Dict.lookup k d) >>= λ c. add_aliases rest (add_names c (alias_list (some v)) d)

-- `cont_dict` of a cluster
unfoldable pub cont_dict : Dict Text Aliases → List Cont → Result (Dict Text Cont)
unfolding add_aliases
cont_dict aliases cs = add_aliases aliases (by_hostname cs [])

-- `get_container`: the result, and the dict that is kept; an empty one is made anew.
unfoldable pub get_container :
    Dict Text Aliases → List Cont → Text → Dict Text Cont → Result (Option Cont) × Dict Text Cont
unfolding cont_dict
get_container aliases cs name [] = elim (cont_dict aliases cs) [
  | ok d ↦ (ok (Dict.lookup name d), d)
  | err e ↦ (err e, [])
]
get_container aliases cs name (x ∷ kept) = (ok (Dict.lookup name (x ∷ kept)), x ∷ kept)
