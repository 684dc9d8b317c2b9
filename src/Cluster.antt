-- ===== src/Cluster.antt =====
-- The class `LDMSDCluster` of LDMS_Test.py: what it makes of its containers and its spec. The
-- commands go to the last container. Of a spec only the keys that are read are kept.
pub mod Tables
pub mod Hosts
pub mod SlurmConf
mod Examples
use ldms_test.Base.{
  ℕ, zero, suc, Text, Bool, true, false, List, [], ◌∷◌, ◌++◌, ◌==◌, nat_eq, text_eq, Option, none,
  some, Result, ok, err, index_error, value_error, runtime_error,
}
use ldms_test.Base.Dict
use ldms_test.Base.Dict.{Dict}
use ldms_test.Base.Strings.{text, join, split, splitlines, decimal}
use ldms_test.Runtime.{Runtime, Act, ◌>>=◌, pure, fail, lift, exec_run, when, ask}

pub record Node : Type 0 where
  pub hostname : Text
  pub ip_addr : Text
  pub ipv6_addr : Text

-- A value of `node_aliases`.
pub data Aliases : Type 0 where
  one : Text → Aliases
  many : List Text → Aliases

unfoldable pub alias_list : Option Aliases → List Text
alias_list none = []
alias_list (some (one a)) = a ∷ []
alias_list (some (many names)) = names

-- A line of /etc/hosts, with the names of a container behind its address.
hosts_line : Text → Text → List Text → Text
hosts_line ip hostname [] = ip ++ (b' ' ∷ hostname)
hosts_line ip hostname (a ∷ names) = ip ++ (b' ' ∷ hosts_line hostname a names)

hosts_lines : (Node → Text) → Dict Text Aliases → List Node → Text
unfolding alias_list hosts_line
hosts_lines address aliases [] = []
hosts_lines address aliases (c ∷ cs) =
    hosts_line (address c) c.hostname (alias_list (Dict.lookup c.hostname aliases))
    ++ (b'\n' ∷ hosts_lines address aliases cs)

-- `build_etc_hosts`; `ipv6` is the truth value of the key of the spec, `own` is `self.node_aliases`
unfoldable pub build_etc_hosts : Bool → (own aliases : Dict Text Aliases) → List Node → Text
unfolding hosts_lines
build_etc_hosts ipv6 own aliases cs =
    let used : Dict Text Aliases = elim aliases [ [] ↦ own | a ∷ rest ↦ a ∷ rest ] in
    elim ipv6 [
      | true ↦ text "::1 localhost\n" ++ hosts_lines (λ c. c.ipv6_addr) used cs
      | false ↦ text "127.0.0.1 localhost\n" ++ hosts_lines (λ c. c.ip_addr) used cs
    ]

-- `zip(keys, values)`
unfoldable pub zip : List Text → List Text → List (Text × Text)
zip [] vs = []
zip (k ∷ ks) [] = []
zip (k ∷ ks) (v ∷ vs) = (k, v) ∷ zip ks vs

rows : List Text → List Text → List (Dict Text Text)
unfolding zip
rows keys [] = []
rows keys (l ∷ ls) = Dict.update [] (zip keys (split b'|' l)) ∷ rows keys ls

-- The part of `squeue` behind the command.
table : List Text → Result (List (Dict Text Text))
unfolding rows
table [] = err index_error
table (header ∷ ls) = ok (rows (split b'|' header) ls)

-- The command of `squeue`; a job id 0 counts as none
unfoldable pub squeue_command : Option ℕ → Text
squeue_command none = text "squeue -o %all"
squeue_command (some zero) = text "squeue -o %all"
squeue_command (some (suc n)) = text "squeue -o %all -j " ++ decimal (suc n)

module _ (rt : Runtime) where
  unfoldable pub squeue : Option ℕ → Act (List (Dict Text Text))
  unfolding ask table squeue_command
  squeue jobid = do
    (rc, out) ← exec_run rt (squeue_command jobid)
    when (rc == 0) (lift (table (splitlines out))) (fail runtime_error)

  unfoldable pub scancel : ℕ → Act (Unit {0})
  unfolding ask
  scancel jobid = do out ← exec_run rt (text "scancel " ++ decimal jobid); pure tt
