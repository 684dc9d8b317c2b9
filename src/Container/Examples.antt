-- ===== src/Container/Examples.antt =====
-- Witnesses on a container that refuses the first call of a daemon of Slurm.
use ldms_test.Base.{
  ℕ, suc, ◌<◌, ◌≡◌, ◌⊎◌, Text, Option, none, some, [], ◌∷◌, ◌++◌, ok, runtime_error,
}
use ldms_test.Base.Strings.{text}
use ldms_test.Base.{Result, List, [], ◌∷◌, err, value_error}
use ldms_test.Base.Dict.{Dict}
use ldms_test.Base.Int.{ℤ}
use ldms_test.Value.{Value, str}
use ldms_test.LdmsdConfig.{Version}
use ldms_test.Base.Outcome.{done, raised}
use ldms_test.Runtime.{Runtime, run}
use ldms_test.Runtime.Adds.{Adds}
use ldms_test.Container.{Container, Daemon, Table, run_daemon}
use ldms_test.Container.Slurm.{Refused, Succeeds, call, times, run_daemon-three}

abbrev busy : Runtime
busy = record { reply = λ h r. elim h [ [] ↦ (1, []) | _ ∷ _ ↦ (0, []) ]; int = λ s. ok 0 }

abbrev daemon : Option Text → Option Text → Option Text → Daemon
daemon name dom key = record {
  name = name;
  type = some (text "munged");
  dom = dom;
  key = key;
  plugstack = [];
}

abbrev first : Daemon
first = daemon none none (some (text "k1"))

abbrev second : Daemon
second = daemon (some (text "m2")) (some (text "dom1")) (some (text "k2"))

abbrev third : Daemon
third = record { name = none; type = some (text "ldmsd"); dom = none; key = none; plugstack = [] }

abbrev node : Container
node = record {
  hostname = text "node-1";
  ip_addr = text "10.0.0.1";
  daemons = first ∷ (second ∷ (third ∷ []));
  slurm_conf = text "SlurmUser=root";
}

abbrev empty : Table
empty d = none

-- The daemons as the spec has them.
abbrev listed : List (Dict Text Value)
listed =
    ((text "type", str (text "munged")) ∷ [])
    ∷ ((text "type", str (text "ldmsd")) ∷ (text "config_file", str (text "/etc/x.conf")) ∷ [])
    ∷ []

abbrev no_repr : Value → Text
no_repr v = []

abbrev no_version : Text → Result Version
no_version s = err value_error

abbrev no_number : Value → Result ℤ
no_number v = err value_error

run_daemon-three_example :
    ((k : ℕ) × (k < 3)
      × Succeeds busy (text "slurmd") k []
      × (run (run_daemon busy (text "slurmd")) []
          ≡ (done tt, [] ++ times (suc k) (call (text "slurmd")))))
    ⊎ (Refused busy (text "slurmd") 3 []
        × (run (run_daemon busy (text "slurmd")) []
            ≡ (raised runtime_error, [] ++ times 3 (call (text "slurmd")))))
run_daemon-three_example = run_daemon-three busy (text "slurmd") []
