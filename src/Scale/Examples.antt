-- ===== src/Scale/Examples.antt =====
-- Tests of the scalability tools on a small cluster.
use ldms_test.Base.{
  ◌≡◌, ◌≢◌, refl, ℕ, suc, ◌+◌, ◌*◌, ◌/◌, Text, Bool, true, false, List, [], ◌∷◌, ◌++◌, Option, none,
  some, Result, ok, err, value_error, text_beq, text_eq, contains, All, length, ◌⊎◌, ◌==◌, nat_eq,
}
use ldms_test.Base.Dict
use ldms_test.Base.Dict.{Dict, NodupKeys}
use ldms_test.Base.Strings.{text, decimal, starts_with}
use ldms_test.Base.Int.{ℤ, pos, int_text}
use ldms_test.Sql.Engine.{filter}
use ldms_test.Objects.Commit.{IsDistinct}
use ldms_test.Scale.{
  Config, Level, samp, l1, l2, l3, Daemon, dl, ndl, hl, daemon_name, new, rsplit, l3_dir, names,
  on_host,
}
use ldms_test.Scale.Parts.{sets_of}
use ldms_test.Scale.Topology.{share, l3_dir_lem}
use ldms_test.Scale.Control.{by_host, ldmsd_list, get_daemons, all_daemons}
use ldms_test.Scale.Control.Hosts.{is_on, of_host, by_host_lem, get_daemons_lem}
use ldms_test.Scale.Cluster.{load}
use ldms_test.Scale.Cluster.Load.{concat, load_lem}
use ldms_test.Scale.Process.{pid_of, Machine, Action, kill, ldmsd, stop, getpid, truthy, occurs}
use ldms_test.Scale.Ctl.{run_ctl, name_filter, handle_all, handle, stop_daemons}
use ldms_test.Scale.Ctl.Stops.{StopsOf, run_ctl-StopsOf}
use ldms_test.Scale.Process.Signals.{IsRunning, stop_lem}

-- Four samplers on two hosts, two aggregators, one above them, and the top one.
abbrev small : Config
small = record {
  my_host = text "b";
  samp_hosts = text "a" ∷ text "b" ∷ [];
  samp_per_host = 2;
  sets_per_samp = 1;
  l1_hosts = text "b" ∷ [];
  l1_per_host = 2;
  l2_hosts = text "c" ∷ [];
  l2_per_host = 1;
  l3_host = text "c";
  samp_base_port = 1;
  l1_base_port = 3;
  l2_base_port = 5;
  l3_base_port = 6;
  mem_per_set = 4096;
  xprt = text "sock";
  log_level = text "ERROR";
  conn_interval = 1000000;
  samp_interval = 1000000;
  l3_store_root = none;
}

samplers_distinct : IsDistinct (dl small samp)
unfolding dl names on_host daemon_name decimal contains text_beq
samplers_distinct = (refl, (refl, (refl, (refl, tt))))

l1_distinct : IsDistinct (dl small l1)
unfolding dl names on_host daemon_name decimal contains text_beq
l1_distinct = (refl, (refl, tt))

l2_distinct : IsDistinct (dl small l2)
unfolding dl names on_host daemon_name decimal contains text_beq
l2_distinct = (refl, tt)

l3_dir_lem_example :
    (l3_dir small (daemon_name small.l3_host small.l3_base_port)
      ≡ ok (
          sets_of 1 (
            ldms_test.Base.take
              (share small samplers_distinct l1_distinct l2_distinct l3)
              (dl small samp))))
    × (ndl small l1 * (ndl small samp / ndl small l1) ≡ ndl small samp
        → ndl small l2 * (ndl small l1 / ndl small l2) ≡ ndl small l1
        → l3_dir small (daemon_name small.l3_host small.l3_base_port)
          ≡ ok (sets_of 1 (dl small samp)))
l3_dir_lem_example = l3_dir_lem small samplers_distinct l1_distinct l2_distinct

abbrev daemon : Text → Text → Text → Level → ℕ → Daemon
daemon name host port l i = record { name = name; host = host; port = port; level = l; idx = i }

abbrev all : List Daemon
all =
    daemon (text "a-1") (text "a") (text "1") samp 0
    ∷ daemon (text "a-2") (text "a") (text "2") samp 1
    ∷ daemon (text "b-1") (text "b") (text "1") samp 2
    ∷ daemon (text "b-2") (text "b") (text "2") samp 3
    ∷ daemon (text "b-3") (text "b") (text "3") l1 0
    ∷ daemon (text "b-4") (text "b") (text "4") l1 1
    ∷ daemon (text "c-5") (text "c") (text "5") l2 0
    ∷ daemon (text "c-6") (text "c") (text "6") l3 0
    ∷ []

by_host_lem_example :
    NodupKeys (by_host [] all) × ((h : Text) → of_host h (by_host [] all) ≡ filter (is_on h) all)
by_host_lem_example = by_host_lem all

hosts_distinct : (l : Level) → IsDistinct (hl small l)
unfolding contains text_beq
hosts_distinct samp = (refl, (refl, tt))
hosts_distinct l1 = (refl, tt)
hosts_distinct l2 = (refl, tt)
hosts_distinct l3 = (refl, tt)

get_daemons_lem_example : get_daemons small none ≡ ok (filter (is_on (text "b")) all)
unfolding ldmsd_list all_daemons new rsplit dl names on_host daemon_name decimal Dict.lookup
    Dict.insert text_beq
get_daemons_lem_example = get_daemons_lem small all hosts_distinct refl

abbrev five : List Text
five = text "a" ∷ text "b" ∷ text "c" ∷ text "d" ∷ text "e" ∷ []

load_lem_example :
    (parts : List (List Text)) × (load 2 five ≡ ok parts)
    × (length parts ≡ 2)
    × (concat parts ≡ five)
    × All (λ l. (length l ≡ length five / 2) ⊎ (length l ≡ suc (length five / 2))) parts
load_lem_example = load_lem 1 five

-- A machine on which one file and one process are seen.
abbrev machine : Machine
machine = record {
  read = λ f. elim (text_beq f (text "pid/a/a-1.pid")) [
    | true ↦ some (text "7")
    | false ↦ elim (text_beq f (text "/proc/7/comm")) [
      | true ↦ some (text "ldmsd")
      | false ↦ elim (text_beq f (text "/proc/7/cmdline")) [
        | true ↦ some (text "ldmsd -c conf/a/a-1.conf")
        | false ↦ none
      ]
    ]
  ];
  listdir = λ d. none;
  exists = λ f. text_beq f (text "pid/a/a-1.pid");
}

-- The number that the file has
abbrev seven : Text → Result ℤ
seven s = elim (text_beq s (text "7")) [ true ↦ ok (pos 7) | false ↦ err value_error ]

abbrev unchanged : Text → Text
unchanged s = s

stop_lem_example :
    (◌≡◌ {A = List Action} [] [])
    × (pid : ℤ) × (kill (pos 7) ≡ kill pid)
    × (text "a" ≡ text "a")
    × IsRunning (text "a") machine seven unchanged (ldmsd (text "a") (text "a-1")) pid
unfolding stop getpid ldmsd occurs truthy text_beq int_text decimal starts_with
stop_lem_example =
    stop_lem (text "a") machine seven unchanged (ldmsd (text "a") (text "a-1")) (kill (pos 7) ∷ [])
      (kill (pos 7)) [] refl refl

abbrev at_a : Config
at_a = record small { my_host = text "a" }

abbrev one : List Daemon
one = daemon (text "a-1") (text "a") (text "1") samp 0 ∷ []

run_ctl-StopsOf_example :
    All (StopsOf at_a machine seven unchanged one) (kill (pos 7) ∷ [])
    × (◌≡◌ {A = ℕ} 0 0
        → All (λ d. (handle at_a machine seven unchanged stop_daemons d).0 ≡ ok tt) one)
unfolding run_ctl name_filter get_daemons new rsplit dl names on_host daemon_name decimal
    Dict.lookup Dict.insert text_beq contains handle_all handle stop getpid ldmsd occurs truthy
    int_text starts_with pid_of
run_ctl-StopsOf_example =
    run_ctl-StopsOf at_a machine seven unchanged (text "a-1" ∷ []) one
      (record { rc = 0; actions = kill (pos 7) ∷ [] }) refl refl
