-- ===== src/Scale/Control.antt =====
-- scalability/ldmsdutils.py, `get_daemons`, which scalability/ldmsd_ctl.py works on, and the class
-- `Control`, which runs that script on every host. A shell answers a command by the commands that
-- were run, this one last, with a return code and an output.
pub mod Hosts
use ldms_test.Base.{
  ℕ, zero, suc, Text, Bool, true, false, List, [], ◌∷◌, ◌++◌, Option, none, some, Result, ok, err,
  key_error, runtime_error, text_eq, contains, ◌>>=◌, ◌==◌, nat_eq, if◌then◌else◌,
}
use ldms_test.Base.Dict
use ldms_test.Base.Dict.{Dict}
use ldms_test.Base.Strings.{text, decimal}
use ldms_test.Sql.Engine.{filter}
use ldms_test.Scale.{Config, Level, samp, l1, l2, l3, Daemon, hl, bpl, nhl, names, on_host, new}

unfoldable pub new_all : Config → Level → List Text → Result (List Daemon)
new_all c l [] = ok []
new_all c l (k ∷ ks) = new c l k >>= λ d. new_all c l ks >>= λ ds. ok (d ∷ ds)

-- `allDaemons`
unfoldable pub all_daemons : Config → Level → Result (List Daemon)
unfolding new_all
all_daemons c l = new_all c l (names (hl c l) (bpl c l) (nhl c l))

-- `ldmsd_list` of `Control`
unfoldable pub ldmsd_list : Config → Result (List Daemon)
unfolding all_daemons
ldmsd_list c = all_daemons c samp >>= λ samps. all_daemons c l1 >>= λ l1_aggs.
    all_daemons c l2 >>= λ l2_aggs.
    all_daemons c l3 >>= λ l3_aggs. ok (samps ++ (l1_aggs ++ (l2_aggs ++ l3_aggs)))

-- The daemons of a level on `MYHOST`
unfoldable pub here : Config → Level → Result (List Daemon)
unfolding new_all
here c l =
    if contains c.my_host (hl c l)
    then new_all c l (on_host c.my_host (bpl c l) (nhl c l))
    else ok []

-- `get_daemons`
unfoldable pub get_daemons : Config → Option (Daemon → Bool) → Result (List Daemon)
unfolding here
get_daemons c fltr = here c samp >>= λ samps. here c l1 >>= λ l1_aggs. here c l2 >>= λ l2_aggs.
    here c l3 >>= λ l3_aggs.
    let daemons = samps ++ (l1_aggs ++ (l2_aggs ++ l3_aggs)) in
    ok (elim fltr [ none ↦ daemons | some p ↦ filter p daemons ])

-- `ldmsd_by_name[s]`
find_daemon : Text → List Daemon → Option Daemon → Result Daemon
find_daemon s [] none = err key_error
find_daemon s [] (some d) = ok d
find_daemon s (d ∷ ds) found = elim (d.name == s) [
  | true ↦ find_daemon s ds (some d)
  | false ↦ find_daemon s ds found
]

named : List Daemon → List Text → Result (List Daemon)
unfolding find_daemon
named ds [] = ok []
named ds (s ∷ ss) = find_daemon s ds none >>= λ d. named ds ss >>= λ rest. ok (d ∷ rest)

-- `host_list.setdefault(d.host, list())` and `append`
unfoldable pub add_to : Text → Daemon → Dict Text (List Daemon) → Dict Text (List Daemon)
add_to h d groups = elim (Dict.lookup h groups) [
  | none ↦ Dict.insert h (d ∷ []) groups
  | some ds ↦ Dict.insert h (ds ++ (d ∷ [])) groups
]

-- `host_list`
unfoldable pub by_host : Dict Text (List Daemon) → List Daemon → Dict Text (List Daemon)
unfolding add_to
by_host groups [] = groups
by_host groups (d ∷ ds) = by_host (add_to d.host d groups) ds

listed : List Daemon → Text
listed [] = []
listed (d ∷ ds) = b' ' ∷ (d.name ++ listed ds)

-- The command for a host, with the port of ssh and the directory of the scripts
unfoldable pub command : Config → ℕ → Text → Text → Bool → Text → List Daemon → Text
unfolding listed
command c ssh_port src_dir cmd with_names h ds =
    let script =
      src_dir ++ (text "/ldmsd_ctl.py " ++ (cmd ++ (if with_names then listed ds else []))) in
    elim (h == c.my_host) [
      | true ↦ script
      | false ↦
          text "ssh " ++ (text " -p " ++ (decimal ssh_port ++ (b' ' ∷ (h ++ (b' ' ∷ script)))))
    ]

-- The loop over the hosts: the outputs, or an exception, and the commands that were run
unfoldable pub run_each :
    (List Text → ℕ × Text) → List Text → List Text → Result (List Text) × List Text
run_each shell done [] = (ok [], done)
run_each shell done (k ∷ ks) =
    let answer = shell (done ++ (k ∷ [])) in
    let rest = run_each shell (done ++ (k ∷ [])) ks in
    elim (answer.0) [
      | zero ↦ (rest.0 >>= λ outs. ok (answer.1 ∷ outs), rest.1)
      | suc n ↦ (err runtime_error, done ++ (k ∷ []))
    ]

commands : (Text → List Daemon → Text) → Dict Text (List Daemon) → List Text
commands f [] = []
commands f ((h, ds) ∷ groups) = f h ds ∷ commands f groups

run_on :
    Result (List Daemon)
    → (List Text → ℕ × Text)
    → (Text → List Daemon → Text)
    → Result (List Text) × List Text
unfolding by_host run_each commands
run_on (err e) shell f = (err e, [])
run_on (ok ds) shell f = run_each shell [] (commands f (by_host [] ds))

-- `_ctrl`
unfoldable pub ctrl :
    Config → (List Text → ℕ × Text) → ℕ → Text → Text → List Text → Result (List Text) × List Text
unfolding run_on named ldmsd_list command
ctrl c shell ssh_port src_dir cmd [] =
    run_on (ldmsd_list c) shell (command c ssh_port src_dir cmd false)
ctrl c shell ssh_port src_dir cmd (s ∷ ss) =
    run_on (ldmsd_list c >>= λ ds. named ds (s ∷ ss)) shell (command c ssh_port src_dir cmd true)
