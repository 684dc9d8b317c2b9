-- ===== src/Scale/Cluster.antt =====
-- scalability/cluster.py: a command on all hosts, which are divided among threads. The hosts are
-- given in the order that the file sorts them in.
pub mod Load
use ldms_test.Base.{
  ℕ, zero, suc, ◌+◌, ◌-◌, ◌/◌, ◌%◌, Text, Bool, true, false, List, [], ◌∷◌, ◌++◌, Option, none,
  some, Result, ok, err, zero_division_error, text_eq, length, take, drop, ltb, ◌==◌, nat_eq,
  if◌then◌else◌,
}
use ldms_test.Base.Dict
use ldms_test.Base.Dict.{Dict}
use ldms_test.Base.Strings.{text, decimal}

-- `cmd_map`, with the directory of the scripts and the options
abbrev script : Text → Text → Text → Text
script src_dir file verb = src_dir ++ (b'/' ∷ (file ++ (b' ' ∷ verb)))

abbrev both : Text → Text → Text → Text
both src_dir verb l =
    script src_dir (text "ldmsd_ctl.py") verb
    ++ (b' ' ∷ (l ++ (text "; " ++ (script src_dir (text "ldmsd_mon.py") verb ++ text ";"))))

unfoldable pub cmd_map : Text → Text → Text → Dict Text Text
cmd_map src_dir l j =
    (text "ldmsd_status", script src_dir (text "ldmsd_ctl.py") (text "status") ++ (l ++ j))
    ∷ (text "ldmsd_start", script src_dir (text "ldmsd_ctl.py") (text "start") ++ (l ++ j))
    ∷ (text "ldmsd_stop", script src_dir (text "ldmsd_ctl.py") (text "stop") ++ (l ++ j))
    ∷ (text "ldmsd_cleanup", script src_dir (text "ldmsd_ctl.py") (text "cleanup") ++ (l ++ j))
    ∷ (text "mon_status", script src_dir (text "ldmsd_mon.py") (text "status") ++ j)
    ∷ (text "mon_start", script src_dir (text "ldmsd_mon.py") (text "start") ++ j)
    ∷ (text "mon_stop", script src_dir (text "ldmsd_mon.py") (text "stop") ++ j)
    ∷ (text "mon_cleanup", script src_dir (text "ldmsd_mon.py") (text "cleanup") ++ j)
    ∷ (text "all_start", both src_dir (text "start") l)
    ∷ (text "all_stop", both src_dir (text "stop") l)
    ∷ (text "all_status", both src_dir (text "status") l)
    ∷ (text "all_cleanup", both src_dir (text "cleanup") l)
    ∷ []

-- `args.command.replace("-", "_")`
underscored : Text → Text
underscored [] = []
underscored (c ∷ s) = (if c == b'-' then b'_' else c) ∷ underscored s

-- The command that is asked for, if it is known
unfoldable pub find_command : Text → Text → Text → Text → Option Text
unfolding cmd_map underscored
find_command src_dir l j name = Dict.lookup (underscored name) (cmd_map src_dir l j)

-- What a thread runs for a host.
unfoldable pub thread_command : Text → ℕ → Text → Text → Text
thread_command my_host ssh_port cmd h = elim (h == my_host) [
  | true ↦ text "bash -c '" ++ (cmd ++ text "'")
  | false ↦
      text "ssh "
      ++ (text " -p " ++ (decimal ssh_port ++ (b' ' ∷ (h ++ (b' ' ∷ (b'\'' ∷ (cmd ++ text "'")))))))
]

-- `hosts[a:b]`
unfoldable pub slice : List Text → ℕ → ℕ → List Text
slice hosts a b = take (b - a) (drop a hosts)

-- The loop that fills `load`, from the i-th thread and the host `i0` on.
unfoldable pub load_from : List Text → ℕ → ℕ → ℕ → ℕ → ℕ → List (List Text)
unfolding slice
load_from hosts m r i i0 zero = []
load_from hosts m r i i0 (suc n) =
    let i1 = i0 + m + (if ltb i r then 1 else 0) in
    slice hosts i0 i1 ∷ load_from hosts m r (suc i) i1 n

-- `load`
unfoldable pub load : ℕ → List Text → Result (List (List Text))
unfolding load_from
load zero hosts = err zero_division_error
load (suc n) hosts = ok (load_from hosts (length hosts / suc n) (length hosts % suc n) 0 0 (suc n))

-- The return code: the first one that is not 0
unfoldable pub return_code : List ℕ → ℕ
return_code [] = 0
return_code (zero ∷ rcs) = return_code rcs
return_code (suc n ∷ rcs) = suc n
