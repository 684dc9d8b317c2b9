-- ===== src/Scale/Process.antt =====
-- scalability/ldmsdutils.py, the classes `Proc`, `LDMSDMon` and `LDMSD`: the process of a daemon, which
-- a file with its number and the files under /proc tell of. What a method does to the machine is a
-- list of actions. `int` and `strip` of Python are arguments; log lines are left out.
pub mod Signals
use ldms_test.Base.{
  ℕ, zero, suc, ◌*◌, Text, Bool, true, false, not, ◌&&◌, ◌||◌, List, [], ◌∷◌, ◌++◌, Option, none,
  some, Result, ok, err, runtime_error, type_error, text_eq, contains, length, ◌>>=◌, ◌==◌, nat_eq,
  text_beq,
}
use ldms_test.Base.Int.{ℤ, pos, negsuc, int_text}
use ldms_test.Base.Strings.{text, decimal, starts_with, split}

-- What the machine shows of its files: what `open` and `read`, `listdir` and `exists` answer.
pub record Machine : Type 0 where
  pub read : Text → Option Text
  pub listdir : Text → Option (List Text)
  pub exists : Text → Bool

pub data Action : Type 0 where
  kill : ℤ → Action
  unlink : Text → Action
  rmtree : Text → Action
  write : Text → Text → Action
  shell : Text → Action

-- A process with its tests of the command's name and line
pub record Proc : Type 0 where
  pub name : Text
  pub host : Text
  pub pid_file : Text
  pub comm_validate : Text → Bool
  pub cmdline_validate : Text → Bool

-- `cmdline.find(name) >= 0`
unfoldable pub occurs : Text → Text → Bool
occurs p [] = starts_with [] p
occurs p (x ∷ s) = starts_with (x ∷ s) p || occurs p s

-- `__init__` of `LDMSDMon`
unfoldable pub ldmsd_mon : Text → Proc
unfolding occurs
ldmsd_mon my_host = record {
  name = text "ldmsd_mon";
  host = my_host;
  pid_file = text "mon/" ++ (my_host ++ (b'/' ∷ (my_host ++ text ".pid")));
  comm_validate = λ s. contains s (text "ldmsd_mon.py" ∷ text "python3" ∷ []);
  cmdline_validate = λ s. occurs (text "ldmsd_mon.py") s;
}

-- `__init__` of `LDMSD`, with the name split
unfoldable pub ldmsd : Text → Text → Proc
unfolding occurs
ldmsd host name = record {
  name = name;
  host = host;
  pid_file = text "pid/" ++ (host ++ (b'/' ∷ (name ++ text ".pid")));
  comm_validate = λ s. text_beq s (text "ldmsd");
  cmdline_validate = λ s. occurs name s;
}

-- A process number counts as absent if it is 0.
unfoldable pub truthy : Option ℤ → Bool
truthy none = false
truthy (some (pos zero)) = false
truthy (some (pos (suc n))) = true
truthy (some (negsuc n)) = true

module _ (my_host : Text) (machine : Machine) (int : Text → Result ℤ) (strip : Text → Text) where
  -- `_host_check`
  unfoldable pub host_check : Proc → Result (Unit {0})
  host_check p = elim (my_host == p.host) [ true ↦ ok tt | false ↦ err runtime_error ]

  unfoldable pub proc_file : ℤ → Text → Text
  proc_file pid file = text "/proc/" ++ (int_text pid ++ (b'/' ∷ file))

  -- The number, unless the file is stale: an exception counts as stale.
  unfoldable pub validated : Proc → ℤ → Option ℤ
  unfolding proc_file
  validated p pid = elim (machine.read (proc_file pid (text "comm"))) [
    | none ↦ none
    | some comm ↦ elim (machine.read (proc_file pid (text "cmdline"))) [
      | none ↦ none
      | some line ↦ elim (p.comm_validate (strip comm) && p.cmdline_validate (strip line)) [
        | true ↦ some pid
        | false ↦ none
      ]
    ]
  ]

  unfoldable pub from_file : Proc → Option Text → Option ℤ
  unfolding validated
  from_file p none = none
  from_file p (some s) = elim (int s) [ err e ↦ none | ok pid ↦ validated p pid ]

  -- `getpid`
  unfoldable pub getpid : Proc → Result (Option ℤ)
  unfolding host_check from_file
  getpid p = host_check p >>= λ _. ok (elim (machine.exists p.pid_file) [
    | false ↦ none
    | true ↦ from_file p (machine.read p.pid_file)
  ])

  kill_pid : Option ℤ → List Action
  kill_pid none = []
  kill_pid (some pid) = elim (truthy (some pid)) [ true ↦ kill pid ∷ [] | false ↦ [] ]

  -- `stop`
  unfoldable pub stop : Proc → Result (List Action)
  unfolding getpid kill_pid
  stop p = host_check p >>= λ _. getpid p >>= λ pid. ok (kill_pid pid)

  -- The property `pid`, which keeps a number that is not absent: the number, and what is kept.
  unfoldable pub pid_of : Proc → Option ℤ → Result (Option ℤ)
  unfolding getpid truthy
  pid_of p kept = elim (truthy kept) [ true ↦ ok kept | false ↦ getpid p ]

  -- `fd_num`, with what is kept afterwards
  unfoldable pub fd_num : Proc → Option ℤ → Result (ℕ × Option ℤ)
  unfolding pid_of
  fd_num p kept = host_check p >>= λ _. pid_of p kept >>= λ pid. ok (count pid)
    where
      count : Option ℤ → ℕ × Option ℤ
      count none = (0, none)
      count (some n) = elim (truthy (some n)) [
        | false ↦ (0, some n)
        | true ↦ elim (machine.listdir (proc_file n (text "fd"))) [
          | none ↦ (0, none)
          | some fs ↦ (length fs, some n)
        ]
      ]

  -- `stat`, with what is kept afterwards: the fields of /proc/PID/stat, or zeros
  unfoldable pub stat : ℕ → Proc → Option ℤ → Result (List Text × Option ℤ)
  unfolding pid_of
  stat width p kept =
      host_check p >>= λ _. pid_of p kept >>= λ pid. fields (machine.read (file pid)) pid
    where
      file : Option ℤ → Text
      file none = text "/proc/None/stat"
      file (some n) = proc_file n (text "stat")

      zeros : ℕ → List Text
      zeros zero = []
      zeros (suc n) = text "0" ∷ zeros n

      fields : Option Text → Option ℤ → Result (List Text × Option ℤ)
      fields none pid = ok (zeros width, none)
      fields (some t) pid = elim (length (split b' ' (strip t)) == width) [
        | true ↦ ok (split b' ' (strip t), pid)
        | false ↦ err type_error
      ]

  -- `cleanup`, with the files of the class, and what else is removed
  unfoldable pub cleanup : Proc → List Text → List Action → Result (List Action)
  unfolding getpid truthy
  cleanup p files more = host_check p >>= λ _. getpid p >>= λ pid. elim (truthy pid) [
    | true ↦ err runtime_error
    | false ↦ ok (unlink_all files)
  ]
    where
      unlink_all : List Text → List Action
      unlink_all [] = more
      unlink_all (f ∷ fs) = unlink f ∷ unlink_all fs

  -- `start` of `LDMSD`, with the results of `getConfig` and `getCmdline`: the configuration is written
  -- before the command line is made.
  unfoldable pub start : Proc → Text → Result Text → Result Text → Result (Unit {0}) × List Action
  unfolding getpid truthy
  start p conf_file config cmdline = elim (host_check p >>= λ _. getpid p) [
    | err e ↦ (err e, [])
    | ok pid ↦ elim (truthy pid) [
      | true ↦ (ok tt, [])
      | false ↦ elim config [
        | err e ↦ (err e, [])
        | ok conf ↦ elim cmdline [
          | err e ↦ (err e, write conf_file conf ∷ [])
          | ok cmd ↦ (ok tt, write conf_file conf ∷ shell cmd ∷ [])
        ]
      ]
    ]
  ]
