-- ===== src/Scale/Ctl.antt =====
-- scalability/ldmsd_ctl.py: a command for the daemons of a host, which are handled one after the
-- other, also after one raised. The table of the status, `gdb-start` and what is printed are left out.
pub mod Stops
use ldms_test.Base.{
  ℕ, zero, suc, Text, Bool, true, false, List, [], ◌∷◌, ◌++◌, Option, none, some, Result, ok, err,
  text_eq, contains, ◌>>=◌, ◌==◌,
}
use ldms_test.Base.Int.{ℤ, pos}
use ldms_test.Base.Strings.{text, decimal}
use ldms_test.Scale.{Config, Daemon}
use ldms_test.Scale.Control.{get_daemons}
use ldms_test.Scale.Commands.{get_config, get_cmdline, file_of}
use ldms_test.Scale.Process.{
  Machine, Action, rmtree, ldmsd, truthy, getpid, pid_of, stop, start, cleanup,
}

-- The commands that act on daemons
pub data Command : Type 0 where
  start_daemons stop_daemons cleanup_daemons : Command

-- `fltr`
unfoldable pub name_filter : List Text → Option (Daemon → Bool)
name_filter [] = none
name_filter (n ∷ ns) = some (λ d. contains d.name (n ∷ ns))

-- `sys.exit(rc)`, and what was done
pub record Run : Type 0 where
  pub rc : ℕ
  pub actions : List Action

module _ (c : Config) (machine : Machine) (int : Text → Result ℤ) (strip : Text → Text) where
  done_of : Result (List Action) → Result (Unit {0}) × List Action
  done_of (ok actions) = (ok tt, actions)
  done_of (err e) = (err e, [])

  -- `l.pid`, of a handler that has kept none
  pid_here : Daemon → Result (Option ℤ)
  pid_here d = pid_of c.my_host machine int strip (ldmsd d.host d.name) none

  -- What else `cleanup` removes; the port is compared as the text that the name has.
  l3_store : Daemon → List Action
  l3_store d = elim (d.host == c.l3_host) [
    | false ↦ []
    | true ↦ elim (d.port == decimal c.l3_base_port) [
      | false ↦ []
      | true ↦ elim c.l3_store_root [
        | none ↦ []
        | some root ↦ elim root [ [] ↦ [] | x ∷ r ↦ rmtree ((x ∷ r) ++ text "/test") ∷ [] ]
      ]
    ]
  ]

  start_one : Daemon → Option ℤ → Result (Unit {0}) × List Action
  start_one d pid = elim (truthy pid) [
    | true ↦ (ok tt, [])
    | false ↦
        start c.my_host machine int strip (ldmsd d.host d.name) (file_of "conf" "conf" d)
          (get_config c d) (get_cmdline c d false)
  ]

  stop_one : Daemon → Option ℤ → Result (Unit {0}) × List Action
  unfolding done_of
  stop_one d pid = elim (truthy pid) [
    | false ↦ (ok tt, [])
    | true ↦ done_of (stop c.my_host machine int strip (ldmsd d.host d.name))
  ]

  cleanup_one : Daemon → Result (Unit {0}) × List Action
  unfolding done_of l3_store
  cleanup_one d = done_of (
      cleanup c.my_host machine int strip (ldmsd d.host d.name)
        (file_of "conf" "conf" d ∷ file_of "pid" "pid" d ∷ file_of "log" "log" d ∷ []) (l3_store d))

  with_pid :
      Result (Option ℤ)
      → (Option ℤ → Result (Unit {0}) × List Action)
      → Result (Unit {0}) × List Action
  with_pid (err e) f = (err e, [])
  with_pid (ok pid) f = f pid

  -- `fn`
  unfoldable pub handle : Command → Daemon → Result (Unit {0}) × List Action
  unfolding with_pid pid_here start_one stop_one cleanup_one
  handle start_daemons d = with_pid (pid_here d) (start_one d)
  handle stop_daemons d = with_pid (pid_here d) (stop_one d)
  handle cleanup_daemons d = cleanup_one d

  -- The loop over the daemons
  unfoldable pub handle_all : Command → List Daemon → Run
  unfolding handle
  handle_all cmd [] = record { rc = 0; actions = [] }
  handle_all cmd (d ∷ ds) =
      let rest = handle_all cmd ds in
      record {
        rc = elim ((handle cmd d).0) [ ok u ↦ rest.rc | err e ↦ 1 ];
        actions = (handle cmd d).1 ++ rest.actions;
      }

  -- The script, from `get_daemons` on
  unfoldable pub run_ctl : Command → List Text → Result Run
  unfolding handle_all name_filter
  run_ctl cmd ns = get_daemons c (name_filter ns) >>= λ ds. ok (handle_all cmd ds)
