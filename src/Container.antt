-- ===== src/Container.antt =====
-- The class `LDMSDContainer` of LDMS_Test.py: the methods that start and check what runs in a
-- container. A daemon of the spec is a record of the keys that are read, `none` for a missing key.
pub mod Slurm
pub mod Writes
pub mod Keys
pub mod Services
pub mod Files
mod Examples
use ldms_test.Base.{
  ℕ, zero, suc, Text, Bool, true, false, List, [], ◌∷◌, ◌++◌, ◌==◌, nat_eq, text_eq, text_beq,
  Option, none, some, Result, ok, err, runtime_error, stop_iteration, key_error, ltb, nat_beq,
}
use ldms_test.Base.Strings.{text, join}
use ldms_test.Runtime.{
  Runtime, Act, ◌>>=◌, ◌>>◌, pure, fail, lift, exec_run, when, ask, write_file, must,
}
use ldms_test.Munged.{Munged, given, start}

-- An entry of "plugstack".
pub record Plugin : Type 0 where
  pub required : Bool
  pub path : Text
  pub args : List Text

pub record Daemon : Type 0 where
  pub name : Option Text
  pub type : Option Text
  pub dom : Option Text
  pub key : Option Text
  pub plugstack : List Plugin

-- What a container is made with: its part of the spec, and the cluster's slurm.conf.
pub record Container : Type 0 where
  pub hostname : Text
  pub ip_addr : Text
  pub daemons : List Daemon
  pub slurm_conf : Text

-- `==` of texts or `None`.
same : Option Text → Option Text → Bool
same none none = true
same none (some t) = false
same (some s) none = false
same (some s) (some t) = text_beq s t

-- `a if a else b`
pub or_else : Option Text → Option Text → Option Text
or_else none b = b
or_else (some []) b = b
or_else (some (c ∷ s)) b = some (c ∷ s)

-- The loop of `start_munged` over the daemons: the first that has the name, or else, where no name
-- is asked for, the domain.
unfoldable pub find_munged : (name dom : Option Text) → List Daemon → Option Daemon
unfolding same
find_munged name dom [] = none
find_munged name dom (d ∷ ds) =
    let rest = find_munged name dom ds in
    elim (same name d.name) [
      | true ↦ some d
      | false ↦ elim (given name) [
        | none ↦ elim (same dom d.dom) [ true ↦ some d | false ↦ rest ]
        | some _ ↦ rest
      ]
    ]

-- The handler that `start_munged` makes.
unfoldable pub handler : (name dom key : Option Text) → List Daemon → Munged
unfolding or_else find_munged
handler name dom key ds = elim (find_munged name dom ds) [
  | none ↦ record { dom = dom; key = key }
  | some d ↦ record { dom = or_else dom d.dom; key = or_else key d.key }
]

-- The dict `munged`, from domains to handlers.
abbrev pub Table : Type 0
Table = Option Text → Option Munged

-- `set_munged`
unfoldable pub put : Option Text → Munged → Table → Table
unfolding same
put dom m table d = elim (same d dom) [ true ↦ some m | false ↦ table d ]

words : List Text → Text
words [] = []
words (a ∷ args) = b' ' ∷ (a ++ words args)

-- The content of plugstack.conf.
unfoldable pub plugstack_conf : List Plugin → Text
unfolding words
plugstack_conf [] = []
plugstack_conf (p ∷ ps) =
    elim p.required [ true ↦ text "required" | false ↦ text "optional" ]
    ++ (b' ' ∷ (p.path ++ (words p.args ++ (b'\n' ∷ plugstack_conf ps))))

-- `next(x for x in daemons if x.get("type") == prog)`
unfoldable pub daemon_of : Text → List Daemon → Result Daemon
unfolding same
daemon_of prog [] = err stop_iteration
daemon_of prog (d ∷ ds) = elim (same d.type (some prog)) [ true ↦ ok d | false ↦ daemon_of prog ds ]

module _ (rt : Runtime) where
  -- `pgrepc(prog)`
  unfoldable pub pgrepc : Text → Act ℕ
  unfolding ask
  pgrepc prog = do (rc, out) ← exec_run rt (text "pgrep -c " ++ prog); lift (rt.int out)

  unfoldable pub start_sshd : Act (Unit {0})
  unfolding ask must
  start_sshd = do
    (rc, out) ← exec_run rt (text "pgrep -c -x sshd")
    when (rc == 0) (pure tt) (must rt (text "/usr/sbin/sshd"))

  -- With the handler that `get_munged` finds, or without one.
  start_found : Container → Table → (name dom key : Option Text) → Option Munged → Act Table
  unfolding handler start put
  start_found c table name dom key (some m) = start rt m >>= λ _. pure table
  start_found c table name dom key none =
      let m = handler name dom key c.daemons in (start rt m >>= λ _. pure (put m.dom m table))

  -- `start_munged`; the result is the table that `set_munged` leaves.
  unfoldable pub start_munged : Container → Table → (name dom key : Option Text) → Act Table
  unfolding start_found
  start_munged c table name dom key = start_found c table name dom key (table dom)

  unfoldable pub prep_slurm_conf : Container → Act (Unit {0})
  unfolding write_file
  prep_slurm_conf c = do
    write_file rt (text "/etc/slurm/cgroup.conf") (text "CgroupAutomount=yes")
    write_file rt (text "/etc/slurm/slurm.conf") c.slurm_conf

  write_plugstack : List Plugin → Act (Unit {0})
  unfolding write_file plugstack_conf
  write_plugstack [] = pure tt
  write_plugstack (p ∷ ps) =
      write_file rt (text "/etc/slurm/plugstack.conf") (plugstack_conf (p ∷ ps))

  -- `while rc != 0 and retry > 0`, with the last exit code
  unfoldable pub attempts : Text → ℕ → Act Bool
  unfolding ask
  attempts prog zero = pure false
  attempts prog (suc retry) = do
    (rc, out) ← exec_run rt prog
    when (rc == 0) (pure true) (attempts prog retry)

  -- The loop, and the exception after it.
  unfoldable pub run_daemon : Text → Act (Unit {0})
  unfolding attempts
  run_daemon prog = do started ← attempts prog 3; when started (pure tt) (fail runtime_error)

  -- `_start_slurmx`
  unfoldable pub start_slurmx : Container → Table → Text → Act Table
  unfolding start_munged pgrepc prep_slurm_conf daemon_of write_plugstack run_daemon
  start_slurmx c table prog = do
    table' ← start_munged c table none none none
    n ← pgrepc prog
    when (ltb 0 n) (pure table') (do
      prep_slurm_conf c
      d ← lift (daemon_of prog c.daemons)
      write_plugstack d.plugstack
      run_daemon prog
      pure table')

  -- The entry of `DAEMON_TBL` for a type; `start_ldmsd` and `start_etcd` are given.
  start_type : (ldmsd etcd : Act (Unit {0})) → Container → Table → Daemon → Option Text → Act Table
  unfolding start_sshd start_munged start_slurmx
  start_type ldmsd etcd c table d none = fail key_error
  start_type ldmsd etcd c table d (some tp) =
      when (text_beq tp (text "etcd")) (etcd >>= λ _. pure table) (
        when (text_beq tp (text "ldmsd")) (ldmsd >>= λ _. pure table) (
          when (text_beq tp (text "sshd")) (start_sshd >>= λ _. pure table) (
            when (text_beq tp (text "munged")) (start_munged c table d.name d.dom d.key) (
              when (text_beq tp (text "slurmd")) (start_slurmx c table tp) (
                when (text_beq tp (text "slurmctld")) (start_slurmx c table tp)
                  (fail runtime_error))))))

  -- One round of `start_daemons`.
  unfoldable pub start_daemon :
      (ldmsd etcd : Act (Unit {0})) → Container → Table → Daemon → Act Table
  unfolding start_type
  start_daemon ldmsd etcd c table d = start_type ldmsd etcd c table d d.type

  start_each : (ldmsd etcd : Act (Unit {0})) → Container → Table → List Daemon → Act Table
  unfolding start_daemon
  start_each ldmsd etcd c table [] = pure table
  start_each ldmsd etcd c table (d ∷ ds) = do
    table' ← start_daemon ldmsd etcd c table d
    start_each ldmsd etcd c table' ds

  unfoldable pub start_daemons : (ldmsd etcd : Act (Unit {0})) → Container → Table → Act Table
  unfolding start_each
  start_daemons ldmsd etcd c table = start_each ldmsd etcd c table c.daemons
