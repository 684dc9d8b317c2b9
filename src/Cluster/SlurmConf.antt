-- ===== src/Cluster/SlurmConf.antt =====
-- `slurm_conf` and `slurm_version` of the class `LDMSDCluster`.
use ldms_test.Base.{
  ℕ, Text, Bool, true, false, List, [], ◌∷◌, ◌++◌, nat_eq, text_eq, contains, ltb, if◌then◌else◌,
  Option, none, some, Result, ok, err, key_error, value_error, ◌>>=◌,
}
use ldms_test.Base.Strings.{text, join, split}
use ldms_test.Runtime.{Runtime, Act, pure, lift, exec_run, ask}
use ldms_test.Runtime.{◌>>=◌ as ◌>>=ₐ◌}

-- A node of the spec: the key "hostname", and "type" of each of its daemons.
pub record NodeSpec : Type 0 where
  pub hostname : Option Text
  pub types : List (Option Text)

item : {A : Type 0} → Option A → Result A
item none = err key_error
item (some a) = ok a

-- `d["type"] for d in daemons`
all_items : List (Option Text) → Result (List Text)
unfolding item
all_items [] = ok []
all_items (o ∷ os) = do t ← item o; ts ← all_items os; ok (t ∷ ts)

-- The nodes of slurmd, and the last node of slurmctld.
unfoldable pub roles : List Text → Option Text → List NodeSpec → Result (List Text × Option Text)
unfolding item all_items
roles nodes ctld [] = ok (nodes, ctld)
roles nodes ctld (n ∷ ns) = do
  types ← all_items n.types
  nodes' ← append_if (contains (text "slurmd") types) n.hostname nodes
  ctld' ← replace_if (contains (text "slurmctld") types) n.hostname ctld
  roles nodes' ctld' ns
  where
    append_if : Bool → Option Text → List Text → Result (List Text)
    append_if false h nodes = ok nodes
    append_if true none nodes = err key_error
    append_if true (some h) nodes = ok (nodes ++ (h ∷ []))

    replace_if : Bool → Option Text → Option Text → Result (Option Text)
    replace_if false h ctld = ok ctld
    replace_if true none ctld = err key_error
    replace_if true (some h) ctld = ok (some h)

-- `>=` of tuples of numbers
unfoldable pub tuple_geb : List ℕ → List ℕ → Bool
tuple_geb [] [] = true
tuple_geb [] (n ∷ w) = false
tuple_geb (m ∷ v) [] = true
tuple_geb (m ∷ v) (n ∷ w) =
    let rest = tuple_geb v w in if ltb n m then true else if ltb m n then false else rest

-- The value of each replacement field, in the text of the file.
unfoldable pub directives : (ctld_key ctld nodes cpus share level : Text) → List Text
directives ctld_key ctld nodes cpus share level =
    (ctld_key
      ∷ (text "="
          ∷ (ctld
              ∷ (text "\n"
                  ∷ (text "MpiDefault=none\n"
                      ∷ (text "ProctrackType=proctrack/linuxproc\n"
                          ∷ (text "ReturnToService=1\n"
                              ∷ (text "SlurmctldPidFile=/var/run/slurmctld.pid\n"
                                  ∷ (text "SlurmctldPort=6817\n"
                                      ∷ (text "SlurmdPidFile=/var/run/slurmd.pid\n"
                                          ∷ (text "SlurmdPort=6818\n"
                                              ∷ (text "SlurmdSpoolDir=/var/spool/slurmd\n"
                                                  ∷ (text "SlurmUser=root\n"
                                                      ∷ (text "StateSaveLocation=/var/spool\n"
                                                          ∷ (text "SwitchType=switch/none\n"
                                                            ∷ (text "#TaskPlugin=task/none\n"
                                                            ∷ (text "#TaskPluginParam=Sched\n"
                                                            ∷ (text "InactiveLimit=0\n"
                                                            ∷ (text "KillWait=30\n"
                                                            ∷ (text "MinJobAge=300\n"
                                                            ∷ (text "SlurmctldTimeout=120\n"
                                                            ∷ (text "SlurmdTimeout=300\n"
                                                            ∷ (text "Waittime=0\n"
                                                            ∷ (text "#FastSchedule=1\n"
                                                            ∷ (text "SchedulerType=sched/builtin\n"
                                                            ∷ (text "SelectType=select/cons_res\n"
                                                            ∷ (text "SelectTypeParameters=CR_CPU\n"
                                                            ∷ (text
                                                            "AccountingStorageType=accounting_storage/none\n"
                                                            ∷ (text
                                                            "#AccountingStoreJobComment=YES\n"
                                                            ∷ (text "ClusterName=cluster\n"
                                                            ∷ (text "JobCompType=jobcomp/none\n"
                                                            ∷ (text "JobAcctGatherFrequency=30\n"
                                                            ∷ (text
                                                            "JobAcctGatherType=jobacct_gather/none\n"
                                                            ∷ (text "SlurmctldDebug="
                                                            ∷ (level
                                                            ∷ (text "\n"
                                                            ∷ (text
                                                            "SlurmctldLogFile=/var/log/slurmctld.log\n"
                                                            ∷ (text "SlurmdDebug="
                                                            ∷ (level
                                                            ∷ (text "\n"
                                                            ∷ (text
                                                            "SlurmdLogFile=/var/log/slurmd.log\n"
                                                            ∷ (text "NodeName="
                                                            ∷ (nodes
                                                            ∷ (text " CPUs="
                                                            ∷ (cpus
                                                            ∷ (text " State=UNKNOWN\n"
                                                            ∷ (text "PartitionName=debug Nodes="
                                                            ∷ (nodes
                                                            ∷ (text " OverSubscribe="
                                                            ∷ (share
                                                            ∷ (text
                                                            " Default=YES MaxTime=INFINITE State=UP\n"
                                                            ∷ (text "LogTimeFormat=thread_id\n"
                                                            ∷ []))))))))))))))))))))))))))))))))))))
                                                            ))))))))))))))))

concat : List Text → Text
concat [] = []
concat (t ∷ ts) = t ++ concat ts

none_text : Option Text → Text
none_text none = text "None"
none_text (some t) = t

module _ (rt : Runtime) where
  ints : List Text → Result (List ℕ)
  ints [] = ok []
  ints (t ∷ ts) = do n ← rt.int t; ns ← ints ts; ok (n ∷ ns)

  -- `_slurm, _ver = out.split(' ')`, and the numbers of `_ver`
  version : List Text → Result (List ℕ)
  unfolding ints
  version (slurm ∷ (ver ∷ [])) = ints (split b'.' ver)
  version _ = err value_error

  unfoldable pub slurm_version : Act (List ℕ)
  unfolding ask version
  slurm_version = exec_run rt (text "slurmd -V") >>=ₐ λ reply. lift (version (split b' ' reply.1))

  -- The key of the controller by the version.
  unfoldable pub controller_key : List ℕ → Text
  unfolding tuple_geb
  controller_key v =
      if tuple_geb v (18 ∷ (0 ∷ (0 ∷ []))) then text "SlurmctldHost" else text "ControlMachine"

  -- `cpus`, `share` and `level` are the texts of the three options of the spec, or their defaults.
  unfoldable pub slurm_conf : (cpus share level : Text) → List NodeSpec → Act Text
  unfolding roles slurm_version controller_key directives concat none_text
  slurm_conf cpus share level ns = lift (roles [] none ns) >>=ₐ λ r. slurm_version >>=ₐ λ v. pure (
      concat (directives (controller_key v) (none_text r.1) (join (text ",") r.0) cpus share level))
