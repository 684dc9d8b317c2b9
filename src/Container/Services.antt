-- ===== src/Container/Services.antt =====
-- `start_slurm`, `start_etcd` and the `kill_*` methods of the class `LDMSDContainer`.
use ldms_test.Base.{
  Text, Bool, true, false, List, [], ◌∷◌, ◌++◌, ◌==◌, nat_eq, text_beq, Option, none, some, ◌||◌,
}
use ldms_test.Base.Strings.{text, join}
use ldms_test.Runtime.{Runtime, Act, ◌>>=◌, pure, when, ask, exec_run, must}
use ldms_test.Munged.{Munged, kill}
use ldms_test.Container.{
  Container, Daemon, Table, pgrepc, prep_slurm_conf, write_plugstack, run_daemon,
}

-- A node of the cluster, with the types of its daemons.
pub record Peer : Type 0 where
  pub hostname : Text
  pub ip_addr : Text
  pub types : List (Option Text)

is_type : Text → Option Text → Bool
is_type t none = false
is_type t (some s) = text_beq s t

-- The entries of `--initial-cluster`: one for each etcd daemon of a node.
peer_entries : Peer → List (Option Text) → List Text
unfolding is_type
peer_entries p [] = []
peer_entries p (t ∷ ts) =
    let rest = peer_entries p ts in
    elim (is_type (text "etcd") t) [
      | true ↦ (p.hostname ++ (text "=http://" ++ (p.ip_addr ++ text ":2380"))) ∷ rest
      | false ↦ rest
    ]

unfoldable pub initial_cluster : List Peer → List Text
unfolding peer_entries
initial_cluster [] = []
initial_cluster (p ∷ ps) = peer_entries p p.types ++ initial_cluster ps

-- The command line that starts etcd.
unfoldable pub etcd_command : Container → List Peer → Text
unfolding initial_cluster join
etcd_command c ps =
    text "bash -c 'etcd --data-dir /var/lib/etcd/default.etcd --name "
    ++ (c.hostname
        ++ (text " --initial-advertise-peer-urls http://"
            ++ (c.ip_addr
                ++ (text ":2380 --listen-peer-urls http://"
                    ++ (c.ip_addr
                        ++ (text ":2380 --advertise-client-urls http://"
                            ++ (c.ip_addr
                                ++ (text
                                      ":2379 --listen-client-urls http://0.0.0.0:2379 --initial-cluster "
                                    ++ (join (text ",") (initial_cluster ps)
                                        ++ text
                                            " --initial-cluster-state new --initial-cluster-token token >/var/log/etcd.log 2>&1 &'")))))))))

-- `d.get("type") in set(["slurmctld", "slurmd"])`
is_slurm : Option Text → Bool
unfolding is_type
is_slurm t = is_type (text "slurmctld") t || is_type (text "slurmd") t

module _ (rt : Runtime) where
  unfoldable pub start_etcd : Container → List Peer → Act (Unit {0})
  unfolding ask must etcd_command
  start_etcd c ps = exec_run rt (text "pgrep -c etcd") >>= λ found.
      when (found.0 == 0) (pure tt) (must rt (etcd_command c ps))

  -- Whether `start_slurm` starts a daemon of a type.
  unfoldable pub wanted : Option Text → Act Bool
  unfolding pgrepc is_slurm
  wanted none = pure false
  wanted (some tp) = when (is_slurm (some tp)) (pgrepc rt tp >>= λ n. pure (n == 0)) (pure false)

  -- `will_start`
  unfoldable pub will_start : List Daemon → Act (List Daemon)
  unfolding wanted
  will_start [] = pure []
  will_start (d ∷ ds) = wanted d.type >>= λ b.
      will_start ds >>= λ rest. pure (elim b [ true ↦ d ∷ rest | false ↦ rest ])

  -- The program of a daemon that was kept: its type.
  program : Option Text → Text
  program none = []
  program (some tp) = tp

  unfoldable pub start_listed : List Daemon → Act (Unit {0})
  unfolding write_plugstack run_daemon program
  start_listed [] = pure tt
  start_listed (d ∷ ds) = write_plugstack rt d.plugstack >>= λ _.
      run_daemon rt (program d.type) >>= λ _. start_listed ds

  unfoldable pub start_kept : Container → List Daemon → Act (Unit {0})
  unfolding prep_slurm_conf start_listed
  start_kept c [] = pure tt
  start_kept c (d ∷ ds) = prep_slurm_conf rt c >>= λ _. start_listed (d ∷ ds)

  unfoldable pub start_slurm : Container → Act (Unit {0})
  unfolding will_start start_kept
  start_slurm c = will_start c.daemons >>= start_kept c

  -- `kill_munged`
  unfoldable pub kill_munged : Table → Option Text → Act (Unit {0})
  unfolding kill
  kill_munged table dom = kill_found (table dom)
    where
      kill_found : Option Munged → Act (Unit {0})
      kill_found none = pure tt
      kill_found (some m) = kill rt m

  unfoldable pub kill_slurm : Act (Unit {0})
  unfolding ask
  kill_slurm = exec_run rt (text "pkill slurmd slurmctld") >>= λ _. pure tt

  unfoldable pub kill_ldmsd : Act (Unit {0})
  unfolding ask
  kill_ldmsd = exec_run rt (text "pkill ldmsd") >>= λ _. pure tt
