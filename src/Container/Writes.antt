-- ===== src/Container/Writes.antt =====
-- Which files the start of the daemons writes.
use ldms_test.Base.{
  ◌≡◌, ℕ, zero, suc, refl, ◌⊎◌, inl, inr, Text, true, List, [], ◌∷◌, Option, none, some, ◌==◌,
  nat_eq,
}
use ldms_test.Base.{ok, ◌>>=◌ as ◌>>=ᵣ◌}
use ldms_test.Base.Dict
use ldms_test.Base.Dict.{Dict}
use ldms_test.Base.Strings.{text}
use ldms_test.Value.{Value, dict, of_items, deep_copy}
use ldms_test.LdmsdConfig.{shown, item}
use ldms_test.Ldmsd.{ldmsd_spec, fields}
use ldms_test.Runtime.{Request, exec, write, read, feed, Runtime}
use ldms_test.Runtime.Adds.{Adds, Adds-bind, Adds-ask, Adds-when, Adds-pure, adds}
use ldms_test.Munged.{Munged, key_file, given}
use ldms_test.Munged.Keys.{installed}
use ldms_test.Container.Services.{wanted, will_start, start_listed, start_kept, start_slurm}
use ldms_test.Container.{
  Container, Daemon, Plugin, pgrepc, prep_slurm_conf, write_plugstack, attempts, run_daemon,
}

-- A key in the key file of a handler of `munged`.
abbrev pub IsKey : Text → Text → Type 0
IsKey path content = (m : Munged) × (path ≡ key_file m) × (content ≡ installed (given m.key))

-- What the start of the daemons may write; `conf` are the files of ldmsd.
abbrev pub Allowed : Container → (conf : Text → Type 0) → Request → Type 0
Allowed c conf (exec cmd env user) = Unit
Allowed c conf (write path content user) =
    IsKey path content
    ⊎ ((path ≡ text "/etc/slurm/cgroup.conf")
        ⊎ (((path ≡ text "/etc/slurm/slurm.conf") × (content ≡ c.slurm_conf))
            ⊎ ((path ≡ text "/etc/slurm/plugstack.conf") ⊎ conf path)))
Allowed c conf (read path) = Unit
Allowed c conf (feed cmd content) = ⊥

module _ (rt : Runtime) (c : Container) (conf : Text → Type 0) where
  prep-Adds : Adds (Allowed c conf) _ (prep_slurm_conf rt c)
  unfolding prep_slurm_conf
  prep-Adds = search (adds, inl, inr) depth 12

  plugstack-Adds : (ps : List Plugin) → Adds (Allowed c conf) _ (write_plugstack rt ps)
  unfolding write_plugstack
  plugstack-Adds [] = search adds
  plugstack-Adds (p ∷ ps) = search (adds, refl, inl, inr)

  attempts-Adds : (prog : Text) (n : ℕ) → Adds (Allowed c conf) _ (attempts rt prog n)
  unfolding attempts
  attempts-Adds prog zero = search adds
  attempts-Adds prog (suc n) = Adds-bind (Allowed c conf) (Adds-ask (Allowed c conf) rt _ tt) (λ o.
      Adds-when (Allowed c conf) (o.0 == 0) (Adds-pure (Allowed c conf) true)
        (attempts-Adds prog n))

  wanted-Adds : (tp : Option Text) → Adds (Allowed c conf) _ (wanted rt tp)
  unfolding wanted pgrepc
  wanted-Adds none = search adds
  wanted-Adds (some tp) = search (adds, tt)

  will_start-Adds : (ds : List Daemon) → Adds (Allowed c conf) _ (will_start rt ds)
  unfolding will_start
  will_start-Adds [] = search adds
  will_start-Adds (d ∷ ds) =
      Adds-bind (Allowed c conf) (wanted-Adds d.type) (λ b.
        Adds-bind (Allowed c conf) (will_start-Adds ds) (λ rest. Adds-pure (Allowed c conf) _))

  run_daemon-Adds : (prog : Text) → Adds (Allowed c conf) _ (run_daemon rt prog)
  unfolding run_daemon
  run_daemon-Adds prog = search (adds, attempts-Adds)

  start_listed-Adds : (ds : List Daemon) → Adds (Allowed c conf) _ (start_listed rt ds)
  unfolding start_listed
  start_listed-Adds [] = search adds
  start_listed-Adds (d ∷ ds) =
      Adds-bind (Allowed c conf) (plugstack-Adds d.plugstack)
        (λ _. Adds-bind (Allowed c conf) (run_daemon-Adds _) (λ _. start_listed-Adds ds))

  start_kept-Adds : (ds : List Daemon) → Adds (Allowed c conf) _ (start_kept rt c ds)
  unfolding start_kept
  start_kept-Adds [] = search adds
  start_kept-Adds (d ∷ ds) = Adds-bind (Allowed c conf) prep-Adds (λ _. start_listed-Adds (d ∷ ds))

  start_slurm-Adds : Adds (Allowed c conf) _ (start_slurm rt c)
  unfolding start_slurm
  start_slurm-Adds = search (adds, will_start-Adds, start_kept-Adds)

-- The file that the spec of ldmsd names, as it is written.
abbrev pub IsConfig : (repr : Value → Text) → Value → List (Dict Text Value) → Text → Type 0
IsConfig repr cluster_env daemons path =
    (spec : Dict Text Value) × (v : Value) × ((ldmsd_spec cluster_env daemons >>=ᵣ λ s.
    deep_copy (dict (of_items s)) >>=ᵣ fields)
      ≡ ok spec)
    × (item (text "config_file") spec ≡ ok v)
    × (path ≡ shown repr v)
