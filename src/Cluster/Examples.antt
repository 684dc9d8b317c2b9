-- ===== src/Cluster/Examples.antt =====
-- Tests of the text of slurm.conf.
use ldms_test.Base.{◌≡◌, refl, true, [], ◌∷◌, none, some, ok, text_eq, text_beq, contains}
use ldms_test.Base.Strings.{text}
use ldms_test.Cluster.SlurmConf.{roles, tuple_geb}

version_order : tuple_geb (20 ∷ (2 ∷ [])) (18 ∷ (0 ∷ (0 ∷ []))) ≡ true
unfolding tuple_geb
version_order = refl

two_roles :
    roles [] none (
      record { hostname = some (text "a"); types = some (text "slurmd") ∷ [] }
      ∷ (record {
        hostname = some (text "b");
        types = some (text "slurmctld") ∷ (some (text "slurmd") ∷ []);
      }
          ∷ []))
    ≡ ok (text "a" ∷ (text "b" ∷ []), some (text "b"))
unfolding roles text_beq contains
two_roles = refl
