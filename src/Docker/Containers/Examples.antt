-- ===== src/Docker/Containers/Examples.antt =====
-- Two containers, one of which has an alias.
use ldms_test.Base.{
  ◌≡◌, refl, true, Text, List, [], ◌∷◌, ◌++◌, none, some, ok, contains, text_eq, text_beq,
}
use ldms_test.Base.Dict
use ldms_test.Base.Dict.{Dict}
use ldms_test.Base.Strings.{text}
use ldms_test.Cluster.{one, alias_list}
use ldms_test.Docker.Containers.{Cont, by_hostname, cont_dict}
use ldms_test.Docker.Containers.Names.{cont_dict_lem}

abbrev node : Text → Cont
node h = record { name = text "vc-" ++ h; hostname = h; status = none; interfaces = [] }

abbrev nodes : List Cont
nodes = node (text "n1") ∷ (node (text "n2") ∷ [])

abbrev names : Dict Text Cont
names =
    (text "n1", node (text "n1"))
    ∷ ((text "n2", node (text "n2")) ∷ ((text "head", node (text "n2")) ∷ []))

names_built : cont_dict ((text "n2", one (text "head")) ∷ []) nodes ≡ ok names
unfolding cont_dict by_hostname Dict.lookup Dict.insert text_beq
names_built = refl

is_alias : contains (text "head") (alias_list (some (one (text "head")))) ≡ true
unfolding contains alias_list text_beq
is_alias = refl

cont_dict_lem_example :
    (c : Cont) × (Dict.lookup (text "n2") (by_hostname nodes []) ≡ some c)
    × (Dict.lookup (text "head") names ≡ some c)
cont_dict_lem_example =
    cont_dict_lem (text "head") (text "n2") (one (text "head")) [] [] nodes names names_built
      is_alias tt tt
