-- ===== src/Docker/Creation/Examples.antt =====
-- Two containers, one of which has a script, in a network with a subnet.
use ldms_test.Base.{◌≡◌, refl, Text, List, [], ◌∷◌, Option, none, some, ok, err, stop_iteration}
use ldms_test.Base.Strings.{text}
use ldms_test.Value.{null, str, list, nil, truthy}
use ldms_test.Docker.Params.{Params}
use ldms_test.Docker.Creation.{Docker, create_all, addresses_left}
use ldms_test.Docker.Creation.Ends.{work, expected}
use ldms_test.Docker.Creation.Complete.{create_all_lem, create_all_returns}

abbrev cont : Text → Text → Params
cont name script = record {
  image = str (text "ovis");
  name = name;
  environment = [];
  volumes = null;
  cap_add = list nil;
  cap_drop = list nil;
  hostname = name;
  tmpfs = null;
  atstart = str script;
  ports = none;
}

abbrev build : List (Text × Params)
build = (text "h1", cont (text "n1") (text "setup.sh")) ∷ ((text "h2", cont (text "n2") []) ∷ [])

abbrev hosts : Option (List Text)
hosts = some (text "10.0.0.1" ∷ (text "10.0.0.2" ∷ (text "10.0.0.3" ∷ [])))

abbrev docker : Docker
docker = record { answer = λ h c. ok tt; in_network = λ h. ok 2 }

two_containers : (create_all docker build hosts []).0 ≡ ok tt
unfolding create_all truthy addresses_left
two_containers = refl

create_all_lem_example : expected build hosts ≡ (ok tt, work (create_all docker build hosts []).1)
create_all_lem_example = create_all_lem docker build hosts two_containers

-- A subnet with one address.
abbrev one_host : Option (List Text)
one_host = some (text "10.0.0.1" ∷ [])

create_all_returns_example :
    ((create_all docker build one_host []).0, work (create_all docker build one_host []).1)
    ≡ expected build one_host
create_all_returns_example = create_all_returns docker build one_host (λ h c e p. cc) (λ h e p. cc)

leftover : (create_all docker build one_host []).0 ≡ err stop_iteration
unfolding create_all truthy addresses_left
leftover = refl
