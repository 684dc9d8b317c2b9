-- ===== src/Docker/Networks.antt =====
-- runtime/docker.py: the clients of Docker, the time zone of the host, and `get` and `containers` of
-- the class Network. What Docker knows is an argument: `none` stands for its exception `NotFound`, for
-- a file that cannot be read, and for a variable that is not set.
use ldms_test.Base.{
  Text, Bool, true, false, List, [], ◌∷◌, ◌++◌, Option, none, some, length, if◌then◌else◌, text_eq,
  ltb, ◌==◌, nat_eq, map, ◌||◌, ◌&&◌,
}
use ldms_test.Base.Strings.{text, split, join}

-- `<=` of texts
text_le : Text → Text → Bool
text_le [] t = true
text_le (c ∷ s) [] = false
text_le (c ∷ s) (d ∷ t) = ltb c d || (c == d && text_le s t)

insert_text : Text → List Text → List Text
unfolding text_le
insert_text a [] = a ∷ []
insert_text a (b ∷ bs) = if text_le a b then a ∷ (b ∷ bs) else b ∷ insert_text a bs

sort_texts : List Text → List Text
unfolding insert_text
sort_texts [] = []
sort_texts (a ∷ as_) = insert_text a (sort_texts as_)

pub data Client : Type 0 where
  -- `docker.from_env()`, and a client of this address
  local : Client
  remote : Text → Client

-- `get_docker_clients` for the host names of the swarm
unfoldable pub get_docker_clients : List Text → List Client
unfolding sort_texts
get_docker_clients hosts =
    if length hosts == 1
    then local ∷ []
    else map (λ a. remote (text "tcp://" ++ (a ++ text ":2375"))) (sort_texts hosts)

last_two : List Text → List Text
last_two [] = []
last_two (a ∷ []) = a ∷ []
last_two (a ∷ (b ∷ [])) = a ∷ (b ∷ [])
last_two (a ∷ (b ∷ (c ∷ rest))) = last_two (b ∷ (c ∷ rest))

from_link : Option Text → Text
unfolding last_two
from_link none = text "Etc/UTC"
from_link (some link) = join (text "/") (last_two (split b'/' link))

-- `get_host_tz`: the variable TZ, /etc/timezone without space around it, where /etc/localtime leads
unfoldable pub get_host_tz : (tz timezone localtime : Option Text) → Text
unfolding from_link
get_host_tz (some tz) timezone localtime = tz
get_host_tz none (some (c ∷ s)) localtime = c ∷ s
get_host_tz none (some []) localtime = from_link localtime
get_host_tz none none localtime = from_link localtime

-- What a client knows: the identifiers of the containers of a network, and containers.
pub record Daemon (C : Type 0) : Type 0 where
  pub network : Text → Option (List Text)
  pub container : Text → Option C

module _ {C : Type 0} where
  found_containers : Daemon C → List Text → List C
  found_containers d [] = []
  found_containers d (i ∷ is) =
      let rest = found_containers d is in elim (d.container i) [ none ↦ rest | some c ↦ c ∷ rest ]

  -- The property `containers`
  unfoldable pub containers : Text → List (Daemon C) → List C
  unfolding found_containers
  containers name [] = []
  containers name (d ∷ ds) =
      let rest = containers name ds in
      elim (d.network name) [ none ↦ rest | some ids ↦ found_containers d ids ++ rest ]
