-- ===== src/Cluster/Hosts.antt =====
-- What a resolver reads in the /etc/hosts that the cluster builds.
use ldms_test.Base.{
  ◌≡◌, refl, ap, ◌∙◌, Text, Bool, true, false, List, [], ◌∷◌, ◌++◌, All, text_eq, map,
}
use ldms_test.Base.Dict
use ldms_test.Base.Dict.{Dict}
use ldms_test.Base.Strings.{
  text, join, split, split-join, splitlines, splitlines-newlines, newlines, Lacks, lacks, all_lack,
  All-of_all_lack, Lacks-of_lacks,
}
use ldms_test.Cluster.{Node, Aliases, alias_list, hosts_line, hosts_lines, build_etc_hosts}

-- The fields of the line of a container: address, host name, and the aliases of the host name.
abbrev pub entry : (Node → Text) → Dict Text Aliases → Node → Text × List Text
entry address aliases c = (address c, c.hostname ∷ alias_list (Dict.lookup c.hostname aliases))

abbrev pub words : Text × List Text → List Text
words (w, ws) = w ∷ ws

-- No field holds a space, and the line no newline.
abbrev pub IsEntry : Text × List Text → Type 0
IsEntry e = All (Lacks b' ') (words e) × Lacks b'\n' (join (text " ") (words e))

pub IsEntry-of_lacks :
    (e : Text × List Text)
    → all_lack b' ' (words e) ≡ true
    → lacks b'\n' (join (text " ") (words e)) ≡ true
    → IsEntry e
IsEntry-of_lacks e h k = (All-of_all_lack b' ' (words e) h, Lacks-of_lacks b'\n' _ k)

-- The aliases that count: those of the call, or those of the cluster where the call gives none.
abbrev pub used : (own aliases : Dict Text Aliases) → Dict Text Aliases
used own [] = own
used own (a ∷ rest) = a ∷ rest

abbrev pub address_of : Bool → Node → Text
address_of true c = c.ipv6_addr
address_of false c = c.ip_addr

abbrev pub loopback : Bool → Text
loopback true = text "::1"
loopback false = text "127.0.0.1"

abbrev printed : List (Text × List Text) → List Text
printed [] = []
printed (e ∷ es) = join (text " ") (words e) ∷ printed es

hosts_line-join :
    (ip hostname : Text) (names : List Text)
    → hosts_line ip hostname names ≡ join (text " ") (ip ∷ (hostname ∷ names))
unfolding hosts_line join
hosts_line-join ip hostname [] = refl
hosts_line-join ip hostname (a ∷ names) =
    ap (λ t. ip ++ (b' ' ∷ t)) (hosts_line-join hostname a names)

hosts_lines-printed :
    (address : Node → Text) (aliases : Dict Text Aliases) (cs : List Node)
    → hosts_lines address aliases cs ≡ newlines (printed (map (entry address aliases) cs))
unfolding hosts_lines
hosts_lines-printed address aliases [] = refl
hosts_lines-printed address aliases (c ∷ cs) =
    rw (hosts_line-join (address c) c.hostname (alias_list (Dict.lookup c.hostname aliases)))
      (rw (hosts_lines-printed address aliases cs) refl)

printed-Lacks : (es : List (Text × List Text)) → All IsEntry es → All (Lacks b'\n') (printed es)
printed-Lacks [] h = tt
printed-Lacks (e ∷ es) h = (h.0.1, printed-Lacks es h.1)

split-printed :
    (es : List (Text × List Text)) → All IsEntry es → map (split b' ') (printed es) ≡ map words es
split-printed [] h = refl
split-printed (e ∷ es) h =
    rw (split-join b' ' e.0 e.1 (h.0.0).0 (h.0.0).1)
      (ap (λ ws. words e ∷ ws) (split-printed es h.1))

first_line : Bool → Text × List Text
first_line ipv6 = (loopback ipv6, text "localhost" ∷ [])

first_line-IsEntry : (ipv6 : Bool) → IsEntry (first_line ipv6)
unfolding first_line join
first_line-IsEntry true = IsEntry-of_lacks (first_line true) refl refl
first_line-IsEntry false = IsEntry-of_lacks (first_line false) refl refl

build-printed :
    (ipv6 : Bool) (own aliases : Dict Text Aliases) (cs : List Node)
    → build_etc_hosts ipv6 own aliases cs
      ≡ newlines (printed (first_line ipv6 ∷ map (entry (address_of ipv6) (used own aliases)) cs))
unfolding build_etc_hosts first_line join
build-printed true own [] cs = rw (hosts_lines-printed (address_of true) own cs) refl
build-printed false own [] cs = rw (hosts_lines-printed (address_of false) own cs) refl
build-printed true own (a ∷ rest) cs = rw (hosts_lines-printed (address_of true) (a ∷ rest) cs) refl
build-printed false own (a ∷ rest) cs =
    rw (hosts_lines-printed (address_of false) (a ∷ rest) cs) refl

-- When no address, host name or alias holds a space or a newline, the lines of the file that is
-- built, split at the spaces, are the loopback address with "localhost", and then for each
-- container, in order, its address of the version asked for, its host name and the aliases of it.
pub build_etc_hosts-read :
    (ipv6 : Bool) (own aliases : Dict Text Aliases) (cs : List Node)
    → All IsEntry (map (entry (address_of ipv6) (used own aliases)) cs)
    → map (split b' ') (splitlines (build_etc_hosts ipv6 own aliases cs))
      ≡ (loopback ipv6 ∷ (text "localhost" ∷ []))
        ∷ map (λ c. words (entry (address_of ipv6) (used own aliases) c)) cs
unfolding first_line
build_etc_hosts-read ipv6 own aliases cs h =
    let es = map (entry (address_of ipv6) (used own aliases)) cs in
    let all : All IsEntry (first_line ipv6 ∷ es) = (first_line-IsEntry ipv6, h) in
    rw (build-printed ipv6 own aliases cs) (
      rw
        (splitlines-newlines (printed (first_line ipv6 ∷ es))
          (printed-Lacks (first_line ipv6 ∷ es) all))
        (split-printed (first_line ipv6 ∷ es) all
          ∙ ap (λ ws. words (first_line ipv6) ∷ ws) (map-map cs)))
  where
    map-map :
        (cs : List Node)
        → map words (map (entry (address_of ipv6) (used own aliases)) cs)
          ≡ map (λ c. words (entry (address_of ipv6) (used own aliases) c)) cs
    map-map [] = refl
    map-map (c ∷ cs) =
        ap (λ ws. words (entry (address_of ipv6) (used own aliases) c) ∷ ws) (map-map cs)
