-- ===== src/Docker/Containers/Names.antt =====
-- Which container a name of a cluster stands for.
use ldms_test.Base.{
  ◌≡◌, refl, ap, sym, ◌∙◌, Text, true, false, List, [], ◌∷◌, ◌++◌, Option, none, some, Bool-cases,
  inl, inr, All, if◌then◌else◌, ◌==◌, text_eq, contains, ok, >>=-eq-ok,
}
use ldms_test.Base.Dict
use ldms_test.Base.Dict.{Dict}
use ldms_test.Cluster.{Aliases, alias_list}
use ldms_test.Docker.Containers.{Cont, by_hostname, add_names, known, add_aliases, cont_dict}

lookup-add_names :
    (j : Text) (c : Cont) (ns : List Text) (d : Dict Text Cont)
    → Dict.lookup j (add_names c ns d) ≡ (if contains j ns then some c else Dict.lookup j d)
unfolding add_names contains
lookup-add_names j c [] d = refl
lookup-add_names j c (n ∷ ns) d = elim (Bool-cases (n == j)) [
  | inl f ↦
      lookup-add_names j c ns (Dict.insert n c d)
      ∙ rw (Dict.lookup-insert j n c d)
          (rw f (elim (Bool-cases (contains j ns)) [ inl g ↦ rw g refl | inr g ↦ rw g refl ]))
  | inr f ↦
      lookup-add_names j c ns (Dict.insert n c d) ∙ rw (Dict.lookup-insert j n c d) (rw f refl)
]

known-ok : (o : Option Cont) (c : Cont) → known o ≡ ok c → o ≡ some c
unfolding known
known-ok none c h = cc
known-ok (some x) c h = cc

-- A name that no entry adds keeps its container.
abbrev pub AddsNot : Text → Dict Text Aliases → Type 0
AddsNot j = All (λ (k, v). contains j (alias_list (some v)) ≡ false)

lookup-add_aliases :
    (j : Text) (aliases : Dict Text Aliases) (d e : Dict Text Cont)
    → AddsNot j aliases
    → add_aliases aliases d ≡ ok e
    → Dict.lookup j e ≡ Dict.lookup j d
unfolding add_aliases
lookup-add_aliases j [] d e p h = ap (Dict.lookup j) (sym (ok-injective d e h))
  where
    ok-injective : (x y : Dict Text Cont) → ok x ≡ ok y → x ≡ y
    ok-injective x y q = cc
lookup-add_aliases j ((k, v) ∷ rest) d e p h =
    let (c, a, b) =
      >>=-eq-ok (known (Dict.lookup k d))
        (λ c. add_aliases rest (add_names c (alias_list (some v)) d)) h in
    lookup-add_aliases j rest (add_names c (alias_list (some v)) d) e p.1 b
    ∙ lookup-add_names j c (alias_list (some v)) d
    ∙ ap (λ t. if t then some c else Dict.lookup j d) p.0

-- The entry of an alias, with what the entries before it leave.
entry_lem :
    (n k : Text) (v : Aliases) (before after : Dict Text Aliases) (d e : Dict Text Cont)
    → contains n (alias_list (some v)) ≡ true
    → AddsNot k before
    → AddsNot n after
    → add_aliases (before ++ ((k, v) ∷ after)) d ≡ ok e
    → (c : Cont) × (Dict.lookup k d ≡ some c) × (Dict.lookup n e ≡ some c)
unfolding add_aliases
entry_lem n k v [] after d e m p q h =
    let (c, a, b) =
      >>=-eq-ok (known (Dict.lookup k d))
        (λ c. add_aliases after (add_names c (alias_list (some v)) d)) h in
    (
      c,
      known-ok (Dict.lookup k d) c a,
      lookup-add_aliases n after (add_names c (alias_list (some v)) d) e q b
          ∙ lookup-add_names n c (alias_list (some v)) d
          ∙ ap (λ t. if t then some c else Dict.lookup n d) m,
    )
entry_lem n k v ((j, w) ∷ before) after d e m p q h =
    let (x, a, b) =
      >>=-eq-ok (known (Dict.lookup j d))
        (λ c. add_aliases (before ++ ((k, v) ∷ after)) (add_names c (alias_list (some w)) d)) h in
    let (c, a', b') =
      entry_lem n k v before after (add_names x (alias_list (some w)) d) e m p.1 q b in
    (
      c,
      sym (
            lookup-add_names k x (alias_list (some w)) d
            ∙ ap (λ t. if t then some x else Dict.lookup k d) p.0)
          ∙ a',
      b',
    )

-- When the names of a cluster can be built, an alias of a node stands for the container that has the
-- node's host name, unless an entry before has the host name for an alias, or one behind it has the
-- same alias.
pub cont_dict_lem :
    (n k : Text) (v : Aliases) (before after : Dict Text Aliases) (cs : List Cont)
    (d : Dict Text Cont)
    → cont_dict (before ++ ((k, v) ∷ after)) cs ≡ ok d
    → contains n (alias_list (some v)) ≡ true
    → AddsNot k before
    → AddsNot n after
    → (c : Cont) × (Dict.lookup k (by_hostname cs []) ≡ some c) × (Dict.lookup n d ≡ some c)
unfolding cont_dict
cont_dict_lem n k v before after cs d h m p q =
    entry_lem n k v before after (by_hostname cs []) d m p q h
