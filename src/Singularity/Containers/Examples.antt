-- ===== src/Singularity/Containers/Examples.antt =====
-- Two hosts, one of which runs a container; and the reply of a shell.
use ldms_test.Base.{
  ℕ, ◌-◌, ◌≤◌, ◌≡◌, refl, sym, subst, Text, List, [], ◌∷◌, ◌++◌, some, All, Bool-cases, inl, inr,
  leb, if◌then◌else◌, text_eq, text_beq, Result, ok, err, value_error, index_error, ◌>>=◌, arith,
  length,
}
use ldms_test.Base.Dict
use ldms_test.Base.Dict.{Dict}
use ldms_test.Base.Strings.{text, split_once}
use ldms_test.Singularity.Containers.{place_nodes}
use ldms_test.Singularity.Containers.Counts.{occurrences, Counts}
use ldms_test.Singularity.Containers.Hosts.{Has, Fair, PicksLeast, All-lookup, place_nodes_lem}

fewest : Text × ℕ → Dict Text ℕ → Text × ℕ
fewest e [] = e
fewest (h, n) ((k, m) ∷ d) = fewest (if leb n m then (h, n) else (k, m)) d

abbrev pick : Dict Text ℕ → Text
pick [] = []
pick (e ∷ d) = (fewest e d).0

abbrev IsFewest : Dict Text ℕ → Text × ℕ → Dict Text ℕ → Text × ℕ → Type 0
IsFewest whole e d r = (Dict.lookup r.0 whole ≡ some r.1) × (r.1 ≤ e.1) × All (λ (j, n). r.1 ≤ n) d

fewest-IsFewest :
    (whole : Dict Text ℕ) (e : Text × ℕ) (d : Dict Text ℕ)
    → Dict.lookup e.0 whole ≡ some e.1
    → All (λ (k, m). Dict.lookup k whole ≡ some m) d
    → IsFewest whole e d (fewest e d)
unfolding fewest
fewest-IsFewest whole e [] p q = (p, omega arith, tt)
fewest-IsFewest whole (h, n) ((k, m) ∷ d) p q = elim (Bool-cases (leb n m)) [
  | inl f ↦
      subst (λ b. IsFewest whole (h, n) ((k, m) ∷ d) (fewest (if b then (h, n) else (k, m)) d))
        (sym f)
        (let (a, b, c) = fewest-IsFewest whole (h, n) d p q.1 in (a, b, (ground (arith, f, b), c)))
  | inr f ↦
      subst (λ b. IsFewest whole (h, n) ((k, m) ∷ d) (fewest (if b then (h, n) else (k, m)) d))
        (sym f)
        (let (a, b, c) = fewest-IsFewest whole (k, m) d q.0 q.1 in
          (a, ground (arith, f, b), (b, c)))
]

pick-PicksLeast : PicksLeast pick
pick-PicksLeast (h, n) d u =
    let l = All-lookup ((h, n) ∷ d) ((h, n) ∷ d) (λ k m q. q) u in
    let (a, b, c) = fewest-IsFewest ((h, n) ∷ d) (h, n) d l.0 l.1 in
    ((fewest (h, n) d).1, a, (b, c))

abbrev hosts : List Text
hosts = text "h1:2222" ∷ (text "h2" ∷ [])

abbrev running : List Text
running = text "h1" ∷ []

abbrev new_nodes : List Text
new_nodes = text "n1" ∷ (text "n2" ∷ [])

abbrev loads : Dict Text ℕ
loads = (text "h1", 2) ∷ ((text "h2", 1) ∷ [])

placed : place_nodes pick hosts running new_nodes ≡ ok (text "h2" ∷ (text "h1" ∷ []), loads)
unfolding place_nodes Dict.insert Dict.lookup split_once text_beq fewest
placed = refl

place_nodes_lem_example :
    (before : Dict Text ℕ) × Counts hosts (λ k. occurrences k running) before
    × (length (text "h2" ∷ (text "h1" ∷ [])) ≡ length new_nodes)
    × All (Has before) (text "h2" ∷ (text "h1" ∷ []))
    × Counts hosts (λ k. occurrences k ((text "h2" ∷ (text "h1" ∷ [])) ++ running)) loads
    × Fair before loads
place_nodes_lem_example =
    place_nodes_lem pick hosts running new_nodes (text "h2" ∷ (text "h1" ∷ [])) loads
      pick-PicksLeast placed

-- Without a host, a node has nowhere to go.
no_hosts : place_nodes pick [] [] new_nodes ≡ err index_error
unfolding place_nodes
no_hosts = refl

abbrev read_digit : Text → Result ℕ
read_digit (c ∷ []) = ok (c - b'0')
read_digit _ = err value_error

-- Bytes below 128 only
abbrev ascii : Text → Result Text
ascii [] = ok []
ascii (c ∷ s) =
    let rest = ascii s in if leb c 127 then (rest >>= λ t. ok (c ∷ t)) else err value_error
