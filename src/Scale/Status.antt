-- ===== src/Scale/Status.antt =====
-- scalability/ldmsdutils.py, `prdcr_status` and `prdcr_set_status`: how many sets are in which state,
-- and `getMissingDir`.
use ldms_test.Base.{
  ◌≡◌, refl, sym, ap, ◌∙◌, subst, ℕ, suc, ◌+◌, Text, Bool, true, false, List, [], ◌∷◌, some, Result,
  ok, err, key_error, text_eq, text_beq, text_beq_iff, contains, All, length, ◌==◌, arith, inl, inr,
  Bool-cases, Result-cases, ◌⊎◌,
}
use ldms_test.Base.Dict
use ldms_test.Base.Dict.{Dict}
use ldms_test.Base.Strings.{text}
use ldms_test.Sql.Engine.{filter}

-- `counts` before the loop
abbrev pub no_counts : Dict Text ℕ
no_counts =
    (text "START", 0)
    ∷ (text "LOOKUP", 0)
    ∷ (text "READY", 0)
    ∷ (text "UPDATING", 0)
    ∷ (text "DELETED", 0)
    ∷ []

-- `counts[s] += 1`
add_one : Text → Dict Text ℕ → Result (Dict Text ℕ)
add_one s [] = err key_error
add_one s ((k, n) ∷ d) = elim (k == s) [
  | true ↦ ok ((k, suc n) ∷ d)
  | false ↦ elim (add_one s d) [ err e ↦ err e | ok rest ↦ ok ((k, n) ∷ rest) ]
]

-- The loop over the states of the sets
unfoldable pub count_states : Dict Text ℕ → List Text → Result (Dict Text ℕ)
unfolding add_one
count_states d [] = ok d
count_states d (s ∷ ss) = elim (add_one s d) [ err e ↦ err e | ok rest ↦ count_states rest ss ]

-- `set_state_summary`
unfoldable pub set_state_summary : List Text → Result (Dict Text ℕ)
unfolding count_states
set_state_summary states = count_states no_counts states

-- `getMissingDir`, as the elements of the set
unfoldable pub missing_dir : List Text → List Text → List Text
missing_dir expected present =
    filter (λ s. elim (contains s present) [ true ↦ false | false ↦ true ]) expected

abbrev pub total : Dict Text ℕ → ℕ
total [] = 0
total ((k, n) ∷ d) = n + total d

-- What `counts[s] += 1` leaves.
add_one-step :
    (s k : Text) (n : ℕ) (d e : Dict Text ℕ)
    → add_one s ((k, n) ∷ d) ≡ ok e
    → ((k ≡ s) × ((k, suc n) ∷ d ≡ e))
      ⊎ ((rest : Dict Text ℕ) × ((k == s) ≡ false) × (add_one s d ≡ ok rest) × ((k, n) ∷ rest ≡ e))
unfolding add_one
add_one-step s k n d e h = elim (Bool-cases (k == s)) [
  | inl f ↦ inl ((text_beq_iff k s).0 f, ground (arith, f, h))
  | inr f ↦ elim (Result-cases (add_one s d)) [
    | inl (rest, g) ↦ inr (rest, f, g, ground (arith, f, g, h))
    | inr (x, g) ↦ absurd (ground (arith, f, g, h))
  ]
]

total-add_one : (s : Text) (d e : Dict Text ℕ) → add_one s d ≡ ok e → total e ≡ suc (total d)
unfolding add_one
total-add_one s [] e h = cc
total-add_one s ((k, n) ∷ d) e h = elim (add_one-step s k n d e h) [
  | inl (i, j) ↦ rw (sym j) (omega arith)
  | inr (rest, i, j, f) ↦ rw (sym f) (omega (arith, total-add_one s d rest j))
]

-- One more if it is the state.
abbrev plus_if : Bool → ℕ → ℕ
plus_if true n = suc n
plus_if false n = n

lookup-add_one :
    (s k : Text) (m : ℕ) (d e : Dict Text ℕ)
    → add_one s d ≡ ok e
    → Dict.lookup k d ≡ some m
    → Dict.lookup k e ≡ some (plus_if (s == k) m)
unfolding add_one Dict.lookup
lookup-add_one s k m [] e h l = cc
lookup-add_one s k m ((j, n) ∷ d) e h l = elim (add_one-step s j n d e h) [
  | inl (i, f) ↦ rw (sym f) (
      rw i (elim (Bool-cases (s == k)) [
        | inl g ↦ ground (arith, g, l, i)
        | inr g ↦ ground (arith, g, l, i)
      ]))
  | inr (rest, i, q, f) ↦ rw (sym f) (elim (Bool-cases (j == k)) [
    | inl g ↦ ground (arith, g, l, i, text_beq_iff j k, text_beq_iff s k, text_beq_iff j s)
    | inr g ↦ ground (arith, g, l, lookup-add_one s k m d rest q)
  ])
]

plus_if-plus : (b : Bool) (m n : ℕ) → plus_if b m + n ≡ m + plus_if b n
plus_if-plus true m n = omega arith
plus_if-plus false m n = refl

-- How many sets are in a state
abbrev pub occurrences : Text → List Text → ℕ
occurrences k [] = 0
occurrences k (s ∷ ss) = plus_if (s == k) (occurrences k ss)

count_states_lem :
    (d e : Dict Text ℕ) (ss : List Text)
    → count_states d ss ≡ ok e
    → (total e ≡ total d + length ss)
      × ((k : Text) (m : ℕ)
          → Dict.lookup k d ≡ some m
          → Dict.lookup k e ≡ some (m + occurrences k ss))
unfolding count_states
count_states_lem d e [] h =
    let i : d ≡ e = same d e h in
    (
      ap total (sym i) ∙ omega arith,
      λ k m l. subst (λ x. Dict.lookup k x ≡ some m) i l ∙ ap some (omega arith),
    )
  where
    same : (x y : Dict Text ℕ) → ok x ≡ ok y → x ≡ y
    same x y h = cc
count_states_lem d e (s ∷ ss) h = elim (Result-cases (add_one s d)) [
  | inr (x, f) ↦ absurd (ground (arith, f, h))
  | inl (rest, f) ↦
      let (p, q) = count_states_lem rest e ss (ground (arith, f, h)) in
      (
        omega (arith, p, total-add_one s d rest f),
        λ k m l.
            q k (plus_if (s == k) m) (lookup-add_one s k m d rest f l)
            ∙ ap some (plus_if-plus (s == k) m (occurrences k ss)),
      )
]

none_yet :
    (Dict.lookup (text "START") no_counts ≡ some 0)
    × (Dict.lookup (text "LOOKUP") no_counts ≡ some 0)
    × (Dict.lookup (text "READY") no_counts ≡ some 0)
    × (Dict.lookup (text "UPDATING") no_counts ≡ some 0)
    × (Dict.lookup (text "DELETED") no_counts ≡ some 0)
unfolding Dict.lookup text_beq
none_yet = (refl, refl, refl, refl, refl)

-- A summary that is returned has for each of the five states the number of sets in it, and no set is
-- left out: the numbers add up to the number of sets.
pub set_state_summary_lem :
    (states : List Text) (counts : Dict Text ℕ)
    → set_state_summary states ≡ ok counts
    → (total counts ≡ length states)
      × All (λ k. Dict.lookup k counts ≡ some (occurrences k states)) (Dict.keys no_counts)
unfolding set_state_summary Dict.keys
set_state_summary_lem states counts h =
    let (p, q) = count_states_lem no_counts counts states h in
    (
      p ∙ omega arith,
      (
        q (text "START") 0 none_yet.0 ∙ ap some (omega arith),
        (
          q (text "LOOKUP") 0 none_yet.1 ∙ ap some (omega arith),
          (
            q (text "READY") 0 none_yet.2 ∙ ap some (omega arith),
            (
              q (text "UPDATING") 0 none_yet.3 ∙ ap some (omega arith),
              (q (text "DELETED") 0 none_yet.4 ∙ ap some (omega arith), tt),
            ),
          ),
        ),
      ),
    )
