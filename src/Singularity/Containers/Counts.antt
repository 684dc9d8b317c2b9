-- ===== src/Singularity/Containers/Counts.antt =====
-- How many containers each host has, before and after the nodes of a new cluster get their hosts.
use ldms_test.Base.{
  ℕ, suc, ◌+◌, ◌≡◌, refl, ap, sym, ◌∙◌, Text, List, [], ◌∷◌, ◌++◌, Option, none, some, ◌==◌,
  text_eq, text_beq_iff, ok, Result, >>=-eq-ok, arith, contains, if◌then◌else◌, Bool-cases, inl,
  inr,
}
use ldms_test.Base.Dict
use ldms_test.Base.Dict.{Dict}
use ldms_test.Base.Strings.{split_once}
use ldms_test.Singularity.Containers.{one_more, choose_hosts, count_existing, empty_heap, of_host}

abbrev pub occurrences : Text → List Text → ℕ
occurrences k [] = 0
occurrences k (x ∷ xs) = let rest = occurrences k xs in if x == k then suc rest else rest

occurrences-append :
    (k : Text) (xs ys : List Text) → occurrences k (xs ++ ys) ≡ occurrences k xs + occurrences k ys
occurrences-append k [] ys = omega arith
occurrences-append k (x ∷ xs) ys = elim (Bool-cases (x == k)) [
  | inl s ↦ rw s (omega (arith, occurrences-append k xs ys))
  | inr s ↦ rw s (occurrences-append k xs ys)
]

-- The hosts without their ports.
abbrev pub host_names : List Text → List Text
host_names [] = []
host_names (h ∷ hs) = (split_once b':' h).0 ∷ host_names hs

-- The entries are for the hosts, each with its count.
abbrev pub Counts : List Text → (Text → ℕ) → Dict Text ℕ → Type 0
Counts hs count d =
    (k : Text) → Dict.lookup k d ≡ (if contains k (host_names hs) then some (count k) else none)

abbrev pub more : ℕ → Option ℕ → Option ℕ
more n none = none
more n (some m) = some (n + m)

lookup-empty_heap :
    (k : Text) (hs : List Text) (d : Dict Text ℕ)
    → Dict.lookup k (empty_heap hs d)
      ≡ (if contains k (host_names hs) then some 0 else Dict.lookup k d)
unfolding empty_heap contains
lookup-empty_heap k [] d = refl
lookup-empty_heap k (h ∷ hs) d = ground (
  arith,
  lookup-empty_heap k hs (Dict.insert ((split_once b':' h).0) 0 d),
  Dict.lookup-insert k ((split_once b':' h).0) 0 d,
  text_beq_iff k ((split_once b':' h).0),
  text_beq_iff ((split_once b':' h).0) k,
)

more-suc : (n : ℕ) (o : Option ℕ) → more n (more 1 o) ≡ more (suc n) o
more-suc n none = refl
more-suc n (some m) = ap some (omega arith)

more-zero : (o : Option ℕ) → more 0 o ≡ o
more-zero none = refl
more-zero (some m) = ap some (omega arith)

pub of_ok : {A : Type 0} (x y : A) → Result.ok x ≡ ok y → x ≡ y
of_ok x y q = cc

host_found : (o : Option ℕ) (n : ℕ) → of_host o ≡ ok n → o ≡ some n
unfolding of_host
host_found none n h = cc
host_found (some m) n h = ap some (of_ok m n h)

lookup-count_existing :
    (k : Text) (hs : List Text) (d e : Dict Text ℕ)
    → count_existing hs d ≡ ok e
    → Dict.lookup k e ≡ more (occurrences k hs) (Dict.lookup k d)
unfolding count_existing of_host
lookup-count_existing k [] d e h =
    ap (Dict.lookup k) (of_ok e d (sym h)) ∙ sym (more-zero (Dict.lookup k d))
lookup-count_existing k (j ∷ hs) d e h =
    let (n, a, b) =
      >>=-eq-ok (of_host (Dict.lookup j d)) (λ n. count_existing hs (Dict.insert j (suc n) d)) h in
    let found : Dict.lookup j d ≡ some n = host_found (Dict.lookup j d) n a in
    lookup-count_existing k hs (Dict.insert j (suc n) d) e b
    ∙ ap (more (occurrences k hs)) (Dict.lookup-insert k j (suc n) d)
    ∙ elim (Bool-cases (j == k)) [
      | inl s ↦ rw s (
          ap some {x = occurrences k hs + suc n} (omega arith)
          ∙ ap (more (suc (occurrences k hs)))
              (sym found ∙ ap (λ x. Dict.lookup x d) ((text_beq_iff j k).0 s)))
      | inr s ↦ rw s refl
    ]

pub lookup-one_more :
    (k h : Text) (d : Dict Text ℕ)
    → Dict.lookup k (one_more h d) ≡ (if h == k then more 1 (Dict.lookup k d) else Dict.lookup k d)
unfolding Dict.lookup one_more
lookup-one_more k h [] = ground arith
lookup-one_more k h ((j, m) ∷ d) =
    ground (arith, lookup-one_more k h d, text_beq_iff j h, text_beq_iff h k, text_beq_iff j k)

abbrev the_pair : List Text → Dict Text ℕ → List Text × Dict Text ℕ
the_pair hosts d = (hosts, d)

lookup-choose_hosts :
    (pick : Dict Text ℕ → Text) (k : Text) (nodes : List Text) (heap : Dict Text ℕ)
    (hosts : List Text) (after : Dict Text ℕ)
    → choose_hosts pick nodes heap ≡ ok (hosts, after)
    → Dict.lookup k after ≡ more (occurrences k hosts) (Dict.lookup k heap)
unfolding choose_hosts
lookup-choose_hosts pick k [] heap hosts after h =
    let q = of_ok (the_pair [] heap) (the_pair hosts after) h in
    ap (λ x. Dict.lookup k x.1) (sym q)
    ∙ sym (more-zero (Dict.lookup k heap))
    ∙ ap (λ x. more (occurrences k x.0) (Dict.lookup k heap)) q
lookup-choose_hosts pick k (node ∷ nodes) [] hosts after h = cc
lookup-choose_hosts pick k (node ∷ nodes) (e ∷ heap) hosts after h =
    let chosen = pick (e ∷ heap) in
    let ((hs, last), a, b) =
      >>=-eq-ok (choose_hosts pick nodes (one_more chosen (e ∷ heap)))
        (λ (hosts, last). ok (chosen ∷ hosts, last)) h in
    let q = of_ok (the_pair (chosen ∷ hs) last) (the_pair hosts after) b in
    ap (λ x. Dict.lookup k x.1) (sym q)
    ∙ lookup-choose_hosts pick k nodes (one_more chosen (e ∷ heap)) hs last a
    ∙ ap (more (occurrences k hs)) (lookup-one_more k chosen (e ∷ heap))
    ∙ elim (Bool-cases (chosen == k)) [
      | inl s ↦ rw s (more-suc (occurrences k hs) (Dict.lookup k (e ∷ heap)))
      | inr s ↦ rw s refl
    ]
    ∙ ap (λ x. more (occurrences k x.0) (Dict.lookup k (e ∷ heap))) q

module _ (sing_hosts existing : List Text) (before : Dict Text ℕ)
    (counted : count_existing existing (empty_heap sing_hosts []) ≡ ok before) where
  pub Counts-before : Counts sing_hosts (λ k. occurrences k existing) before
  unfolding Dict.lookup
  Counts-before k =
      lookup-count_existing k existing (empty_heap sing_hosts []) before counted
      ∙ ap (more (occurrences k existing)) (lookup-empty_heap k sing_hosts [])
      ∙ elim (Bool-cases (contains k (host_names sing_hosts))) [
        | inl s ↦ rw s (ap some {x = occurrences k existing + 0} (omega arith))
        | inr s ↦ rw s refl
      ]

  pub Counts-after :
      (pick : Dict Text ℕ → Text) (nodes hosts : List Text) (after : Dict Text ℕ)
      → choose_hosts pick nodes before ≡ ok (hosts, after)
      → Counts sing_hosts (λ k. occurrences k (hosts ++ existing)) after
  Counts-after pick nodes hosts after h k =
      lookup-choose_hosts pick k nodes before hosts after h
      ∙ ap (more (occurrences k hosts)) (Counts-before k)
      ∙ elim (Bool-cases (contains k (host_names sing_hosts))) [
        | inl s ↦ rw s (ap some (sym (occurrences-append k hosts existing)))
        | inr s ↦ rw s refl
      ]
