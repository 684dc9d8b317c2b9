-- ===== src/Singularity/Containers/Hosts.antt =====
-- The hosts of new containers.
use ldms_test.Base.{
  ℕ, suc, ◌≤◌, ◌≡◌, ◌⊎◌, inl, inr, refl, ap, sym, subst, ◌∙◌, Text, true, List, [], ◌∷◌, Option,
  none, some, All, Bool-cases, ◌==◌, text_eq, text_beq_iff, some-injective, Option-cases, ◌++◌, ok,
  >>=-eq-ok, arith, eq_refl, length,
}
use ldms_test.Base.Dict
use ldms_test.Base.Dict.{Dict}
use ldms_test.Base.Strings.{split_once}
use ldms_test.Singularity.Containers.{
  one_more, choose_hosts, count_existing, empty_heap, of_host, place_nodes,
}
use ldms_test.Singularity.Containers.Counts.{
  occurrences, Counts, of_ok, lookup-one_more, Counts-before, Counts-after,
}

-- Each host has as many containers as before, or at most one more than any host has.
abbrev pub Fair : Dict Text ℕ → Dict Text ℕ → Type 0
Fair before after =
    All (λ (k, m). (Dict.lookup k before ≡ some m) ⊎ All (λ (j, n). m ≤ suc n) after) after

-- That the host that is picked is one of the heap, with the fewest containers, where no host stands
-- twice.
abbrev pub PicksLeast : (Dict Text ℕ → Text) → Type 0
PicksLeast pick =
    (e : Text × ℕ) (heap : Dict Text ℕ)
    → Dict.NodupKeys (e ∷ heap)
    → (m : ℕ) × (Dict.lookup (pick (e ∷ heap)) (e ∷ heap) ≡ some m)
      × All (λ (j, n). m ≤ n) (e ∷ heap)

All-one_more :
    (P : ℕ → Type 0) (h : Text) (heap : Dict Text ℕ)
    → ((n : ℕ) → P n → P (suc n))
    → All (λ (j, n). P n) heap
    → All (λ (j, n). P n) (one_more h heap)
unfolding one_more
All-one_more P h [] up p = tt
All-one_more P h ((k, m) ∷ heap) up p = elim (Bool-cases (k == h)) [
  | inl f ↦ rw f (up m p.0, p.1)
  | inr f ↦ rw f (p.0, All-one_more P h heap up p.1)
]

step-Fair :
    (before whole : Dict Text ℕ) (h : Text) (heap : Dict Text ℕ)
    → All (λ (k, m). (k == h) ≡ true → All (λ (j, n). m ≤ n) whole) heap
    → All (λ (k, m). (Dict.lookup k before ≡ some m) ⊎ All (λ (j, n). m ≤ suc n) whole) heap
    → All
        (λ (k, m). (Dict.lookup k before ≡ some m) ⊎ All (λ (j, n). m ≤ suc n) (one_more h whole))
        (one_more h heap)
unfolding one_more
step-Fair before whole h [] p q = tt
step-Fair before whole h ((k, m) ∷ heap) p q = elim (Bool-cases (k == h)) [
  | inl f ↦ rw f (
    inr (
        All-one_more (λ n. suc m ≤ suc n) h whole (λ n a. omega (arith, a))
          (raise m whole (p.0 f))),
    rest heap q.1,
  )
  | inr f ↦ rw f (later m (q.0), step-Fair before whole h heap p.1 q.1)
]
  where
    raise : (m : ℕ) (d : Dict Text ℕ) → All (λ (j, n). m ≤ n) d → All (λ (j, n). suc m ≤ suc n) d
    raise m [] a = tt
    raise m ((j, n) ∷ d) a = (omega (arith, a.0), raise m d a.1)

    later :
        {o : Option ℕ} (m : ℕ)
        → (o ≡ some m) ⊎ All (λ (j, n). m ≤ suc n) whole
        → (o ≡ some m) ⊎ All (λ (j, n). m ≤ suc n) (one_more h whole)
    later m (inl e) = inl e
    later m (inr a) = inr (All-one_more (λ n. m ≤ suc n) h whole (λ n b. omega (arith, b)) a)

    rest :
        (d : Dict Text ℕ)
        → All (λ (k, m). (Dict.lookup k before ≡ some m) ⊎ All (λ (j, n). m ≤ suc n) whole) d
        → All
            (λ (k, m).
              (Dict.lookup k before ≡ some m) ⊎ All (λ (j, n). m ≤ suc n) (one_more h whole))
            d
    rest [] a = tt
    rest ((j, n) ∷ d) a = (later n (a.0), rest d a.1)

not_listed :
    (j h : Text) (d : Dict Text ℕ) → Dict.lookup j d ≡ none → Dict.lookup j (one_more h d) ≡ none
not_listed j h d e =
    lookup-one_more j h d ∙ elim (Bool-cases (h == j)) [ inl s ↦ rw s (rw e refl) | inr s ↦ rw s e ]

one_more-NodupKeys : (h : Text) (d : Dict Text ℕ) → Dict.NodupKeys d → Dict.NodupKeys (one_more h d)
unfolding one_more
one_more-NodupKeys h [] u = tt
one_more-NodupKeys h ((k, m) ∷ d) u = elim (Bool-cases (k == h)) [
  | inl f ↦ rw f u
  | inr f ↦ rw f (not_listed k h d u.0, one_more-NodupKeys h d u.1)
]

lookup_behind :
    (j k : Text) (m n : ℕ) (d : Dict Text ℕ)
    → Dict.lookup k d ≡ none
    → Dict.lookup j d ≡ some n
    → Dict.lookup j ((k, m) ∷ d) ≡ some n
unfolding Dict.lookup
lookup_behind j k m n d u e = elim (Bool-cases (k == j)) [
  | inl t ↦ absurd (clash (ap (λ x. Dict.lookup x d) ((text_beq_iff k j).0 t)))
  | inr f ↦ rw f e
]
  where
    clash : Dict.lookup k d ≡ Dict.lookup j d → ⊥
    clash q = cc

-- Where no host stands twice, each entry is found under its host.
pub All-lookup :
    (d part : Dict Text ℕ)
    → ((k : Text) (m : ℕ) → Dict.lookup k part ≡ some m → Dict.lookup k d ≡ some m)
    → Dict.NodupKeys part
    → All (λ (k, m). Dict.lookup k d ≡ some m) part
All-lookup d [] f u = tt
All-lookup d ((k, m) ∷ part) f u = (
  f k m (unfold Dict.lookup in rw (eq_refl k) refl),
  All-lookup d part (λ j n e. f j n (lookup_behind j k m n part u.0 e)) u.1,
)

unchanged-Fair :
    (d part : Dict Text ℕ)
    → All (λ (k, m). Dict.lookup k d ≡ some m) part
    → All (λ (k, m). (Dict.lookup k d ≡ some m) ⊎ All (λ (j, n). m ≤ suc n) d) part
unchanged-Fair d [] p = tt
unchanged-Fair d ((k, m) ∷ part) p = (inl p.0, unchanged-Fair d part p.1)

empty_heap-NodupKeys :
    (hs : List Text) (d : Dict Text ℕ) → Dict.NodupKeys d → Dict.NodupKeys (empty_heap hs d)
unfolding empty_heap
empty_heap-NodupKeys [] d u = u
empty_heap-NodupKeys (h ∷ hs) d u =
    empty_heap-NodupKeys hs (Dict.insert ((split_once b':' h).0) 0 d)
      (Dict.insert-NodupKeys ((split_once b':' h).0) 0 d u)

count_existing-NodupKeys :
    (hs : List Text) (d e : Dict Text ℕ)
    → Dict.NodupKeys d
    → count_existing hs d ≡ ok e
    → Dict.NodupKeys e
unfolding count_existing
count_existing-NodupKeys [] d e u h = subst Dict.NodupKeys (of_ok d e h) u
count_existing-NodupKeys (k ∷ ks) d e u h =
    let (n, a, b) =
      >>=-eq-ok (of_host (Dict.lookup k d)) (λ n. count_existing ks (Dict.insert k (suc n) d)) h in
    count_existing-NodupKeys ks (Dict.insert k (suc n) d) e (Dict.insert-NodupKeys k (suc n) d u) b

-- The entries of the host that has the fewest containers have no more than any host.
least_entries :
    (whole part : Dict Text ℕ) (h : Text) (m : ℕ)
    → Dict.lookup h whole ≡ some m
    → All (λ (j, n). m ≤ n) whole
    → All (λ (k, n). Dict.lookup k whole ≡ some n) part
    → All (λ (k, n). (k == h) ≡ true → All (λ (j, i). n ≤ i) whole) part
least_entries whole [] h m e a l = tt
least_entries whole ((k, n) ∷ part) h m e a l = (
  λ t.
      subst (λ x. All (λ (j, i). x ≤ i) whole)
        (some-injective m n
          (sym e ∙ ap (λ x. Dict.lookup x whole) (sym ((text_beq_iff k h).0 t)) ∙ l.0))
        a,
  least_entries whole part h m e a l.1,
)

-- The heap has an entry for a host.
abbrev pub Has : Dict Text ℕ → Text → Type 0
Has heap h = (m : ℕ) × (Dict.lookup h heap ≡ some m)

Has-one_more :
    (x : Text) (heap : Dict Text ℕ) (hs : List Text)
    → All (Has (one_more x heap)) hs
    → All (Has heap) hs
Has-one_more x heap [] a = tt
Has-one_more x heap (h ∷ hs) ((m, e), a) = (
  elim (Option-cases (Dict.lookup h heap)) [
    | inl f ↦ absurd (clash (not_listed h x heap f))
    | inr f ↦ f
  ],
  Has-one_more x heap hs a,
)
  where
    clash : Dict.lookup h (one_more x heap) ≡ none → ⊥
    clash q = cc

-- What holds of the hosts that are chosen.
abbrev pub Chosen : Dict Text ℕ → List Text → Dict Text ℕ → List Text × Dict Text ℕ → Type 0
Chosen before nodes heap (hosts, after) =
    (length hosts ≡ length nodes) × All (Has heap) hosts × Fair before after

choose_hosts-Chosen :
    (pick : Dict Text ℕ → Text) (least : PicksLeast pick) (before : Dict Text ℕ) (nodes : List Text)
    (heap : Dict Text ℕ) (r : List Text × Dict Text ℕ)
    → Dict.NodupKeys heap
    → Fair before heap
    → choose_hosts pick nodes heap ≡ ok r
    → Chosen before nodes heap r
unfolding choose_hosts
choose_hosts-Chosen pick least before [] heap r u p h =
    subst (Chosen before [] heap) (of_ok ([], heap) r h) (refl, tt, p)
choose_hosts-Chosen pick least before (node ∷ nodes) [] r u p h = cc
choose_hosts-Chosen pick least before (node ∷ nodes) (e ∷ heap) r u p h =
    let x = pick (e ∷ heap) in
    let ((hs, last), a, b) =
      >>=-eq-ok (choose_hosts pick nodes (one_more x (e ∷ heap)))
        (λ (hosts, last). ok (x ∷ hosts, last)) h in
    let (m, f, g) = least e heap u in
    let (l, s, t) =
      choose_hosts-Chosen pick least before nodes (one_more x (e ∷ heap)) (hs, last)
        (one_more-NodupKeys x (e ∷ heap) u)
        (step-Fair before (e ∷ heap) x (e ∷ heap)
          (least_entries (e ∷ heap) (e ∷ heap) x m f g
            (All-lookup (e ∷ heap) (e ∷ heap) (λ k m q. q) u))
          p)
        a in
    subst (Chosen before (node ∷ nodes) (e ∷ heap)) (of_ok (x ∷ hs, last) r b)
      (ap suc l, ((m, f), Has-one_more x (e ∷ heap) hs s), t)

-- When the nodes of a new cluster get their hosts, and the heap gives a host of the fewest containers,
-- each node gets one of the hosts. The heap then has for each host the number of its containers, those
-- that ran and the new ones, and for nothing else. Every host has as many containers as ran on
-- it, or at most one more than any host has.
pub place_nodes_lem :
    (pick : Dict Text ℕ → Text) (sing_hosts existing nodes hosts : List Text) (after : Dict Text ℕ)
    → PicksLeast pick
    → place_nodes pick sing_hosts existing nodes ≡ ok (hosts, after)
    → (before : Dict Text ℕ) × Counts sing_hosts (λ k. occurrences k existing) before
      × (length hosts ≡ length nodes)
      × All (Has before) hosts
      × Counts sing_hosts (λ k. occurrences k (hosts ++ existing)) after
      × Fair before after
unfolding place_nodes
place_nodes_lem pick sing_hosts existing nodes hosts after least h =
    let (before, a, b) =
      >>=-eq-ok (count_existing existing (empty_heap sing_hosts []))
        (λ heap. choose_hosts pick nodes heap) h in
    let u : Dict.NodupKeys before =
      count_existing-NodupKeys existing (empty_heap sing_hosts []) before
        (empty_heap-NodupKeys sing_hosts [] tt) a in
    let (l, s, t) =
      choose_hosts-Chosen pick least before nodes before (hosts, after) u
        (unchanged-Fair before before (All-lookup before before (λ k m q. q) u)) b in
    (
      before,
      Counts-before sing_hosts existing before a,
      l,
      s,
      Counts-after sing_hosts existing before a pick nodes hosts after b,
      t,
    )
