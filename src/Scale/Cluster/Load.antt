-- ===== src/Scale/Cluster/Load.antt =====
-- How the hosts are divided among the threads.
use ldms_test.Base.{
  ◌≡◌, refl, ap, ◌∙◌, ℕ, zero, suc, ◌+◌, ◌-◌, ◌*◌, ◌/◌, ◌%◌, ◌≤◌, Text, List, [], ◌∷◌, ◌++◌, ok,
  All, length, take, drop, ltb, arith, ◌⊎◌, inl, inr, if◌then◌else◌, Bool-cases, ◌<◌,
}
use native.Mathlib.Nat.{suc-mul, div-add-mod, mod-lt}
use ldms_test.Scale.Cluster.{slice, load_from, load}
use ldms_test.Scale.Parts.{take-parts, take-all}

abbrev pub concat : List (List Text) → List Text
concat [] = []
concat (l ∷ ls) = l ++ concat ls

concat-load_from :
    (hosts : List Text) (m r i i0 n : ℕ)
    → r - i ≤ n
    → concat (load_from hosts m r i i0 n) ≡ take (n * m + (r - i)) (drop i0 hosts)
unfolding load_from slice
concat-load_from hosts m r i i0 zero h = ap (λ k. take k (drop i0 hosts)) {x = 0} (omega arith)
concat-load_from hosts m r i i0 (suc n) h =
    let one : ℕ = (if ltb i r then 1 else 0) in
    let i1 : ℕ = i0 + m + one in
    ap (λ l. take (i1 - i0) (drop i0 hosts) ++ l)
      (concat-load_from hosts m r (suc i) i1 n (omega arith))
    ∙ ap (λ k. take (i1 - i0) (drop i0 hosts) ++ take (n * m + (r - suc i)) (drop k hosts))
        {y = i0 + (i1 - i0)} (omega arith)
    ∙ take-parts i0 (i1 - i0) (n * m + (r - suc i)) hosts
    ∙ ap (λ k. take k (drop i0 hosts)) (ground (arith, suc-mul n m))

length-load_from : (hosts : List Text) (m r i i0 n : ℕ) → length (load_from hosts m r i i0 n) ≡ n
unfolding load_from
length-load_from hosts m r i i0 zero = refl
length-load_from hosts m r i i0 (suc n) =
    ap suc (length-load_from hosts m r (suc i) (i0 + m + (if ltb i r then 1 else 0)) n)

length-slice :
    (hosts : List Text) (a b : ℕ) → a ≤ b → b ≤ length hosts → length (slice hosts a b) ≡ b - a
unfolding slice
length-slice hosts a b h k = of_part hosts a (b - a) (omega arith)
  where
    of_take : (xs : List Text) (n : ℕ) → n ≤ length xs → length (take n xs) ≡ n
    of_take xs zero h = refl
    of_take [] (suc n) h = absurd (omega arith)
    of_take (x ∷ xs) (suc n) h = ap suc (of_take xs n (omega arith))

    of_part : (xs : List Text) (a n : ℕ) → a + n ≤ length xs → length (take n (drop a xs)) ≡ n
    of_part xs zero n h = of_take xs n (omega arith)
    of_part [] (suc a) n h = absurd (omega arith)
    of_part (x ∷ xs) (suc a) n h = of_part xs a n (omega arith)

lengths-load_from :
    (hosts : List Text) (m r i i0 n : ℕ)
    → r - i ≤ n
    → i0 + (n * m + (r - i)) ≤ length hosts
    → All (λ l. (length l ≡ m) ⊎ (length l ≡ suc m)) (load_from hosts m r i i0 n)
unfolding load_from
lengths-load_from hosts m r i i0 zero h k = tt
lengths-load_from hosts m r i i0 (suc n) h k =
    let one : ℕ = (if ltb i r then 1 else 0) in
    let i1 : ℕ = i0 + m + one in
    (
      m_or_more (length (slice hosts i0 i1))
          (length-slice hosts i0 i1 (omega arith) (ground (arith, suc-mul n m))),
      lengths-load_from hosts m r (suc i) i1 n (omega arith) (ground (arith, suc-mul n m)),
    )
  where
    m_or_more :
        (len : ℕ) → len ≡ i0 + m + (if ltb i r then 1 else 0) - i0 → (len ≡ m) ⊎ (len ≡ suc m)
    m_or_more len e = elim (Bool-cases (ltb i r)) [
      | inl f ↦ inr (ground (arith, e, f))
      | inr f ↦ inl (ground (arith, e, f))
    ]

-- With at least one thread, each thread gets a part, the parts are the hosts in order, none left out
-- and none twice, and they differ in length by one at most.
pub load_lem :
    (n : ℕ) (hosts : List Text)
    → (parts : List (List Text)) × (load (suc n) hosts ≡ ok parts)
      × (length parts ≡ suc n)
      × (concat parts ≡ hosts)
      × All (λ l. (length l ≡ length hosts / suc n) ⊎ (length l ≡ suc (length hosts / suc n))) parts
unfolding load
load_lem n hosts =
    let m : ℕ = length hosts / suc n in
    let r : ℕ = length hosts % suc n in
    let total : suc n * m + r ≡ length hosts = div-add-mod (length hosts) (suc n) in
    let few : r < suc n = mod-lt (length hosts) (omega arith) in
    (
      load_from hosts m r 0 0 (suc n),
      refl,
      length-load_from hosts m r 0 0 (suc n),
      concat-load_from hosts m r 0 0 (suc n) (omega arith)
          ∙ ap (λ k. take k hosts) {y = length hosts} (omega arith)
          ∙ take-all hosts,
      lengths-load_from hosts m r 0 0 (suc n) (omega arith) (omega arith),
    )
