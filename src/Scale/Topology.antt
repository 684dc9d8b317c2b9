-- ===== src/Scale/Topology.antt =====
-- `getPrdcr` and `getExpectedDir`: which samplers' sets the aggregators expect.
use ldms_test.Base.{
  ◌≡◌, refl, sym, ap, ◌∙◌, ℕ, zero, suc, ◌+◌, ◌*◌, ◌/◌, ◌<◌, ◌≤◌, Text, List, [], ◌∷◌, append-nil,
  some, Result, ok, text_eq, length, get_elem?, take, drop, arith, ◌>>=◌, contains,
}
use native.Mathlib.Nat.{suc-mul, mul-div-le, mul-le-mul_right, mul_assoc, div-one}
use ldms_test.Objects.Commit.{IsDistinct}
use ldms_test.Scale.{
  Config, Level, samp, l1, l2, l3, daemon_name, dl, ndl, from_offset, below, get_prdcr, sets_from,
  prdcr_dir, sampler_dir, l1_dir, l2_dir, l3_dir,
}
use ldms_test.Scale.Parts.{sets_of, drop-step, take-all, from_offset_lem, prdcr_dir-groups}
use ldms_test.Scale.Listed.{new-listed}

module _ (c : Config) (distinct_samplers : IsDistinct (dl c samp))
    (distinct_l1 : IsDistinct (dl c l1)) (distinct_l2 : IsDistinct (dl c l2)) where
  -- How many samplers an aggregator of a level is connected to, in the end.
  abbrev pub share : Level → ℕ
  share samp = 1
  share l1 = (ndl c samp / ndl c l1) * 1
  share l2 = (ndl c l1 / ndl c l2) * ((ndl c samp / ndl c l1) * 1)
  share l3 = ndl c l2 * ((ndl c l1 / ndl c l2) * ((ndl c samp / ndl c l1) * 1))

  sampler_dir-listed :
      (j : ℕ) (k : Text)
      → get_elem? (dl c samp) j ≡ some k
      → sampler_dir c k
        ≡ ok (sets_of c.sets_per_samp (take (share samp) (drop (j * share samp) (dl c samp))))
  unfolding sampler_dir
  sampler_dir-listed j k h =
      let (host, p, e) = new-listed c samp j k distinct_samplers h in
      rw (e, sampler_dir)
        (ap ok (
          sym (append-nil (sets_from k 0 c.sets_per_samp))
          ∙ ap (λ l. sets_of c.sets_per_samp (take 1 l))
              (sym (drop-step (dl c samp) j k h) ∙ ap (λ q. drop q (dl c samp)) (omega arith))))

  group_fits : (m n j : ℕ) → j < n → j * (m / n) + m / n ≤ m
  group_fits m n j h =
      omega
        (arith, suc-mul j (m / n), mul-le-mul_right {m = suc j} {n = n} (m / n) h, mul-div-le m n)

  -- Aggregators over producers whose expected sets are known.
  aggregated :
      (ns : List Text) (q : ℕ) (dir_of : Text → Result (List Text))
      → ((j : ℕ) (k : Text)
          → get_elem? ns j ≡ some k
          → dir_of k ≡ ok (sets_of c.sets_per_samp (take q (drop (j * q) (dl c samp)))))
      → (j m : ℕ) → j * m + m ≤ length ns
      → (from_offset ns (j * m) m >>= λ ps. prdcr_dir dir_of ps)
        ≡ ok (sets_of c.sets_per_samp (take (m * q) (drop (j * (m * q)) (dl c samp))))
  aggregated ns q dir_of h j m b = rw (from_offset_lem ns (j * m) m b) (
      prdcr_dir-groups c.sets_per_samp q dir_of ns (dl c samp) h (j * m) m b
      ∙ ap (λ a. ok (sets_of c.sets_per_samp (take (m * q) (drop a (dl c samp)))))
          (mul_assoc j m q))

  in_range : {A : Type 0} (xs : List A) (j : ℕ) (x : A) → get_elem? xs j ≡ some x → j < length xs
  in_range [] j x h = cc
  in_range (y ∷ xs) zero x h = omega arith
  in_range (y ∷ xs) (suc j) x h = omega (arith, in_range xs j x h)

  l1_dir-listed :
      (j : ℕ) (k : Text)
      → get_elem? (dl c l1) j ≡ some k
      → l1_dir c k
        ≡ ok (sets_of c.sets_per_samp (take (share l1) (drop (j * share l1) (dl c samp))))
  unfolding get_prdcr below ndl l1_dir
  l1_dir-listed j k h =
      let (host, p, e) = new-listed c l1 j k distinct_l1 h in
      rw (e, l1_dir)
        (aggregated (dl c samp) 1 (sampler_dir c) sampler_dir-listed j (ndl c samp / ndl c l1)
          (group_fits (ndl c samp) (ndl c l1) j (in_range (dl c l1) j k h)))

  l2_dir-listed :
      (j : ℕ) (k : Text)
      → get_elem? (dl c l2) j ≡ some k
      → l2_dir c k
        ≡ ok (sets_of c.sets_per_samp (take (share l2) (drop (j * share l2) (dl c samp))))
  unfolding get_prdcr below ndl l2_dir
  l2_dir-listed j k h =
      let (host, p, e) = new-listed c l2 j k distinct_l2 h in
      rw (e, l2_dir)
        (aggregated (dl c l1) (share l1) (l1_dir c) l1_dir-listed j (ndl c l1 / ndl c l2)
          (group_fits (ndl c l1) (ndl c l2) j (in_range (dl c l2) j k h)))

  -- The name of the top aggregator is the only one of its level.
  top_name : get_elem? (dl c l3) 0 ≡ some (daemon_name c.l3_host c.l3_base_port)
  unfolding dl
  top_name = refl

  top_distinct : IsDistinct (dl c l3)
  unfolding dl contains
  top_distinct = (refl, tt)

  l3_dir-share :
      l3_dir c (daemon_name c.l3_host c.l3_base_port)
      ≡ ok (sets_of c.sets_per_samp (take (share l3) (dl c samp)))
  unfolding get_prdcr below ndl l3_dir
  l3_dir-share =
      let (host, p, e) =
        new-listed c l3 0 (daemon_name c.l3_host c.l3_base_port) top_distinct top_name in
      rw (e, l3_dir)
        (aggregated (dl c l2) (share l2) (l2_dir c) l2_dir-listed 0 (ndl c l2 / 1) (omega arith)
          ∙ ap
              (λ m. ok (
                sets_of c.sets_per_samp
                  (take (m * share l2) (drop (0 * (m * share l2)) (dl c samp)))))
              (div-one (ndl c l2))
          ∙ ap (λ a. ok (sets_of c.sets_per_samp (take (share l3) (drop a (dl c samp)))))
              {x = 0 * share l3} {y = 0} (omega arith))

  all_samplers :
      ndl c l1 * (ndl c samp / ndl c l1) ≡ ndl c samp
      → ndl c l2 * (ndl c l1 / ndl c l2) ≡ ndl c l1
      → share l3 ≡ length (dl c samp)
  unfolding ndl
  all_samplers h k =
      sym (mul_assoc (ndl c l2) (ndl c l1 / ndl c l2) ((ndl c samp / ndl c l1) * 1))
      ∙ ap (λ q. q * ((ndl c samp / ndl c l1) * 1)) k
      ∙ ap (λ q. ndl c l1 * q) {y = ndl c samp / ndl c l1} (omega arith)
      ∙ h

  -- Where the names of each level are different, `getExpectedDir` of the top aggregator returns the
  -- sets of the first samplers, in order: as many as the shares of the levels below, each rounded
  -- down, make up. If the number of daemons of each level is a multiple of that of the next, they
  -- are the sets of all samplers.
  pub l3_dir_lem :
      (l3_dir c (daemon_name c.l3_host c.l3_base_port)
        ≡ ok (sets_of c.sets_per_samp (take (share l3) (dl c samp))))
      × (ndl c l1 * (ndl c samp / ndl c l1) ≡ ndl c samp
          → ndl c l2 * (ndl c l1 / ndl c l2) ≡ ndl c l1
          → l3_dir c (daemon_name c.l3_host c.l3_base_port)
            ≡ ok (sets_of c.sets_per_samp (dl c samp)))
  l3_dir_lem = (
    l3_dir-share,
    λ h k.
        l3_dir-share
        ∙ ap (λ m. ok (sets_of c.sets_per_samp (take m (dl c samp)))) (all_samplers h k)
        ∙ ap (λ l. ok (sets_of c.sets_per_samp l)) (take-all (dl c samp)),
  )
