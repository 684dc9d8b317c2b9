-- ===== src/Scale/Times/Bounds.antt =====
-- What the two times bound.
use ldms_test.Base.{
  ◌≡◌, refl, sym, ap, ℕ, Bool, true, false, List, [], ◌∷◌, ok, err, index_error, All, Bool-cases,
  inl, inr, ◌⊎◌, subst,
}
use mathlib.Core.List.{Mem, mem-cons_self, mem-cons_of_mem}
use ldms_test.Scale.Times.{smallest, largest, min_ts, max_ts}

-- The times of the sets
abbrev pub times : {F : Type 0} → (ℕ → ℕ → F) → List (ℕ × ℕ) → List F
times time_of [] = []
times time_of ((s, u) ∷ sets) = time_of s u ∷ times time_of sets

module _ {F : Type 0} (less : F → F → Bool) (time_of : ℕ → ℕ → F)
    (asymmetric : (x y : F) → less x y ≡ true → less y x ≡ false)
    (weak_trans : (x y z : F) → less x y ≡ false → less y z ≡ false → less x z ≡ false) where
  -- The result is one of the times, and none is before it.
  abbrev IsLeast : F → List F → F → Type 0
  IsLeast m ts r = (less m r ≡ false) × All (λ x. less x r ≡ false) ts × ((r ≡ m) ⊎ Mem r ts)

  self : (x : F) → less x x ≡ false
  self x = elim (Bool-cases (less x x)) [ inl e ↦ asymmetric x x e | inr e ↦ e ]

  weaken : (m t r : F) (ts : List F) → (r ≡ t) ⊎ Mem r ts → (r ≡ m) ⊎ Mem r (t ∷ ts)
  weaken m t r ts (inl e) = inr (subst (λ x. Mem x (t ∷ ts)) (sym e) mem-cons_self)
  weaken m t r ts (inr h) = inr (mem-cons_of_mem t h)

  smaller :
      (m : F) (s u : ℕ) (sets : List (ℕ × ℕ))
      → less (time_of s u) m ≡ true
      → smallest less time_of (time_of s u) sets ≡ smallest less time_of m ((s, u) ∷ sets)
  unfolding smallest
  smaller m s u sets e = rw (e, smallest) refl

  not_smaller :
      (m : F) (s u : ℕ) (sets : List (ℕ × ℕ))
      → less (time_of s u) m ≡ false
      → smallest less time_of m sets ≡ smallest less time_of m ((s, u) ∷ sets)
  unfolding smallest
  not_smaller m s u sets e = rw (e, smallest) refl

  smallest-IsLeast :
      (m : F) (sets : List (ℕ × ℕ)) → IsLeast m (times time_of sets) (smallest less time_of m sets)
  unfolding smallest
  smallest-IsLeast m [] = (self m, tt, inl refl)
  smallest-IsLeast m ((s, u) ∷ sets) = elim (Bool-cases (less (time_of s u) m)) [
    | inl e ↦
        let (a, b, c) = smallest-IsLeast (time_of s u) sets in
        subst (IsLeast m (times time_of ((s, u) ∷ sets))) (smaller m s u sets e) (
          weak_trans m (time_of s u) _ (asymmetric (time_of s u) m e) a,
          (a, b),
          weaken m (time_of s u) _ (times time_of sets) c,
        )
    | inr e ↦
        let (a, b, c) = smallest-IsLeast m sets in
        subst (IsLeast m (times time_of ((s, u) ∷ sets))) (not_smaller m s u sets e)
          (a, (weak_trans (time_of s u) m _ e a, b), kept _ c)
  ]
    where
      kept :
          (r : F)
          → (r ≡ m) ⊎ Mem r (times time_of sets)
          → (r ≡ m) ⊎ Mem r (time_of s u ∷ times time_of sets)
      kept r (inl i) = inl i
      kept r (inr h) = inr (mem-cons_of_mem (time_of s u) h)

largest-smallest :
    {F : Type 0} (less : F → F → Bool) (time_of : ℕ → ℕ → F) (m : F) (sets : List (ℕ × ℕ))
    → largest less time_of m sets ≡ smallest (λ x y. less y x) time_of m sets
unfolding largest smallest
largest-smallest less time_of m [] = refl
largest-smallest less time_of m ((s, u) ∷ sets) = elim (Bool-cases (less m (time_of s u))) [
  | inl e ↦ rw (e, largest, smallest) (largest-smallest less time_of (time_of s u) sets)
  | inr e ↦ rw (e, largest, smallest) (largest-smallest less time_of m sets)
]

module _ {F : Type 0} (less : F → F → Bool) (time_of : ℕ → ℕ → F)
    (asymmetric : (x y : F) → less x y ≡ true → less y x ≡ false)
    (weak_trans : (x y z : F) → less x y ≡ false → less y z ≡ false → less x z ≡ false) where
  among : (r m : F) (ms : List F) → (r ≡ m) ⊎ Mem r (m ∷ ms) → Mem r (m ∷ ms)
  among r m ms (inl e) = subst (λ x. Mem x (m ∷ ms)) (sym e) mem-cons_self
  among r m ms (inr h) = h

  -- Of at least one set, and where `<` is a strict weak order of the times, `min_ts` and `max_ts`
  -- return a time of a set each, and no set has a time before the first or after the second; without
  -- sets both raise `IndexError`.
  pub min_ts-max_ts :
      (sets : List (ℕ × ℕ))
      → ((sets ≡ [])
          × (min_ts less time_of sets ≡ err index_error)
          × (max_ts less time_of sets ≡ err index_error))
        ⊎ ((a : F) × (b : F) × (min_ts less time_of sets ≡ ok a)
            × (max_ts less time_of sets ≡ ok b)
            × Mem a (times time_of sets)
            × Mem b (times time_of sets)
            × All (λ t. (less t a ≡ false) × (less b t ≡ false)) (times time_of sets))
  unfolding min_ts max_ts
  min_ts-max_ts [] = inl (refl, refl, refl)
  min_ts-max_ts ((s, u) ∷ sets) =
      let all = (s, u) ∷ sets in
      let t = time_of s u in
      let (a, p, q) = smallest-IsLeast less time_of asymmetric weak_trans t all in
      let (b, p', q') =
        smallest-IsLeast (λ x y. less y x) time_of (λ x y h. asymmetric y x h)
          (λ x y z h k. weak_trans z y x k h) t all in
      let flip = largest-smallest less time_of t all in
      inr (
        smallest less time_of t all,
        smallest (λ x y. less y x) time_of t all,
        refl,
        ap ok flip,
        among _ t (times time_of sets) q,
        among _ t (times time_of sets) q',
        both _ _ (times time_of all) p p',
      )
    where
      both :
          (a b : F) (ts : List F)
          → All (λ t. less t a ≡ false) ts
          → All (λ t. less b t ≡ false) ts
          → All (λ t. (less t a ≡ false) × (less b t ≡ false)) ts
      both a b [] h k = tt
      both a b (t ∷ ts) h k = ((h.0, k.0), both a b ts h.1 k.1)
