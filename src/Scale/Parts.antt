-- ===== src/Scale/Parts.antt =====
-- Neighbouring parts of the names of a level, and the sets of groups of daemons.
use ldms_test.Base.{
  ◌≡◌, refl, sym, ap, ◌∙◌, ℕ, zero, suc, ◌+◌, ◌*◌, ◌<◌, ◌≤◌, Text, List, [], ◌∷◌, ◌++◌,
  append_assoc, some, some-injective, Result, ok, text_eq, length, get_elem?, take, drop, arith,
}
use native.Mathlib.Nat.{suc-mul}
use ldms_test.Scale.{from_offset, sets_from, prdcr_dir}

-- The sets of samplers, in order.
abbrev pub sets_of : ℕ → List Text → List Text
sets_of n [] = []
sets_of n (k ∷ ks) = sets_from k 0 n ++ sets_of n ks

sets_of-append : (n : ℕ) (xs ys : List Text) → sets_of n (xs ++ ys) ≡ sets_of n xs ++ sets_of n ys
sets_of-append n [] ys = refl
sets_of-append n (x ∷ xs) ys =
    ap (λ l. sets_from x 0 n ++ l) (sets_of-append n xs ys)
    ∙ sym (append_assoc (sets_from x 0 n) (sets_of n xs) (sets_of n ys))

module _ {A : Type 0} where
  pub drop-step :
      (xs : List A) (i : ℕ) (x : A) → get_elem? xs i ≡ some x → drop i xs ≡ x ∷ drop (suc i) xs
  drop-step [] i x h = cc
  drop-step (y ∷ xs) zero x h = ap (λ z. z ∷ xs) (some-injective y x h)
  drop-step (y ∷ xs) (suc i) x h = drop-step xs i x h

  pub elem_in_range : (xs : List A) (i : ℕ) → i < length xs → (x : A) × (get_elem? xs i ≡ some x)
  elem_in_range [] i h = absurd (omega arith)
  elem_in_range (y ∷ xs) zero h = (y, refl)
  elem_in_range (y ∷ xs) (suc i) h = elem_in_range xs i (omega arith)

  take_nil : (n : ℕ) → take {A = A} n [] ≡ []
  take_nil zero = refl
  take_nil (suc n) = refl

  drop_nil : (n : ℕ) → drop {A = A} n [] ≡ []
  drop_nil zero = refl
  drop_nil (suc n) = refl

  take-more : (m n : ℕ) (xs : List A) → take m xs ++ take n (drop m xs) ≡ take (m + n) xs
  take-more zero n xs = ap (λ k. take k xs) (omega arith)
  take-more (suc m) n [] = take_nil n ∙ sym (take_nil (suc m + n))
  take-more (suc m) n (x ∷ xs) =
      ap (λ l. x ∷ l) (take-more m n xs) ∙ ap (λ k. take k (x ∷ xs)) {x = suc (m + n)} (omega arith)

  drop-drop : (a n : ℕ) (xs : List A) → drop n (drop a xs) ≡ drop (a + n) xs
  drop-drop zero n xs = ap (λ k. drop k xs) (omega arith)
  drop-drop (suc a) n [] = drop_nil n ∙ sym (drop_nil (suc a + n))
  drop-drop (suc a) n (x ∷ xs) =
      drop-drop a n xs ∙ ap (λ k. drop k (x ∷ xs)) {x = suc (a + n)} (omega arith)

  -- Neighbouring parts of a list.
  pub take-parts :
      (a m n : ℕ) (xs : List A)
      → take m (drop a xs) ++ take n (drop (a + m) xs) ≡ take (m + n) (drop a xs)
  take-parts a m n xs =
      ap (λ l. take m (drop a xs) ++ take n l) (sym (drop-drop a m xs)) ∙ take-more m n (drop a xs)

  pub take-all : (xs : List A) → take (length xs) xs ≡ xs
  take-all [] = refl
  take-all (x ∷ xs) = ap (λ l. x ∷ l) (take-all xs)

pub from_offset_lem :
    (ns : List Text) (off n : ℕ)
    → off + n ≤ length ns
    → from_offset ns off n ≡ ok (take n (drop off ns))
unfolding from_offset
from_offset_lem ns off zero h = refl
from_offset_lem ns off (suc n) h =
    let (k, e) = elem_in_range ns off (omega arith) in
    rw (e, from_offset)
      (rw (drop-step ns off k e) (rw (from_offset_lem ns (suc off) n (omega arith)) refl))

-- When the j-th of some names expects the sets of the j-th group of n samplers, those from `off` on
-- expect those of as many groups.
pub prdcr_dir-groups :
    (s n : ℕ) (dir_of : Text → Result (List Text)) (ns samplers : List Text)
    → ((j : ℕ) (k : Text)
        → get_elem? ns j ≡ some k
        → dir_of k ≡ ok (sets_of s (take n (drop (j * n) samplers))))
    → (off m : ℕ) → off + m ≤ length ns
    → prdcr_dir dir_of (take m (drop off ns))
      ≡ ok (sets_of s (take (m * n) (drop (off * n) samplers)))
unfolding prdcr_dir
prdcr_dir-groups s n dir_of ns samplers h off zero b =
    ap (λ k. ok (sets_of s (take k (drop (off * n) samplers)))) {x = 0} (omega arith)
prdcr_dir-groups s n dir_of ns samplers h off (suc m) b =
    let (k, e) = elem_in_range ns off (omega arith) in
    rw (drop-step ns off k e) (
      rw (h off k e) (
        rw (prdcr_dir-groups s n dir_of ns samplers h (suc off) m (omega arith)) (
          ap ok (
            sym (sets_of-append s (take n (drop (off * n) samplers)) _)
            ∙ ap (sets_of s) (next_group off m)))))
  where
    next_group :
        (i m : ℕ)
        → take n (drop (i * n) samplers) ++ take (m * n) (drop (suc i * n) samplers)
          ≡ take (suc m * n) (drop (i * n) samplers)
    next_group i m =
        ap (λ q. take n (drop (i * n) samplers) ++ take (m * n) (drop q samplers))
          (suc-mul i n ∙ omega arith)
        ∙ take-parts (i * n) n (m * n) samplers
        ∙ ap (λ q. take q (drop (i * n) samplers)) (omega (arith, suc-mul m n))
