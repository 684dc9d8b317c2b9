-- ===== src/Scale/Times/Examples.antt =====
-- Times in microseconds.
use ldms_test.Base.{
  ◌≡◌, ℕ, ◌+◌, ◌*◌, true, false, List, [], ◌∷◌, ok, err, index_error, All, arith, ltb, ◌⊎◌,
}
use mathlib.Core.List.{Mem}
use ldms_test.Scale.Times.{min_ts, max_ts}
use ldms_test.Scale.Times.Bounds.{times, min_ts-max_ts}

abbrev micro : ℕ → ℕ → ℕ
micro s u = s * 1000000 + u

ltb-asymmetric : (x y : ℕ) → ltb x y ≡ true → ltb y x ≡ false
ltb-asymmetric x y h = ground arith

ltb_weak_trans : (x y z : ℕ) → ltb x y ≡ false → ltb y z ≡ false → ltb x z ≡ false
ltb_weak_trans x y z h k = ground arith

abbrev three : List (ℕ × ℕ)
three = (1, 5) ∷ (1, 2) ∷ (2, 0) ∷ []

min_ts-max_ts_example :
    ((three ≡ [])
      × (min_ts ltb micro three ≡ err index_error)
      × (max_ts ltb micro three ≡ err index_error))
    ⊎ ((a : ℕ) × (b : ℕ) × (min_ts ltb micro three ≡ ok a)
        × (max_ts ltb micro three ≡ ok b)
        × Mem a (times micro three)
        × Mem b (times micro three)
        × All (λ t. (ltb t a ≡ false) × (ltb b t ≡ false)) (times micro three))
min_ts-max_ts_example = min_ts-max_ts ltb micro ltb-asymmetric ltb_weak_trans three
