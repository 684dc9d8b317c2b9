-- ===== src/Scale/Times.antt =====
-- scalability/ldmsdutils.py, `min_ts` and `max_ts`: the times of the sets, of a type `F` of floats
-- with its `<`, which `time_of` makes of seconds and microseconds.
pub mod Bounds
mod Examples
use ldms_test.Base.{ℕ, Bool, true, false, List, [], ◌∷◌, Result, ok, err, index_error}

module _ {F : Type 0} (less : F → F → Bool) (time_of : ℕ → ℕ → F) where
  -- The loops
  smallest : F → List (ℕ × ℕ) → F
  smallest m [] = m
  smallest m ((s, u) ∷ sets) = elim (less (time_of s u) m) [
    | true ↦ smallest (time_of s u) sets
    | false ↦ smallest m sets
  ]

  largest : F → List (ℕ × ℕ) → F
  largest m [] = m
  largest m ((s, u) ∷ sets) = elim (less m (time_of s u)) [
    | true ↦ largest (time_of s u) sets
    | false ↦ largest m sets
  ]

  unfoldable pub min_ts : List (ℕ × ℕ) → Result F
  unfolding smallest
  min_ts [] = err index_error
  min_ts ((s, u) ∷ sets) = ok (smallest (time_of s u) ((s, u) ∷ sets))

  unfoldable pub max_ts : List (ℕ × ℕ) → Result F
  unfolding largest
  max_ts [] = err index_error
  max_ts ((s, u) ∷ sets) = ok (largest (time_of s u) ((s, u) ∷ sets))
