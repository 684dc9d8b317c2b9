-- ===== src/Docker/Shares/Sorted.antt =====
-- Tables of clients in the order of what they run.
use ldms_test.Base.{
  ℕ, ◌≤◌, ◌≡◌, inl, inr, refl, List, [], ◌∷◌, All, Bool-cases, leb, nat_eq, ok, arith,
}
use ldms_test.Docker.Shares.{Row, insert_row, sort_rows, last_load}

abbrev pub Sorted : List Row → Type 0
Sorted [] = Unit
Sorted (r ∷ rows) = All (λ s. r.load ≤ s.load) rows × Sorted rows

All-insert_row :
    (P : Row → Type 0) (r : Row) (rows : List Row) → P r → All P rows → All P (insert_row r rows)
unfolding insert_row
All-insert_row P r [] p h = (p, tt)
All-insert_row P r (s ∷ rows) p h = elim (Bool-cases (leb r.load s.load)) [
  | inl f ↦ rw f (p, h)
  | inr f ↦ rw f (h.0, All-insert_row P r rows p h.1)
]

pub All-sort_rows : (P : Row → Type 0) (rows : List Row) → All P rows → All P (sort_rows rows)
unfolding sort_rows
All-sort_rows P [] h = tt
All-sort_rows P (r ∷ rows) h = All-insert_row P r (sort_rows rows) h.0 (All-sort_rows P rows h.1)

pub All-le :
    (a b : ℕ) (rows : List Row) → a ≤ b → All (λ s. b ≤ s.load) rows → All (λ s. a ≤ s.load) rows
All-le a b [] h p = tt
All-le a b (r ∷ rows) h p = (omega arith, All-le a b rows h p.1)

insert_row-Sorted : (r : Row) (rows : List Row) → Sorted rows → Sorted (insert_row r rows)
unfolding insert_row
insert_row-Sorted r [] p = (tt, tt)
insert_row-Sorted r (s ∷ rows) p = elim (Bool-cases (leb r.load s.load)) [
  | inl f ↦ rw f ((ground (arith, f), All-le r.load s.load rows (ground (arith, f)) p.0), p)
  | inr f ↦ rw f (
    All-insert_row (λ t. s.load ≤ t.load) r rows (ground (arith, f)) p.0,
    insert_row-Sorted r rows p.1,
  )
]

pub sort_rows-Sorted : (rows : List Row) → Sorted (sort_rows rows)
unfolding sort_rows
sort_rows-Sorted [] = tt
sort_rows-Sorted (r ∷ rows) = insert_row-Sorted r (sort_rows rows) (sort_rows-Sorted rows)

-- The last load of a sorted table is that of a row, and no load is above it.
pub last_load-Sorted :
    (r : Row) (rows : List Row)
    → Sorted (r ∷ rows)
    → (m : ℕ) × (last_load (r ∷ rows) ≡ ok m)
      × All (λ s. s.load ≤ m) (r ∷ rows)
      × ((k : ℕ) → All (λ s. s.load ≤ k) (r ∷ rows) → m ≤ k)
unfolding last_load
last_load-Sorted r [] p = (r.load, refl, (omega arith, tt), λ k h. h.0)
last_load-Sorted r (s ∷ rows) p =
    let (m, e, b, l) = last_load-Sorted s rows p.1 in
    (m, e, (omega (arith, p.0.0, b.0), b), λ k h. l k h.1)
