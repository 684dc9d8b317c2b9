-- ===== src/Docker/Shares/Filled.antt =====
-- What the loop leaves that fills the clients up to the busiest one.
use ldms_test.Base.{
  ℕ, suc, ◌+◌, ◌-◌, ◌≤◌, ◌≡◌, ◌⊎◌, inl, inr, refl, ap, Text, List, [], ◌∷◌, map, All, Bool-cases,
  ltb, ◌==◌, if◌then◌else◌, nat_eq, length, arith, false,
}
use ldms_test.Docker.Shares.{Row, fill}
use ldms_test.Docker.Shares.Sorted.{Sorted, All-le}

-- How many containers are created.
abbrev pub created : List Row → ℕ
created [] = 0
created (r ∷ rows) = r.alloc + created rows

-- Client, and containers that run before.
abbrev pub client_load : Row → Text × ℕ
client_load r = (r.client, r.load)

abbrev pub Fresh : List Row → Type 0
Fresh = All (λ r. r.alloc ≡ 0)

-- What the first loop leaves.
pub record Filled (max_load n : ℕ) (rows : List Row) (r : ℕ × List Row) : Type 0 where
  pub same : map client_load r.1 ≡ map client_load rows
  pub many : length r.1 ≡ length rows
  pub all : r.0 + created r.1 ≡ n
  pub bounded : All (λ s. s.load + s.alloc ≤ max_load) r.1
  pub full : (r.0 ≡ 0) ⊎ All (λ s. s.load + s.alloc ≡ max_load) r.1

created_zero : (rows : List Row) → Fresh rows → created rows ≡ 0
created_zero [] p = refl
created_zero (r ∷ rows) p = omega (arith, p.0, created_zero rows p.1)

bounded_before :
    (m : ℕ) (rows : List Row)
    → Fresh rows
    → All (λ s. s.load ≤ m) rows
    → All (λ s. s.load + s.alloc ≤ m) rows
bounded_before m [] p b = tt
bounded_before m (r ∷ rows) p b = (omega (arith, p.0, b.0), bounded_before m rows p.1 b.1)

full_before :
    (m : ℕ) (rows : List Row)
    → Fresh rows
    → All (λ s. s.load ≤ m) rows
    → All (λ s. m ≤ s.load) rows
    → All (λ s. s.load + s.alloc ≡ m) rows
full_before m [] p b c = tt
full_before m (r ∷ rows) p b c = (omega (arith, p.0, b.0, c.0), full_before m rows p.1 b.1 c.1)

-- A row that gets `a`, and the rows behind it.
fill_step :
    (m n a : ℕ) (r : Row) (rows : List Row) (x : ℕ × List Row)
    → a ≤ m - r.load
    → (a ≡ n) ⊎ ((a ≡ m - r.load) × (a ≤ n))
    → r.load ≤ m
    → Fresh rows
    → All (λ s. s.load ≤ m) rows
    → Filled m (n - a) rows x
    → Filled m n (r ∷ rows) (
        if (n - a) == 0
        then (0, record r { alloc = a } ∷ rows)
        else (x.0, record r { alloc = a } ∷ x.1))
fill_step m n a r rows x h k c f b q = elim (Bool-cases ((n - a) == 0)) [
  | inl none_left ↦ rw none_left (record {
    same = refl;
    many = refl;
    all = ground (arith, none_left, k, created_zero rows f);
    bounded = (omega arith, bounded_before m rows f b);
    full = inl refl;
  })
  | inr left ↦ rw left (record {
    same = ap (λ l. client_load r ∷ l) q.same;
    many = ap suc q.many;
    all = ground (arith, q.all, k);
    bounded = (omega arith, q.bounded);
    full = later left q.full;
  })
]
  where
    later :
        ((n - a) == 0) ≡ false
        → (x.0 ≡ 0) ⊎ All (λ s. s.load + s.alloc ≡ m) (x.1)
        → (x.0 ≡ 0) ⊎ ((r.load + a ≡ m) × All (λ s. s.load + s.alloc ≡ m) (x.1))
    later left (inl z) = inl z
    later left (inr z) = inr (ground (arith, k, left, c, h), z)

pub fill-Filled :
    (m n : ℕ) (rows : List Row)
    → Sorted rows
    → Fresh rows
    → All (λ s. s.load ≤ m) rows
    → Filled m n rows (fill m n rows)
unfolding fill
fill-Filled m n [] p f b = record {
  same = refl;
  many = refl;
  all = omega arith;
  bounded = tt;
  full = inr tt;
}
fill-Filled m n (r ∷ rows) p f b = elim (Bool-cases ((m - r.load) == 0)) [
  | inl no_gap ↦ rw no_gap (record {
    same = refl;
    many = refl;
    all = omega (arith, f.0, created_zero rows f.1);
    bounded = bounded_before m (r ∷ rows) f b;
    full = inr (
        full_before m (r ∷ rows) f b
          (ground (arith, no_gap, b.0), All-le m r.load rows (ground (arith, no_gap, b.0)) p.0));
  })
  | inr gap ↦
      let a : ℕ = (if ltb (m - r.load) n then m - r.load else n) in
      rw gap (
        fill_step m n a r rows (fill m (n - a) rows) (ground arith) (ground arith) b.0 f.1 b.1
          (fill-Filled m (n - a) rows p.1 f.1 b.1))
]
