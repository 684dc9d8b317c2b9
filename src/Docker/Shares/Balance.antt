-- ===== src/Docker/Shares/Balance.antt =====
-- How the containers to create are shared out.
use ldms_test.Base.{
  ℕ, zero, suc, ◌+◌, ◌*◌, ◌/◌, ◌%◌, ◌≤◌, ◌≡◌, ◌⊎◌, inl, inr, refl, ap, sym, subst, ◌∙◌, List, [],
  ◌∷◌, map, All, Bool-cases, leb, nat_eq, length, ok, arith,
}
use native.Mathlib.Nat.{suc-mul, div-add-mod, mod-lt, zero-div, zero-mod}
use ldms_test.Docker.Shares.{Row, insert_row, sort_rows, fill, spread, share_sorted, shares}
use ldms_test.Docker.Shares.Sorted.{Sorted, All-sort_rows, sort_rows-Sorted, last_load-Sorted}
use ldms_test.Docker.Shares.Filled.{created, client_load, Fresh, Filled, fill-Filled}

spread-created :
    (a k : ℕ) (rows : List Row)
    → k ≤ length rows
    → created (spread a k rows) ≡ created rows + length rows * a + k
unfolding spread
spread-created a k [] h = omega arith
spread-created a zero (r ∷ rows) h =
    ground (arith, spread-created a zero rows (omega arith), suc-mul (length rows) a)
spread-created a (suc k) (r ∷ rows) h =
    ground (arith, spread-created a k rows (omega arith), suc-mul (length rows) a)

spread-client_load :
    (a k : ℕ) (rows : List Row) → map client_load (spread a k rows) ≡ map client_load rows
unfolding spread
spread-client_load a k [] = refl
spread-client_load a zero (r ∷ rows) = ap (λ l. client_load r ∷ l) (spread-client_load a zero rows)
spread-client_load a (suc k) (r ∷ rows) = ap (λ l. client_load r ∷ l) (spread-client_load a k rows)

spread_none :
    (m : ℕ) (rows : List Row)
    → All (λ s. s.load + s.alloc ≤ m) rows
    → All (λ s. s.load + s.alloc ≤ m) (spread 0 0 rows)
unfolding spread
spread_none m [] p = tt
spread_none m (r ∷ rows) p = (omega (arith, p.0), spread_none m rows p.1)

spread_full :
    (m a k : ℕ) (rows : List Row)
    → All (λ s. s.load + s.alloc ≡ m) rows
    → All (λ s. (s.load + s.alloc ≡ m + a) ⊎ (s.load + s.alloc ≡ suc (m + a))) (spread a k rows)
unfolding spread
spread_full m a k [] p = tt
spread_full m a zero (r ∷ rows) p = (inl (omega (arith, p.0)), spread_full m a zero rows p.1)
spread_full m a (suc k) (r ∷ rows) p = (inr (omega (arith, p.0)), spread_full m a k rows p.1)

-- Either no row is above the bound, or all rows are level.
abbrev pub Balanced : ℕ → List Row → Type 0
Balanced m rows =
    All (λ r. r.load + r.alloc ≤ m) rows
    ⊎ ((q : ℕ) × All (λ r. (r.load + r.alloc ≡ q) ⊎ (r.load + r.alloc ≡ suc q)) rows)

spread-Balanced :
    (m n : ℕ) (rows : List Row) (x : ℕ × List Row) (l : ℕ)
    → suc l ≡ length rows
    → Filled m n rows x
    → (created (spread (x.0 / length x.1) (x.0 % length x.1) x.1) ≡ n)
      × Balanced m (spread (x.0 / length x.1) (x.0 % length x.1) x.1)
spread-Balanced m n rows x l h q = rw (q.many ∙ sym h) (
  omega (
    arith,
    q.all,
    q.many,
    spread-created (x.0 / suc l) (x.0 % suc l) x.1
        (omega (arith, q.many, mod-lt (x.0) {m = suc l} (omega arith))),
    ap (λ k. k * (x.0 / suc l)) (q.many ∙ sym h),
    div-add-mod (x.0) (suc l),
  ),
  of_full q.full,
)
  where
    of_full :
        (x.0 ≡ 0) ⊎ All (λ s. s.load + s.alloc ≡ m) (x.1)
        → Balanced m (spread (x.0 / suc l) (x.0 % suc l) x.1)
    of_full (inl z) = inl (
        subst (λ k. All (λ s. s.load + s.alloc ≤ m) (spread (k / suc l) (k % suc l) x.1)) (sym z)
          (subst (λ k. All (λ s. s.load + s.alloc ≤ m) (spread k (0 % suc l) x.1))
            (sym (zero-div (suc l)))
            (subst (λ k. All (λ s. s.load + s.alloc ≤ m) (spread 0 k x.1)) (sym (zero-mod (suc l)))
              (spread_none m x.1 q.bounded))))
    of_full (inr z) = inr (m + x.0 / suc l, spread_full m (x.0 / suc l) (x.0 % suc l) x.1 z)

module _ (n : ℕ) where
  abbrev Shared : List Row → List Row → Type 0
  Shared rows out =
      (share_sorted n rows ≡ ok out)
      × (map client_load out ≡ map client_load rows)
      × (created out ≡ n)
      × ((k : ℕ) → All (λ s. s.load ≤ k) rows → Balanced k out)

  All-mono :
      (m k : ℕ) (rows : List Row)
      → m ≤ k
      → All (λ r. r.load + r.alloc ≤ m) rows
      → All (λ r. r.load + r.alloc ≤ k) rows
  All-mono m k [] h p = tt
  All-mono m k (r ∷ rows) h p = (omega (arith, p.0), All-mono m k rows h p.1)

  Balanced-mono : (m k : ℕ) (rows : List Row) → m ≤ k → Balanced m rows → Balanced k rows
  Balanced-mono m k rows h (inl p) = inl (All-mono m k rows h p)
  Balanced-mono m k rows h (inr p) = inr p

  share_sorted_lem :
      (r : Row) (rows : List Row)
      → Sorted (r ∷ rows)
      → Fresh (r ∷ rows)
      → (out : List Row) × Shared (r ∷ rows) out
  unfolding share_sorted
  share_sorted_lem r rows p f =
      let (m, e, b, least) = last_load-Sorted r rows p in
      let x : ℕ × List Row = fill m n (r ∷ rows) in
      let q = fill-Filled m n (r ∷ rows) p f b in
      let (c, d) = spread-Balanced m n (r ∷ rows) x (length rows) refl q in
      let out : List Row = spread (x.0 / length x.1) (x.0 % length x.1) x.1 in
      (
        out,
        (
          rw e refl,
          spread-client_load (x.0 / length x.1) (x.0 % length x.1) x.1 ∙ q.same,
          c,
          λ k h. Balanced-mono m k out (least k h) d,
        ),
      )

  insert_row-cons :
      (r : Row) (rows : List Row) → (s : Row) × (rest : List Row) × (insert_row r rows ≡ s ∷ rest)
  unfolding insert_row
  insert_row-cons r [] = (r, [], refl)
  insert_row-cons r (s ∷ rows) = elim (Bool-cases (leb r.load s.load)) [
    | inl f ↦ (r, s ∷ rows, rw f)
    | inr f ↦ (s, insert_row r rows, rw f)
  ]

  -- With at least one client, the containers are shared out completely among the clients in the
  -- order of what they run. Either no client runs more than the busiest one did, or all are level.
  pub shares_lem :
      (r : Row) (rows : List Row)
      → Fresh (r ∷ rows)
      → (out : List Row) × (shares (r ∷ rows) n ≡ ok out)
        × (map client_load out ≡ map client_load (sort_rows (r ∷ rows)))
        × (created out ≡ n)
        × ((k : ℕ) → All (λ s. s.load ≤ k) (r ∷ rows) → Balanced k out)
  unfolding shares
  shares_lem r rows f =
      let (s, rest, e) = insert_row-cons r (sort_rows rows) in
      let e' : sort_rows (r ∷ rows) ≡ s ∷ rest = unfold sort_rows in e in
      let (out, (a, b, c, d)) =
        share_sorted_lem s rest (subst Sorted e' (sort_rows-Sorted (r ∷ rows)))
          (subst Fresh e' (All-sort_rows (λ r. r.alloc ≡ 0) (r ∷ rows) f)) in
      (
        out,
        ap (share_sorted n) e' ∙ a,
        b ∙ ap (map client_load) (sym e'),
        c,
        λ k h.
            d k (subst (All (λ s. s.load ≤ k)) e' (All-sort_rows (λ s. s.load ≤ k) (r ∷ rows) h)),
      )
