-- ===== src/Singularity/Ranges.antt =====
-- Ranges of the class `HexRanges` that are apart: what is sorted, pruned, inverted.
use ldms_test.Base.{
  ℕ, ◌+◌, ◌-◌, ◌≤◌, ◌<◌, ◌≡◌, ◌⊎◌, inl, inr, refl, ap, subst, ◌∙◌, List, [], ◌∷◌, ◌++◌, some, All,
  Bool-cases, true, false, arith,
}
use ldms_test.Singularity.{
  Entry, entry_le, insort, sort, prune_from, prune_sorted, prune, place, emit, ins_from, ins,
}

-- Neither of two ranges reaches the other.
abbrev pub Clear : Entry → Entry → Type 0
Clear (a, b) (c, d) = (b < c) ⊎ (d < a)

-- A range in the bounds.
abbrev pub Within : ℕ → ℕ → Entry → Type 0
Within l m (a, b) = l ≤ a × a ≤ b × b ≤ m

abbrev pub Disjoint : List Entry → Type 0
Disjoint [] = Unit
Disjoint (e ∷ es) = All (Clear e) es × Disjoint es

-- Ranges in order, none of which reaches the next, in the bounds.
abbrev pub Apart : ℕ → ℕ → List Entry → Type 0
Apart l m [] = Unit
Apart l m ((a, b) ∷ es) = l ≤ a × a ≤ b × b ≤ m × Apart (b + 1) m es

abbrev pub size : List Entry → ℕ
size [] = 0
size ((a, b) ∷ es) = b + 1 - a + size es

pub Apart-weaken : (l k m : ℕ) (es : List Entry) → l ≤ k → Apart k m es → Apart l m es
Apart-weaken l k m [] h p = tt
Apart-weaken l k m ((a, b) ∷ es) h p = (omega arith, p.1, p.2, p.3)

pub Apart-Clear : (k m y x : ℕ) (es : List Entry) → x < k → Apart k m es → All (Clear (y, x)) es
Apart-Clear k m y x [] h p = tt
Apart-Clear k m y x ((a, b) ∷ es) h p =
    (inl (omega arith), Apart-Clear (b + 1) m y x es (omega arith) p.3)

pub Apart-Disjoint : (l m : ℕ) (es : List Entry) → Apart l m es → Disjoint es
Apart-Disjoint l m [] p = tt
Apart-Disjoint l m ((a, b) ∷ es) p =
    (Apart-Clear (b + 1) m a b es (omega arith) p.3, Apart-Disjoint (b + 1) m es p.3)

pub Apart-Within : (l k m : ℕ) (es : List Entry) → l ≤ k → Apart k m es → All (Within l m) es
Apart-Within l k m [] h p = tt
Apart-Within l k m ((a, b) ∷ es) h p =
    ((omega arith, p.1, p.2), Apart-Within l (b + 1) m es (omega arith) p.3)

insort-Apart :
    (l m : ℕ) (x : Entry) (es : List Entry)
    → Within l m x
    → All (Clear x) es
    → Apart l m es
    → Apart l m (insort x es)
unfolding insort entry_le
insort-Apart l m (a, b) [] w c p = (w.0, w.1, w.2, tt)
insort-Apart l m (a, b) ((c, d) ∷ es) w k p = elim (Bool-cases (entry_le (c, d) (a, b))) [
  | inl before ↦ rw before (
    p.0,
    p.1,
    p.2,
    insort-Apart (d + 1) m (a, b) es (ground (arith, before, k.0), w.1, w.2) k.1 p.3,
  )
  | inr after ↦ rw after (w.0, w.1, w.2, (ground (arith, after, k.0), p.1, p.2, p.3))
]

-- Ranges within bounds, each clear of the others, are apart once they are sorted.
pub sort-Apart :
    (l m : ℕ) (es : List Entry) → All (Within l m) es → Disjoint es → Apart l m (sort es)
unfolding sort
sort-Apart l m [] w d = tt
sort-Apart l m (e ∷ es) w d =
    insort-Apart l m e (sort es) w.0 (All-sort (Clear e) es d.0) (sort-Apart l m es w.1 d.1)
  where
    All-insort :
        (P : Entry → Type 0) (x : Entry) (es : List Entry) → P x → All P es → All P (insort x es)
    All-insort P x [] p h = (p, tt)
    All-insort P x (e ∷ es) p h = elim (Bool-cases (entry_le e x)) [
      | inl before ↦ rw (before, insort) (h.0, All-insort P x es p h.1)
      | inr after ↦ rw (after, insort) (p, (h.0, h.1))
    ]

    All-sort : (P : Entry → Type 0) (es : List Entry) → All P es → All P (sort es)
    All-sort P [] h = tt
    All-sort P (e ∷ es) h = All-insort P e (sort es) h.0 (All-sort P es h.1)

insort-before :
    (x e : Entry) (es : List Entry) → entry_le e x ≡ true → insort x (e ∷ es) ≡ e ∷ insort x es
unfolding insort
insort-before x e es h = rw h

insort-after :
    (x e : Entry) (es : List Entry) → entry_le e x ≡ false → insort x (e ∷ es) ≡ x ∷ (e ∷ es)
unfolding insort
insort-after x e es h = rw h

-- What holds of the sorted ranges holds of the ranges.
pub All-of_sort : (P : Entry → Type 0) (es : List Entry) → All P (sort es) → All P es
unfolding sort
All-of_sort P [] h = tt
All-of_sort P (e ∷ es) h = let (p, q) = All-of_insort P e (sort es) h in (p, All-of_sort P es q)
  where
    All-of_insort :
        (P : Entry → Type 0) (x : Entry) (es : List Entry) → All P (insort x es) → P x × All P es
    All-of_insort P x [] h = h
    All-of_insort P x (e ∷ es) h = elim (Bool-cases (entry_le e x)) [
      | inl before ↦
          let g : P e × All P (insort x es) = subst (All P) (insort-before x e es before) h in
          let (p, q) = All-of_insort P x es (g.1) in (p, (g.0, q))
      | inr after ↦ subst (All P) (insort-after x e es after) h
    ]

pub size-sort : (es : List Entry) → size (sort es) ≡ size es
unfolding sort
size-sort [] = refl
size-sort ((a, b) ∷ es) = omega (arith, size-insort (a, b) (sort es), size-sort es)
  where
    size-insort : (x : Entry) (es : List Entry) → size (insort x es) ≡ size (x ∷ es)
    size-insort (a, b) [] = refl
    size-insort (a, b) ((c, d) ∷ es) = elim (Bool-cases (entry_le (c, d) (a, b))) [
      | inl before ↦ rw (before, insort) (omega (arith, size-insort (a, b) es))
      | inr after ↦ rw (after, insort) refl
    ]

sort-id : (l m : ℕ) (es : List Entry) → Apart l m es → sort es ≡ es
unfolding sort insort entry_le
sort-id l m [] p = refl
sort-id l m (e ∷ []) p = refl
sort-id l m ((a, b) ∷ ((c, d) ∷ es)) p =
    rw (sort-id (b + 1) m ((c, d) ∷ es) p.3, sort) (ground arith)

prune_from-id :
    (l m a b : ℕ) (es : List Entry) → Apart l m ((a, b) ∷ es) → prune_from (a, b) es ≡ (a, b) ∷ es
unfolding prune_from
prune_from-id l m a b [] p = refl
prune_from-id l m a b ((c, d) ∷ es) p = ground (arith, prune_from-id (b + 1) m c d es p.3)

prune_sorted-id : (l m : ℕ) (es : List Entry) → Apart l m es → prune_sorted es ≡ es
unfolding prune_sorted
prune_sorted-id l m [] p = refl
prune_sorted-id l m ((a, b) ∷ es) p = prune_from-id l m a b es p

-- Where no two ranges overlap, `prune` does no more than to sort them.
pub prune-sort : (l m : ℕ) (es : List Entry) → Apart l m (sort es) → prune es ≡ sort es
unfolding prune
prune-sort l m es p = prune_sorted-id l m (sort es) p

pub prune-id : (l m : ℕ) (es : List Entry) → Apart l m es → prune es ≡ es
unfolding prune
prune-id l m es p = ap prune_sorted (sort-id l m es p) ∙ prune_sorted-id l m es p

-- An entry behind all others is added at the end.
ins_from-end :
    (x y a b : ℕ) (es : List Entry)
    → y < a
    → All (λ (c, d). c ≤ d × d < a) es
    → ins_from (some (x, y)) (a, b) es ≡ (x, y) ∷ (es ++ ((a, b) ∷ []))
unfolding ins_from place emit entry_le
ins_from-end x y a b [] h p = ground arith
ins_from-end x y a b ((c, d) ∷ es) h p = ground (arith, ins_from-end c d a b es p.0.1 p.1)

pub ins-end :
    (a b : ℕ) (es : List Entry)
    → All (λ (c, d). c ≤ d × d < a) es
    → ins (a, b) es ≡ es ++ ((a, b) ∷ [])
unfolding ins ins_from place emit entry_le
ins-end a b [] p = refl
ins-end a b ((c, d) ∷ es) p = ground (arith, ins_from-end c d a b es p.0.1 p.1)
