-- ===== src/Singularity/Addresses/Allocation.antt =====
-- What `alloc_addr` leaves in the file, and that it keeps the addresses of clusters apart.
use ldms_test.Base.{
  ℕ, zero, suc, ◌+◌, ◌-◌, ◌≡◌, inl, inr, refl, ap, sym, subst, ◌∙◌, Text, List, [], ◌∷◌, ◌++◌, none,
  All, All-append, Bool-cases, length, length-append, arith, append_assoc, append-nil, text_eq,
  ◌==◌,
}
use ldms_test.Base.Dict
use ldms_test.Base.Dict.{Dict}
use ldms_test.Singularity.{Entry, concat, numbers, numbers_from}
use ldms_test.Singularity.Ranges.{
  Clear, Within, Disjoint, Apart, Apart-Disjoint, Apart-Within, size,
}
use ldms_test.Singularity.Hex.{hex_ranges-to_str}
use ldms_test.Singularity.Addresses.{Network, ranges, texts, addr_min, addr_max}

-- All ranges of a table.
abbrev pub allocated : Dict Text (List Entry) → List Entry
allocated t = concat (Dict.values t)

-- The addresses of a table are in the network, no two clusters have one in common, and the ranges of
-- each cluster are in order.
pub record IsTable (net : Network) (t : Dict Text (List Entry)) : Type 0 where
  pub within : All (Within (addr_min net) (addr_max net)) (allocated t)
  pub disjoint : Disjoint (allocated t)
  pub ordered : All (Apart (addr_min net) (addr_max net)) (Dict.values t)

-- How many addresses no cluster has.
abbrev pub free : Network → Dict Text (List Entry) → ℕ
free net t = addr_max net + 1 - addr_min net - size (allocated t)

pub length-numbers : (es : List Entry) → length (numbers es) ≡ size es
unfolding numbers
length-numbers [] = refl
length-numbers ((a, b) ∷ es) = omega (
  arith,
  length-append (numbers_from a (b + 1 - a)) (numbers es),
  of_range a (b + 1 - a),
  length-numbers es,
)
  where
    of_range : (a n : ℕ) → length (numbers_from a n) ≡ n
    of_range a zero = refl
    of_range a (suc n) = ap suc (of_range (a + 1) n)

Disjoint-append :
    (us es : List Entry)
    → Disjoint us
    → Disjoint es
    → All (λ g. All (Clear g) us) es
    → Disjoint (us ++ es)
Disjoint-append [] es p q c = q
Disjoint-append (u ∷ us) es p q c = (
  All-append (Clear u) us es p.0 (turned u us es c),
  Disjoint-append us es p.1 q (rest u us es c),
)
  where
    turned :
        (u : Entry) (us es : List Entry) → All (λ g. All (Clear g) (u ∷ us)) es → All (Clear u) es
    turned u us [] c = tt
    turned (x, y) us ((a, b) ∷ es) c = (ground (arith, c.0.0), turned (x, y) us es c.1)

    rest :
        (u : Entry) (us es : List Entry)
        → All (λ g. All (Clear g) (u ∷ us)) es
        → All (λ g. All (Clear g) us) es
    rest u us [] c = tt
    rest u us (g ∷ es) c = (c.0.1, rest u us es c.1)

values-insert :
    (k : Text) (v : List Entry) (t : Dict Text (List Entry))
    → Dict.lookup k t ≡ none
    → Dict.values (Dict.insert k v t) ≡ Dict.values t ++ (v ∷ [])
unfolding Dict.values Dict.insert Dict.lookup
values-insert k v [] h = refl
values-insert k v ((j, w) ∷ t) h = elim (Bool-cases (j == k)) [
  | inl f ↦ ground (arith, f, h)
  | inr f ↦ rw f (ap (λ x. w ∷ x) (values-insert k v t (ground (arith, f, h))))
]

concat-end : (vs : List (List Entry)) (v : List Entry) → concat (vs ++ (v ∷ [])) ≡ concat vs ++ v
unfolding concat
concat-end [] v = append-nil v
concat-end (w ∷ vs) v = rw (concat-end vs v) (sym (append_assoc w (concat vs) v))

-- A table that is written is read back.
pub ranges-texts :
    (l m : ℕ) (t : Dict Text (List Entry)) → All (Apart l m) (Dict.values t) → ranges (texts t) ≡ t
unfolding ranges texts Dict.values
ranges-texts l m [] p = refl
ranges-texts l m ((k, v) ∷ t) p =
    rw (hex_ranges-to_str l m v p.0) (rw (ranges-texts l m t p.1) refl)

-- A new cluster whose ranges are clear of all others makes a table again.
pub insert-IsTable :
    (net : Network) (k : Text) (v : List Entry) (t : Dict Text (List Entry))
    → Dict.lookup k t ≡ none
    → IsTable net t
    → Apart (addr_min net) (addr_max net) v
    → All (λ g. All (Clear g) (allocated t)) v
    → IsTable net (Dict.insert k v t)
insert-IsTable net k v t fresh p a c =
    let e : Dict.values (Dict.insert k v t) ≡ Dict.values t ++ (v ∷ []) =
      values-insert k v t fresh in
    let es : allocated (Dict.insert k v t) ≡ allocated t ++ v =
      ap concat e ∙ concat-end (Dict.values t) v in
    record {
      within = subst (All (Within (addr_min net) (addr_max net))) (sym es) (
          All-append (Within (addr_min net) (addr_max net)) (allocated t) v p.within
            (Apart-Within (addr_min net) (addr_min net) (addr_max net) v (omega arith) a));
      disjoint = subst Disjoint (sym es) (
          Disjoint-append (allocated t) v p.disjoint
            (Apart-Disjoint (addr_min net) (addr_max net) v a) c);
      ordered = subst (All (Apart (addr_min net) (addr_max net))) (sym e) (
          All-append (Apart (addr_min net) (addr_max net)) (Dict.values t) (v ∷ []) p.ordered
            (a, tt));
    }
