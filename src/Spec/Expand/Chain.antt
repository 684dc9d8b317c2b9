-- ===== src/Spec/Expand/Chain.antt =====
-- The loops of `_expand_dict`: when the loop over `!extends` ends, and which value a key gets.
use ldms_test.Base.{
  ℕ, zero, suc, ◌+◌, ◌<◌, ◌≡◌, ◌≢◌, refl, Text, Option, none, some, List, [], ◌∷◌, ◌==◌, text_eq,
  if◌then◌else◌, All, arith, ◌⊎◌, inl, inr, false, length,
}
use ldms_test.Base.Dict
use ldms_test.Base.Dict.{Dict, NodupKeys, lookup-update, lookup-erase}
use ldms_test.Base.Outcome.{done, running}
use ldms_test.Value.{Value, Fields, str, dict, items, truthy}
use ldms_test.Spec.Expand.{extends, template, parent, chain, overlay, merge}

-- The template `n` is a dict `d` with the keyword `ext`.
abbrev pub Extends : Fields → Text → Dict Text Value → Option Value → Type 0
Extends ts n d ext =
    (fs : Fields) × (Dict.lookup n (items ts) ≡ some (dict fs))
    × (d ≡ items fs)
    × (Dict.lookup extends (items fs) ≡ ext)

-- A set of templates that only extend one another keeps the loop running, whatever the fuel.
pub chain-cycle_runs :
    (ts : Fields) (InCycle : Text → Type 0)
    → ((n : Text)
        → InCycle n
        → (n ≢ [])
          × ((m : Text) × (d : Dict Text Value) × InCycle m × Extends ts n d (some (str m))))
    → (fuel : ℕ) (n : Text) → InCycle n
    → chain fuel (dict ts) (some (str n)) ≡ running
unfolding chain template parent truthy
chain-cycle_runs ts InCycle h zero n here = refl
chain-cycle_runs ts InCycle h (suc fuel) [] here = absurd ((h [] here).0 refl)
chain-cycle_runs ts InCycle h (suc fuel) (c ∷ n) here =
    let (m, d, there, (fs, found, same, ext)) = (h (c ∷ n) here).1 in
    ground (arith, found, ext, chain-cycle_runs ts InCycle h fuel m there)

-- The rank of what an `!extends` names.
abbrev pub rank_of : (Text → ℕ) → Option Value → ℕ
rank_of rank none = 0
rank_of rank (some (str n)) = suc (rank n)
rank_of rank (some _) = 0

rank_of_next :
    (rank : Text → ℕ) (r fuel : ℕ) (next : Option Value)
    → ((m : Text) → next ≡ some (str m) → rank m < r)
    → r + 1 < fuel
    → rank_of rank next + 1 < fuel
rank_of_next rank r fuel none h enough = omega arith
rank_of_next rank r fuel (some (str m)) h enough = omega (arith, h m refl)
rank_of_next rank r fuel (some _) h enough = omega arith

-- What one round of the loop does for a name.
chain_round :
    (ts : Fields) (fuel : ℕ) (n : Text) (o : Option Value)
    → Dict.lookup n (items ts) ≡ o
    → ((fs : Fields)
        → o ≡ some (dict fs)
        → chain fuel (dict ts) (Dict.lookup extends (items fs)) ≢ running)
    → chain (suc fuel) (dict ts) (some (str n)) ≢ running
unfolding chain template parent truthy
chain_round ts fuel [] o e h = λ r. cc
chain_round ts fuel (c ∷ n) none e h = λ r. ground (arith, e, r)
chain_round ts fuel (c ∷ n) (some (dict fs)) e h = λ r. ground (arith, e, r, h fs refl)
chain_round ts fuel (c ∷ n) (some _) e h = λ r. ground (arith, e, r)

-- Where each template ranks above the one that it extends, the loop ends once the fuel is more
-- than the rank of the first name by two.
pub chain_ends :
    (ts : Fields) (rank : Text → ℕ)
    → ((n m : Text) (d : Dict Text Value) → Extends ts n d (some (str m)) → rank m < rank n)
    → (fuel : ℕ) (ext : Option Value) → rank_of rank ext + 1 < fuel
    → chain fuel (dict ts) ext ≢ running
unfolding chain template truthy
chain_ends ts rank lower zero ext enough = absurd (omega arith)
chain_ends ts rank lower (suc fuel) none enough = λ e. cc
chain_ends ts rank lower (suc fuel) (some (str n)) enough =
    chain_round ts fuel n (Dict.lookup n (items ts)) refl λ fs found.
      chain_ends ts rank lower fuel (Dict.lookup extends (items fs)) (
        rank_of_next rank (rank n) fuel _ (λ m ext. lower n m (items fs) (fs, found, refl, ext))
          (omega arith))
chain_ends ts rank lower (suc fuel) (some _) enough = ground arith

-- The value that the first dict with the key gives.
abbrev pub first : Text → List (Dict Text Value) → Option Value
first k [] = none
first k (d ∷ ds) = elim (Dict.lookup k d) [ none ↦ first k ds | some v ↦ some v ]

overlay-first :
    (k : Text) (ds : List (Dict Text Value))
    → All NodupKeys ds
    → Dict.lookup k (overlay ds) ≡ first k ds
unfolding overlay
overlay-first k [] u = unfold Dict.lookup in refl
overlay-first k (d ∷ ds) u =
    ground (arith, lookup-update k d (overlay ds) u.0, overlay-first k ds u.1)

-- The templates that a value of `!extends` leads to, the nearest first: each is what the one before
-- names, and the last has no `!extends`, or an empty one.
abbrev pub Ancestors : Fields → Option Value → List (Dict Text Value) → Type 0
Ancestors ts ext [] = (ext ≡ none) ⊎ ((v : Value) × (ext ≡ some v) × (truthy v ≡ false))
Ancestors ts ext (d ∷ ds) =
    (n : Text) × (next : Option Value) × (ext ≡ some (str n))
    × (n ≢ [])
    × Extends ts n d next
    × Ancestors ts next ds

chain-Ancestors :
    (ts : Fields) (fuel : ℕ) (ext : Option Value) (ds : List (Dict Text Value))
    → Ancestors ts ext ds
    → length ds < fuel
    → chain fuel (dict ts) ext ≡ done ds
unfolding chain template parent truthy
chain-Ancestors ts zero ext ds a enough = absurd (omega arith)
chain-Ancestors ts (suc fuel) ext [] (inl e) enough = rw e refl
chain-Ancestors ts (suc fuel) ext [] (inr (v, e, f)) enough = rw e (rw f refl)
chain-Ancestors ts (suc fuel) ext (d ∷ ds) ([], next, e, named, x, a) enough = absurd (named refl)
chain-Ancestors ts (suc fuel) ext (d ∷ ds) (c ∷ n, next, e, named, (fs, p, q, s), a) enough =
    rw e (ground (arith, p, q, s, chain-Ancestors ts fuel next ds a (omega arith)))

-- With more fuel than the dict has ancestors, and no key twice in a dict, `merge` returns, and gives each key the value that the
-- dict itself or else the nearest of the ancestors has for it; it drops the keyword.
pub merge-nearest :
    (fuel : ℕ) (ts : Fields) (d : Dict Text Value) (ds : List (Dict Text Value)) (k : Text)
    → Ancestors ts (Dict.lookup extends d) ds
    → length ds < fuel
    → All NodupKeys (d ∷ ds)
    → (m : Dict Text Value) × (merge fuel (dict ts) d ≡ done m)
      × (Dict.lookup k m ≡ (if extends == k then none else first k (d ∷ ds)))
unfolding merge
merge-nearest fuel ts d ds k ancestors enough nodup = (
  Dict.erase extends (overlay (d ∷ ds)),
  rw (chain-Ancestors ts fuel (Dict.lookup extends d) ds ancestors enough) refl,
  ground (arith, lookup-erase k extends (overlay (d ∷ ds)), overlay-first k (d ∷ ds) nodup),
)
