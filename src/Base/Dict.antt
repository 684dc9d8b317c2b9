-- ===== src/Base/Dict.antt =====
-- Python's `dict`: its items in insertion order, with no key twice.
pub mod Order
use mathlib.Core.Path.{◌≡◌, refl}
use mathlib.Core.Option.{Option, none, some}
use mathlib.Core.List.{List, [], ◌∷◌, ◌++◌}
use native.Mathlib.Omega.{arith}
use ldms_test.Base.Tests.{if◌then◌else◌}
use ldms_test.Base.Equality.{Eq, ◌==◌}

abbrev pub Dict {ℓ κ} : Type ℓ → Type κ → Type (ℓ ⊔ κ)
Dict K V = List (K × V)

unfoldable pub keys {ℓ κ} : {K : Type ℓ} {V : Type κ} → Dict K V → List K
keys [] = []
keys ((k, v) ∷ d) = k ∷ keys d

unfoldable pub values {ℓ κ} : {K : Type ℓ} {V : Type κ} → Dict K V → List V
values [] = []
values ((k, v) ∷ d) = v ∷ values d

module _ {ℓ κ} {K : Type ℓ} {V : Type κ} ⦃e : Eq K⦄ where
  -- `d.get(k)`
  unfoldable pub lookup : K → Dict K V → Option V
  lookup k [] = none
  lookup k ((j, v) ∷ d) = if j == k then some v else lookup k d

  -- `d[k] = v`: an old key keeps its place, a new one comes last.
  unfoldable pub insert : K → V → Dict K V → Dict K V
  insert k v [] = (k, v) ∷ []
  insert k v ((j, w) ∷ d) = if j == k then (j, v) ∷ d else (j, w) ∷ insert k v d

  -- `d.pop(k, None)`, without the popped value
  unfoldable pub erase : K → Dict K V → Dict K V
  erase k [] = []
  erase k ((j, w) ∷ d) = let rest = erase k d in if j == k then rest else (j, w) ∷ rest

  -- `d.update(items)`
  unfoldable pub update : Dict K V → Dict K V → Dict K V
  update d [] = d
  update d ((k, v) ∷ items) = update (insert k v d) items

  -- No key is listed twice.
  abbrev pub NodupKeys : Dict K V → Type κ
  NodupKeys [] = Unit
  NodupKeys ((k, _) ∷ d) = (lookup k d ≡ none) × NodupKeys d

  pub lookup-insert :
      (j k : K) (v : V) (d : Dict K V)
      → lookup j (insert k v d) ≡ (if k == j then some v else lookup j d)
  unfolding lookup insert
  lookup-insert j k v [] = refl
  lookup-insert j k v ((i, w) ∷ d) =
      ground (arith, e.eqb_iff i k, e.eqb_iff i j, e.eqb_iff k j, lookup-insert j k v d)

  pub lookup-erase :
      (j k : K) (d : Dict K V) → lookup j (erase k d) ≡ (if k == j then none else lookup j d)
  unfolding lookup erase
  lookup-erase j k [] = ground arith
  lookup-erase j k ((i, w) ∷ d) =
      ground (arith, e.eqb_iff i k, e.eqb_iff i j, e.eqb_iff k j, lookup-erase j k d)

  pub insert-NodupKeys : (k : K) (v : V) (d : Dict K V) → NodupKeys d → NodupKeys (insert k v d)
  unfolding insert lookup
  insert-NodupKeys k v [] u = (refl, tt)
  insert-NodupKeys k v ((j, w) ∷ d) u =
      ground
        (arith, insert-NodupKeys k v d u.1, lookup-insert j k v d, e.eqb_iff j k, e.eqb_iff k j)

  pub update-NodupKeys : (d items : Dict K V) → NodupKeys d → NodupKeys (update d items)
  unfolding update
  update-NodupKeys d [] u = u
  update-NodupKeys d ((k, v) ∷ items) u =
      update-NodupKeys (insert k v d) items (insert-NodupKeys k v d u)

  -- The value that a later item of the same key leaves.
  pub update-append : (d xs ys : Dict K V) → update d (xs ++ ys) ≡ update (update d xs) ys
  unfolding update
  update-append d [] ys = refl
  update-append d ((k, v) ∷ xs) ys = update-append (insert k v d) xs ys

  -- A later item of a key wins.
  pub lookup-update :
      (j : K) (items d : Dict K V)
      → NodupKeys items
      → lookup j (update d items) ≡ elim (lookup j items) [ none ↦ lookup j d | some v ↦ some v ]
  unfolding lookup update
  lookup-update j [] d u = refl
  lookup-update j ((k, v) ∷ items) d u =
      rw (lookup-update j items (insert k v d) u.1)
        (ground (arith, lookup-insert j k v d, e.eqb_iff k j, u.0))
