-- ===== src/Base/Dict/Order.antt =====
-- The order of items under `update` and `erase`.
use ldms_test.Base.Equality.{Eq, ◌==◌}
use ldms_test.Base.Lists.{All}
use ldms_test.Base.Dict.{Dict, keys, lookup, insert, erase, update, NodupKeys, lookup-erase}
use mathlib.Core.Path.{◌≡◌, refl, ◌∙◌, sym}
use mathlib.Core.Bool.{false}
use mathlib.Core.Option.{none}
use mathlib.Core.List.{[], ◌∷◌, ◌++◌, append-nil, append_assoc}
use native.Mathlib.Omega.{arith}

module _ {ℓ κ} {K : Type ℓ} {V : Type κ} ⦃e : Eq K⦄ where
  pub erase-NodupKeys : (k : K) (d : Dict K V) → NodupKeys d → NodupKeys (erase k d)
  unfolding erase
  erase-NodupKeys k [] u = tt
  erase-NodupKeys k ((j, w) ∷ d) u = ground (arith, erase-NodupKeys k d u.1, lookup-erase j k d)

  pub erase_of_absent : (k : K) (d : Dict K V) → lookup k d ≡ none → erase k d ≡ d
  unfolding erase lookup
  erase_of_absent k [] h = refl
  erase_of_absent k ((j, w) ∷ d) h = ground (arith, erase_of_absent k d)

  insert-append :
      (k : K) (v : V) (d : Dict K V) → lookup k d ≡ none → insert k v d ≡ d ++ ((k, v) ∷ [])
  unfolding insert lookup
  insert-append k v [] h = refl
  insert-append k v ((j, w) ∷ d) h = ground (arith, insert-append k v d)

  lookup-append_absent :
      (j k : K) (v : V) (d : Dict K V)
      → lookup j d ≡ none
      → (j == k) ≡ false
      → lookup j (d ++ ((k, v) ∷ [])) ≡ none
  unfolding lookup
  lookup-append_absent j k v [] h n = ground (arith, e.eqb_iff j k, e.eqb_iff k j)
  lookup-append_absent j k v ((i, w) ∷ d) h n = ground (arith, lookup-append_absent j k v d)

  abbrev Fresh : Dict K V → Dict K V → Type κ
  Fresh acc = All (λ (k, _). lookup k acc ≡ none)

  Fresh-append :
      (acc d : Dict K V) (k : K) (v : V)
      → lookup k d ≡ none
      → Fresh acc d
      → Fresh (acc ++ ((k, v) ∷ [])) d
  unfolding lookup
  Fresh-append acc [] k v h f = tt
  Fresh-append acc ((j, w) ∷ d) k v h f = (
    lookup-append_absent j k v acc f.0 (ground (arith, h)),
    Fresh-append acc d k v (ground (arith, h)) f.1,
  )

  update-append_of_Fresh : (acc d : Dict K V) → NodupKeys d → Fresh acc d → update acc d ≡ acc ++ d
  unfolding update
  update-append_of_Fresh acc [] u f = sym (append-nil acc)
  update-append_of_Fresh acc ((k, v) ∷ d) u f = rw (insert-append k v acc f.0) (
      update-append_of_Fresh (acc ++ ((k, v) ∷ [])) d u.1 (Fresh-append acc d k v u.0 f.1)
      ∙ append_assoc acc ((k, v) ∷ []) d)

  Fresh-nil : (d : Dict K V) → Fresh [] d
  unfolding lookup
  Fresh-nil [] = tt
  Fresh-nil ((k, v) ∷ d) = (refl, Fresh-nil d)

  -- Updating an empty dict copies the items in order.
  pub update-nil : (d : Dict K V) → NodupKeys d → update [] d ≡ d
  update-nil d u = update-append_of_Fresh [] d u (Fresh-nil d)

module _ {ℓ κ} {K : Type ℓ} {V : Type κ} ⦃e : Eq K⦄ where
  pub lookup-none-keys :
      (k : K) (d d' : Dict K V) → keys d ≡ keys d' → lookup k d ≡ none → lookup k d' ≡ none
  unfolding keys lookup
  lookup-none-keys k [] [] same h = refl
  lookup-none-keys k [] ((j, w) ∷ d') same h = cc
  lookup-none-keys k ((j, w) ∷ d) [] same h = cc
  lookup-none-keys k ((i, v) ∷ d) ((j, w) ∷ d') same h =
      ground (arith, h, same, lookup-none-keys k d d')

  pub NodupKeys-keys : (d d' : Dict K V) → keys d ≡ keys d' → NodupKeys d → NodupKeys d'
  unfolding keys
  NodupKeys-keys [] [] same u = tt
  NodupKeys-keys [] ((j, w) ∷ d') same u = absurd (cc)
  NodupKeys-keys ((j, w) ∷ d) [] same u = tt
  NodupKeys-keys ((i, v) ∷ d) ((j, w) ∷ d') same u =
      (lookup-none-keys j d d' (cc) (ground (arith, same, u.0)), NodupKeys-keys d d' (cc) u.1)
