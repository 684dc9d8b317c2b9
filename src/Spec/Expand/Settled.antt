-- ===== src/Spec/Expand/Settled.antt =====
-- What `_expand` returns: no `!extends` is left, and another expansion changes nothing.
use ldms_test.Base.{
  ℕ, zero, suc, ◌≤◌, ◌≡◌, refl, Text, none, List, [], ◌∷◌, text_eq, arith, eq_refl, ap, ◌∙◌, subst,
}
use ldms_test.Base.Dict
use ldms_test.Base.Dict.{Dict, NodupKeys, update-NodupKeys, lookup-erase}
use ldms_test.Base.Dict.Order.{
  erase-NodupKeys, erase_of_absent, update-nil, lookup-none-keys, NodupKeys-keys,
}
use ldms_test.Base.Outcome.{Outcome, done, >>=-eq-done, done-injective}
use ldms_test.Value.{
  Value, Items, Fields, null, bool, int, float, str, list, tuple, dict, nil, cons, end, field,
  items, depth, depth_items, depth_fields,
}
use ldms_test.Spec.Expand.{extends, chain, overlay, merge, traverse, traverse_dict, expand}

abbrev AllItems : (Value → Type 0) → Items → Type 0
AllItems P nil = Unit {0}
AllItems P (cons v xs) = P v × AllItems P xs

abbrev AllFields : (Value → Type 0) → Fields → Type 0
AllFields P end = Unit {0}
AllFields P (field k v fs) = P v × AllFields P fs

-- The containers are nested less than `left` deep, no dict has the keyword, none has a key twice.
abbrev pub Settled : ℕ → Value → Type 0
Settled zero v = ⊥
Settled (suc left) null = ⊥
Settled (suc left) (list xs) = AllItems (Settled left) xs
Settled (suc left) (tuple xs) = AllItems (Settled left) xs
Settled (suc left) (dict fs) =
    (Dict.lookup extends (items fs) ≡ none) × NodupKeys (items fs) × AllFields (Settled left) fs
Settled (suc left) _ = Unit {0}

module _ (P : Value → Type 0) (f : Value → Outcome Value)
    (h : (v w : Value) → f v ≡ done w → P w) where
  traverse-all : (xs ys : Items) → traverse f xs ≡ done ys → AllItems P ys
  unfolding traverse
  traverse-all nil ys e = ground arith
  traverse-all (cons v xs) ys e =
      let (w, fv, rest) = >>=-eq-done (f v) _ e in
      let (zs, fxs, last) = >>=-eq-done (traverse f xs) _ rest in
      subst (AllItems P) (done-injective _ _ last) (h v w fv, traverse-all xs zs fxs)

  traverse_dict-all :
      (d : Dict Text Value) (fs : Fields) → traverse_dict f d ≡ done fs → AllFields P fs
  unfolding traverse_dict
  traverse_dict-all [] fs e = subst (AllFields P) (done-injective _ _ e) tt
  traverse_dict-all ((k, v) ∷ d) fs e =
      let (w, fv, rest) = >>=-eq-done (f v) _ e in
      let (gs, fd, last) = >>=-eq-done (traverse_dict f d) _ rest in
      subst (AllFields P) (done-injective _ _ last) (h v w fv, traverse_dict-all d gs fd)

traverse_dict-keys :
    (f : Value → Outcome Value) (d : Dict Text Value) (fs : Fields)
    → traverse_dict f d ≡ done fs
    → Dict.keys d ≡ Dict.keys (items fs)
unfolding traverse_dict items Dict.keys
traverse_dict-keys f [] fs e = ap (λ gs. Dict.keys (items gs)) (done-injective _ _ e)
traverse_dict-keys f ((k, v) ∷ d) fs e =
    let (w, fv, rest) = >>=-eq-done (f v) _ e in
    let (gs, fd, last) = >>=-eq-done (traverse_dict f d) _ rest in
    ap (λ ks. k ∷ ks) (traverse_dict-keys f d gs fd)
    ∙ ap (λ hs. Dict.keys (items hs)) (done-injective _ _ last)

overlay-NodupKeys : (ds : List (Dict Text Value)) → NodupKeys (overlay ds)
unfolding overlay
overlay-NodupKeys [] = tt
overlay-NodupKeys (d ∷ ds) = update-NodupKeys (overlay ds) d (overlay-NodupKeys ds)

merge-clean :
    (fuel : ℕ) (templates : Value) (d m : Dict Text Value)
    → merge fuel templates d ≡ done m
    → (Dict.lookup extends m ≡ none) × NodupKeys m
unfolding merge
merge-clean fuel templates d m e =
    let (ds, chained, last) = >>=-eq-done (chain fuel templates (Dict.lookup extends d)) _ e in
    subst (λ m'. (Dict.lookup extends m' ≡ none) × NodupKeys m') (done-injective _ _ last)
      (
        lookup-erase extends extends (overlay (d ∷ ds)) ∙ rw eq_refl refl,
        erase-NodupKeys extends (overlay (d ∷ ds)) (overlay-NodupKeys (d ∷ ds)),
      )

module _ (fuel : ℕ) (templates : Value) where
  expand-Settled : (left : ℕ) (v w : Value) → expand fuel templates left v ≡ done w → Settled left w
  unfolding expand
  expand-Settled zero v w e = cc
  expand-Settled (suc left) null w e = cc
  expand-Settled (suc left) (list xs) w e =
      let (ys, fxs, last) = >>=-eq-done (traverse (expand fuel templates left) xs) _ e in
      subst (Settled (suc left)) (done-injective _ _ last)
        (traverse-all (Settled left) (expand fuel templates left) (expand-Settled left) xs ys fxs)
  expand-Settled (suc left) (tuple xs) w e =
      let (ys, fxs, last) = >>=-eq-done (traverse (expand fuel templates left) xs) _ e in
      subst (Settled (suc left)) (done-injective _ _ last)
        (traverse-all (Settled left) (expand fuel templates left) (expand-Settled left) xs ys fxs)
  expand-Settled (suc left) (dict fs) w e =
      let (m, merged, rest) = >>=-eq-done (merge fuel templates (items fs)) _ e in
      let (gs, fm, last) = >>=-eq-done (traverse_dict (expand fuel templates left) m) _ rest in
      let clean = merge-clean fuel templates (items fs) m merged in
      let same = traverse_dict-keys (expand fuel templates left) m gs fm in
      subst (Settled (suc left)) (done-injective _ _ last) (
        lookup-none-keys extends m (items gs) same clean.0,
        NodupKeys-keys m (items gs) same clean.1,
        traverse_dict-all (Settled left) (expand fuel templates left) (expand-Settled left) m gs fm,
      )
  expand-Settled (suc left) (bool b) w e = subst (Settled (suc left)) (done-injective _ _ e) tt
  expand-Settled (suc left) (int z) w e = subst (Settled (suc left)) (done-injective _ _ e) tt
  expand-Settled (suc left) (float t) w e = subst (Settled (suc left)) (done-injective _ _ e) tt
  expand-Settled (suc left) (str t) w e = subst (Settled (suc left)) (done-injective _ _ e) tt

module _ (P : Value → Type 0) (f : Value → Outcome Value)
    (h : (v : Value) → P v → f v ≡ done v) where
  traverse_self : (xs : Items) → AllItems P xs → traverse f xs ≡ done xs
  unfolding traverse
  traverse_self nil p = refl
  traverse_self (cons v xs) p = rw (h v p.0) (rw (traverse_self xs p.1) refl)

  traverse_dict_self : (fs : Fields) → AllFields P fs → traverse_dict f (items fs) ≡ done fs
  unfolding traverse_dict items
  traverse_dict_self end p = refl
  traverse_dict_self (field k v fs) p = rw (h v p.0) (rw (traverse_dict_self fs p.1) refl)

merge_self :
    (fuel : ℕ) (templates : Value) (d : Dict Text Value)
    → Dict.lookup extends d ≡ none
    → NodupKeys d
    → merge (suc fuel) templates d ≡ done d
unfolding merge chain overlay
merge_self fuel templates d absent u =
    rw absent
      (ap done (ap (Dict.erase extends) (update-nil d u) ∙ erase_of_absent extends d absent))

Settled-expand :
    (fuel : ℕ) (templates : Value) (left : ℕ) (v : Value)
    → Settled left v
    → expand (suc fuel) templates left v ≡ done v
unfolding expand
Settled-expand fuel templates zero v s = absurd s
Settled-expand fuel templates (suc left) null s = absurd s
Settled-expand fuel templates (suc left) (list xs) s =
    rw (traverse_self (Settled left) _ (Settled-expand fuel templates left) xs s) refl
Settled-expand fuel templates (suc left) (tuple xs) s =
    rw (traverse_self (Settled left) _ (Settled-expand fuel templates left) xs s) refl
Settled-expand fuel templates (suc left) (dict fs) s =
    rw (merge_self fuel templates (items fs) s.0 s.1)
      (rw (traverse_dict_self (Settled left) _ (Settled-expand fuel templates left) fs s.2) refl)
Settled-expand fuel templates (suc left) (bool b) s = refl
Settled-expand fuel templates (suc left) (int z) s = refl
Settled-expand fuel templates (suc left) (float t) s = refl
Settled-expand fuel templates (suc left) (str t) s = refl

-- What `_expand` returned is returned unchanged by another `_expand` at the same level, whatever
-- the templates: nothing is left to extend.
pub expand-expand :
    (fuel fuel' : ℕ) (templates templates' : Value) (left : ℕ) (v w : Value)
    → expand fuel templates left v ≡ done w
    → expand (suc fuel') templates' left w ≡ done w
expand-expand fuel fuel' templates templates' left v w e =
    Settled-expand fuel' templates' left w (expand-Settled fuel templates left v w e)

depth_items-le :
    (left : ℕ)
    → ((v : Value) → Settled left v → depth v ≤ left)
    → (xs : Items) → AllItems (Settled left) xs
    → depth_items xs ≤ left
unfolding depth
depth_items-le left h nil s = omega arith
depth_items-le left h (cons v xs) s = omega (arith, h v s.0, depth_items-le left h xs s.1)

depth_fields-le :
    (left : ℕ)
    → ((v : Value) → Settled left v → depth v ≤ left)
    → (fs : Fields) → AllFields (Settled left) fs
    → depth_fields fs ≤ left
unfolding depth
depth_fields-le left h end s = omega arith
depth_fields-le left h (field k v fs) s = omega (arith, h v s.0, depth_fields-le left h fs s.1)

Settled-depth : (left : ℕ) (v : Value) → Settled left v → depth v ≤ left
unfolding depth
Settled-depth zero v s = absurd s
Settled-depth (suc left) null s = absurd s
Settled-depth (suc left) (list xs) s = omega (arith, depth_items-le left (Settled-depth left) xs s)
Settled-depth (suc left) (tuple xs) s = omega (arith, depth_items-le left (Settled-depth left) xs s)
Settled-depth (suc left) (dict fs) s =
    omega (arith, depth_fields-le left (Settled-depth left) fs s.2)
Settled-depth (suc left) (bool b) s = omega arith
Settled-depth (suc left) (int z) s = omega arith
Settled-depth (suc left) (float t) s = omega arith
Settled-depth (suc left) (str t) s = omega arith

-- A value that `_expand` returns at level `lvl` is nested at most `MAX_DEPTH + 1 - lvl` deep.
pub expand-depth :
    (fuel : ℕ) (templates : Value) (left : ℕ) (v w : Value)
    → expand fuel templates left v ≡ done w
    → depth w ≤ left
expand-depth fuel templates left v w e =
    Settled-depth left w (expand-Settled fuel templates left v w e)
