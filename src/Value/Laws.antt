-- ===== src/Value/Laws.antt =====
-- What `deep_copy` returns.
use ldms_test.Base.{◌>>=◌, Result, ◌≡◌, refl, ◌⊎◌, inl, inr, ok, err, type_error}
use ldms_test.Base.Dict.{Dict}
use ldms_test.Base.{Text, [], ◌∷◌}
use ldms_test.Value.{
  Value, Items, Fields, null, bool, int, float, str, list, tuple, dict, nil, cons, end, field,
  deep_copy, deep_copy_items, deep_copy_fields, items, of_items,
}

-- No object of an unsupported type stands in the value, at any depth.
unfoldable mutual
  pub Supported : Value → Type 0
  Supported null = ⊥
  Supported (list xs) = SupportedItems xs
  Supported (tuple xs) = SupportedItems xs
  Supported (dict fs) = SupportedFields fs
  Supported _ = Unit {0}

  pub SupportedItems : Items → Type 0
  SupportedItems nil = Unit {0}
  SupportedItems (cons v xs) = Supported v × SupportedItems xs

  pub SupportedFields : Fields → Type 0
  SupportedFields end = Unit {0}
  SupportedFields (field k v fs) = Supported v × SupportedFields fs

-- `r` returns `a` if `P` holds, and raises `TypeError` if not.
abbrev Copied : {A : Type 0} → Result A → A → Type 0 → Type 0
Copied r a P = ((r ≡ ok a) × P) ⊎ ((r ≡ err type_error) × ¬ P)

module _ {A B C : Type 0} where
  Copied-both :
      (f : A → B → C) (r : Result A) (s : Result B) {a : A} {b : B} {P Q : Type 0}
      → Copied r a P
      → Copied s b Q
      → Copied (do x ← r; y ← s; ok (f x y)) (f a b) (P × Q)
  Copied-both f r s (inl (e, p)) (inl (e', q)) = inl (rw e (rw e' refl), (p, q))
  Copied-both f r s (inl (e, p)) (inr (e', q)) = inr (rw e (rw e' refl), λ h. q h.1)
  Copied-both f r s (inr (e, p)) k = inr (rw e refl, λ h. p h.0)

module _ {A B : Type 0} where
  Copied-map :
      (f : A → B) (r : Result A) {a : A} {P : Type 0}
      → Copied r a P
      → Copied (do x ← r; ok (f x)) (f a) P
  Copied-map f r (inl (e, p)) = inl (rw e refl, p)
  Copied-map f r (inr (e, p)) = inr (rw e refl, p)

mutual
  unfolding deep_copy Supported

  copies : (v : Value) → Copied (deep_copy v) v (Supported v)
  copies null = inr (refl, λ h. h)
  copies (bool b) = inl (refl, tt)
  copies (int z) = inl (refl, tt)
  copies (float s) = inl (refl, tt)
  copies (str s) = inl (refl, tt)
  copies (list xs) = Copied-map list (deep_copy_items xs) (copies_items xs)
  copies (tuple xs) = Copied-map tuple (deep_copy_items xs) (copies_items xs)
  copies (dict fs) = Copied-map dict (deep_copy_fields fs) (copies_fields fs)

  copies_items : (xs : Items) → Copied (deep_copy_items xs) xs (SupportedItems xs)
  copies_items nil = inl (refl, tt)
  copies_items (cons v xs) =
      Copied-both cons (deep_copy v) (deep_copy_items xs) (copies v) (copies_items xs)

  copies_fields : (fs : Fields) → Copied (deep_copy_fields fs) fs (SupportedFields fs)
  copies_fields end = inl (refl, tt)
  copies_fields (field k v fs) =
      Copied-both (field k) (deep_copy v) (deep_copy_fields fs) (copies v) (copies_fields fs)

-- `deep_copy` returns an equal value or raises `TypeError`, the latter exactly if an object of an
-- unsupported type stands somewhere in the value.
pub deep_copy_lem :
    (v : Value)
    → ((deep_copy v ≡ ok v) × Supported v) ⊎ ((deep_copy v ≡ err type_error) × ¬ Supported v)
deep_copy_lem v = copies v

pub deep_copy-Supported : (v : Value) → Supported v → deep_copy v ≡ ok v
deep_copy-Supported v s = elim (copies v) [ inl (e, _) ↦ e | inr (_, no_) ↦ absurd (no_ s) ]

pub of_items-items : (fs : Fields) → of_items (items fs) ≡ fs
unfolding items of_items
of_items-items end = refl
of_items-items (field k v fs) = cc (of_items-items fs)

pub items-of_items : (d : Dict Text Value) → items (of_items d) ≡ d
unfolding items of_items
items-of_items [] = refl
items-of_items ((k, v) ∷ d) = cc (items-of_items d)
