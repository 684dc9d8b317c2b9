-- ===== src/Compare/Stream/Laws.antt =====
-- What `__init__` sets, and when two `StreamData` are equal.
use ldms_test.Base.{
  ◌≡◌, ◌≢◌, refl, ◌↔◌, ◌⊎◌, inl, inr, Text, true, Option, none, some, List, [], ◌∷◌, ◌==◌, nat_eq,
  nat_beq_iff, text_eq, text_beq, Eq, length, Option-cases, Bool-cases, contains, All,
  some-injective, ok, err, value_error, arith,
}
use ldms_test.Base.Dict
use ldms_test.Base.Dict.{Dict}
use ldms_test.Compare.Stream.{
  StreamData, cmp_fields, init, as_list, agree, get_attr, eq_fields, stream_eq,
}

module _ {V : Type 0} where
  wrong_count :
      (a : Option V) (args : List (Option V))
      → length (a ∷ args) ≢ 8
      → init (a ∷ args) [] ≡ err value_error
  unfolding init Dict.insert text_beq contains
  wrong_count a args h = elim (Bool-cases (length (a ∷ args) == 8)) [
    | inl same ↦ absurd (h ((nat_beq_iff _ _).0 same))
    | inr other ↦ rw other refl
  ]

  -- From eight positional arguments, `__init__` makes an object whose `as_list` gives them back in
  -- order; from another number of them it raises `ValueError`.
  pub init-as_list :
      (args : List (Option V))
      → ((length args ≡ 8) × ((s : StreamData V) × (init args [] ≡ ok s) × (as_list s ≡ ok args)))
        ⊎ ((length args ≢ 8) × (init args [] ≡ err value_error))
  unfolding init as_list Dict.insert Dict.lookup text_beq contains
  init-as_list [] = inr (omega arith, refl)
  init-as_list (a ∷ (b ∷ (c ∷ (d ∷ (e ∷ (f ∷ (g ∷ (h ∷ [])))))))) = inl (refl, (_, refl, refl))
  init-as_list (a ∷ args) = inr (omega arith, wrong_count a args (omega arith))

  -- `None` on a side, or the same value on both.
  abbrev pub Agree : StreamData V → StreamData V → Text → Type 0
  Agree s t k =
      (v : Option V) × (w : Option V) × (Dict.lookup k s ≡ some v)
      × (Dict.lookup k t ≡ some w)
      × ((v ≡ none) ⊎ (w ≡ none) ⊎ (v ≡ w))

module _ {V : Type 0} ⦃e : Eq V⦄ where
  agree_iff : (v w : Option V) → (agree v w ≡ true) ↔ ((v ≡ none) ⊎ (w ≡ none) ⊎ (v ≡ w))
  unfolding agree
  agree_iff none w = (λ h. inl refl, λ h. refl)
  agree_iff (some a) none = (λ h. inr (inl refl), λ h. refl)
  agree_iff (some a) (some b) = ground (arith, e.eqb_iff a b)

  fields_agree :
      (ks : List Text) (s t : StreamData V) → eq_fields ks s t ≡ ok true → All (Agree s t) ks
  unfolding eq_fields get_attr
  fields_agree [] s t h = tt
  fields_agree (k ∷ ks) s t h = elim (Option-cases (Dict.lookup k s)) [
    | inl absent ↦ absurd (ground (arith, absent, h))
    | inr (v, left) ↦ elim (Option-cases (Dict.lookup k t)) [
      | inl absent ↦ absurd (ground (arith, left, absent, h))
      | inr (w, right) ↦ elim (Bool-cases (agree v w)) [
        | inl same ↦ (
          (v, w, left, right, (agree_iff v w).0 same),
          fields_agree ks s t (ground (arith, left, right, same, h)),
        )
        | inr other ↦ absurd (ground (arith, left, right, other, h))
      ]
    ]
  ]

  agree_fields :
      (ks : List Text) (s t : StreamData V) → All (Agree s t) ks → eq_fields ks s t ≡ ok true
  unfolding eq_fields get_attr
  agree_fields [] s t h = refl
  agree_fields (k ∷ ks) s t ((v, w, left, right, same), h) =
      ground (arith, left, right, (agree_iff v w).1 same, agree_fields ks s t h)

  -- `__eq__` holds of two `StreamData` exactly if each of the fields other than `tid` is `None` on
  -- a side or has one value on both; of an object of another type it never holds.
  pub stream_eq_iff :
      (s : StreamData V) (other : Option (StreamData V))
      → (stream_eq s other ≡ ok true)
        ↔ ((t : StreamData V) × (other ≡ some t) × All (Agree s t) cmp_fields)
  unfolding stream_eq
  stream_eq_iff s none = (λ h. absurd (cc), λ (t, h, _). absurd (cc))
  stream_eq_iff s (some t) = (
    λ h. (t, refl, fields_agree cmp_fields s t h),
    λ (u, same, h). rw (some-injective _ _ same) (agree_fields cmp_fields s u h),
  )
