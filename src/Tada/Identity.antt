-- ===== src/Tada/Identity.antt =====
-- The test id of `start`: which runs share it.
use ldms_test.Base.{ℕ, ◌≡◌, ◌≢◌, Text, [], ◌∷◌, ◌++◌, ◌∙◌, ap, refl, some, append_assoc, sym}
use ldms_test.Base.Strings.{decimal-injective}
use ldms_test.Tada.{Test, identity, start}

append-injective : (p s t : Text) → p ++ s ≡ p ++ t → s ≡ t
append-injective [] s t h = h
append-injective (c ∷ p) s t h = append-injective p s t (cc)

-- Past a common prefix and a colon.
field-injective : (p s t : Text) → p ++ (b':' ∷ s) ≡ p ++ (b':' ∷ t) → s ≡ t
field-injective p s t h = cc (append-injective p (b':' ∷ s) (b':' ∷ t) h)

identity-injective : (t : Test) (ts ts' : ℕ) → identity t ts ≡ identity t ts' → ts ≡ ts'
unfolding identity
identity-injective t ts ts' h = decimal-injective ts ts' (
    field-injective t.commit_id _ _ (
      field-injective t.user _ _
        (field-injective t.name _ _ (field-injective t.type _ _ (field-injective t.suite _ _ h)))))

-- The ids of two runs of one test that start at different seconds are the digests of two different
-- texts, whatever the digest: the runs share an id only where the digest collides on these.
pub start_again_new_id :
    (digest : Text → Text) (t : Test) (ts ts' now now' : ℕ)
    → ts ≢ ts'
    → (x : Text) × (y : Text) × (x ≢ y)
      × ((start digest ts now t).test_id ≡ some (digest x))
      × ((start digest ts' now' t).test_id ≡ some (digest y))
unfolding start
start_again_new_id digest t ts ts' now now' differ =
    (identity t ts, identity t ts', λ e. differ (identity-injective t ts ts' e), refl, refl)

-- The separator is not escaped: a colon moves from the suite to the type and the id stays.
pub start-colon_same_id :
    (digest : Text → Text) (t : Test) (x y z : Text) (ts now : ℕ)
    → let s : Test = record t { suite = x ++ (b':' ∷ y); type = z } in
      let u : Test = record t { suite = x; type = y ++ (b':' ∷ z) } in
      (start digest ts now s).test_id ≡ (start digest ts now u).test_id
unfolding start identity
start-colon_same_id digest t x y z ts now =
    ap (λ w. some (digest w))
      (append_assoc x (b':' ∷ y) _ ∙ ap (λ w. x ++ (b':' ∷ w)) (sym (append_assoc y (b':' ∷ z) _)))
