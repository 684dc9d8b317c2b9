-- ===== src/Spec/Subst/Acyclic.antt =====
-- `_subst_str` over variables that do not refer to each other in a cycle.
use ldms_test.Base.{
  ℕ, zero, suc, ◌≡◌, refl, Text, some, List, [], ◌∷◌, ◌++◌, ◌==◌, ◌<◌, nat_eq, text_eq,
  text_beq_iff, Bool-cases, inl, inr, ok, arith, All, All-append, append_assoc, ap, sym, ◌∙◌, subst,
}
use ldms_test.Base.Dict
use ldms_test.Base.Outcome.{done}
use ldms_test.Value.{Value, str_of}
use ldms_test.Spec.Subst.{Vars, Piece, lit, var, fill, sub, subst_loop, subst_str}
use ldms_test.Spec.Subst.Pieces.{print, IsPiece, pieces-print}

-- All variables among the pieces satisfy `P`.
abbrev pub Uses : (Text → Type 0) → List Piece → Type 0
Uses P = All (λ p. elim p [ lit c ↦ Unit {0} | var n ↦ P n ])

-- `body n` is the value of a known variable `n` as pieces, and refers to variables of lower rank.
pub record IsAcyclic (vars : Vars) (Known : Text → Type 0) (body : Text → List Piece)
    (rank : Text → ℕ) : Type 0 where
  pub value :
      (n : Text)
      → Known n
      → (v : Value) × (Dict.lookup n vars ≡ some v) × (str_of v ≡ print (body n))
  pub well_formed : (n : Text) → Known n → All IsPiece (body n)
  pub lower : (n : Text) → Known n → Uses (λ m. Known m × (rank m < rank n)) (body n)

-- The text that the pieces stand for, where `mean` gives the variables their final texts.
abbrev pub meaning : (Text → Text) → List Piece → Text
meaning mean [] = []
meaning mean (lit c ∷ ps) = c ∷ meaning mean ps
meaning mean (var n ∷ ps) = mean n ++ meaning mean ps

Uses-mono :
    (P Q : Text → Type 0) → ((n : Text) → P n → Q n) → (ps : List Piece) → Uses P ps → Uses Q ps
Uses-mono P Q f [] h = tt
Uses-mono P Q f (lit c ∷ ps) h = (tt, Uses-mono P Q f ps h.1)
Uses-mono P Q f (var n ∷ ps) h = (f n h.0, Uses-mono P Q f ps h.1)

print-append : (ps qs : List Piece) → print (ps ++ qs) ≡ print ps ++ print qs
print-append [] qs = refl
print-append (lit c ∷ ps) qs = cc (print-append ps qs)
print-append (var w ∷ ps) qs =
    rw (print-append ps qs) (ap (λ s. b'%' ∷ s) (sym (append_assoc w _ _)))

meaning-append :
    (mean : Text → Text) (ps qs : List Piece)
    → meaning mean (ps ++ qs) ≡ meaning mean ps ++ meaning mean qs
meaning-append mean [] qs = refl
meaning-append mean (lit c ∷ ps) qs = cc (meaning-append mean ps qs)
meaning-append mean (var n ∷ ps) qs =
    rw (meaning-append mean ps qs) (sym (append_assoc (mean n) _ _))

module _ (vars : Vars) (Known : Text → Type 0) (body : Text → List Piece) (rank : Text → ℕ)
    (acyclic : IsAcyclic vars Known body rank) where
  abbrev Below : ℕ → List Piece → Type 0
  Below k = Uses (λ n. Known n × (rank n < k))

  -- One pass replaces each variable by its body.
  abbrev step : List Piece → List Piece
  step [] = []
  step (lit c ∷ ps) = lit c ∷ step ps
  step (var n ∷ ps) = body n ++ step ps

  fill-step : (ps : List Piece) → Uses Known ps → fill vars ps ≡ ok (print (step ps))
  unfolding fill
  fill-step [] h = refl
  fill-step (lit c ∷ ps) h = rw (fill-step ps h.1)
  fill-step (var n ∷ ps) h =
      let (v, found, shown) = acyclic.value n h.0 in
      ground (arith, found, shown, fill-step ps h.1, print-append (body n) (step ps))

  step-IsPiece : (ps : List Piece) → Uses Known ps → All IsPiece ps → All IsPiece (step ps)
  step-IsPiece [] h w = tt
  step-IsPiece (lit c ∷ ps) h w = (w.0, step-IsPiece ps h.1 w.1)
  step-IsPiece (var n ∷ ps) h w =
      All-append IsPiece (body n) (step ps) (acyclic.well_formed n h.0) (step-IsPiece ps h.1 w.1)

  step-Below : (k : ℕ) (ps : List Piece) → Below (suc k) ps → Below k (step ps)
  step-Below k [] h = tt
  step-Below k (lit c ∷ ps) h = (tt, step-Below k ps h.1)
  step-Below k (var n ∷ ps) h =
      All-append _ (body n) (step ps)
        (Uses-mono _ _ (λ m (known, below). (known, omega (arith, h.0))) (body n)
          (acyclic.lower n (h.0).0))
        (step-Below k ps h.1)

  step_of_Below_zero : (ps : List Piece) → Below 0 ps → step ps ≡ ps
  step_of_Below_zero [] h = refl
  step_of_Below_zero (lit c ∷ ps) h = cc (step_of_Below_zero ps h.1)
  step_of_Below_zero (var n ∷ ps) h = absurd (omega (arith, h.0))

  Below-Known : (k : ℕ) (ps : List Piece) → Below k ps → Uses Known ps
  Below-Known k = Uses-mono _ _ (λ n h. h.0)

  -- A pass that changes nothing has met no variable.
  settled : (k : ℕ) (ps : List Piece) → step ps ≡ ps → Below k ps → Below 0 ps
  settled zero ps e h = h
  settled (suc k) ps e h = settled k ps e (subst (Below k) e (step-Below k ps h))

  sub-print :
      (ps : List Piece)
      → Uses Known ps
      → All IsPiece ps
      → sub vars (print ps) ≡ ok (print (step ps))
  unfolding sub
  sub-print ps h w = rw (pieces-print ps w) (fill-step ps h)

  print-injective :
      (ps qs : List Piece) → All IsPiece ps → All IsPiece qs → print ps ≡ print qs → ps ≡ qs
  print-injective ps qs w v e = cc (pieces-print ps w, pieces-print qs v)

  module _ (mean : Text → Text)
      (solves : (n : Text) → Known n → mean n ≡ meaning mean (body n)) where
    meaning-step : (ps : List Piece) → Uses Known ps → meaning mean (step ps) ≡ meaning mean ps
    meaning-step [] h = refl
    meaning-step (lit c ∷ ps) h = cc (meaning-step ps h.1)
    meaning-step (var n ∷ ps) h =
        ground (arith, meaning-append mean (body n) (step ps), meaning-step ps h.1, solves n h.0)

    print_of_Below_zero : (ps : List Piece) → Below 0 ps → print ps ≡ meaning mean ps
    print_of_Below_zero [] h = refl
    print_of_Below_zero (lit c ∷ ps) h = cc (print_of_Below_zero ps h.1)
    print_of_Below_zero (var n ∷ ps) h = absurd (omega (arith, h.0))

    subst_loop-meaning :
        (fuel k : ℕ) (ps : List Piece)
        → Below k ps
        → All IsPiece ps
        → k < fuel
        → subst_loop fuel vars 0 (print ps) (print (step ps)) ≡ done (meaning mean ps)
    unfolding subst_loop
    subst_loop-meaning zero k ps h w enough = absurd (omega arith)
    subst_loop-meaning (suc fuel) zero ps h w enough = ground (
      arith,
      ap print (step_of_Below_zero ps h),
      text_beq_iff (print ps) (print (step ps)),
      print_of_Below_zero ps h,
    )
    subst_loop-meaning (suc fuel) (suc k) ps h w enough =
        let known = Below-Known (suc k) ps h in
        let w' = step-IsPiece ps known w in
        let h' = step-Below k ps h in
        elim (Bool-cases (print ps == print (step ps))) [
          | inl same ↦
              let e = (text_beq_iff (print ps) (print (step ps))).0 same in
              rw same (
                ap done (
                  print_of_Below_zero ps
                    (settled (suc k) ps (print-injective (step ps) ps w' w (sym e)) h)))
          | inr differ ↦ rw differ (
              rw (sub-print (step ps) (Below-Known k (step ps) h') w') (
                subst_loop-meaning fuel k (step ps) h' w' (omega arith)
                ∙ ap done (meaning-step ps known)))
        ]

    -- Where `%` stands only around the names of variables, in the text and in the values of the
    -- variables, so that there is no `%%`, with all variables below rank `k` and more fuel than `k`,
    -- `_subst_str` returns the text in which each variable has its final text, as the equations
    -- of the variables demand it.
    pub subst_str-meaning :
        (fuel k : ℕ) (ps : List Piece)
        → Uses (λ n. Known n × (rank n < k)) ps
        → All IsPiece ps
        → k < fuel
        → subst_str fuel vars (print ps) ≡ done (meaning mean ps)
    unfolding subst_str
    subst_str-meaning fuel zero ps h w enough = ground (
      arith,
      sub-print ps (Below-Known 0 ps h) w,
      ap print (step_of_Below_zero ps h),
      subst_loop-meaning fuel 0 ps h w enough,
    )
    subst_str-meaning fuel (suc k) ps h w enough =
        let known = Below-Known (suc k) ps h in
        let w' = step-IsPiece ps known w in
        let h' = step-Below k ps h in
        rw (sub-print ps known w) (
          rw (sub-print (step ps) (Below-Known k (step ps) h') w') (
            subst_loop-meaning fuel k (step ps) h' w' (omega arith)
            ∙ ap done (meaning-step ps known)))
