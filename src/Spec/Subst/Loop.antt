-- ===== src/Spec/Subst/Loop.antt =====
-- The loop of `_subst_str`: what it returns, what it never raises, and when it does not end.
use ldms_test.Base.{
  ℕ, zero, suc, ◌≡◌, ◌≢◌, refl, Text, true, some, List, [], ◌∷◌, ◌≤◌, nat_eq, text_eq, text_beq_iff,
  inl, inr, ok, err, Result-cases, Exc, key_error, arith, All, append-nil,
}
use ldms_test.Base.Dict
use ldms_test.Base.Outcome.{done, raised, running}
use ldms_test.Value.{str, str_of}
use ldms_test.Spec.Subst.{Vars, Piece, lit, var, pieces, is_word, fill, sub, subst_loop, subst_str}
use ldms_test.Spec.Subst.Pieces.{print, pieces-print}

fill-err : (vars : Vars) (ps : List Piece) (e : Exc) → fill vars ps ≡ err e → e ≡ key_error
unfolding fill
fill-err vars [] e h = cc
fill-err vars (lit c ∷ ps) e h = ground (arith, fill-err vars ps e)
fill-err vars (var n ∷ ps) e h = ground (arith, fill-err vars ps e)

sub-err : (vars : Vars) (s : Text) (e : Exc) → sub vars s ≡ err e → e ≡ key_error
unfolding sub
sub-err vars s e h = fill-err vars (pieces s) e h

subst_loop-raised :
    (fuel : ℕ) (vars : Vars) (count : ℕ) (s0 s1 : Text) (e : Exc)
    → count ≤ 128
    → subst_loop fuel vars count s0 s1 ≡ raised e
    → e ≡ key_error
unfolding subst_loop
subst_loop-raised zero vars count s0 s1 e low h = cc
subst_loop-raised (suc fuel) vars count s0 s1 e low h = elim (Result-cases (sub vars s1)) [
  | inl (s2, next) ↦ ground (arith, next, h, low, subst_loop-raised fuel vars count s1 s2 e low)
  | inr (e', bad) ↦ ground (arith, bad, h, low, sub-err vars s1 e')
]

-- The only exception of `_subst_str` is the `KeyError` of an unknown variable: the `ValueError`
-- for too many levels is never raised, since the counter stays 0.
pub subst_str-raised :
    (fuel : ℕ) (vars : Vars) (val : Text) (e : Exc)
    → subst_str fuel vars val ≡ raised e
    → e ≡ key_error
unfolding subst_str
subst_str-raised fuel vars val e h = elim (Result-cases (sub vars val)) [
  | inr (e', bad) ↦ ground (arith, sub-err vars val e')
  | inl (s0, first) ↦ elim (Result-cases (sub vars s0)) [
    | inr (e', bad) ↦ ground (arith, sub-err vars s0 e')
    | inl (s1, second) ↦ ground (arith, subst_loop-raised fuel vars 0 s0 s1 e (omega arith))
  ]
]

subst_loop-fixed :
    (fuel : ℕ) (vars : Vars) (count : ℕ) (s0 s1 r : Text)
    → sub vars s0 ≡ ok s1
    → subst_loop fuel vars count s0 s1 ≡ done r
    → sub vars r ≡ ok r
unfolding subst_loop
subst_loop-fixed zero vars count s0 s1 r step h = cc
subst_loop-fixed (suc fuel) vars count s0 s1 r step h = elim (Result-cases (sub vars s1)) [
  | inl (s2, next) ↦
      ground (arith, text_beq_iff s0 s1, subst_loop-fixed fuel vars count s1 s2 r next)
  | inr (e, bad) ↦ ground (arith, text_beq_iff s0 s1)
]

-- What `_subst_str` returns is left as it is by another substitution.
pub subst_str-fixed :
    (fuel : ℕ) (vars : Vars) (val r : Text) → subst_str fuel vars val ≡ done r → sub vars r ≡ ok r
unfolding subst_str
subst_str-fixed fuel vars val r h = elim (Result-cases (sub vars val)) [
  | inr (e, bad) ↦ ground arith
  | inl (s0, first) ↦ elim (Result-cases (sub vars s0)) [
    | inr (e, bad) ↦ ground arith
    | inl (s1, second) ↦ ground (arith, subst_loop-fixed fuel vars 0 s0 s1 r second)
  ]
]

-- `%name%`
abbrev pub reference : Text → Text
reference w = print (var w ∷ [])

sub-reference :
    (vars : Vars) (w t : Text)
    → All (λ c. is_word c ≡ true) w
    → Dict.lookup w vars ≡ some (str t)
    → sub vars (reference w) ≡ ok t
unfolding sub fill str_of
sub-reference vars w t h e =
    rw (pieces-print (var w ∷ []) (h, tt)) (ground (arith, e, append-nil t))

module _ (vars : Vars) (x y : Text) (word_x : All (λ c. is_word c ≡ true) x)
    (word_y : All (λ c. is_word c ≡ true) y) (differ : x ≢ y)
    (at_x : Dict.lookup x vars ≡ some (str (reference y)))
    (at_y : Dict.lookup y vars ≡ some (str (reference x))) where
  reference_ne : reference x ≢ reference y
  reference_ne e =
      differ (cc (pieces-print (var x ∷ []) (word_x, tt), pieces-print (var y ∷ []) (word_y, tt)))

  swapping :
      (fuel count : ℕ)
      → count ≤ 128
      → (subst_loop fuel vars count (reference x) (reference y) ≡ running)
        × (subst_loop fuel vars count (reference y) (reference x) ≡ running)
  unfolding subst_loop
  swapping zero count low = (refl, refl)
  swapping (suc fuel) count low = ground (
    arith,
    reference_ne,
    text_beq_iff (reference x) (reference y),
    text_beq_iff (reference y) (reference x),
    sub-reference vars x (reference y) word_x at_x,
    sub-reference vars y (reference x) word_y at_y,
    swapping fuel count low,
  )

  -- Two variables that stand for each other keep `_subst_str` running, whatever the fuel.
  pub subst_str-swap_runs : (fuel : ℕ) → subst_str fuel vars (reference x) ≡ running
  unfolding subst_str
  subst_str-swap_runs fuel = ground (
    arith,
    sub-reference vars x (reference y) word_x at_x,
    sub-reference vars y (reference x) word_y at_y,
    (swapping fuel 0 (omega arith)).1,
  )
