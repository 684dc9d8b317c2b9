-- ===== src/Spec/Subst/Pieces.antt =====
-- How `VAR_RE` splits a text that was built from plain characters and variables.
use ldms_test.Base.{
  ◌≡◌, refl, Text, true, false, none, some, List, [], ◌∷◌, ◌++◌, ◌==◌, nat_eq, All, arith,
  append_assoc, append-nil, ap, ◌∙◌,
}
use ldms_test.Spec.Subst.{Piece, lit, var, pieces, pieces_from, is_word}

-- `%` stands in no plain character, and a variable's name has word characters only.
abbrev pub IsPiece : Piece → Type 0
IsPiece (lit c) = (c == b'%') ≡ false
IsPiece (var w) = All (λ c. is_word c ≡ true) w

abbrev pub print : List Piece → Text
print [] = []
print (lit c ∷ ps) = c ∷ print ps
print (var w ∷ ps) = b'%' ∷ (w ++ (b'%' ∷ print ps))

pieces_from-word :
    (acc w s : Text)
    → All (λ c. is_word c ≡ true) w
    → pieces_from (some acc) (w ++ (b'%' ∷ s)) ≡ var (acc ++ w) ∷ pieces_from none s
unfolding pieces_from
pieces_from-word acc [] s h = unfold is_word in rw append-nil
pieces_from-word acc (c ∷ w) s h = rw (h.0) (
    pieces_from-word (acc ++ (c ∷ [])) w s h.1
    ∙ ap (λ v. var v ∷ pieces_from none s) (append_assoc acc (c ∷ []) w))

-- The split of a printed text gives its pieces back.
pub pieces-print : (ps : List Piece) → All IsPiece ps → pieces (print ps) ≡ ps
unfolding pieces
pieces-print [] h = refl
pieces-print (lit c ∷ ps) h = ground (arith, pieces-print ps h.1)
pieces-print (var w ∷ ps) h =
    pieces_from-word [] w (print ps) h.0 ∙ ap (λ qs. var w ∷ qs) (pieces-print ps h.1)
