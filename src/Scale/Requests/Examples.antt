-- ===== src/Scale/Requests/Examples.antt =====
-- A command of the scalability test.
use ldms_test.Base.{
  ◌≡◌, refl, ℕ, Text, Bool, List, [], ◌∷◌, ◌==◌, nat_eq, text_eq, text_beq, contains,
}
use ldms_test.Base.Strings.{text, Lacks-of_lacks}
use ldms_test.Scale.Requests.{request, is_kept}
use ldms_test.Scale.Requests.Lines.{given, line, request-line}

abbrev blank : ℕ → Bool
blank c = c == b' '

abbrev named_only : Text → Bool
named_only k = contains k (text "name" ∷ text "host" ∷ [])

abbrev two : List (Text × Text)
two = (text "name", text "n1") ∷ (text "host", text "h") ∷ []

request-line_example :
    request blank named_only (line (text "prdcr_add") two)
    ≡ record { verb = text "prdcr_add"; attrs = given two }
unfolding is_kept contains text_beq
request-line_example =
    request-line blank refl named_only (text "prdcr_add") two
      (Lacks-of_lacks b' ' (text "prdcr_add") refl)
      (
        (λ e. cc, (refl, (refl, (refl, (refl, (refl, (refl, (refl, tt)))))))),
        ((λ e. cc, (refl, (refl, (refl, (refl, (refl, (refl, tt))))))), tt),
      )
      (
        (Lacks-of_lacks b'=' (text "name") refl, refl),
        ((Lacks-of_lacks b'=' (text "host") refl, refl), tt),
      )
