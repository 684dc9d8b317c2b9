-- ===== src/Scale/MonStat/Examples.antt =====
-- A line of `MonStat` for a daemon that does not run, whose fields are all 0.
use ldms_test.Base.{
  ◌≡◌, refl, ap, ◌∙◌, ℕ, zero, suc, ◌-◌, arith, ◌==◌, nat_eq, Option-cases, inl, inr, Text, true,
  false, List, [], ◌∷◌, none, Result, ok, text_beq,
}
use ldms_test.Base.Dict
use ldms_test.Base.Int.{ℤ, pos, negsuc, int_text}
use ldms_test.Base.Strings.{
  text, value_from, value_from-decimal, decimal, Lacks, Lacks-of_lacks, All-of_all_lack,
}
use ldms_test.Scale.{rsplit}
use ldms_test.Scale.Names.{decimal-none}
use ldms_test.Scale.MonStat.{
  MonStat, Stat, num, chars, from_str, to_str, from_ldmsd, stat_metrics_idx,
}
use ldms_test.Scale.MonStat.Lines.{from_str-to_str}

-- One moment in time
data Moment : Type 0 where
  now : Moment

abbrev moment : Text → Result Moment
moment s = ok now

abbrev moment_text : Moment → Text
moment_text now = text "1.5"

abbrev zeros : ℕ → List Text
zeros zero = []
zeros (suc n) = text "0" ∷ zeros n

abbrev zero_stats : ℕ → List Stat
zero_stats zero = []
zero_stats (suc n) = num (pos 0) ∷ zero_stats n

-- `int` of the texts that `str` gives numbers
abbrev int_of : Text → Result ℤ
int_of [] = ok (pos 0)
int_of (c ∷ s) = elim (c == b'-') [
  | true ↦ ok (negsuc (value_from 0 s - 1))
  | false ↦ ok (pos (value_from 0 (c ∷ s)))
]

int_of_plain : (s : Text) → rsplit s ≡ none → int_of s ≡ ok (pos (value_from 0 s))
unfolding rsplit value_from
int_of_plain [] h = refl
int_of_plain (c ∷ s) h = elim (Option-cases (rsplit s)) [
  | inl e ↦ ground (arith, e, h)
  | inr (p, e) ↦ ground (arith, e, h)
]

int_of-int_text : (z : ℤ) → int_of (int_text z) ≡ ok z
unfolding int_text
int_of-int_text (pos n) =
    int_of_plain (decimal n) (decimal-none n) ∙ ap (λ k. ok (pos k)) (value_from-decimal n)
int_of-int_text (negsuc n) =
    ap (λ k. ok (negsuc (k - 1))) (value_from-decimal (suc n))
    ∙ ap (λ k. ok (negsuc k)) (omega arith)

abbrev stopped : MonStat Moment
stopped = record {
  ts = now;
  name = text "a-1";
  fd = pos 0;
  stats = chars (text "0") ∷ zero_stats 20;
}

moment_law : (t : Moment) → moment (moment_text t) ≡ ok t
moment_law now = refl

moment_text-Lacks : (t : Moment) → Lacks b' ' (moment_text t)
moment_text-Lacks now = Lacks-of_lacks b' ' (text "1.5") refl

from_str-to_str_example :
    from_str moment moment_text int_of (to_str moment moment_text int_of stopped) ≡ ok stopped
unfolding from_ldmsd value_from stat_metrics_idx Dict.lookup Dict.insert text_beq
from_str-to_str_example =
    from_str-to_str moment moment_text int_of moment_law moment_text-Lacks int_of-int_text now
      (text "a-1") (pos 0) (zeros 52) stopped (Lacks-of_lacks b' ' (text "a-1") refl)
      (All-of_all_lack b' ' (zeros 52) refl) refl
