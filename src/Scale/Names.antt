-- ===== src/Scale/Names.antt =====
-- Names of daemons and their numbers.
use ldms_test.Base.{
  ◌≡◌, refl, ap, ◌∙◌, ℕ, zero, suc, ◌+◌, ◌/◌, ◌%◌, ◌<◌, Text, false, List, [], ◌∷◌, ◌++◌, none,
  some, text_eq, text_beq_iff, contains, get_elem?, nat_eq, nat_beq_iff, arith, Option-cases, inl,
  inr, some-injective, subst,
}
use ldms_test.Base.Dict
use ldms_test.Base.Dict.{Dict, lookup-insert}
use ldms_test.Base.Strings.{decimal, decimal_from}
use ldms_test.Objects.Commit.{IsDistinct}
use ldms_test.Scale.{daemon_name, number_from, rsplit}

rsplit-none-append : (s t : Text) → rsplit s ≡ none → rsplit t ≡ none → rsplit (s ++ t) ≡ none
unfolding rsplit
rsplit-none-append [] t h k = k
rsplit-none-append (x ∷ s) t h k = elim (Option-cases (rsplit s)) [
  | inl e ↦ ground (arith, e, rsplit-none-append s t e k)
  | inr (p, e) ↦ ground (arith, e)
]

digit_none : (d : ℕ) → d < 10 → rsplit ((48 + d) ∷ []) ≡ none
unfolding rsplit
digit_none d h = ground (arith, nat_beq_iff (48 + d) b'-')

decimal_from-none : (fuel n : ℕ) → rsplit (decimal_from fuel n) ≡ none
unfolding decimal_from
decimal_from-none zero n = unfold rsplit in refl
decimal_from-none (suc fuel) n =
    let tail = decimal_from-none fuel (n / 10) in
    ground (
      arith,
      digit_none n,
      rsplit-none-append (decimal_from fuel (n / 10)) ((48 + n % 10) ∷ []) tail
          (digit_none (n % 10) (omega arith)),
    )

pub decimal-none : (n : ℕ) → rsplit (decimal n) ≡ none
unfolding decimal
decimal-none n = decimal_from-none (suc n) n

-- The host and the port of a name come back.
pub rsplit-daemon_name : (h : Text) (p : ℕ) → rsplit (daemon_name h p) ≡ some (h, decimal p)
unfolding rsplit daemon_name
rsplit-daemon_name [] p = rw (decimal-none p, rsplit) refl
rsplit-daemon_name (x ∷ h) p = rw (rsplit-daemon_name h p) refl

lookup-number_from_other :
    (i : ℕ) (k : Text) (ks : List Text) (d : Dict Text ℕ)
    → contains k ks ≡ false
    → Dict.lookup k (number_from i ks d) ≡ Dict.lookup k d
unfolding number_from contains
lookup-number_from_other i k [] d h = refl
lookup-number_from_other i k (j ∷ ks) d h =
    lookup-number_from_other (suc i) k ks (Dict.insert j i d) (ground (arith, h))
    ∙ lookup-insert k j i d
    ∙ ground (arith, h)

-- Each of different names has its place as its number.
pub lookup-number_from :
    (i j : ℕ) (k : Text) (ks : List Text) (d : Dict Text ℕ)
    → IsDistinct ks
    → get_elem? ks j ≡ some k
    → Dict.lookup k (number_from i ks d) ≡ some (i + j)
unfolding number_from
lookup-number_from i j k [] d u h = cc
lookup-number_from i zero k (x ∷ ks) d u h =
    let e : x ≡ k = some-injective x k h in
    lookup-number_from_other (suc i) k ks (Dict.insert x i d)
      (subst (λ y. contains y ks ≡ false) e u.0)
    ∙ lookup-insert k x i d
    ∙ rw ((text_beq_iff x k).1 e) (ap some (omega arith))
lookup-number_from i (suc j) k (x ∷ ks) d u h =
    lookup-number_from (suc i) j k ks (Dict.insert x i d) u.1 h ∙ ap some (omega arith)
