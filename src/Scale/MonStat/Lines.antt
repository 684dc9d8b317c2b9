-- ===== src/Scale/MonStat/Lines.antt =====
-- A line of `MonStat` reads back.
use ldms_test.Base.{
  ◌≡◌, refl, sym, ap, ◌∙◌, ℕ, zero, suc, ◌<◌, ◌+◌, ◌/◌, ◌%◌, Text, Bool, true, false, List, [], ◌∷◌,
  ◌++◌, some, Result, ok, ◌>>=◌, ◌==◌, nat_eq, nat_beq_iff, All, All-append, arith, Option-cases,
  Bool-cases, err, type_error, inl, inr, subst, some-injective, >>=-eq-ok, length, get_elem?,
  if◌then◌else◌, ltb,
}
use ldms_test.Base.Int.{ℤ, pos, negsuc, int_text}
use ldms_test.Base.Strings.{split-join, Lacks, decimal, decimal_from}
use ldms_test.Scale.MonStat.{
  MonStat, Stat, num, chars, stat_text, stat_texts, is_str, convert, convert_each, stat_metrics,
  stat_metrics_idx, from_str, from_parts, complete, to_str, from_ldmsd, stat_at,
}

digit-Lacks : (d : ℕ) → d < 10 → Lacks b' ' ((48 + d) ∷ [])
digit-Lacks d h = (ground (arith, nat_beq_iff (48 + d) b' '), tt)

decimal_from-Lacks : (fuel n : ℕ) → Lacks b' ' (decimal_from fuel n)
unfolding decimal_from
decimal_from-Lacks zero n = tt
decimal_from-Lacks (suc fuel) n =
    by (ltb n 10) ((48 + n) ∷ []) (decimal_from fuel (n / 10) ++ ((48 + n % 10) ∷ []))
      (λ h. digit-Lacks n (ground (arith, h)))
      (All-append (λ d. (d == b' ') ≡ false) (decimal_from fuel (n / 10)) ((48 + n % 10) ∷ [])
        (decimal_from-Lacks fuel (n / 10)) (digit-Lacks (n % 10) (omega arith)))
  where
    by :
        (b : Bool) (s t : Text)
        → (b ≡ true → Lacks b' ' s)
        → Lacks b' ' t
        → Lacks b' ' (if b then s else t)
    by true s t h k = h refl
    by false s t h k = k

int_text-Lacks : (z : ℤ) → Lacks b' ' (int_text z)
unfolding int_text decimal
int_text-Lacks (pos n) = decimal_from-Lacks (suc n) n
int_text-Lacks (negsuc n) = (refl, decimal_from-Lacks (suc (suc n)) (suc n))

-- A value has the type of its metric, and a text has no space.
abbrev pub HasType : ℕ → Stat → Type 0
HasType i (num z) = is_str i ≡ false
HasType i (chars s) = (is_str i ≡ true) × Lacks b' ' s

abbrev pub HasTypes : List ℕ → List Stat → Type 0
HasTypes [] [] = Unit
HasTypes [] (s ∷ ss) = ⊥
HasTypes (i ∷ idx) [] = ⊥
HasTypes (i ∷ idx) (s ∷ ss) = HasType i s × HasTypes idx ss

stat_texts-Lacks :
    (idx : List ℕ) (ss : List Stat) → HasTypes idx ss → All (Lacks b' ') (stat_texts ss)
unfolding stat_texts stat_text
stat_texts-Lacks [] [] h = tt
stat_texts-Lacks [] (s ∷ ss) h = absurd h
stat_texts-Lacks (i ∷ idx) [] h = absurd h
stat_texts-Lacks (i ∷ idx) (num z ∷ ss) h = (int_text-Lacks z, stat_texts-Lacks idx ss h.1)
stat_texts-Lacks (i ∷ idx) (chars t ∷ ss) h = (h.0.1, stat_texts-Lacks idx ss h.1)

length-HasTypes : (idx : List ℕ) (ss : List Stat) → HasTypes idx ss → length ss ≡ length idx
length-HasTypes [] [] h = refl
length-HasTypes [] (s ∷ ss) h = absurd h
length-HasTypes (i ∷ idx) [] h = absurd h
length-HasTypes (i ∷ idx) (s ∷ ss) h = ap suc (length-HasTypes idx ss h.1)

module _ (int : Text → Result ℤ) where
  convert-HasType :
      (i : ℕ) (x : Text) (s : Stat) → convert int i x ≡ ok s → Lacks b' ' x → HasType i s
  unfolding convert
  convert-HasType i x s h l = by (is_str i) refl h
    where
      by :
          (b : Bool)
          → is_str i ≡ b
          → elim b [ true ↦ ok (chars x) | false ↦ int x >>= λ z. ok (num z) ] ≡ ok s
          → HasType i s
      by true e h = subst (HasType i) (same (chars x) s h) (e, l)
        where
          same : (a b : Stat) → ok a ≡ ok b → a ≡ b
          same a b h = cc
      by false e h = let (z, p, q) = >>=-eq-ok (int x) _ h in subst (HasType i) (same (num z) s q) e
        where
          same : (a b : Stat) → ok a ≡ ok b → a ≡ b
          same a b h = cc

  listed-Lacks :
      (stat : List Text) (i : ℕ) (x : Text)
      → All (Lacks b' ') stat
      → get_elem? stat i ≡ some x
      → Lacks b' ' x
  listed-Lacks [] i x a h = cc
  listed-Lacks (y ∷ stat) zero x a h = subst (Lacks b' ') (some-injective y x h) a.0
  listed-Lacks (y ∷ stat) (suc i) x a h = listed-Lacks stat i x a.1 h

  stat_at-HasTypes :
      (stat : List Text) (idx : List ℕ) (ss : List Stat)
      → All (Lacks b' ') stat
      → stat_at int stat idx ≡ ok ss
      → HasTypes idx ss
  unfolding stat_at
  stat_at-HasTypes stat [] ss a h = subst (HasTypes []) (same [] ss h) tt
    where
      same : (x y : List Stat) → ok x ≡ ok y → x ≡ y
      same x y h = cc
  stat_at-HasTypes stat (i ∷ idx) ss a h = elim (Option-cases (get_elem? stat i)) [
    | inl e ↦ ground (arith, e, h)
    | inr (x, e) ↦
        let (s, p, h1) = >>=-eq-ok (convert int i x) _ (sym (step x e) ∙ h) in
        let (rest, q, h2) = >>=-eq-ok (stat_at int stat idx) _ h1 in
        subst (HasTypes (i ∷ idx)) (same (s ∷ rest) ss h2)
          (convert-HasType i x s p (listed-Lacks stat i x a e), stat_at-HasTypes stat idx rest a q)
  ]
    where
      same : (x y : List Stat) → ok x ≡ ok y → x ≡ y
      same x y h = cc

      step :
          (x : Text)
          → get_elem? stat i ≡ some x
          → stat_at int stat (i ∷ idx)
            ≡ (convert int i x >>= λ s. stat_at int stat idx >>= λ rest. ok (s ∷ rest))
      step x e = rw (e, stat_at) refl

  module _ (int_law : (z : ℤ) → int (int_text z) ≡ ok z) where
    convert_each-HasTypes :
        (idx : List ℕ) (ss : List Stat)
        → HasTypes idx ss
        → convert_each int (stat_texts ss) idx ≡ ok ss
    unfolding convert_each convert stat_texts stat_text
    convert_each-HasTypes [] [] h = refl
    convert_each-HasTypes [] (s ∷ ss) h = absurd h
    convert_each-HasTypes (i ∷ idx) [] h = absurd h
    convert_each-HasTypes (i ∷ idx) (num z ∷ ss) h =
        rw (h.0, convert) (rw (int_law z) (rw (convert_each-HasTypes idx ss h.1) refl))
    convert_each-HasTypes (i ∷ idx) (chars t ∷ ss) h =
        rw (h.0.0, convert) (rw (convert_each-HasTypes idx ss h.1) refl)

module _ {F : Type 0} (float : Text → Result F) (float_text : F → Text) (int : Text → Result ℤ)
    (float_law : (t : F) → float (float_text t) ≡ ok t)
    (float_text_law : (t : F) → Lacks b' ' (float_text t))
    (int_law : (z : ℤ) → int (int_text z) ≡ ok z) where
  complete_fields :
      (t : F) (name : Text) (fd : ℤ) (ss : List Stat) (m : MonStat F)
      → complete float float_text int t name fd ss ≡ ok m
      → record { ts = t; name = name; fd = fd; stats = ss } ≡ m
  unfolding complete
  complete_fields t name fd ss m h = elim (Bool-cases (length ss == length stat_metrics)) [
    | inl e ↦ same _ m (sym (step e) ∙ h)
    | inr e ↦ absurd (clash (sym (failed e) ∙ h))
  ]
    where
      same : (x y : MonStat F) → ok x ≡ ok y → x ≡ y
      same x y h = cc

      clash : err type_error ≡ ok m → ⊥
      clash h = cc

      step :
          (length ss == length stat_metrics) ≡ true
          → complete float float_text int t name fd ss
            ≡ ok (record { ts = t; name = name; fd = fd; stats = ss })
      step e = rw (e, complete) refl

      failed :
          (length ss == length stat_metrics) ≡ false
          → complete float float_text int t name fd ss ≡ err type_error
      failed e = rw (e, complete) refl

  line_read :
      (t : F) (name : Text) (fd : ℤ) (ss : List Stat)
      → Lacks b' ' name
      → HasTypes stat_metrics_idx ss
      → from_str float float_text int
          (to_str float float_text int (record { ts = t; name = name; fd = fd; stats = ss }))
        ≡ complete float float_text int t name fd ss
  unfolding from_str from_parts to_str
  line_read t name fd ss l h =
      rw
        (split-join b' ' (float_text t) (name ∷ (int_text fd ∷ stat_texts ss)) (float_text_law t)
          (l, (int_text-Lacks fd, stat_texts-Lacks stat_metrics_idx ss h)))
        (rw (float_law t)
          (rw (int_law fd) (rw (convert_each-HasTypes int int_law stat_metrics_idx ss h) refl)))

  -- What `from_LDMSD` makes of the fields in /proc/PID/stat, none of which has a space, for a daemon
  -- whose name has none, is read back by `from_str` from the line that `__str__` prints of it.
  pub from_str-to_str :
      (t : F) (name : Text) (fd : ℤ) (stat : List Text) (m : MonStat F)
      → Lacks b' ' name
      → All (Lacks b' ') stat
      → from_ldmsd float float_text int t name fd stat ≡ ok m
      → from_str float float_text int (to_str float float_text int m) ≡ ok m
  unfolding from_ldmsd
  from_str-to_str t name fd stat m l a h =
      let (ss, p, q) = >>=-eq-ok (stat_at int stat stat_metrics_idx) _ h in
      ap (λ x. from_str float float_text int (to_str float float_text int x))
        (sym (complete_fields t name fd ss m q))
      ∙ line_read t name fd ss l (stat_at-HasTypes int stat stat_metrics_idx ss a p)
      ∙ q
