-- ===== src/Singularity/Hex.antt =====
-- Ranges of the class `HexRanges`, printed and read.
use ldms_test.Base.{
  ℕ, zero, suc, ◌+◌, ◌*◌, ◌/◌, ◌%◌, ◌<◌, ◌≤◌, ◌≡◌, refl, ap, sym, ◌∙◌, Text, List, [], ◌∷◌, ◌++◌,
  some, All, All-append, Bool-cases, inl, inr, ltb, ◌==◌, nat_eq, arith, append_assoc, append-nil,
  nat_beq_iff,
}
use ldms_test.Singularity.{
  Entry, Match, outside, first, dash, second, hex_digit, digit, found, dashed, scan, find_all,
  insort, insort_all, entry_le, hex_ranges, hex_char, hex_from, hex, entry_text, to_str,
}
use ldms_test.Singularity.Ranges.{Apart, prune-id}

hex_digit-hex_char : (v : ℕ) → v < 16 → hex_digit (hex_char v) ≡ some v
unfolding hex_digit hex_char
hex_digit-hex_char v h = ground arith

-- The digits of a number are read, in a state `m` that becomes `k n`.
module _ (m : Match) (k : ℕ → Match) (start : (v : ℕ) → digit m v ≡ k v)
    (more : (x v : ℕ) → digit (k x) v ≡ k (x * 16 + v)) where
  scan-digit :
      (n : Match) (v : ℕ) (s : Text) → v < 16 → scan n (hex_char v ∷ s) ≡ scan (digit n v) s
  unfolding scan
  scan-digit n v s h = rw (hex_digit-hex_char v h, scan) refl

  scan-hex_from : (fuel n : ℕ) (s : Text) → n < fuel → scan m (hex_from fuel n ++ s) ≡ scan (k n) s
  unfolding hex_from
  scan-hex_from zero n s h = elim h [ ]
  scan-hex_from (suc fuel) n s h = elim (Bool-cases (ltb n 16)) [
    | inl f ↦ rw f (scan-digit m n s (ground (arith, f)) ∙ ap (λ x. scan x s) (start n))
    | inr f ↦ rw f (
        ap (scan m) (append_assoc (hex_from fuel (n / 16)) (hex_char (n % 16) ∷ []) s)
        ∙ scan-hex_from fuel (n / 16) (hex_char (n % 16) ∷ s) (ground (arith, f))
        ∙ scan-digit (k (n / 16)) (n % 16) s (omega arith)
        ∙ ap (λ x. scan x s) (more (n / 16) (n % 16))
        ∙ ap (λ x. scan (k x) s) (omega arith))
  ]

scan-first : (n : ℕ) (s : Text) → scan outside (hex n ++ s) ≡ scan (first n) s
unfolding hex
scan-first n s =
    scan-hex_from outside first (λ v. unfold digit in refl) (λ x v. unfold digit in refl) (suc n) n
      s (omega arith)

scan-second : (a n : ℕ) (s : Text) → scan (dash a) (hex n ++ s) ≡ scan (second a n) s
unfolding hex
scan-second a n s =
    scan-hex_from (dash a) (second a) (λ v. unfold digit in refl) (λ x v. unfold digit in refl)
      (suc n) n s (omega arith)

-- The text of an entry is read up to what ends it.
scan-entry :
    (a b : ℕ) (s : Text) (es : List Entry)
    → ((m : Match) → scan m s ≡ found m es)
    → scan outside (entry_text (a, b) ++ s) ≡ (a, b) ∷ es
unfolding entry_text
scan-entry a b s es h = elim (Bool-cases (a == b)) [
  | inl f ↦
      rw f (
        scan-first a s
        ∙ h (first a)
        ∙ unfold found in ap (λ x. (a, x) ∷ es) ((nat_beq_iff a b).0 f))
  | inr f ↦ rw f (
      ap (scan outside) (append_assoc (hex a) (b'-' ∷ hex b) s)
      ∙ scan-first a (b'-' ∷ (hex b ++ s))
      ∙ unfold scan hex_digit dashed in
        refl ∙ scan-second a b s ∙ h (second a b) ∙ unfold found in refl)
]

find_all-to_str : (es : List Entry) → find_all (to_str es) ≡ es
unfolding find_all to_str
find_all-to_str [] = unfold scan found in refl
find_all-to_str ((a, b) ∷ []) =
    ap (scan outside) (sym (append-nil (entry_text (a, b))))
    ∙ scan-entry a b [] [] (λ m. unfold scan in refl)
find_all-to_str ((a, b) ∷ (e ∷ es)) =
    scan-entry a b (b',' ∷ to_str (e ∷ es)) (e ∷ es)
      (λ m. unfold scan hex_digit in ap (found m) (find_all-to_str (e ∷ es)))

insort-end :
    (a b : ℕ) (es : List Entry) → All (λ (c, d). c < a) es → insort (a, b) es ≡ es ++ ((a, b) ∷ [])
unfolding insort entry_le
insort-end a b [] p = refl
insort-end a b ((c, d) ∷ es) p = ground (arith, insort-end a b es p.1)

insort_all-append :
    (k m : ℕ) (es acc : List Entry)
    → Apart k m es
    → All (λ (c, d). c < k) acc
    → insort_all es acc ≡ acc ++ es
unfolding insort_all
insort_all-append k m [] acc p q = sym (append-nil acc)
insort_all-append k m ((a, b) ∷ es) acc p q =
    ap (insort_all es) (insort-end a b acc (lower k a acc p.0 q))
    ∙ insort_all-append (b + 1) m es (acc ++ ((a, b) ∷ [])) p.3 (
        All-append (λ (c, d). c < b + 1) acc ((a, b) ∷ []) (lower k (b + 1) acc (omega arith) q)
          (omega arith, tt))
    ∙ append_assoc acc ((a, b) ∷ []) es
  where
    lower :
        (k l : ℕ) (es : List Entry) → k ≤ l → All (λ (c, d). c < k) es → All (λ (c, d). c < l) es
    lower k l [] h p = tt
    lower k l ((c, d) ∷ es) h p = (omega arith, lower k l es h p.1)

-- Ranges in order, none of which reaches the next, are read back from their text.
pub hex_ranges-to_str : (l m : ℕ) (es : List Entry) → Apart l m es → hex_ranges (to_str es) ≡ es
unfolding hex_ranges
hex_ranges-to_str l m es p =
    rw (find_all-to_str es) (rw (insort_all-append l m es [] p tt) (prune-id l m es p))
