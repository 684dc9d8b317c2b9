-- ===== src/Singularity/Addresses/Free.antt =====
-- The addresses that no cluster has, and those that `alloc_addr` takes of them.
use ldms_test.Base.{
  ℕ, zero, suc, ◌+◌, ◌-◌, ◌≤◌, ◌<◌, ◌≡◌, inl, inr, refl, ap, ◌∙◌, List, [], ◌∷◌, ◌++◌, All,
  All-append, Bool-cases, ltb, leb, if◌then◌else◌, arith, append_assoc, append-nil,
}
use ldms_test.Singularity.{Entry, inv_from}
use ldms_test.Singularity.Ranges.{Clear, Apart, Apart-Clear, Apart-weaken, size, ins-end}
use ldms_test.Singularity.Addresses.{take_from}

-- The ranges between those given.
unfoldable pub gaps : ℕ → ℕ → List Entry → List Entry
gaps l last [] = if leb l last then (l, last) ∷ [] else []
gaps l last ((a, b) ∷ es) =
    if ltb l a then (l, a - 1) ∷ gaps (b + 1) last es else gaps (b + 1) last es

abbrev Below : ℕ → List Entry → Type 0
Below k = All (λ (c, d). c ≤ d × d < k)

Below-weaken : (k l : ℕ) (es : List Entry) → k ≤ l → Below k es → Below l es
Below-weaken k l [] h p = tt
Below-weaken k l (e ∷ es) h p = ((p.0.0, omega arith), Below-weaken k l es h p.1)

pub inv_from-gaps :
    (l last : ℕ) (es new : List Entry)
    → Apart l last es
    → Below l new
    → inv_from l last es new ≡ new ++ gaps l last es
unfolding inv_from gaps
inv_from-gaps l last [] new p q = elim (Bool-cases (leb l last)) [
  | inl f ↦ rw f (ins-end l last new q)
  | inr f ↦ rw (f, append-nil) refl
]
inv_from-gaps l last ((a, b) ∷ es) new p q = elim (Bool-cases (ltb l a)) [
  | inl f ↦ rw f (
      ap (inv_from (b + 1) last es) (ins-end l (a - 1) new q)
      ∙ inv_from-gaps (b + 1) last es (new ++ ((l, a - 1) ∷ [])) p.3 (
          All-append (λ (c, d). c ≤ d × d < b + 1) new ((l, a - 1) ∷ [])
            (Below-weaken l (b + 1) new (omega arith) q) (ground (arith, f), tt))
      ∙ append_assoc new ((l, a - 1) ∷ []) (gaps (b + 1) last es))
  | inr f ↦
      rw f (inv_from-gaps (b + 1) last es new p.3 (Below-weaken l (b + 1) new (omega arith) q))
]

pub gaps-Apart : (l last : ℕ) (es : List Entry) → Apart l last es → Apart l last (gaps l last es)
unfolding gaps
gaps-Apart l last [] p = ground arith
gaps-Apart l last ((a, b) ∷ es) p = elim (Bool-cases (ltb l a)) [
  | inl f ↦ rw f (
    omega arith,
    ground (arith, f),
    omega arith,
    Apart-weaken (a - 1 + 1) (b + 1) last (gaps (b + 1) last es) (ground (arith, f))
        (gaps-Apart (b + 1) last es p.3),
  )
  | inr f ↦ rw f (
      Apart-weaken l (b + 1) last (gaps (b + 1) last es) (omega arith)
        (gaps-Apart (b + 1) last es p.3))
]

-- Ranges behind `e` are clear of it.
All-Clear-cons :
    (k m : ℕ) (e : Entry) (es gs : List Entry)
    → e.1 < k
    → Apart k m gs
    → All (λ g. All (Clear g) es) gs
    → All (λ g. All (Clear g) (e ∷ es)) gs
All-Clear-cons k m e es [] h p q = tt
All-Clear-cons k m (c, d) es ((a, b) ∷ gs) h p q =
    ((inr (omega arith), q.0), All-Clear-cons (b + 1) m (c, d) es gs (omega arith) p.3 q.1)

-- A gap has no number of the ranges.
pub gaps-Clear :
    (l last : ℕ) (es : List Entry) → Apart l last es → All (λ g. All (Clear g) es) (gaps l last es)
unfolding gaps
gaps-Clear l last [] p = elim (Bool-cases (leb l last)) [ inl f ↦ rw f (tt, tt) | inr f ↦ rw f tt ]
gaps-Clear l last ((a, b) ∷ es) p =
    let rest : All (λ g. All (Clear g) ((a, b) ∷ es)) (gaps (b + 1) last es) =
      All-Clear-cons (b + 1) last (a, b) es (gaps (b + 1) last es) (omega arith)
        (gaps-Apart (b + 1) last es p.3) (gaps-Clear (b + 1) last es p.3) in
    elim (Bool-cases (ltb l a)) [
      | inl f ↦
          rw f (
            (inl (ground (arith, f)), Apart-Clear (b + 1) last l (a - 1) es (omega arith) p.3),
            rest,
          )
      | inr f ↦ rw f rest
    ]

-- What is free and what is not make up the bounds.
pub size-gaps :
    (l last : ℕ) (es : List Entry)
    → Apart l last es
    → size (gaps l last es) + size es ≡ last + 1 - l
unfolding gaps
size-gaps l last [] p = ground arith
size-gaps l last ((a, b) ∷ es) p = elim (Bool-cases (ltb l a)) [
  | inl f ↦ rw f (ground (arith, f, size-gaps (b + 1) last es p.3))
  | inr f ↦ rw f (ground (arith, f, size-gaps (b + 1) last es p.3))
]

-- What is taken of free ranges.
unfoldable pub taken : ℕ → List Entry → List Entry
taken n [] = []
taken zero (e ∷ avail) = []
taken (suc m) ((a, b) ∷ avail) =
    let rest = taken (suc m - (b + 1 - a)) avail in
    if ltb (suc m) (b + 1 - a) then (a, a + suc m - 1) ∷ [] else (a, b) ∷ rest

pub take_from-taken :
    (k m n : ℕ) (avail addrs : List Entry)
    → Apart k m avail
    → Below k addrs
    → take_from n avail addrs ≡ (n - size avail, addrs ++ taken n avail)
unfolding take_from taken
take_from-taken k m n [] addrs p q = rw append-nil (ap (λ x. (x, addrs)) (omega arith))
take_from-taken k m zero (e ∷ avail) addrs p q =
    rw append-nil (ap (λ x. (x, addrs)) {x = 0} (omega arith))
take_from-taken k m (suc n) ((a, b) ∷ avail) addrs p q =
    let low : Below a addrs = Below-weaken k a addrs p.0 q in
    elim (Bool-cases (ltb (suc n) (b + 1 - a))) [
      | inl f ↦ rw f (
          ap (λ x. (zero, x)) (ins-end a (a + suc n - 1) addrs low)
          ∙ ap (λ x. (x, addrs ++ ((a, a + suc n - 1) ∷ []))) {x = 0} (ground (arith, f)))
      | inr f ↦ rw f (
          ap (λ x. take_from (suc n - (b + 1 - a)) avail x) (ins-end a b addrs low)
          ∙ take_from-taken (b + 1) m (suc n - (b + 1 - a)) avail (addrs ++ ((a, b) ∷ [])) p.3 (
              All-append (λ (c, d). c ≤ d × d < b + 1) addrs ((a, b) ∷ [])
                (Below-weaken a (b + 1) addrs (omega arith) low) ((p.1, omega arith), tt))
          ∙ ap (λ x. (x, (addrs ++ ((a, b) ∷ [])) ++ taken (suc n - (b + 1 - a)) avail))
              (omega arith)
          ∙ ap (λ x. (suc n - size ((a, b) ∷ avail), x))
              (append_assoc addrs ((a, b) ∷ []) (taken (suc n - (b + 1 - a)) avail)))
    ]

pub taken-Apart : (k m n : ℕ) (avail : List Entry) → Apart k m avail → Apart k m (taken n avail)
unfolding taken
taken-Apart k m n [] p = tt
taken-Apart k m zero (e ∷ avail) p = tt
taken-Apart k m (suc n) ((a, b) ∷ avail) p = elim (Bool-cases (ltb (suc n) (b + 1 - a))) [
  | inl f ↦ rw f (p.0, omega arith, ground (arith, f), tt)
  | inr f ↦ rw f (p.0, p.1, p.2, taken-Apart (b + 1) m (suc n - (b + 1 - a)) avail p.3)
]

Clear-shrink : (a b c : ℕ) (us : List Entry) → c ≤ b → All (Clear (a, b)) us → All (Clear (a, c)) us
Clear-shrink a b c [] h p = tt
Clear-shrink a b c ((x, y) ∷ us) h p = (ground (arith, p.0), Clear-shrink a b c us h p.1)

pub taken-Clear :
    (n : ℕ) (us avail : List Entry)
    → All (λ g. All (Clear g) us) avail
    → All (λ g. All (Clear g) us) (taken n avail)
unfolding taken
taken-Clear n us [] p = tt
taken-Clear zero us (e ∷ avail) p = tt
taken-Clear (suc n) us ((a, b) ∷ avail) p = elim (Bool-cases (ltb (suc n) (b + 1 - a))) [
  | inl f ↦ rw f (Clear-shrink a b (a + suc n - 1) us (ground (arith, f)) p.0, tt)
  | inr f ↦ rw f (p.0, taken-Clear (suc n - (b + 1 - a)) us avail p.1)
]

pub size-taken :
    (k m n : ℕ) (avail : List Entry) → Apart k m avail → n ≤ size avail → size (taken n avail) ≡ n
unfolding taken
size-taken k m n [] p h = omega arith
size-taken k m zero (e ∷ avail) p h = refl
size-taken k m (suc n) ((a, b) ∷ avail) p h = elim (Bool-cases (ltb (suc n) (b + 1 - a))) [
  | inl f ↦ rw f (omega arith)
  | inr f ↦
      rw f (ground (arith, f, size-taken (b + 1) m (suc n - (b + 1 - a)) avail p.3 (omega arith)))
]
