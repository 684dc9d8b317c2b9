-- ===== src/Compare/Lists.antt =====
-- `list_xeq`: which lists it takes for the same, and where the order of the elements matters.
use ldms_test.Base.{
  suc, ◌≡◌, refl, ◌↔◌, ◌⊎◌, inl, inr, Bool, true, false, Option, none, some, List, [], ◌∷◌, nat_eq,
  text_beq_iff, nat_beq_iff, Bool-cases, Result, ok, arith, length, ◌>>=◌, if◌then◌else◌, ◌∙◌, sym,
  false≢true,
}
use ldms_test.Base.Int.{ℤ, pos, negsuc, int_beq}
use ldms_test.Compare.{
  Obj, Items, none_, num, str, bytes, list, nil, cons, elements_of, scalar_eq, listed, pop_first,
  obj_xeq, items_xeq,
}
use mathlib.Core.List.{Mem, Perm, mem-cons, mem-cons_self, not-mem-nil}
use mathlib.Core.List.Perm
use mathlib.Core.Logic.Or

-- `None`, a number, a text or bytes.
abbrev pub IsPlain : Obj → Type 0
IsPlain none_ = Unit {0}
IsPlain (num n) = Unit
IsPlain (str s) = Unit
IsPlain (bytes s) = Unit
IsPlain _ = ⊥

abbrev pub AllPlain : Items → Type 0
AllPlain nil = Unit {0}
AllPlain (cons a as_) = IsPlain a × AllPlain as_

int_beq_iff : (m n : ℤ) → (int_beq m n ≡ true) ↔ (m ≡ n)
unfolding int_beq
int_beq_iff (pos m) (pos n) = ground (arith, nat_beq_iff m n)
int_beq_iff (pos m) (negsuc n) = ground arith
int_beq_iff (negsuc m) (pos n) = ground arith
int_beq_iff (negsuc m) (negsuc n) = ground (arith, nat_beq_iff m n)

plain_eq : (a b : Obj) → IsPlain a → (scalar_eq a b ≡ true) ↔ (a ≡ b)
unfolding scalar_eq
plain_eq none_ none_ h = (λ _. refl, λ _. refl)
plain_eq (num m) (num n) h = ground (arith, int_beq_iff m n)
plain_eq (str s) (str t) h = ground (arith, text_beq_iff s t)
plain_eq (bytes s) (bytes t) h = ground (arith, text_beq_iff s t)
plain_eq a b h = ground arith

obj_xeq-plain : (a b : Obj) → IsPlain a → obj_xeq a b ≡ ok (scalar_eq a b)
unfolding obj_xeq
obj_xeq-plain none_ b h = refl
obj_xeq-plain (num n) b h = refl
obj_xeq-plain (str s) b h = refl
obj_xeq-plain (bytes s) b h = refl
obj_xeq-plain _ b h = absurd h

-- From the right side to the left, the length is that of the other list.
abbrev Matches : Items → List Obj → Type 0
Matches as_ lx = (items_xeq as_ lx ≡ ok true) × (length lx ≡ length (elements_of as_))

-- What the inner loop finds of a plain element.
abbrev Popped : Obj → List Obj → Result (Option (List Obj)) → Type 0
Popped a lx r =
    ((r ≡ ok none) × ¬ Mem a lx)
    ⊎ ((lx' : List Obj) × (r ≡ ok (some lx')) × Perm lx (a ∷ lx') × (length lx ≡ suc (length lx')))

Popped-here : (a b : Obj) (lx : List Obj) → a ≡ b → Popped a (b ∷ lx) (ok (some lx))
Popped-here a b lx e = inr (lx, refl, rw e (Perm.refl (b ∷ lx)), refl)

Popped-later :
    (a b : Obj) (lx : List Obj) (r : Result (Option (List Obj)))
    → ¬ (a ≡ b)
    → Popped a lx r
    → Popped a (b ∷ lx) (r >>= λ o. ok (elim o [ none ↦ none | some lx' ↦ some (b ∷ lx') ]))
Popped-later a b lx r ne (inl (e, no_)) =
    inl (rw e refl, λ m. Or.elim (λ x y. absurd x) (mem-cons.0 m) ne no_)
Popped-later a b lx r ne (inr (lx', e, p, n)) =
    inr (b ∷ lx', rw e refl, Perm.trans (Perm.cons b p) (Perm.swap a b lx'), omega arith)

popped : (a : Obj) → IsPlain a → (lx : List Obj) → Popped a lx (pop_first (obj_xeq a) lx)
unfolding pop_first
popped a h [] = inl (refl, not-mem-nil)
popped a h (b ∷ lx) = elim (Bool-cases (scalar_eq a b)) [
  | inl same ↦ rw (obj_xeq-plain a b h) (rw same (Popped-here a b lx ((plain_eq a b h).0 same)))
  | inr other ↦ rw (obj_xeq-plain a b h) (
      rw other (
        Popped-later a b lx _ (λ e. false≢true (sym other ∙ (plain_eq a b h).1 e)) (popped a h lx)))
]

items_none :
    (a : Obj) (as_ : Items) (lx : List Obj)
    → pop_first (obj_xeq a) lx ≡ ok none
    → items_xeq (cons a as_) lx ≡ ok false
unfolding items_xeq
items_none a as_ lx e = rw e refl

items_some :
    (a : Obj) (as_ : Items) (lx lx' : List Obj)
    → pop_first (obj_xeq a) lx ≡ ok (some lx')
    → items_xeq (cons a as_) lx ≡ items_xeq as_ lx'
unfolding items_xeq
items_some a as_ lx lx' e = rw e refl

Perm-of_Matches :
    (as_ : Items) → AllPlain as_ → (lx : List Obj) → Matches as_ lx → Perm (elements_of as_) lx
unfolding elements_of
Perm-of_Matches nil h [] m = Perm.refl []
Perm-of_Matches nil h (b ∷ lx) m = absurd (omega (arith, m.1))
Perm-of_Matches (cons a as_) h lx m = elim (popped a h.0 lx) [
  | inl (e, _) ↦ absurd (cc (items_none a as_ lx e, m.0))
  | inr (lx', e, p, n) ↦
      Perm.trans
        (Perm.cons a
          (Perm-of_Matches as_ h.1 lx' (sym (items_some a as_ lx lx' e) ∙ m.0, omega (arith, m.1))))
        (Perm.symm p)
]

Matches-of_Perm :
    (as_ : Items) → AllPlain as_ → (lx : List Obj) → Perm (elements_of as_) lx → Matches as_ lx
unfolding elements_of items_xeq
Matches-of_Perm nil h [] p = (refl, refl)
Matches-of_Perm nil h (b ∷ lx) p = absurd (not-mem-nil ((Perm.mem_iff p).1 mem-cons_self))
Matches-of_Perm (cons a as_) h lx p = elim (popped a h.0 lx) [
  | inl (e, no_) ↦ absurd (no_ ((Perm.mem_iff p).0 mem-cons_self))
  | inr (lx', e, q, n) ↦
      let (same, len) = Matches-of_Perm as_ h.1 lx' (Perm.cons_inv (Perm.trans p q)) in
      (items_some a as_ lx lx' e ∙ same, omega arith)
]

guarded :
    (b : Bool) (r : Result Bool)
    → (if b then r else ok false) ≡ ok true
    → (b ≡ true) × (r ≡ ok true)
guarded true r e = (refl, e)
guarded false r e = cc

accepted :
    (b : Bool) (r : Result Bool) → b ≡ true → r ≡ ok true → (if b then r else ok false) ≡ ok true
accepted b r h e = rw h e

-- Of lists of numbers, texts, bytes and `None`, `obj_xeq` accepts exactly those that hold the same
-- elements, each as often, in any order.
pub list_xeq-Perm :
    (as_ bs : Items)
    → AllPlain as_
    → (obj_xeq (list as_) (list bs) ≡ ok true) ↔ Perm (elements_of as_) (elements_of bs)
unfolding obj_xeq listed
list_xeq-Perm as_ bs h = (
  λ e.
      let (long, same) = guarded _ _ e in
      Perm-of_Matches as_ h (elements_of bs) (same, sym ((nat_beq_iff _ _).0 long)),
  λ p.
      let (same, long) = Matches-of_Perm as_ h (elements_of bs) p in
      accepted _ _ ((nat_beq_iff _ _).1 (sym long)) same,
)

-- Where an element `a` accepts both of two others and `b` only the first of them, the list `b, a`
-- is accepted beside these and `a, b` is not: `a` takes away what `b` needs.
pub list_xeq_order :
    (a b c d : Obj)
    → obj_xeq a c ≡ ok true
    → obj_xeq a d ≡ ok true
    → obj_xeq b c ≡ ok true
    → obj_xeq b d ≡ ok false
    → let right = list (cons c (cons d nil)) in
      (obj_xeq (list (cons b (cons a nil))) right ≡ ok true)
      × (obj_xeq (list (cons a (cons b nil))) right ≡ ok false)
unfolding obj_xeq listed elements_of pop_first
list_xeq_order a b c d ac ad bc bd = (ground (arith, bc, ad), ground (arith, ac, bd))
