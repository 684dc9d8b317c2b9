-- ===== src/Compare/Loose.antt =====
-- What decides the comparison of two `XCmp` objects, and of two addresses.
use ldms_test.Base.{
  ℕ, ◌≡◌, ◌≢◌, refl, ◌↔◌, ◌⊎◌, inl, inr, true, some, List, ◌++◌, ◌||◌, nat_beq_iff, text_beq_iff,
  text_eq, nat_eq, Option-cases, Bool-cases, ok, arith, Text,
}
use ldms_test.Base.Dict
use ldms_test.Base.Dict.{Dict}
use ldms_test.Compare.{
  Obj, Fields, address, xcmp, end, field, Class, entries, class_beq, mapped_prefix, as_ipv6,
  addr_xeq, is_none, obj_xeq, attrs_xeq,
}

-- Every attribute of the left object is there on the right, and is `None` on a side or accepted.
abbrev pub Loose : Fields → Dict Text Obj → Type 0
Loose end d = Unit {0}
Loose (field k v fs) d =
    ((w : Obj) × (Dict.lookup k d ≡ some w)
      × (((is_none v || is_none w) ≡ true) ⊎ (obj_xeq v w ≡ ok true)))
    × Loose fs d

class_beq_iff : (c d : Class) → (class_beq c d ≡ true) ↔ (c ≡ d)
unfolding class_beq
class_beq_iff c d = ground arith

attrs-Loose : (fs : Fields) (d : Dict Text Obj) → attrs_xeq fs d ≡ ok true → Loose fs d
unfolding attrs_xeq
attrs-Loose end d h = tt
attrs-Loose (field k v fs) d h = elim (Option-cases (Dict.lookup k d)) [
  | inl absent ↦ absurd (ground (arith, absent, h))
  | inr (w, found) ↦ elim (Bool-cases (is_none v || is_none w)) [
    | inl skipped ↦ ((w, found, inl skipped), attrs-Loose fs d (ground (arith, found, skipped, h)))
    | inr tested ↦ (
      (w, found, inr (ground (arith, found, tested, h))),
      attrs-Loose fs d (ground (arith, found, tested, h)),
    )
  ]
]

Loose-attrs : (fs : Fields) (d : Dict Text Obj) → Loose fs d → attrs_xeq fs d ≡ ok true
unfolding attrs_xeq
Loose-attrs end d h = refl
Loose-attrs (field k v fs) d ((w, found, inl skipped), h) =
    ground (arith, found, skipped, Loose-attrs fs d h)
Loose-attrs (field k v fs) d ((w, found, inr same), h) =
    ground (arith, found, same, Loose-attrs fs d h)

-- `xeq` accepts two objects exactly if they are of one class and each attribute of the left one
-- is accepted beside that of the right one, or is `None` on either side.
pub xcmp_xeq_iff :
    (c d : Class) (fs gs : Fields)
    → (obj_xeq (xcmp c fs) (xcmp d gs) ≡ ok true) ↔ ((c ≡ d) × Loose fs (entries gs))
unfolding obj_xeq
xcmp_xeq_iff c d fs gs = (
  λ h. elim (Bool-cases (class_beq c d)) [
    | inl same ↦ ((class_beq_iff c d).0 same, attrs-Loose fs (entries gs) (ground (arith, same, h)))
    | inr other ↦ absurd (ground (arith, other, h))
  ],
  λ (e, h). ground (arith, (class_beq_iff c d).1 e, Loose-attrs fs (entries gs) h),
)

-- An address that is not of the family `AF_INET6` is accepted beside one that is exactly if the
-- ports are equal and the other is its IPv4-mapped address, on whichever side it stands.
pub address_xeq-mapped :
    (f p q : ℕ) (s t : List ℕ)
    → f ≢ 10
    → ((obj_xeq (address f p s) (address 10 q t) ≡ ok true) ↔ ((p ≡ q) × (mapped_prefix ++ s ≡ t)))
      × ((obj_xeq (address 10 q t) (address f p s) ≡ ok true)
          ↔ ((p ≡ q) × (mapped_prefix ++ s ≡ t)))
unfolding obj_xeq as_ipv6 addr_xeq
address_xeq-mapped f p q s t other = ground (
  arith,
  nat_beq_iff f 10,
  text_beq_iff (mapped_prefix ++ s) t,
  text_beq_iff t (mapped_prefix ++ s),
)
