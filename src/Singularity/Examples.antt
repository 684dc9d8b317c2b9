-- ===== src/Singularity/Examples.antt =====
-- Tests of the ranges.
use ldms_test.Base.{
  ◌≡◌, refl, ℕ, ◌<◌, ◌≤◌, ◌⊎◌, [], ◌∷◌, List, Text, some, none, ok, length, arith, text_eq,
  text_beq,
}
use ldms_test.Base.Dict
use ldms_test.Base.Dict.{Dict}
use ldms_test.Base.Strings.{text}
use ldms_test.Singularity.{Entry, hex_ranges, to_str, inv, union, numbers, concat}
use ldms_test.Singularity.Hex.{hex_ranges-to_str}
use ldms_test.Singularity.Addresses.{Network, ranges, addr_min, addr_max, allocate, alloc_addr}
use ldms_test.Singularity.Addresses.Allocation.{IsTable, free}
use ldms_test.Singularity.Addresses.Grants.{file, alloc_addr_lem}

read_ranges : hex_ranges (text "1F-20,3,a") ≡ (3, 3) ∷ ((10, 10) ∷ ((31, 32) ∷ []))
unfolding hex_ranges
read_ranges = refl

print_ranges : to_str ((3, 3) ∷ ((10, 10) ∷ ((31, 32) ∷ []))) ≡ text "3,A,1F-20"
unfolding to_str
print_ranges = refl

inverse : inv 1 14 ((3, 3) ∷ ((5, 10) ∷ [])) ≡ (1, 2) ∷ ((4, 4) ∷ ((11, 14) ∷ []))
unfolding inv
inverse = refl

-- A range inside another one is lost in part.
nested : union (((0, 16) ∷ []) ∷ (((2, 3) ∷ []) ∷ [])) ≡ (0, 3) ∷ []
unfolding union
nested = refl

-- A network of 16 addresses, of which another cluster has three.
abbrev net_1 : Network
net_1 = record { network_address = 0xa010000; hostmask = 15 }

abbrev table_1 : Dict Text Text
table_1 = (text "old", text "A010001-A010003") ∷ []

table_1-ranges : ranges table_1 ≡ (text "old", (0xa010001, 0xa010003) ∷ []) ∷ []
unfolding ranges hex_ranges
table_1-ranges = refl

table_1-IsTable : IsTable net_1 (ranges table_1)
unfolding ranges hex_ranges addr_min addr_max concat Dict.values
table_1-IsTable = record {
  within = ((omega arith, omega arith, omega arith), tt);
  disjoint = (tt, tt);
  ordered = ((omega arith, omega arith, omega arith, tt), tt);
}

table_1-lacks : Dict.lookup (text "new") (ranges table_1) ≡ none
unfolding ranges Dict.lookup text_beq
table_1-lacks = refl

alloc_addr_lem_example :
    ((free net_1 (ranges table_1) < 4)
      × (alloc_addr net_1 (text "new") 4 (file table_1) ≡ (ok none, file table_1)))
    ⊎ ((addrs : List Entry) × (u : Dict Text Text) × (4 ≤ free net_1 (ranges table_1))
        × (alloc_addr net_1 (text "new") 4 (file table_1) ≡ (ok (some addrs), file u))
        × (length (numbers addrs) ≡ 4)
        × (ranges u ≡ Dict.insert (text "new") addrs (ranges table_1))
        × IsTable net_1 (ranges u)
        × ((m : ℕ) → alloc_addr net_1 (text "new") m (file u) ≡ (ok (some addrs), file u)))
alloc_addr_lem_example = alloc_addr_lem net_1 (text "new") 4 table_1 table_1-IsTable table_1-lacks

four_addresses : alloc_addr net_1 (text "new") 4 (file table_1) ≡ (
  ok (some ((0xa010004, 0xa010007) ∷ [])),
  file ((text "old", text "A010001-A010003") ∷ ((text "new", text "A010004-A010007") ∷ [])),
)
unfolding alloc_addr Dict.lookup text_beq allocate Dict.values hex_ranges Dict.insert to_str
four_addresses = refl

hex_ranges-to_str_example :
    hex_ranges (to_str ((3, 3) ∷ ((10, 12) ∷ []))) ≡ (3, 3) ∷ ((10, 12) ∷ [])
hex_ranges-to_str_example =
    hex_ranges-to_str 0 20 ((3, 3) ∷ ((10, 12) ∷ []))
      (omega arith, omega arith, omega arith, (omega arith, omega arith, omega arith, tt))

-- An entry of another network makes `inv` leave the bounds.
below_bounds : inv 100 110 ((5, 6) ∷ []) ≡ (7, 110) ∷ []
unfolding inv
below_bounds = refl
