-- ===== src/Singularity/Addresses.antt =====
-- runtime/singularity.py, the class `IPAddrDb`: a file that says which cluster has which addresses.
-- The file is what `json.loads` gives of it: the item "alloc_tbl", or nothing where the text has no
-- such item. Its lock is held or not; another process that holds it makes `lock` wait. What a method
-- leaves includes the lock, which stays where an exception is raised before `unlock`.
pub mod Free
pub mod Allocation
pub mod Grants
use Prim.Native.Nat.{bit_or}
use ldms_test.Base.{
  ℕ, zero, suc, ◌+◌, ◌-◌, Text, Bool, true, false, List, [], ◌∷◌, Option, none, some, ltb,
  if◌then◌else◌, Result, ok, err, type_error, text_eq,
}
use ldms_test.Base.Dict
use ldms_test.Base.Dict.{Dict}
use ldms_test.Singularity.{Entry, hex_ranges, to_str, union, inv, ins}

pub record Network : Type 0 where
  pub network_address : ℕ
  pub hostmask : ℕ

pub record AddrDb : Type 0 where
  pub alloc_tbl : Option (Dict Text Text)
  pub locked : Bool

unfoldable pub lock : AddrDb → AddrDb
lock d = record d { locked = true }

unfoldable pub unlock : AddrDb → AddrDb
unlock d = record d { locked = false }

unfoldable pub ranges : Dict Text Text → Dict Text (List Entry)
ranges [] = []
ranges ((k, v) ∷ t) = (k, hex_ranges v) ∷ ranges t

unfoldable pub texts : Dict Text (List Entry) → Dict Text Text
texts [] = []
texts ((k, v) ∷ t) = (k, to_str v) ∷ texts t

-- `_read`
unfoldable pub read_db : AddrDb → Option (Dict Text (List Entry))
unfolding ranges
read_db d = elim d.alloc_tbl [ none ↦ none | some t ↦ some (ranges t) ]

-- `_write`
unfoldable pub write_db : Dict Text (List Entry) → AddrDb → AddrDb
unfolding texts
write_db t d = record d { alloc_tbl = some (texts t) }

unfoldable pub init_db : AddrDb → AddrDb
unfolding lock unlock read_db write_db
init_db d = unlock (elim (read_db (lock d)) [ none ↦ write_db [] (lock d) | some t ↦ lock d ])

-- `addr_min` and `addr_max`
unfoldable pub addr_min : Network → ℕ
addr_min net = net.network_address + 1

unfoldable pub addr_max : Network → ℕ
addr_max net = bit_or net.network_address net.hostmask - 1

-- The loop over `avail`: `_n` when it ends, and `addrs`. In an entry of `avail` the second number is
-- not below the first.
unfoldable pub take_from : ℕ → List Entry → List Entry → ℕ × List Entry
unfolding ins
take_from n [] addrs = (n, addrs)
take_from zero (e ∷ avail) addrs = (zero, addrs)
take_from (suc m) ((a, b) ∷ avail) addrs =
    let whole = take_from (suc m - (b + 1 - a)) avail (ins (a, b) addrs) in
    if ltb (suc m) (b + 1 - a) then (zero, ins (a, a + suc m - 1) addrs) else whole

-- What follows the loop
finish : Text → Dict Text (List Entry) → ℕ × List Entry → AddrDb → Option (List Entry) × AddrDb
unfolding write_db unlock
finish name t (zero, addrs) d = (some addrs, unlock (write_db (Dict.insert name addrs t) d))
finish name t (suc n, addrs) d = (none, unlock d)

-- A table without the cluster
unfoldable pub allocate :
    Network → Text → ℕ → Dict Text (List Entry) → AddrDb → Option (List Entry) × AddrDb
unfolding union inv take_from finish addr_min addr_max
allocate net name n t d =
    let avail = inv (addr_min net) (addr_max net) (union (Dict.values t)) in
    finish name t (take_from n avail []) d

-- `addrs = alloc_tbl.get(cluster_name)`, and what follows; an object is true.
unfoldable pub grant :
    Network
    → Text
    → ℕ
    → Dict Text (List Entry)
    → AddrDb
    → Option (List Entry)
    → Option (List Entry) × AddrDb
unfolding unlock
grant net name n t d (some addrs) = (some addrs, unlock d)
grant net name n t d none = allocate net name n t d

unfoldable pub alloc_addr : Network → Text → ℕ → AddrDb → Result (Option (List Entry)) × AddrDb
unfolding lock read_db grant
alloc_addr net name n d = elim (read_db (lock d)) [
  | none ↦ (err type_error, lock d)
  | some t ↦ let (addrs, e) = grant net name n t (lock d) (Dict.lookup name t) in (ok addrs, e)
]

unfoldable pub free_addr : Text → AddrDb → Result (Unit {0}) × AddrDb
unfolding lock unlock read_db write_db
free_addr name d = elim (read_db (lock d)) [
  | none ↦ (err type_error, lock d)
  | some t ↦ (ok tt, unlock (write_db (Dict.erase name t) (lock d)))
]
