-- ===== src/Singularity/Addresses/Grants.antt =====
-- `alloc_addr` and `free_addr`: which addresses a cluster gets.
use ldms_test.Base.{
  ℕ, suc, ◌-◌, ◌≤◌, ◌<◌, ◌≡◌, ◌⊎◌, inl, inr, refl, ap, sym, subst, ◌∙◌, Text, false, List, [], ◌∷◌,
  none, some, All, Bool-cases, leb, length, ok, arith, text_eq, if◌then◌else◌, eq_refl,
}
use ldms_test.Base.Dict
use ldms_test.Base.Dict.{Dict}
use ldms_test.Singularity.{Entry, sort, union, inv, numbers}
use ldms_test.Singularity.Ranges.{
  Clear, Apart, size, sort-Apart, prune-sort, All-of_sort, size-sort,
}
use ldms_test.Singularity.Addresses.{
  Network, AddrDb, lock, unlock, ranges, texts, write_db, addr_min, addr_max, take_from, finish,
  allocate, grant, alloc_addr,
}
use ldms_test.Singularity.Addresses.Free.{
  gaps, inv_from-gaps, gaps-Apart, gaps-Clear, size-gaps, taken, take_from-taken, taken-Apart,
  taken-Clear, size-taken,
}
use ldms_test.Singularity.Addresses.Allocation.{
  allocated, IsTable, free, length-numbers, ranges-texts, insert-IsTable,
}

module _ (net : Network) (t : Dict Text (List Entry)) (p : IsTable net t) where
  abbrev avail : List Entry
  avail = gaps (addr_min net) (addr_max net) (sort (allocated t))

  sorted : Apart (addr_min net) (addr_max net) (sort (allocated t))
  sorted = sort-Apart (addr_min net) (addr_max net) (allocated t) p.within p.disjoint

  inv-union : inv (addr_min net) (addr_max net) (union (Dict.values t)) ≡ avail
  unfolding inv union
  inv-union =
      ap (inv (addr_min net) (addr_max net))
        (prune-sort (addr_min net) (addr_max net) (allocated t) sorted)
      ∙ inv_from-gaps (addr_min net) (addr_max net) (sort (allocated t)) [] sorted tt

  avail-Apart : Apart (addr_min net) (addr_max net) avail
  avail-Apart = gaps-Apart (addr_min net) (addr_max net) (sort (allocated t)) sorted

  size-avail : size avail ≡ free net t
  size-avail = omega (
    arith,
    size-gaps (addr_min net) (addr_max net) (sort (allocated t)) sorted,
    size-sort (allocated t),
  )

  avail-Clear : All (λ g. All (Clear g) (allocated t)) avail
  avail-Clear = each avail (gaps-Clear (addr_min net) (addr_max net) (sort (allocated t)) sorted)
    where
      each :
          (gs : List Entry)
          → All (λ g. All (Clear g) (sort (allocated t))) gs
          → All (λ g. All (Clear g) (allocated t)) gs
      each [] c = tt
      each (g ∷ gs) c = (All-of_sort (Clear g) (allocated t) c.0, each gs c.1)

  allocate-finish :
      (name : Text) (n : ℕ) (d : AddrDb)
      → allocate net name n t d ≡ finish name t (n - free net t, taken n avail) d
  unfolding allocate
  allocate-finish name n d =
      ap (λ x. finish name t (take_from n x []) d) inv-union
      ∙ ap (λ x. finish name t x d)
          (take_from-taken (addr_min net) (addr_max net) n avail [] avail-Apart tt
            ∙ ap (λ x. (n - x, taken n avail)) size-avail)

  finish_enough :
      (name : Text) (n : ℕ) (d : AddrDb)
      → n ≤ free net t
      → allocate net name n t d
        ≡ (some (taken n avail), unlock (write_db (Dict.insert name (taken n avail) t) d))
  unfolding finish
  finish_enough name n d h =
      allocate-finish name n d ∙ ap (λ x. finish name t (x, taken n avail) d) {y = 0} (omega arith)

  finish_few :
      (name : Text) (n : ℕ) (d : AddrDb)
      → free net t < n
      → allocate net name n t d ≡ (none, unlock d)
  unfolding finish
  finish_few name n d h =
      allocate-finish name n d
      ∙ ap (λ x. finish name t (x, taken n avail) d) {y = suc (n - free net t - 1)} (omega arith)

-- The file with a table, which no process has locked.
abbrev pub file : Dict Text Text → AddrDb
file t = record { alloc_tbl = some t; locked = false }

alloc_addr-new :
    (net : Network) (name : Text) (n : ℕ) (t : Dict Text Text)
    → Dict.lookup name (ranges t) ≡ none
    → alloc_addr net name n (file t)
      ≡ (let (addrs, e) = allocate net name n (ranges t) (lock (file t)) in (ok addrs, e))
unfolding alloc_addr
alloc_addr-new net name n t h =
    ap (λ o. let (addrs, e) = grant net name n (ranges t) (lock (file t)) o in (ok addrs, e)) h

-- In an unlocked file whose table keeps the clusters apart, for a cluster that has no addresses:
-- `alloc_addr` of `n` returns nothing and leaves the file as it was if fewer than `n` addresses of
-- the network are free. Otherwise it returns ranges of exactly `n` addresses and leaves a file that
-- is not locked and in which the cluster has these ranges, the others have what they had, and
-- clusters are apart; a later call for the cluster, of any number, returns them again.
pub alloc_addr_lem :
    (net : Network) (name : Text) (n : ℕ) (t : Dict Text Text)
    → IsTable net (ranges t)
    → Dict.lookup name (ranges t) ≡ none
    → ((free net (ranges t) < n) × (alloc_addr net name n (file t) ≡ (ok none, file t)))
      ⊎ ((addrs : List Entry) × (u : Dict Text Text) × (n ≤ free net (ranges t))
          × (alloc_addr net name n (file t) ≡ (ok (some addrs), file u))
          × (length (numbers addrs) ≡ n)
          × (ranges u ≡ Dict.insert name addrs (ranges t))
          × IsTable net (ranges u)
          × ((m : ℕ) → alloc_addr net name m (file u) ≡ (ok (some addrs), file u)))
alloc_addr_lem net name n t p h = elim (Bool-cases (leb n (free net (ranges t)))) [
  | inr f ↦ inl (
    ground (arith, f),
    alloc_addr-new net name n t h
        ∙ ap (λ r. (ok (r.0), r.1))
            (finish_few net (ranges t) p name n (lock (file t)) (ground (arith, f)))
        ∙ unfold lock unlock in refl,
  )
  | inl f ↦
      let addrs : List Entry = taken n (avail net (ranges t) p) in
      let enough : n ≤ free net (ranges t) = ground (arith, f) in
      let a : Apart (addr_min net) (addr_max net) addrs =
        taken-Apart (addr_min net) (addr_max net) n (avail net (ranges t) p)
          (avail-Apart net (ranges t) p) in
      let q : IsTable net (Dict.insert name addrs (ranges t)) =
        insert-IsTable net name addrs (ranges t) h p a (
          taken-Clear n (allocated (ranges t)) (avail net (ranges t) p)
            (avail-Clear net (ranges t) p)) in
      let e : ranges (texts (Dict.insert name addrs (ranges t)))
          ≡ Dict.insert name addrs (ranges t) =
        ranges-texts (addr_min net) (addr_max net) (Dict.insert name addrs (ranges t)) q.ordered in
      inr (
        addrs,
        texts (Dict.insert name addrs (ranges t)),
        enough,
        alloc_addr-new net name n t h
            ∙ ap (λ r. (ok (r.0), r.1))
                (finish_enough net (ranges t) p name n (lock (file t)) enough)
            ∙ unfold lock unlock write_db in refl,
        length-numbers addrs
            ∙ size-taken (addr_min net) (addr_max net) n (avail net (ranges t) p)
                (avail-Apart net (ranges t) p)
                (subst (λ k. n ≤ k) (sym (size-avail net (ranges t) p)) enough),
        e,
        subst (IsTable net) (sym e) q,
        λ m. again m (texts (Dict.insert name addrs (ranges t))) addrs (
            ap (Dict.lookup name) e
            ∙ Dict.lookup-insert name name addrs (ranges t)
            ∙ ap (λ b. if b then some addrs else Dict.lookup name (ranges t)) (eq_refl name)),
      )
]
  where
    again :
        (m : ℕ) (u : Dict Text Text) (addrs : List Entry)
        → Dict.lookup name (ranges u) ≡ some addrs
        → alloc_addr net name m (file u) ≡ (ok (some addrs), file u)
    again m u addrs k =
        unfold alloc_addr lock unlock in
        ap (λ o. let (r, e) = grant net name m (ranges u) (lock (file u)) o in (ok r, e)) k
