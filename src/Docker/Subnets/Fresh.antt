-- ===== src/Docker/Subnets/Fresh.antt =====
-- The subnet that is chosen for a new network overlaps none that was found.
use ldms_test.Base.{
  ℕ, ◌+◌, ◌≤◌, ◌<◌, ◌≡◌, ◌⊎◌, inl, inr, ap, sym, subst, ◌∙◌, Text, Bool, true, false, List, [], ◌∷◌,
  ◌++◌, All, Bool-cases, ok, ◌>>=◌, >>=-eq-ok, arith, if◌then◌else◌, nat_eq,
}
use ldms_test.Base.Strings.{text, decimal}
use ldms_test.Value.{Value, str}
use ldms_test.Docker.Subnets.{
  Net, Ip, net_le, greatest, select_nets, next_subnet, networks, behind, next_ipv6_subnet,
  attr_grep, subnet_key,
}
use ldms_test.Docker.Subnets.Found.{subnets_in-append}

-- The first network ends before the second one.
abbrev pub Before : Net → Net → Type 0
Before a b = a.network_address + a.hostmask < b.network_address

-- Two networks are the same or do not overlap.
abbrev pub Clear : Net → Net → Type 0
Clear a b = (a ≡ b) ⊎ (Before a b ⊎ Before b a)

net_le-true : (n m : Net) → net_le n m ≡ true → n.network_address ≤ m.network_address
unfolding net_le
net_le-true n m f = ground arith

net_le-false : (n m : Net) → net_le n m ≡ false → m.network_address ≤ n.network_address
unfolding net_le
net_le-false n m f = ground arith

abbrev IsGreatest : (Net → Type 0) → Net → List Net → Net → Type 0
IsGreatest P n ms g =
    P g
    × (n.network_address ≤ g.network_address)
    × All (λ m. m.network_address ≤ g.network_address) ms

greatest_lem :
    (P : Net → Type 0) (n : Net) (ms : List Net)
    → P n
    → All P ms
    → IsGreatest P n ms (greatest n ms)
unfolding greatest
greatest_lem P n [] p q = (p, omega arith, tt)
greatest_lem P n (m ∷ ms) p q = elim (Bool-cases (net_le n m)) [
  | inl f ↦
      subst (λ b. IsGreatest P n (m ∷ ms) (greatest (if b then m else n) ms)) (sym f)
        (let (a, b, c) = greatest_lem P m ms q.0 q.1 in (a, le_first f b, (b, c)))
  | inr f ↦
      subst (λ b. IsGreatest P n (m ∷ ms) (greatest (if b then m else n) ms)) (sym f)
        (let (a, b, c) = greatest_lem P n ms p q.1 in (a, b, (le_other f b, c)))
]
  where
    le_first : {k : ℕ} → net_le n m ≡ true → m.network_address ≤ k → n.network_address ≤ k
    le_first f b = omega (arith, net_le-true n m f)

    le_other : {k : ℕ} → net_le n m ≡ false → n.network_address ≤ k → m.network_address ≤ k
    le_other f b = omega (arith, net_le-false n m f)

All-Before :
    (g : Net) (new : ℕ) (ns : List Net)
    → g.network_address + g.hostmask < new
    → All (λ m. m.network_address ≤ g.network_address) ns
    → All (Clear g) ns
    → All (λ m. m.network_address + m.hostmask < new) ns
All-Before g new [] h p q = tt
All-Before g new (m ∷ ns) h p q = (one q.0, All-Before g new ns h p.1 q.1)
  where
    one : Clear g m → m.network_address + m.hostmask < new
    one (inl e) = subst (λ x. x.network_address + x.hostmask < new) e h
    one (inr (inl b)) = absurd (omega (arith, p.0, b))
    one (inr (inr b)) = omega (arith, b, h)

-- `ipaddress` reads a network at the address that it has printed.
abbrev pub Reads : Ip → Type 0
Reads ip =
    (v6 : Bool) (n p : ℕ) (a : Text) (m : Net)
    → ip.address v6 n ≡ ok a
    → ip.ip_network (str (a ++ (b'/' ∷ decimal p))) ≡ ok m
    → m.network_address ≡ n

module _ (ip : Ip) (lower : Text → Text) (reads : Reads ip) where
  next_subnet_lem :
      (g m : Net)
      → next_subnet ip lower g ≡ ok m
      → m.network_address ≡ g.network_address + g.hostmask + 1
  unfolding next_subnet
  next_subnet_lem g m h =
      let (a, e, f) = >>=-eq-ok (ip.address g.v6 (g.network_address + g.hostmask + 1)) _ h in
      reads g.v6 (g.network_address + g.hostmask + 1) g.prefixlen a m e f

  behind_lem :
      (first : Text) (n m : Net) (ns : List Net)
      → All (λ g. All (Clear g) (n ∷ ns)) (n ∷ ns)
      → behind ip lower first (n ∷ ns) ≡ ok m
      → All (λ k. Before k m) (n ∷ ns)
  unfolding behind
  behind_lem first n m ns c h =
      let g : Net = greatest n ns in
      let (p, q, r) = greatest_lem (λ g. All (Clear g) (n ∷ ns)) n ns c.0 c.1 in
      All-Before g m.network_address (n ∷ ns) (omega (arith, next_subnet_lem g m h)) (q, r) p

  -- When the subnets of IPv6 that were found, now or earlier, do not overlap, the subnet that
  -- `next_ipv6_subnet` returns begins behind the end of all of them.
  pub next_ipv6_subnet_lem :
      (nets : Value) (lst own : List Value) (ns : List Net) (n m : Net) (rest : List Net)
      → attr_grep (subnet_key ip lower) nets [] ≡ ok own
      → networks ip lower (lst ++ own) ≡ ok ns
      → select_nets (λ n. n.v6) ns ≡ n ∷ rest
      → All (λ g. All (Clear g) (n ∷ rest)) (n ∷ rest)
      → (next_ipv6_subnet ip lower nets lst).0 ≡ ok m
      → All (λ k. Before k m) (n ∷ rest)
  unfolding next_ipv6_subnet
  next_ipv6_subnet_lem nets lst own ns n m rest h e s c r =
      behind_lem (text "fd00:0:0:1::/64") n m rest c (
        sym (
          ap
            (λ x.
              x.0 >>= λ ns. behind ip lower (text "fd00:0:0:1::/64") (select_nets (λ n. n.v6) ns))
            (subnets_in-append ip lower nets lst own h)
          ∙ ap
              (λ x.
                x >>= λ ns. behind ip lower (text "fd00:0:0:1::/64") (select_nets (λ n. n.v6) ns))
              e
          ∙ ap (behind ip lower (text "fd00:0:0:1::/64")) s)
        ∙ r)
