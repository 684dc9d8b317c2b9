-- ===== src/Docker/Subnets/Examples.antt =====
-- A package `ipaddress` that knows the addresses 0 to 9, written as one digit, and networks of one
-- address. The process has found one subnet before.
use ldms_test.Base.{
  ◌≡◌, refl, ℕ, ◌+◌, ◌-◌, Text, Bool, true, List, [], ◌∷◌, ◌++◌, none, some, ok, err, value_error,
  Result, All, arith, ltb, leb, map, ◌&&◌, if◌then◌else◌, inl, inr, Bool-cases,
}
use ldms_test.Base.Strings.{text, starts_with, decimal}
use ldms_test.Value.{Value, str, dict, field, end}
use ldms_test.Docker.Subnets.{
  Net, Ip, networks, subnet_key, attr_grep, init_network, next_ipv6_subnet, occurs, select_nets,
  net_le,
}
use ldms_test.Docker.Subnets.Found.{init_network_lem}
use ldms_test.Docker.Subnets.Fresh.{Before, Reads, next_ipv6_subnet_lem}

abbrev point : ℕ → Net
point n = record { v6 = true; network_address = n; hostmask = 0; prefixlen = 128 }

abbrev read_net : Value → Result Net
read_net (str (c ∷ s)) = ok (point (c - b'0'))
read_net _ = err value_error

abbrev print_address : Bool → ℕ → Result Text
print_address v6 n = if ltb n 10 then ok ((n + b'0') ∷ []) else err value_error

abbrev digits : Ip
digits = record {
  ip_network = read_net;
  address = print_address;
  ip_address = print_address true;
  net_text = λ n. (n.network_address + b'0') ∷ [];
}

digits-Reads : Reads digits
digits-Reads v6 n p a m e f = elim (Bool-cases (ltb n 10)) [
  | inl small ↦ ground (arith, small, e, f)
  | inr big ↦ ground (arith, big, e)
]

abbrev attrs : Value
attrs = dict (field (text "Subnet") (str (text "3")) end)

abbrev lower_char : ℕ → ℕ
lower_char c = if leb b'A' c && leb c b'Z' then c + 32 else c

abbrev lower : Text → Text
lower s = map lower_char s

abbrev earlier : List Value
earlier = str (text "1") ∷ []

attrs_found : attr_grep (subnet_key digits lower) attrs [] ≡ ok (str (text "3") ∷ [])
unfolding attr_grep occurs subnet_key starts_with
attrs_found = refl

both_read : networks digits lower (earlier ++ (str (text "3") ∷ [])) ≡ ok (point 1 ∷ (point 3 ∷ []))
unfolding networks
both_read = refl

init_network_lem_example :
    init_network digits lower attrs earlier
    ≡ (ok (none, some (point 3)), earlier ++ (str (text "3") ∷ []))
init_network_lem_example =
    init_network_lem digits lower (λ n. n) attrs earlier (str (text "3") ∷ [])
      (point 1 ∷ (point 3 ∷ [])) attrs_found both_read
      ((text "1", refl, refl), ((text "3", refl, refl), tt))

-- A network without a subnet of its own gets that of an earlier one.
inherited : (init_network digits lower (dict end) earlier).0 ≡ ok (none, some (point 1))
unfolding init_network attr_grep
inherited = refl

next_is_4 : (next_ipv6_subnet digits lower attrs earlier).0 ≡ ok (point 4)
unfolding next_ipv6_subnet attr_grep occurs subnet_key starts_with decimal net_le
next_is_4 = refl

both_v6 : select_nets (λ n. n.v6) (point 1 ∷ (point 3 ∷ [])) ≡ point 1 ∷ (point 3 ∷ [])
unfolding select_nets
both_v6 = refl

next_ipv6_subnet_lem_example : All (λ k. Before k (point 4)) (point 1 ∷ (point 3 ∷ []))
next_ipv6_subnet_lem_example =
    next_ipv6_subnet_lem digits lower digits-Reads attrs earlier (str (text "3") ∷ [])
      (point 1 ∷ (point 3 ∷ [])) (point 1) (point 4) (point 3 ∷ []) attrs_found both_read both_v6
      ((inl refl, (inr (inl (omega arith)), tt)), ((inr (inr (omega arith)), (inl refl, tt)), tt))
      next_is_4
