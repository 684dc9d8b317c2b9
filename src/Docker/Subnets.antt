-- ===== src/Docker/Subnets.antt =====
-- runtime/docker.py: `attr_grep`, the choice of a subnet for a new network, and `__init__` and `create`
-- of the class Network. The default argument `lst` of `attr_grep` is one list for all calls, so that
-- what earlier calls have found is in it: it is the state of the functions here. `Ip` is the package
-- `ipaddress`; the pause at the end of `create` is left out.
pub mod Found
pub mod Fresh
mod Examples
use Prim.Native.Nat.{bit_or}
use ldms_test.Base.{
  ℕ, ◌+◌, ◌-◌, ◌%◌, Text, Bool, true, false, not, List, [], ◌∷◌, ◌++◌, Option, none, some, ltb, leb,
  ◌==◌, ◌&&◌, ◌||◌, if◌then◌else◌, nat_eq, Result, ok, err, Exc, attribute_error, runtime_error,
  api_error, ◌>>=◌,
}
use ldms_test.Base.Strings.{text, starts_with, decimal}
use ldms_test.Value.{
  Value, Items, Fields, null, bool, int, float, str, list, tuple, dict, nil, cons, end, field,
}

-- Whether a text stands in another one: `find(...) > -1`
unfoldable pub occurs : Text → Text → Bool
occurs p [] = starts_with [] p
occurs p (c ∷ s) = starts_with (c ∷ s) p || occurs p s

-- `attr_grep` of a `dict` and of a list, with the test of a key
unfoldable mutual
  pub grep_fields : (Text → Bool) → Fields → List Value → List Value
  grep_fields test end lst = lst
  grep_fields test (field k v fs) lst =
      grep_fields test fs (if test k then lst ++ (v ∷ []) else grep_inside test v lst)

  pub grep_items : (Text → Bool) → Items → List Value → List Value
  grep_items test nil lst = lst
  grep_items test (cons v xs) lst = grep_items test xs (grep_element test v lst)

  -- A value that no key has found
  pub grep_inside : (Text → Bool) → Value → List Value → List Value
  grep_inside test (dict fs) lst = grep_fields test fs lst
  grep_inside test (list xs) lst = grep_items test xs lst
  grep_inside test _ lst = lst

  -- An element of a list: other lists are passed over
  pub grep_element : (Text → Bool) → Value → List Value → List Value
  grep_element test (dict fs) lst = grep_fields test fs lst
  grep_element test _ lst = lst

unfoldable pub attr_grep : (Text → Bool) → Value → List Value → Result (List Value)
unfolding grep_fields grep_items
attr_grep test (list xs) lst = ok (grep_items test xs lst)
attr_grep test (dict fs) lst = ok (grep_fields test fs lst)
attr_grep test _ lst = err attribute_error

pub record Net : Type 0 where
  pub v6 : Bool
  pub network_address : ℕ
  pub hostmask : ℕ
  pub prefixlen : ℕ

pub record Ip : Type 0 where
  pub ip_network : Value → Result Net
  -- the text of an address of IPv6, or of IPv4
  pub address : Bool → ℕ → Result Text
  -- `str(ip_address(n))`
  pub ip_address : ℕ → Result Text
  pub net_text : Net → Text

-- What Docker answers to the creation of a network: its attributes, or the status of an error.
pub data Reply : Type 0 where
  made : Value → Reply
  refused : ℕ → Reply

pub record Pool : Type 0 where
  pub subnet : Text
  pub iprange : Text
  pub gateway : Option Text

-- The order of networks of one version
unfoldable pub net_le : Net → Net → Bool
net_le a b =
    if ltb a.network_address b.network_address
    then true
    else (a.network_address == b.network_address && leb a.prefixlen b.prefixlen)

-- `sort()` and `[-1]`; networks that are equal in the order are equal.
unfoldable pub greatest : Net → List Net → Net
greatest n [] = n
greatest n (m ∷ ms) = greatest (if net_le n m then m else n) ms

-- `[ s for s in subnets if ... ]`
unfoldable pub select_nets : (Net → Bool) → List Net → List Net
select_nets p [] = []
select_nets p (n ∷ ns) = let rest = select_nets p ns in if p n then n ∷ rest else rest

module _ (ip : Ip) (lower : Text → Text) where
  unfoldable pub next_subnet : Net → Result Net
  next_subnet net = ip.address net.v6 (net.network_address + net.hostmask + 1) >>= λ a.
      ip.ip_network (str (a ++ (b'/' ∷ decimal net.prefixlen)))

  unfoldable pub networks : List Value → Result (List Net)
  networks [] = ok []
  networks (v ∷ vs) = do n ← ip.ip_network v; ns ← networks vs; ok (n ∷ ns)

  unfoldable pub is_ipv4_172 : Net → Bool
  is_ipv4_172 n = not n.v6 && starts_with (ip.net_text n) (text "172.")

  -- The network behind the last one, or a first one
  unfoldable pub behind : Text → List Net → Result Net
  unfolding greatest next_subnet
  behind first [] = ip.ip_network (str first)
  behind first (n ∷ ns) = next_subnet (greatest n ns)

  pub subnet_key : Text → Bool
  unfolding occurs
  subnet_key k = occurs (lower (text "subnet")) (lower k)

  unfoldable pub read_found : List Value → Result (List Value) → Result (List Net) × List Value
  unfolding networks
  read_found lst (ok found) = (networks found, found)
  read_found lst (err e) = (err e, lst)

  -- The subnets found so far with those in `d`, and as networks
  unfoldable pub subnets_in : Value → List Value → Result (List Net) × List Value
  unfolding attr_grep read_found subnet_key
  subnets_in d lst = read_found lst (attr_grep subnet_key d lst)

  -- `next_ipv6_subnet` and `next_ipv4_subnet`, from the attributes of all networks
  unfoldable pub next_ipv6_subnet : Value → List Value → Result Net × List Value
  unfolding subnets_in select_nets behind
  next_ipv6_subnet nets lst =
      let (r, found) = subnets_in nets lst in
      (r >>= λ ns. behind (text "fd00:0:0:1::/64") (select_nets (λ n. n.v6) ns), found)

  unfoldable pub next_ipv4_subnet : Value → List Value → Result Net × List Value
  unfolding subnets_in select_nets behind is_ipv4_172
  next_ipv4_subnet nets lst =
      let (r, found) = subnets_in nets lst in
      (r >>= λ ns. behind (text "172.172.0.0/24") (select_nets is_ipv4_172 ns), found)

  -- A network of another size at the same address
  unfoldable pub resized : Net → Text → Result Net
  resized n size = ip.address n.v6 n.network_address >>= λ a. ip.ip_network (str (a ++ size))

  -- The loop of `Network.__init__`: `net4` and `net6`
  unfoldable pub init_nets : List Net → Option Net × Option Net → Result (Option Net × Option Net)
  unfolding resized
  init_nets [] nets = ok nets
  init_nets (n ∷ ns) (net4, net6) =
      let as6 = resized n (text "/120") >>= λ m. init_nets ns (net4, some m) in
      let as4 = resized n (text "/24") >>= λ m. init_nets ns (some m, net6) in
      elim n.v6 [ true ↦ as6 | false ↦ as4 ]

  unfoldable pub init_network : Value → List Value → Result (Option Net × Option Net) × List Value
  unfolding subnets_in init_nets
  init_network attrs lst =
      let (r, found) = subnets_in attrs lst in (r >>= λ ns. init_nets ns (none, none), found)

  -- The pool for a given subnet
  subnet_pool : Text → Result (List Pool)
  subnet_pool subnet = do
    net ← ip.ip_network (str subnet)
    let bc = bit_or net.network_address net.hostmask
    gateway ← ip.ip_address (bc - 1)
    range ← ip.ip_address (bc - bc % 4)
    ok (record { subnet = subnet; iprange = range ++ text "/30"; gateway = some gateway } ∷ [])

  net_pool : Net → Text → Result Pool
  net_pool n size = ip.address n.v6 n.network_address >>= λ a.
      ok (record { subnet = ip.net_text n; iprange = a ++ size; gateway = none })

  -- The pools for both versions; `nets` are the attributes of all networks.
  both_pools : Value → List Value → Result (List Pool) × List Value
  unfolding next_ipv6_subnet next_ipv4_subnet net_pool
  both_pools nets lst =
      let (r6, lst6) = next_ipv6_subnet nets lst in
      elim (r6 >>= λ n. net_pool n (text "/120")) [
        | err e ↦ (err e, lst6)
        | ok pool6 ↦
            let (r4, lst4) = next_ipv4_subnet nets lst6 in
            (r4 >>= λ n. net_pool n (text "/24") >>= λ pool4. ok (pool4 ∷ (pool6 ∷ [])), lst4)
      ]

  unfoldable pub pools : Text → Bool → Value → List Value → Result (List Pool) × List Value
  unfolding subnet_pool both_pools
  pools (c ∷ s) ipv6 nets lst = (subnet_pool (c ∷ s), lst)
  pools [] true nets lst = both_pools nets lst
  pools [] false nets lst = (ok [], lst)

  -- The `except` clause
  made_or_raised : Reply → Result Value
  made_or_raised (made attrs) = ok attrs
  made_or_raised (refused status) = err (if status == 409 then runtime_error else api_error)

  -- `Network.create`, with `None` for a subnet as the empty text
  unfoldable pub create_network :
      (List Pool → Reply)
      → Text
      → Bool
      → Value
      → List Value
      → Result (Option Net × Option Net) × List Value
  unfolding pools made_or_raised init_network
  create_network docker subnet ipv6 nets lst =
      let (r, found) = pools subnet ipv6 nets lst in
      elim (r >>= λ ps. made_or_raised (docker ps)) [
        | err e ↦ (err e, found)
        | ok attrs ↦ init_network attrs found
      ]
