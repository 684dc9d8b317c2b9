-- ===== src/Docker/Subnets/Found.antt =====
-- What `attr_grep` finds, and what a network makes of what was found before.
use ldms_test.Base.{
  arith, ◌≡◌, subst, refl, Option, some, not, All, if◌then◌else◌, ap, sym, ◌∙◌, Text, Bool, List,
  [], ◌∷◌, ◌++◌, none, Bool-cases, inl, inr, ok, ◌>>=◌, append-nil, append_assoc,
}
use ldms_test.Base.Strings.{text}
use ldms_test.Value.{
  Value, Items, Fields, null, bool, int, float, str, list, tuple, dict, nil, cons, end, field,
}
use ldms_test.Docker.Subnets.{
  grep_fields, grep_items, grep_inside, grep_element, attr_grep, Ip, networks, subnet_key,
  read_found, Net, resized, subnets_in, init_nets, init_network,
}

append-twice :
    (f g : List Value → List Value)
    → ((l : List Value) → f l ≡ l ++ f [])
    → ((l : List Value) → g l ≡ l ++ g [])
    → (l : List Value) → g (f l) ≡ l ++ g (f [])
append-twice f g p q l =
    q (f l)
    ∙ ap (λ x. x ++ g []) (p l)
    ∙ append_assoc l (f []) (g [])
    ∙ ap (λ x. l ++ x) (sym (q (f [])))

mutual
  unfolding grep_fields grep_items grep_inside grep_element

  grep_fields-append :
      (t : Text → Bool) (fs : Fields) (l : List Value)
      → grep_fields t fs l ≡ l ++ grep_fields t fs []
  grep_fields-append t end l = sym (append-nil l)
  grep_fields-append t (field k v fs) l = elim (Bool-cases (t k)) [
    | inl f ↦ rw f (
        grep_fields-append t fs (l ++ (v ∷ []))
        ∙ append_assoc l (v ∷ []) (grep_fields t fs [])
        ∙ ap (λ x. l ++ x) (sym (grep_fields-append t fs (v ∷ []))))
    | inr f ↦ rw f (
        append-twice (grep_inside t v) (grep_fields t fs) (grep_inside-append t v)
          (grep_fields-append t fs) l)
  ]

  grep_items-append :
      (t : Text → Bool) (xs : Items) (l : List Value) → grep_items t xs l ≡ l ++ grep_items t xs []
  grep_items-append t nil l = sym (append-nil l)
  grep_items-append t (cons v xs) l =
      append-twice (grep_element t v) (grep_items t xs) (grep_element-append t v)
        (grep_items-append t xs) l

  grep_inside-append :
      (t : Text → Bool) (v : Value) (l : List Value) → grep_inside t v l ≡ l ++ grep_inside t v []
  grep_inside-append t (dict fs) l = grep_fields-append t fs l
  grep_inside-append t (list xs) l = grep_items-append t xs l
  grep_inside-append t null l = sym (append-nil l)
  grep_inside-append t (bool b) l = sym (append-nil l)
  grep_inside-append t (int z) l = sym (append-nil l)
  grep_inside-append t (float s) l = sym (append-nil l)
  grep_inside-append t (str s) l = sym (append-nil l)
  grep_inside-append t (tuple xs) l = sym (append-nil l)

  grep_element-append :
      (t : Text → Bool) (v : Value) (l : List Value) → grep_element t v l ≡ l ++ grep_element t v []
  grep_element-append t (dict fs) l = grep_fields-append t fs l
  grep_element-append t (list xs) l = sym (append-nil l)
  grep_element-append t null l = sym (append-nil l)
  grep_element-append t (bool b) l = sym (append-nil l)
  grep_element-append t (int z) l = sym (append-nil l)
  grep_element-append t (float s) l = sym (append-nil l)
  grep_element-append t (str s) l = sym (append-nil l)
  grep_element-append t (tuple xs) l = sym (append-nil l)

-- What is found comes behind what was found before.
pub attr_grep-append :
    (t : Text → Bool) (v : Value) (l : List Value)
    → attr_grep t v l ≡ (attr_grep t v [] >>= λ own. ok (l ++ own))
unfolding attr_grep
attr_grep-append t (dict fs) l = ap ok (grep_fields-append t fs l)
attr_grep-append t (list xs) l = ap ok (grep_items-append t xs l)
attr_grep-append t null l = refl
attr_grep-append t (bool b) l = refl
attr_grep-append t (int z) l = refl
attr_grep-append t (float s) l = refl
attr_grep-append t (str s) l = refl
attr_grep-append t (tuple xs) l = refl

-- What a network gets from the later networks of the loop, or else from the earlier ones.
abbrev pub or_else : Option Net → Option Net → Option Net
or_else none o = o
or_else (some n) o = some n

or_else-none : (o : Option Net) → or_else o none ≡ o
or_else-none none = refl
or_else-none (some n) = refl

or_else-some : (o c : Option Net) (n : Net) → or_else (or_else o (some n)) c ≡ or_else o (some n)
or_else-some none c n = refl
or_else-some (some m) c n = refl

module _ (ip : Ip) (lower : Text → Text) where
  pub subnets_in-append :
      (attrs : Value) (lst own : List Value)
      → attr_grep (subnet_key ip lower) attrs [] ≡ ok own
      → subnets_in ip lower attrs lst ≡ (networks ip lower (lst ++ own), lst ++ own)
  unfolding subnets_in
  subnets_in-append attrs lst own h =
      ap (read_found ip lower lst) (
        attr_grep-append (subnet_key ip lower) attrs lst ∙ ap (λ r. r >>= λ own. ok (lst ++ own)) h)

  -- The last network with a property, resized.
  abbrev pub last_of : (Net → Bool) → (Net → Net) → List Net → Option Net
  last_of p f [] = none
  last_of p f (n ∷ ns) = or_else (last_of p f ns) (if p n then some (f n) else none)

  -- `f n` is the network at the address of `n`, of 256 addresses: /120 for IPv6 and /24 for IPv4.
  abbrev pub IsResized : (Net → Net) → Net → Type 0
  IsResized f n =
      (a : Text) × (ip.address n.v6 n.network_address ≡ ok a)
      × (ip.ip_network (str (a ++ (if n.v6 then text "/120" else text "/24"))) ≡ ok (f n))

  init_nets-last :
      (f : Net → Net) (ns : List Net) (net4 net6 : Option Net)
      → All (IsResized f) ns
      → init_nets ip lower ns (net4, net6)
        ≡ ok (or_else (last_of (λ n. not n.v6) f ns) net4, or_else (last_of (λ n. n.v6) f ns) net6)
  unfolding init_nets resized
  init_nets-last f [] net4 net6 h = refl
  init_nets-last f (n ∷ ns) net4 net6 ((a, p, q), h) = elim (Bool-cases n.v6) [
    | inl is6 ↦
        let q6 : ip.ip_network (str (a ++ text "/120")) ≡ ok (f n) =
          subst (λ b. ip.ip_network (str (a ++ (if b then text "/120" else text "/24"))) ≡ ok (f n))
            is6 q in
        ground (
          arith,
          is6,
          p,
          q6,
          init_nets-last f ns net4 (some (f n)) h,
          or_else-none (last_of (λ n. not n.v6) f ns),
          or_else-some (last_of (λ n. n.v6) f ns) net6 (f n),
        )
    | inr is4 ↦
        let q4 : ip.ip_network (str (a ++ text "/24")) ≡ ok (f n) =
          subst (λ b. ip.ip_network (str (a ++ (if b then text "/120" else text "/24"))) ≡ ok (f n))
            is4 q in
        ground (
          arith,
          is4,
          p,
          q4,
          init_nets-last f ns (some (f n)) net6 h,
          or_else-none (last_of (λ n. n.v6) f ns),
          or_else-some (last_of (λ n. not n.v6) f ns) net4 (f n),
        )
  ]

  -- When the subnets in the attributes of a network are `own`, those found before in the process were
  -- `lst`, and all these can be read and resized, the network gets as `net4` the last subnet of IPv4
  -- among `lst ++ own`, made a /24, and as `net6` the last one of IPv6, made a /120, each only
  -- where there is one. So a subnet of an earlier network counts where the network has none of that
  -- version. The networks after it find `lst ++ own` before their own.
  pub init_network_lem :
      (f : Net → Net) (attrs : Value) (lst own : List Value) (ns : List Net)
      → attr_grep (subnet_key ip lower) attrs [] ≡ ok own
      → networks ip lower (lst ++ own) ≡ ok ns
      → All (IsResized f) ns
      → init_network ip lower attrs lst
        ≡ (ok (last_of (λ n. not n.v6) f ns, last_of (λ n. n.v6) f ns), lst ++ own)
  unfolding init_network
  init_network_lem f attrs lst own ns found read fits =
      ap (λ (r, found). (r >>= λ ns. init_nets ip lower ns (none, none), found))
        (subnets_in-append attrs lst own found)
      ∙ rw read (
          ap (λ r. (r, lst ++ own))
            (init_nets-last f ns none none fits ∙ λ i. ok (
              or_else-none (last_of (λ n. not n.v6) f ns) i,
              or_else-none (last_of (λ n. n.v6) f ns) i,
            )))
