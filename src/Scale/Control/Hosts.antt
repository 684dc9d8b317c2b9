-- ===== src/Scale/Control/Hosts.antt =====
-- Which daemons are controlled on which host.
use ldms_test.Base.{
  ◌≡◌, ◌≢◌, refl, sym, ap, ◌∙◌, subst, ℕ, zero, suc, Text, Bool, true, false, List, [], ◌∷◌, ◌++◌,
  append_assoc, append-nil, none, some, ok, text_eq, text_beq_iff, contains, ◌>>=◌, >>=-eq-ok, ◌==◌,
  if◌then◌else◌, arith, Bool-cases, inl, inr, All, Option-cases,
}
use ldms_test.Base.Dict
use ldms_test.Base.Dict.{Dict, NodupKeys, lookup-insert, insert-NodupKeys}
use ldms_test.Base.Strings.{decimal}
use ldms_test.Sql.Engine.{filter, filter-keep, filter-skip, filter-append}
use ldms_test.Objects.Commit.{IsDistinct}
use ldms_test.Scale.{
  Config, Level, samp, l1, l2, l3, Daemon, hl, bpl, nhl, names, on_host, new, idx_of, daemon_name,
}
use ldms_test.Scale.Names.{rsplit-daemon_name}
use ldms_test.Scale.Control.{new_all, all_daemons, ldmsd_list, here, get_daemons, add_to, by_host}

-- The daemon is on the host.
abbrev pub is_on : Text → Daemon → Bool
is_on h d = d.host == h

-- The daemons of a host in a dict of them.
abbrev pub of_host : Text → Dict Text (List Daemon) → List Daemon
of_host h groups = elim (Dict.lookup h groups) [ none ↦ [] | some ds ↦ ds ]

of_host-add_to :
    (h j : Text) (d : Daemon) (groups : Dict Text (List Daemon))
    → of_host h (add_to j d groups)
      ≡ (if j == h then of_host h groups ++ (d ∷ []) else of_host h groups)
unfolding add_to
of_host-add_to h j d groups = elim (Option-cases (Dict.lookup j groups)) [
  | inl e ↦ ground (arith, e, lookup-insert h j (d ∷ []) groups, text_beq_iff j h)
  | inr (ds, e) ↦ ground (arith, e, lookup-insert h j (ds ++ (d ∷ [])) groups, text_beq_iff j h)
]

of_host-by_host :
    (h : Text) (groups : Dict Text (List Daemon)) (ds : List Daemon)
    → of_host h (by_host groups ds) ≡ of_host h groups ++ filter (is_on h) ds
unfolding by_host
of_host-by_host h groups [] = sym (append-nil (of_host h groups))
of_host-by_host h groups (d ∷ ds) =
    of_host-by_host h (add_to d.host d groups) ds
    ∙ ap (λ l. l ++ filter (is_on h) ds) (of_host-add_to h d.host d groups)
    ∙ elim (Bool-cases (d.host == h)) [
      | inl e ↦ rw e (
          append_assoc (of_host h groups) (d ∷ []) (filter (is_on h) ds)
          ∙ ap (λ l. of_host h groups ++ l) (filter-keep (is_on h) d ds e))
      | inr e ↦ rw e (ap (λ l. of_host h groups ++ l) (filter-skip (is_on h) d ds e))
    ]

add_to-NodupKeys :
    (j : Text) (d : Daemon) (groups : Dict Text (List Daemon))
    → NodupKeys groups
    → NodupKeys (add_to j d groups)
unfolding add_to
add_to-NodupKeys j d groups u = elim (Option-cases (Dict.lookup j groups)) [
  | inl e ↦ rw (e, add_to) (insert-NodupKeys j (d ∷ []) groups u)
  | inr (ds, e) ↦ rw (e, add_to) (insert-NodupKeys j (ds ++ (d ∷ [])) groups u)
]

by_host-NodupKeys :
    (groups : Dict Text (List Daemon)) (ds : List Daemon)
    → NodupKeys groups
    → NodupKeys (by_host groups ds)
unfolding by_host
by_host-NodupKeys groups [] u = u
by_host-NodupKeys groups (d ∷ ds) u =
    by_host-NodupKeys (add_to d.host d groups) ds (add_to-NodupKeys d.host d groups u)

-- The groups of `_ctrl` have each host once, and under a host exactly its daemons, in order.
pub by_host_lem :
    (ds : List Daemon)
    → NodupKeys (by_host [] ds) × ((h : Text) → of_host h (by_host [] ds) ≡ filter (is_on h) ds)
unfolding Dict.lookup
by_host_lem ds = (by_host-NodupKeys [] ds tt, λ h. of_host-by_host h [] ds)

new-daemon_name :
    (c : Config) (l : Level) (h : Text) (p : ℕ)
    → new c l (daemon_name h p) ≡ (
        idx_of c l (daemon_name h p) >>= λ i.
        ok (record { name = daemon_name h p; host = h; port = decimal p; level = l; idx = i }))
unfolding new
new-daemon_name c l h p = rw (rsplit-daemon_name h p, new) refl

new-is_on :
    (c : Config) (l : Level) (h : Text) (p : ℕ) (d : Daemon)
    → new c l (daemon_name h p) ≡ ok d
    → h ≡ d.host
new-is_on c l h p d e =
    let (i, f, g) =
      >>=-eq-ok (idx_of c l (daemon_name h p)) _ (sym (new-daemon_name c l h p) ∙ e) in
    hosts _ d g
  where
    same : (a b : Daemon) → ok a ≡ ok b → a ≡ b
    same a b h = cc

    hosts : (a b : Daemon) → ok a ≡ ok b → a.host ≡ b.host
    hosts a b h = ap (λ d. d.host) (same a b h)

-- What `new_all` makes of a name and the others.
new_all-step :
    (c : Config) (l : Level) (k : Text) (ks : List Text) (ds : List Daemon)
    → new_all c l (k ∷ ks) ≡ ok ds
    → (d : Daemon) × (rest : List Daemon) × (new c l k ≡ ok d)
      × (new_all c l ks ≡ ok rest)
      × (d ∷ rest ≡ ds)
unfolding new_all
new_all-step c l k ks ds h =
    let (d, p, h1) = >>=-eq-ok (new c l k) _ h in
    let (rest, q, h2) = >>=-eq-ok (new_all c l ks) _ h1 in (d, rest, p, q, cc)

new_all-append :
    (c : Config) (l : Level) (js ks : List Text) (ds : List Daemon)
    → new_all c l (js ++ ks) ≡ ok ds
    → (xs : List Daemon) × (ys : List Daemon) × (new_all c l js ≡ ok xs)
      × (new_all c l ks ≡ ok ys)
      × (xs ++ ys ≡ ds)
unfolding new_all
new_all-append c l [] ks ds h = ([], ds, refl, h, refl)
new_all-append c l (j ∷ js) ks ds h =
    let (d, rest, p, q, e) = new_all-step c l j (js ++ ks) ds h in
    let (xs, ys, f, g, i) = new_all-append c l js ks rest q in
    (d ∷ xs, ys, rw p (rw f refl), g, ap (λ z. d ∷ z) i ∙ e)

-- The daemons made for one host are all on it.
on_host-All :
    (c : Config) (l : Level) (h : Text) (base n : ℕ) (ds : List Daemon)
    → new_all c l (on_host h base n) ≡ ok ds
    → All (λ d. h ≡ d.host) ds
unfolding on_host new_all
on_host-All c l h base zero ds e = rw (sym (nothing ds e)) tt
  where
    nothing : (es : List Daemon) → ok [] ≡ ok es → [] ≡ es
    nothing es h = cc
on_host-All c l h base (suc n) ds e =
    let (d, rest, p, q, f) = new_all-step c l (daemon_name h base) (on_host h (suc base) n) ds e in
    rw (sym f) (new-is_on c l h base d p, on_host-All c l h (suc base) n rest q)

filter-on : (h : Text) (ds : List Daemon) → All (λ d. h ≡ d.host) ds → filter (is_on h) ds ≡ ds
filter-on h [] a = refl
filter-on h (d ∷ ds) a =
    sym (filter-keep (is_on h) d ds ((text_beq_iff d.host h).1 (sym a.0)))
    ∙ ap (λ l. d ∷ l) (filter-on h ds a.1)

filter-off :
    (h j : Text) (ds : List Daemon) → h ≢ j → All (λ d. h ≡ d.host) ds → filter (is_on j) ds ≡ []
filter-off h j [] n a = refl
filter-off h j (d ∷ ds) n a =
    sym (filter-skip (is_on j) d ds (ground (arith, text_beq_iff d.host j, a.0, n)))
    ∙ filter-off h j ds n a.1

-- Of the daemons of different hosts, those on one host, if it is among them.
names-here :
    (c : Config) (l : Level) (j : Text) (base n : ℕ) (hs : List Text) (ds : List Daemon)
    → IsDistinct hs
    → new_all c l (names hs base n) ≡ ok ds
    → (contains j hs ≡ true → new_all c l (on_host j base n) ≡ ok (filter (is_on j) ds))
      × (contains j hs ≡ false → filter (is_on j) ds ≡ [])
unfolding names contains new_all
names-here c l j base n [] ds u h = (λ e. cc, λ e. ap (filter (is_on j)) (sym (nothing ds h)))
  where
    nothing : (es : List Daemon) → ok [] ≡ ok es → [] ≡ es
    nothing es h = cc
names-here c l j base n (h ∷ hs) ds u e =
    let (xs, ys, p, q, f) = new_all-append c l (on_host h base n) (names hs base n) ds e in
    let (present, missing) = names-here c l j base n hs ys u.1 q in
    let a = on_host-All c l h base n xs p in
    elim (Bool-cases (h == j)) [
      | inl g ↦
          let i : h ≡ j = (text_beq_iff h j).0 g in
          (
            λ k.
                subst (λ z. new_all c l (on_host z base n) ≡ ok (filter (is_on j) ds)) i
                  (p
                    ∙ ap ok (
                        sym (
                          ap (filter (is_on j)) (sym f)
                          ∙ filter-append (is_on j) xs ys
                          ∙ ap (λ z. z ++ filter (is_on j) ys)
                              (subst (λ z. filter (is_on z) xs ≡ xs) i (filter-on h xs a))
                          ∙ ap (λ z. xs ++ z) (missing (subst (λ z. contains z hs ≡ false) i u.0))
                          ∙ append-nil xs))),
            λ k. absurd (ground (arith, g, k)),
          )
      | inr g ↦
          let off : filter (is_on j) ds ≡ filter (is_on j) ys =
            ap (filter (is_on j)) (sym f)
            ∙ filter-append (is_on j) xs ys
            ∙ ap (λ z. z ++ filter (is_on j) ys)
                (filter-off h j xs (λ i. ground (arith, text_beq_iff h j, g, i)) a) in
          (
            λ k. present (ground (arith, g, k)) ∙ ap ok (sym off),
            λ k. off ∙ missing (ground (arith, g, k)),
          )
    ]

here_lem :
    (c : Config) (l : Level) (ds : List Daemon)
    → IsDistinct (hl c l)
    → all_daemons c l ≡ ok ds
    → here c l ≡ ok (filter (is_on c.my_host) ds)
unfolding here all_daemons
here_lem c l ds u h =
    let (present, missing) = names-here c l c.my_host (bpl c l) (nhl c l) (hl c l) ds u h in
    elim (Bool-cases (contains c.my_host (hl c l))) [
      | inl e ↦ rw (e, here) (present e)
      | inr e ↦ rw (e, here) (ap ok (sym (missing e)))
    ]

-- When no level lists a host twice, the daemons that `ldmsd_ctl.py` finds on a host, with no names
-- given, are exactly those of the list of `Control` that are on that host, in the same order.
pub get_daemons_lem :
    (c : Config) (ds : List Daemon)
    → ((l : Level) → IsDistinct (hl c l))
    → ldmsd_list c ≡ ok ds
    → get_daemons c none ≡ ok (filter (is_on c.my_host) ds)
unfolding ldmsd_list get_daemons
get_daemons_lem c ds u h =
    let (w, p, h1) = >>=-eq-ok (all_daemons c samp) _ h in
    let (x, q, h2) = >>=-eq-ok (all_daemons c l1) _ h1 in
    let (y, r, h3) = >>=-eq-ok (all_daemons c l2) _ h2 in
    let (z, s, h4) = >>=-eq-ok (all_daemons c l3) _ h3 in
    let on = filter (is_on c.my_host) in
    rw (here_lem c samp w (u samp) p) (
      rw (here_lem c l1 x (u l1) q) (
        rw (here_lem c l2 y (u l2) r) (
          rw (here_lem c l3 z (u l3) s) (
            ap ok (
              sym (
                ap on (sym (same (w ++ (x ++ (y ++ z))) ds h4))
                ∙ filter-append (is_on c.my_host) w (x ++ (y ++ z))
                ∙ ap (λ t. on w ++ t)
                    (filter-append (is_on c.my_host) x (y ++ z)
                      ∙ ap (λ t. on x ++ t) (filter-append (is_on c.my_host) y z))))))))
  where
    same : (a b : List Daemon) → ok a ≡ ok b → a ≡ b
    same a b h = cc
