-- ===== src/Docker/Creation/Ends.antt =====
-- How a run of the calls that create containers ends.
use ldms_test.Base.{
  ℕ, zero, suc, ◌≡◌, ◌⊎◌, refl, ap, subst, sym, ◌∙◌, Text, List, [], ◌∷◌, ◌++◌, Option, none, some,
  Result, ok, err, Exc, stop_iteration, inl, inr, append-nil, append_assoc, ltb, Bool-cases,
  Result-cases, if◌then◌else◌,
}
use ldms_test.Value.{truthy}
use ldms_test.Docker.Params.{Params}
use ldms_test.Docker.Creation.{
  Call, create, connect, pack, put_archive, start, exec_atstart, sleep, reload, Docker, perform,
  then_, starting, create_one, await_network, addresses_left, create_rest, create_all,
}

-- The calls for a container without those of the wait.
abbrev pub work : List Call → List Call
work [] = []
work (sleep ∷ cs) = work cs
work (reload ∷ cs) = work cs
work (create cl p ∷ cs) = create cl p ∷ work cs
work (connect n a ∷ cs) = connect n a ∷ work cs
work (pack v ∷ cs) = pack v ∷ work cs
work (put_archive n ∷ cs) = put_archive n ∷ work cs
work (start n ∷ cs) = start n ∷ work cs
work (exec_atstart n ∷ cs) = exec_atstart n ∷ work cs

-- The calls that make a container run: it is created by its client, connected to the network, given
-- its script if it has one, and started; then the script runs.
abbrev pub deployed : Text → Params → Option Text → List Call
deployed cl p addr =
    if truthy p.atstart
    then create cl p
      ∷ connect p.name addr
      ∷ pack p.atstart
      ∷ put_archive p.name
      ∷ start p.name
      ∷ exec_atstart p.name
      ∷ []
    else create cl p ∷ connect p.name addr ∷ start p.name ∷ []

-- How the creation of these containers ends where Docker raises nothing, and the calls that it makes:
-- each container takes the next address of the subnet. A container for which no address is left is
-- created, and nothing follows.
abbrev pub expected : List (Text × Params) → Option (List Text) → Result (Unit {0}) × List Call
expected [] addrs = (ok tt, [])
expected ((cl, p) ∷ build) none = let (r, cs) = expected build none in (r, deployed cl p none ++ cs)
expected ((cl, p) ∷ build) (some []) = (err stop_iteration, create cl p ∷ [])
expected ((cl, p) ∷ build) (some (a ∷ rest)) =
    let (r, cs) = expected build (some rest) in (r, deployed cl p (some a) ++ cs)

work-append : (xs ys : List Call) → work (xs ++ ys) ≡ work xs ++ work ys
work-append [] ys = refl
work-append (sleep ∷ cs) ys = work-append cs ys
work-append (reload ∷ cs) ys = work-append cs ys
work-append (create cl p ∷ cs) ys = ap (λ l. create cl p ∷ l) (work-append cs ys)
work-append (connect n a ∷ cs) ys = ap (λ l. connect n a ∷ l) (work-append cs ys)
work-append (pack v ∷ cs) ys = ap (λ l. pack v ∷ l) (work-append cs ys)
work-append (put_archive n ∷ cs) ys = ap (λ l. put_archive n ∷ l) (work-append cs ys)
work-append (start n ∷ cs) ys = ap (λ l. start n ∷ l) (work-append cs ys)
work-append (exec_atstart n ∷ cs) ys = ap (λ l. exec_atstart n ∷ l) (work-append cs ys)

module _ (d : Docker) (Upset : Type 0)
    (raised_call : (h : List Call) (c : Call) (e : Exc) → d.answer h c ≡ err e → Upset)
    (raised_len : (h : List Call) (e : Exc) → d.in_network h ≡ err e → Upset) where
  -- A run ends as it should, with these calls added to the work, or it raises because Docker did.
  abbrev pub Ends :
      List Call → Result (Unit {0}) × List Call → Result (Unit {0}) × List Call → Type 0
  Ends h (o, cs) (r, l) = ((r ≡ o) × (work l ≡ work h ++ cs)) ⊎ ((e : Exc) × (r ≡ err e) × Upset)

  then-Ends :
      (h cs ds : List Call) (o : Result (Unit {0})) (r : Result (Unit {0}) × List Call)
      (f : List Call → Result (Unit {0}) × List Call)
      → Ends h (ok tt, cs) r
      → ((l : List Call) → Ends l (o, ds) (f l))
      → Ends h (o, cs ++ ds) (then_ r f)
  unfolding then_
  then-Ends h cs ds o (ok u, l) f (inr (e, p, x)) k = cc
  then-Ends h cs ds o (ok u, l) f (inl (p, q)) k = elim (k l) [
    | inl (a, b) ↦ inl (a, b ∙ ap (λ w. w ++ ds) q ∙ append_assoc (work h) cs ds)
    | inr x ↦ inr x
  ]
  then-Ends h cs ds o (err e, l) f (inl (p, q)) k = cc
  then-Ends h cs ds o (err e, l) f (inr x) k = inr x

  perform-Ends : (cs h : List Call) → Ends h (ok tt, work cs) (perform d cs h)
  unfolding perform
  perform-Ends [] h = inl (refl, sym (append-nil (work h)))
  perform-Ends (c ∷ cs) h =
      subst (λ w. Ends h (ok tt, w) (then_ (d.answer h c, h ++ (c ∷ [])) (perform d cs)))
        (sym (work-append (c ∷ []) cs))
        (then-Ends h (work (c ∷ [])) (work cs) (ok tt) (d.answer h c, h ++ (c ∷ [])) (perform d cs)
          (made (d.answer h c) refl) (perform-Ends cs))
    where
      made :
          (r : Result (Unit {0}))
          → d.answer h c ≡ r
          → Ends h (ok tt, work (c ∷ [])) (r, h ++ (c ∷ []))
      made (ok u) e = inl (refl, work-append h (c ∷ []))
      made (err x) e = inr (x, refl, raised_call h c x e)

  await_network-Ends : (n : ℕ) (h : List Call) → Ends h (ok tt, []) (await_network d n h)
  unfolding await_network
  await_network-Ends zero h = inl (refl, sym (append-nil (work h)))
  await_network-Ends (suc n) h =
      then-Ends h [] [] (ok tt) (perform d (sleep ∷ (reload ∷ [])) h) _
        (perform-Ends (sleep ∷ (reload ∷ [])) h)
        (λ l. elim (Result-cases (d.in_network l)) [
          | inl (m, e) ↦ rw e (elim (Bool-cases (ltb 1 m)) [
            | inl up ↦ rw up (inl (refl, sym (append-nil (work l))))
            | inr down ↦ rw down (await_network-Ends n l)
          ])
          | inr (x, e) ↦ rw e (inr (x, refl, raised_len l x e))
        ])

  deployed-Ends :
      (cl : Text) (p : Params) (a : Option Text) (h : List Call)
      → Ends h (ok tt, deployed cl p a) (perform d (create cl p ∷ connect p.name a ∷ starting p) h)
  unfolding starting
  deployed-Ends cl p a h =
      subst (λ w. Ends h (ok tt, w) (perform d (create cl p ∷ connect p.name a ∷ starting p) h))
        (same_calls) (perform-Ends (create cl p ∷ connect p.name a ∷ starting p) h)
    where
      same_calls : work (create cl p ∷ connect p.name a ∷ starting p) ≡ deployed cl p a
      same_calls = elim (Bool-cases (truthy p.atstart)) [ inl f ↦ rw f refl | inr f ↦ rw f refl ]

  -- Without an address for it, a container is left as it was created.
  stopped-Ends :
      (cs h : List Call) (f : List Call → Result (Unit {0}) × List Call)
      → Ends h
          (err stop_iteration, work cs)
          (then_ (then_ (perform d cs h) (λ l. (err stop_iteration, l))) f)
  unfolding then_
  stopped-Ends cs h f = stopped (perform d cs h) (perform-Ends cs h)
    where
      stopped :
          (r : Result (Unit {0}) × List Call)
          → Ends h (ok tt, work cs) r
          → Ends h (err stop_iteration, work cs) (then_ (then_ r (λ l. (err stop_iteration, l))) f)
      stopped (ok u, l) (inl (p, q)) = inl (refl, q)
      stopped (ok u, l) (inr (e, p, x)) = cc
      stopped (err e, l) (inl (p, q)) = cc
      stopped (err e, l) (inr x) = inr x

  create_rest-Ends :
      (build : List (Text × Params)) (addrs : Option (List Text)) (h : List Call)
      → Ends h (expected build addrs) (create_rest d build addrs h)
  unfolding create_rest create_one addresses_left
  create_rest-Ends [] addrs h = inl (refl, sym (append-nil (work h)))
  create_rest-Ends ((cl, p) ∷ build) none h =
      then-Ends h (deployed cl p none) (expected build none).1 (expected build none).0
        (create_one d (cl, p) none h) (create_rest d build none) (deployed-Ends cl p none h)
        (create_rest-Ends build none)
  create_rest-Ends ((cl, p) ∷ build) (some []) h =
      stopped-Ends (create cl p ∷ []) h (create_rest d build (some []))
  create_rest-Ends ((cl, p) ∷ build) (some (a ∷ rest)) h =
      then-Ends h (deployed cl p (some a)) (expected build (some rest)).1
        (expected build (some rest)).0 (create_one d (cl, p) (some (a ∷ rest)) h)
        (create_rest d build (some rest)) (deployed-Ends cl p (some a) h)
        (create_rest-Ends build (some rest))

  -- The wait behind the first container, and the others.
  others-Ends :
      (build : List (Text × Params)) (addrs : Option (List Text)) (l : List Call)
      → Ends l (expected build addrs) (then_ (await_network d 10 l) (create_rest d build addrs))
  others-Ends build addrs l =
      then-Ends l [] (expected build addrs).1 (expected build addrs).0 (await_network d 10 l)
        (create_rest d build addrs) (await_network-Ends 10 l) (create_rest-Ends build addrs)

  pub create_all-Ends :
      (build : List (Text × Params)) (addrs : Option (List Text))
      → Ends [] (expected build addrs) (create_all d build addrs [])
  unfolding create_all create_one addresses_left
  create_all-Ends [] addrs = inl (refl, refl)
  create_all-Ends ((cl, p) ∷ build) none =
      then-Ends [] (deployed cl p none) (expected build none).1 (expected build none).0
        (create_one d (cl, p) none []) _ (deployed-Ends cl p none []) (others-Ends build none)
  create_all-Ends ((cl, p) ∷ build) (some []) = stopped-Ends (create cl p ∷ []) [] _
  create_all-Ends ((cl, p) ∷ build) (some (a ∷ rest)) =
      then-Ends [] (deployed cl p (some a)) (expected build (some rest)).1
        (expected build (some rest)).0 (create_one d (cl, p) (some (a ∷ rest)) []) _
        (deployed-Ends cl p (some a) []) (others-Ends build (some rest))
