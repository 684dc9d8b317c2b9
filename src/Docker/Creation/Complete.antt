-- ===== src/Docker/Creation/Complete.antt =====
-- What has been called when the containers of a network have been created.
use ldms_test.Base.{◌≡◌, ◌≢◌, Text, List, [], Option, Exc, ok, err, inl, inr, sym, ◌∙◌}
use ldms_test.Docker.Params.{Params}
use ldms_test.Docker.Creation.{Call, Docker, create_all}
use ldms_test.Docker.Creation.Ends.{work, expected, create_all-Ends}

-- When the creation of the containers ends without an exception, there was an address of the subnet
-- for each, if there is a subnet, and the calls made, but for the waits, are for each container in
-- order: it is created by its client, connected to the network with its address, given its script if
-- it has one, and started, and the script is run.
pub create_all_lem :
    (d : Docker) (build : List (Text × Params)) (addrs : Option (List Text))
    → (create_all d build addrs []).0 ≡ ok tt
    → expected build addrs ≡ (ok tt, work (create_all d build addrs []).1)
create_all_lem d build addrs h =
    elim (create_all-Ends d Unit (λ _ _ _ _. tt) (λ _ _ _. tt) build addrs) [
      | inl (p, q) ↦ λ i. ((sym p ∙ h) i, (sym q) i)
      | inr (e, p, x) ↦ cc
    ]

-- When Docker raises nothing and lists the containers of the network, the creation of the containers
-- ends, however long the network is waited for: without an exception and with all containers
-- started, or, when the subnet has fewer addresses than there are containers, with `StopIteration`
-- for the first container without one, which is left created and not connected, behind the others.
pub create_all_returns :
    (d : Docker) (build : List (Text × Params)) (addrs : Option (List Text))
    → ((h : List Call) (c : Call) (e : Exc) → d.answer h c ≢ err e)
    → ((h : List Call) (e : Exc) → d.in_network h ≢ err e)
    → ((create_all d build addrs []).0, work (create_all d build addrs []).1) ≡ expected build addrs
create_all_returns d build addrs calm listed = elim (create_all-Ends d ⊥ calm listed build addrs) [
  | inl (p, q) ↦ λ i. (p i, q i)
  | inr (e, p, x) ↦ absurd x
]
