-- ===== src/Docker/Creation.antt =====
-- runtime/docker.py, `__create` of the class DockerCluster: the calls that make the containers of a
-- network. Docker is a function of the calls made so far. The `while _retry` loop runs its body once:
-- it ends by `break`, or its `except` clause raises before `_retry` is changed.
mod Ends
pub mod Complete
mod Examples
use ldms_test.Base.{
  ℕ, zero, suc, Text, Bool, true, false, List, [], ◌∷◌, ◌++◌, Option, none, some, ltb,
  if◌then◌else◌, Result, ok, err, Exc, stop_iteration,
}
use ldms_test.Value.{Value, truthy}
use ldms_test.Docker.Params.{Params}

pub data Call : Type 0 where
  -- client and parameters
  create : Text → Params → Call
  -- the container of this name, with an address or without
  connect : Text → Option Text → Call
  -- `tarfile` with the script, and the archive put into the container
  pack : Value → Call
  put_archive : Text → Call
  start : Text → Call
  -- the script, run in the container
  exec_atstart : Text → Call
  sleep : Call
  reload : Call

pub record Docker : Type 0 where
  -- a call after those made so far
  pub answer : List Call → Call → Result (Unit {0})
  -- the number of containers in the network, or the `TypeError` where it has none listed
  pub in_network : List Call → Result ℕ

-- Further calls, unless an exception was raised
unfoldable pub then_ :
    Result (Unit {0}) × List Call
    → (List Call → Result (Unit {0}) × List Call)
    → Result (Unit {0}) × List Call
then_ (ok u, h) f = f h
then_ (err e, h) f = (err e, h)

unfoldable pub perform : Docker → List Call → List Call → Result (Unit {0}) × List Call
unfolding then_
perform d [] h = (ok tt, h)
perform d (c ∷ cs) h = then_ (d.answer h c, h ++ (c ∷ [])) (perform d cs)

-- The calls behind `connect`
unfoldable pub starting : Params → List Call
starting p =
    if truthy p.atstart
    then pack p.atstart ∷ (put_archive p.name ∷ (start p.name ∷ (exec_atstart p.name ∷ [])))
    else start p.name ∷ []

-- One container: the addresses left are `None` without a subnet.
unfoldable pub create_one :
    Docker → Text × Params → Option (List Text) → List Call → Result (Unit {0}) × List Call
unfolding perform then_ starting
create_one d (cl, p) none h = perform d (create cl p ∷ (connect p.name none ∷ starting p)) h
create_one d (cl, p) (some []) h =
    then_ (perform d (create cl p ∷ []) h) (λ h'. (err stop_iteration, h'))
create_one d (cl, p) (some (a ∷ rest)) h =
    perform d (create cl p ∷ (connect p.name (some a) ∷ starting p)) h

-- The wait for the network, behind the first container
unfoldable pub await_network : Docker → ℕ → List Call → Result (Unit {0}) × List Call
unfolding perform then_
await_network d zero h = (ok tt, h)
await_network d (suc retry) h = then_ (perform d (sleep ∷ (reload ∷ [])) h) (λ h'.
    let rest = await_network d retry h' in
    elim (d.in_network h') [ err e ↦ (err e, h') | ok n ↦ if ltb 1 n then (ok tt, h') else rest ])

unfoldable pub addresses_left : Option (List Text) → Option (List Text)
addresses_left none = none
addresses_left (some []) = some []
addresses_left (some (a ∷ rest)) = some rest

unfoldable pub create_rest :
    Docker → List (Text × Params) → Option (List Text) → List Call → Result (Unit {0}) × List Call
unfolding create_one then_
create_rest d [] addrs h = (ok tt, h)
create_rest d (b ∷ build) addrs h =
    then_ (create_one d b addrs h) (create_rest d build (addresses_left addrs))

-- The loop over `cont_build`; `addrs` are the hosts of the subnet, if there is one.
unfoldable pub create_all :
    Docker → List (Text × Params) → Option (List Text) → List Call → Result (Unit {0}) × List Call
unfolding create_one then_ await_network create_rest
create_all d [] addrs h = (ok tt, h)
create_all d (b ∷ build) addrs h =
    then_ (create_one d b addrs h)
      (λ h1. then_ (await_network d 10 h1) (create_rest d build (addresses_left addrs)))
