-- ===== src/Scale/Ctl/Stops.antt =====
-- What `ldmsd_ctl.py stop` does.
use ldms_test.Base.{
  ◌≡◌, refl, sym, ◌∙◌, subst, ℕ, Text, List, [], ◌∷◌, Option, Result, ok, err, text_eq, All,
  All-append, Bool-cases, Result-cases, inl, inr, arith,
}
use ldms_test.Base.Int.{ℤ}
use ldms_test.Scale.{Config, Daemon}
use ldms_test.Scale.Control.{get_daemons}
use ldms_test.Scale.Process.{Machine, Action, kill, ldmsd, truthy, stop}
use ldms_test.Scale.Process.Signals.{IsRunning, stop_lem}
use ldms_test.Scale.Ctl.{
  Run, stop_daemons, done_of, pid_here, stop_one, with_pid, handle, handle_all, name_filter,
  run_ctl,
}
use mathlib.Core.List.{Mem, mem-cons_self, mem-cons_of_mem, mem-append_left}

module _ (c : Config) (machine : Machine) (int : Text → Result ℤ) (strip : Text → Text) where
  -- The action is a signal to a daemon of the list, which runs on this host.
  abbrev pub StopsOf : List Daemon → Action → Type 0
  StopsOf ds a =
      (d : Daemon) × (pid : ℤ) × Mem d ds
      × (a ≡ kill pid)
      × (c.my_host ≡ d.host)
      × IsRunning c.my_host machine int strip (ldmsd d.host d.name) pid

  stop_actions :
      (d : Daemon) (r : Result (List Action))
      → stop c.my_host machine int strip (ldmsd d.host d.name) ≡ r
      → All (StopsOf (d ∷ [])) ((done_of c machine int strip r).1)
  unfolding done_of ldmsd
  stop_actions d (err e) h = tt
  stop_actions d (ok []) h = tt
  stop_actions d (ok (a ∷ rest)) h =
      let (e, pid, f, g, i) =
        stop_lem c.my_host machine int strip (ldmsd d.host d.name) (a ∷ rest) a rest h refl in
      ((d, pid, mem-cons_self, f, g, i), subst (All (StopsOf (d ∷ []))) (sym e) tt)

  weaken :
      (ds es : List Daemon)
      → ((e : Daemon) → Mem e ds → Mem e es)
      → (actions : List Action) → All (StopsOf ds) actions
      → All (StopsOf es) actions
  weaken ds es f [] h = tt
  weaken ds es f (a ∷ actions) ((e, pid, m, i, j, k), h) =
      ((e, pid, f e m, i, j, k), weaken ds es f actions h)

  stop_one-All :
      (d : Daemon) (pid : Option ℤ)
      → All (StopsOf (d ∷ [])) ((stop_one c machine int strip d pid).1)
  unfolding stop_one
  stop_one-All d pid = elim (Bool-cases (truthy pid)) [
    | inl e ↦ rw (e, stop_one) (stop_actions d _ refl)
    | inr e ↦ rw (e, stop_one) tt
  ]

  handle-All : (d : Daemon) → All (StopsOf (d ∷ [])) ((handle c machine int strip stop_daemons d).1)
  unfolding handle with_pid
  handle-All d = elim (Result-cases (pid_here c machine int strip d)) [
    | inl (pid, e) ↦ rw (e, with_pid) (stop_one-All d pid)
    | inr (x, e) ↦ rw (e, with_pid) tt
  ]

  rc_zero :
      (r : Result (Unit {0})) (rest : ℕ)
      → elim r [ ok u ↦ rest | err e ↦ 1 ] ≡ 0
      → (r ≡ ok tt) × (rest ≡ 0)
  rc_zero (ok u) rest h = (refl, h)
  rc_zero (err e) rest h = absurd (omega (arith, h))

  handle_all-All :
      (ds : List Daemon)
      → All (StopsOf ds) ((handle_all c machine int strip stop_daemons ds).actions)
        × ((handle_all c machine int strip stop_daemons ds).rc ≡ 0
            → All (λ d. (handle c machine int strip stop_daemons d).0 ≡ ok tt) ds)
  unfolding handle_all
  handle_all-All [] = (tt, λ h. tt)
  handle_all-All (d ∷ ds) =
      let (a, b) = handle_all-All ds in
      (
        All-append (StopsOf (d ∷ ds)) _ _
            (weaken (d ∷ []) (d ∷ ds) (λ e m. mem-append_left ds m) _ (handle-All d))
            (weaken ds (d ∷ ds) (λ e m. mem-cons_of_mem d m) _ a),
        λ h. let (p, q) = rc_zero ((handle c machine int strip stop_daemons d).0) _ h in (p, b q),
      )

  -- When `ldmsd_ctl.py stop` has found the daemons of this host, with these names if any are given, it
  -- does nothing but send signals, each to a process of one of these daemons that is on this host and
  -- whose command passes the tests of the class. If it ends with 0, no daemon raised.
  pub run_ctl-StopsOf :
      (ns : List Text) (ds : List Daemon) (r : Run)
      → get_daemons c (name_filter ns) ≡ ok ds
      → run_ctl c machine int strip stop_daemons ns ≡ ok r
      → All (StopsOf ds) r.actions
        × (r.rc ≡ 0 → All (λ d. (handle c machine int strip stop_daemons d).0 ≡ ok tt) ds)
  unfolding run_ctl
  run_ctl-StopsOf ns ds r h k =
      subst
        (λ x.
          All (StopsOf ds) x.actions
          × (x.rc ≡ 0 → All (λ d. (handle c machine int strip stop_daemons d).0 ≡ ok tt) ds))
        (same (handle_all c machine int strip stop_daemons ds) r (sym (found h) ∙ k))
        (handle_all-All ds)
    where
      same : (x y : Run) → ok x ≡ ok y → x ≡ y
      same x y h = cc

      found :
          get_daemons c (name_filter ns) ≡ ok ds
          → run_ctl c machine int strip stop_daemons ns
            ≡ ok (handle_all c machine int strip stop_daemons ds)
      found h = rw (h, run_ctl) refl
