-- ===== src/CTest/Replay.antt =====
-- The replay of a C test is a session of the class `Test`, also where a message raises.
use ldms_test.Base.{
  ℕ, ◌≡◌, ◌↔◌, refl, sym, ap, subst, ◌∙◌, Text, Bool, true, false, Option, none, some, List, [],
  ◌∷◌, ◌++◌, Result, ok, err, ◌>>=◌, >>=-eq-ok, nat_eq, All-append, arith,
}
use ldms_test.Base.Dict
use ldms_test.Base.Int.{ℤ, pos}
use ldms_test.Tada.{Test, finish, exit_code, start, Action, add, check, perform}
use ldms_test.Tada.Report.{reported, status_of}
use ldms_test.Tada.Finish.{AllReportedPassed, status_of-finish, exit_code-finish}
use ldms_test.Tada.Sessions.{
  Session, IsPlan, IsFresh, before_finish, before_finish-test_id, init-IsFresh, session_reports,
  session_passed_iff,
}
use ldms_test.CTest.{
  Line, item, is_status, make, add_line, add_all, check_of, check_line, unless_raised, check_all,
  conclude, replay, create_suite,
}

perform-append :
    (debug : Bool) (xs ys : List Action) (t : Test)
    → perform debug (xs ++ ys) t ≡ perform debug ys (perform debug xs t)
unfolding perform
perform-append debug [] ys t = refl
perform-append debug (add n d ∷ xs) ys t = perform-append debug xs ys _
perform-append debug (check n c d ∷ xs) ys t = perform-append debug xs ys _

abbrev Performed : Bool → Test → Test → Type 0
Performed debug t u = (xs : List Action) × (u ≡ perform debug xs t)

Performed-trans :
    (debug : Bool) (t u v : Test) → Performed debug t u → Performed debug u v → Performed debug t v
Performed-trans debug t u v (xs, p) (ys, q) =
    (xs ++ ys, q ∙ ap (perform debug ys) p ∙ sym (perform-append debug xs ys t))

check_line-Performed :
    (debug : Bool) (c : Result (Option (ℕ × Bool × Text))) (t : Test)
    → Performed debug t (check_line debug c t).1
unfolding check_line perform
check_line-Performed debug (err e) t = ([], refl)
check_line-Performed debug (ok none) t = ([], refl)
check_line-Performed debug (ok (some (n, result, cond))) t = (check n result cond ∷ [], refl)

unless_raised-Performed :
    (debug : Bool) (t : Test) (r : Result (Unit {0})) (u : Test) (rest : Result (Unit {0}) × Test)
    → Performed debug t u
    → Performed debug t rest.1
    → Performed debug t (unless_raised r u rest).1
unfolding unless_raised
unless_raised-Performed debug t (err e) u rest p q = p
unless_raised-Performed debug t (ok _) u rest p q = q

check_all-Performed :
    (debug : Bool) (ms : List Line) (t : Test) → Performed debug t (check_all debug ms t).1
unfolding check_all perform
check_all-Performed debug [] t = ([], refl)
check_all-Performed debug (m ∷ ms) t =
    let c = check_line debug (check_of m) t in
    unless_raised-Performed debug t c.0 c.1 _ (check_line-Performed debug (check_of m) t) (
      Performed-trans debug t c.1 _ (check_line-Performed debug (check_of m) t)
        (check_all-Performed debug ms c.1))

abbrev Planned : Bool → Test → Test → Type 0
Planned debug t u = (xs : List Action) × IsPlan xs × (u ≡ perform debug xs t)

add_line-Planned :
    (debug b : Bool) (m : Line) (t u : Test) → add_line b m t ≡ ok u → Planned debug t u
unfolding add_line perform
add_line-Planned debug false m t u h = ([], tt, ground arith)
add_line-Planned debug true m t u h =
    let (n, p, k) = >>=-eq-ok (item m.assert_no) _ h in
    let (d, q, l) = >>=-eq-ok (item m.assert_desc) _ k in (add n d ∷ [], (tt, tt), ground arith)

add_all-Planned :
    (debug : Bool) (ms : List Line) (t u : Test) → add_all ms t ≡ ok u → Planned debug t u
unfolding add_all perform
add_all-Planned debug [] t u h = ([], tt, ground arith)
add_all-Planned debug (m ∷ ms) t u h =
    let (b, q, l) = >>=-eq-ok (is_status m) _ h in
    let (v, p, k) = >>=-eq-ok (add_line b m t) (add_all ms) l in
    let (xs, i, e) = add_line-Planned debug b m t v p in
    let (ys, j, f) = add_all-Planned debug ms v u k in
    (
      xs ++ ys,
      All-append _ xs ys i j,
      f ∙ ap (perform debug ys) e ∙ sym (perform-append debug xs ys t),
    )

make-IsFresh :
    (int : Text → Result ℕ) (addr : Option Text) (ms : List Line) (t : Test)
    → make int addr ms ≡ ok t
    → IsFresh t
unfolding make
make-IsFresh int addr [] t h = ground arith
make-IsFresh int addr (m ∷ ms) t h =
    let (suite, p, h1) = >>=-eq-ok (item m.test_suite) _ h in
    let (type, p, h2) = >>=-eq-ok (item m.test_type) _ h1 in
    let (name, p, h3) = >>=-eq-ok (item m.test_name) _ h2 in
    let (desc, p, h4) = >>=-eq-ok (item m.test_desc) _ h3 in
    let (user, p, h5) = >>=-eq-ok (item m.test_user) _ h4 in
    let (commit_id, p, h6) = >>=-eq-ok (item m.commit_id) _ h5 in
    init-IsFresh int suite type name (some desc) addr user commit_id t h6

-- What the replay of a made test does is a session.
abbrev IsSession : (Text → Text) → ℕ → Bool → Test → Test → Type 0
IsSession digest now debug t u =
    (s : Session) × IsPlan s.planned × (u ≡ (finish now (before_finish digest debug s t)).1)

ok-injective : (x y : ℤ) → ok x ≡ ok y → x ≡ y
ok-injective x y h = cc

passed_iff :
    {P : Type 0} (z : ℤ) (y : ℤ) (r : Result ℤ)
    → z ≡ y
    → r ≡ ok y
    → ((r ≡ ok (pos 0)) ↔ P)
    → (z ≡ pos 0) ↔ P
passed_iff z y r same exit iff = (
  λ h. iff.0 (exit ∙ ap ok (sym same ∙ h)),
  λ p. same ∙ ok-injective y (pos 0) (sym exit ∙ iff.1 p),
)

conclude-ok :
    (r : Result (Unit {0})) (f : Result ℤ) (t : Test) (z : ℤ)
    → conclude r f t ≡ ok z
    → z ≡ exit_code t
unfolding conclude
conclude-ok (err e) (err f) t z h = cc
conclude-ok (err e) (ok y) t z h = cc
conclude-ok (ok u) (err f) t z h = cc
conclude-ok (ok u) (ok y) t z h = ground arith

module _ (int : Text → Result ℕ) (digest : Text → Text) (ts announced now : ℕ) (debug : Bool)
    (addr : Option Text) (ms : List Line) where
  abbrev Created : Result ℤ → Test → Type 0
  Created r u = create_suite int digest ts announced now debug addr ms ≡ (r, some u)

  created :
      (r : Result ℤ) (u : Test) (m : Result Test)
      → (elim m as (λ x. Result ℤ × Option Test) [
        | err e ↦ (err e, none)
        | ok t ↦ let (q, v) = replay digest ts announced now debug ms t in (q, some v)
      ])
        ≡ (r, some u)
      → (t : Test) × (m ≡ ok t) × (replay digest ts announced now debug ms t ≡ (r, u))
  created r u (err e) h = ground arith
  created r u (ok t) h = (t, refl, ground arith)

  replay-IsSession :
      (t0 t1 : Test)
      → Planned debug t0 t1
      → IsSession digest now debug t0 (replay digest ts announced now debug ms t1).1
  unfolding replay
  replay-IsSession t0 t1 (xs, i, p) =
      let (ys, q) = check_all-Performed debug ms (start digest ts announced t1) in
      (
        record { planned = xs; begun = ts; announced = announced; actions = ys },
        i,
        ap (λ u. (finish now u).1) (q ∙ ap (λ t. perform debug ys (start digest ts announced t)) p),
      )

  replay-ok :
      (t : Test) (z : ℤ)
      → (replay digest ts announced now debug ms t).0 ≡ ok z
      → z ≡ exit_code (replay digest ts announced now debug ms t).1
  unfolding replay
  replay-ok t z h = conclude-ok _ _ _ z h

  Created-IsSession :
      (r : Result ℤ) (u : Test)
      → Created r u
      → (t : Test) × IsFresh t
        × IsSession digest now debug t u
        × ((z : ℤ) → r ≡ ok z → z ≡ exit_code u)
  unfolding create_suite
  Created-IsSession r u h =
      let (t1, p, q) = created r u (make int addr ms >>= add_all ms) h in
      let (t0, e, f) = >>=-eq-ok (make int addr ms) (add_all ms) p in
      (
        t0,
        make-IsFresh int addr ms t0 e,
        subst (λ o. IsSession digest now debug t0 o.1) q
            (replay-IsSession t0 t1 (add_all-Planned debug ms t0 t1 f)),
        λ z k. subst (λ (o : Result ℤ × Test). o.0 ≡ ok z → z ≡ exit_code o.1) q (replay-ok t1 z) k,
      )

  -- When a test was made of the messages and started, then, also if a message of the second loop
  -- raised, the last message that `tadad` was sent about each number gives the status that the
  -- object ends with, and numbers that were never added are in no message.
  pub create_suite-reports :
      (r : Result ℤ) (u : Test) (n : ℕ)
      → create_suite int digest ts announced now debug addr ms ≡ (r, some u)
      → reported n u.sent ≡ status_of (Dict.lookup n u.assertions)
  create_suite-reports r u n h =
      let (t, fresh, (s, plan, e), k) = Created-IsSession r u h in
      subst (λ v. reported n v.sent ≡ status_of (Dict.lookup n v.assertions)) (sym e)
        (session_reports digest debug s plan t fresh now n
          ∙ sym (status_of-finish now _ _ n (before_finish-test_id digest debug s plan t fresh)))

  -- When the replay returns, it returns 0 exactly if every status that `tadad` was last sent is
  -- "passed".
  pub create_suite-passed_iff :
      (z : ℤ) (u : Test)
      → create_suite int digest ts announced now debug addr ms ≡ (ok z, some u)
      → (z ≡ pos 0) ↔ AllReportedPassed u.sent
  create_suite-passed_iff z u h =
      let (t, fresh, (s, plan, e), k) = Created-IsSession (ok z) u h in
      let exit = exit_code-finish now _ _ (before_finish-test_id digest debug s plan t fresh) in
      subst (λ v. (z ≡ exit_code v) → (z ≡ pos 0) ↔ AllReportedPassed v.sent) (sym e)
        (λ same. passed_iff z _ _ same exit (session_passed_iff digest debug s plan t fresh now))
        (k z refl)
