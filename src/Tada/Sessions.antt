-- ===== src/Tada/Sessions.antt =====
-- Whole runs of a test script, from `__init__` to `finish`.
use ldms_test.Base.{
  ℕ, ◌≡◌, ◌↔◌, refl, Text, Bool, Option, none, some, List, [], ◌∷◌, ◌∙◌, Result, ok, err,
  attribute_error, arith, nat_eq, nat_beq_iff, eq_refl, if◌then◌else◌, All,
}
use ldms_test.Base.Dict
use ldms_test.Base.Dict.{Dict, NodupKeys, lookup-insert, insert-NodupKeys}
use ldms_test.Base.Int.{pos}
use ldms_test.Tada.{
  passed, failed, Assertion, Test, init, start, add_assertion, assert_test, finish, Action, add,
  check, perform, decide, identity,
}
use ldms_test.Tada.Report.{
  reported, reported_after-append, status_of, IsTracked, add_assertion-IsTracked, start-IsTracked,
  perform-IsTracked, perform-id,
}
use ldms_test.Tada.Finish.{
  finish-reported, finish-passed_iff, finish-after_skip, AllReportedPassed, Keyed, IsTracked-Keyed,
}

-- A script: assertions are planned, the test is started, and things happen up to `finish`.
pub record Session : Type 0 where
  pub planned : List Action
  pub begun : ℕ
  pub announced : ℕ
  pub actions : List Action

-- What is planned before `start` adds assertions, and decides none.
abbrev pub IsPlan : List Action → Type 0
IsPlan = All (λ a. elim a [ add _ _ ↦ Unit {0} | check _ _ _ ↦ ⊥ ])

abbrev pub before_finish : (Text → Text) → Bool → Session → Test → Test
before_finish digest debug s t =
    perform debug s.actions (start digest s.begun s.announced (perform debug s.planned t))

perform-plan-IsTracked :
    (debug : Bool) (plan : List Action) (t : Test)
    → IsPlan plan
    → IsTracked t
    → IsTracked (perform debug plan t)
unfolding perform
perform-plan-IsTracked debug [] t p h = h
perform-plan-IsTracked debug (add n desc ∷ plan) t p h =
    perform-plan-IsTracked debug plan (add_assertion n desc t) p.1
      (add_assertion-IsTracked n desc t h)
perform-plan-IsTracked debug (check n c d ∷ plan) t p h = absurd p.0

abbrev pub IsFresh : Test → Type 0
IsFresh t = (t.assertions ≡ []) × (t.sent ≡ []) × (t.test_id ≡ none)

IsFresh-IsTracked : (t : Test) → IsFresh t → IsTracked t
unfolding Dict.lookup
IsFresh-IsTracked t h = record { nodup = rw (h.0) tt; agree = λ n. rw (h.0) (rw (h.1) refl) }

-- What `__init__` returns has no assertion, no id, and has sent nothing.
pub init-IsFresh :
    (int : Text → Result ℕ) (suite type name : Text) (desc addr : Option Text)
    (user commit_id : Text) (t : Test)
    → init int suite type name desc addr user commit_id ≡ ok t
    → IsFresh t
unfolding init
init-IsFresh int suite type name desc addr user commit_id t h = ground (arith)

start-test_id :
    (digest : Text → Text) (ts now : ℕ) (t : Test)
    → (start digest ts now t).test_id ≡ some (digest (identity t ts))
unfolding start
start-test_id digest ts now t = refl

module _ (digest : Text → Text) (debug : Bool) (s : Session) (plan : IsPlan s.planned) (t : Test)
    (fresh : IsFresh t) where
  before_finish-IsTracked : IsTracked (before_finish digest debug s t)
  before_finish-IsTracked =
      perform-IsTracked debug s.actions _ _ (start-test_id digest s.begun s.announced _) (
        start-IsTracked digest s.begun s.announced _
          (perform-plan-IsTracked debug s.planned t plan (IsFresh-IsTracked t fresh)))

  pub before_finish-test_id :
      (before_finish digest debug s t).test_id
      ≡ some (digest (identity (perform debug s.planned t) s.begun))
  before_finish-test_id = perform-id debug s.actions _ ∙ start-test_id digest s.begun s.announced _

  -- Whatever a script does between `start` and `finish`, exceptions included, once `finish` has
  -- run the last message about each number gives the status that the object records for it,
  -- and numbers that were never added are in no message.
  pub session_reports :
      (now n : ℕ)
      → let u = before_finish digest debug s t in
        reported n (finish now u).1.sent ≡ status_of (Dict.lookup n u.assertions)
  session_reports now n = finish-reported now _ _ n before_finish-test_id before_finish-IsTracked

  -- The exit code of such a session is 0 exactly if every status that `tadad` was last sent is
  -- "passed".
  pub session_passed_iff :
      (now : ℕ)
      → let f = finish now (before_finish digest debug s t) in
        (f.0 ≡ ok (pos 0)) ↔ AllReportedPassed f.1.sent
  session_passed_iff now = finish-passed_iff now _ _ before_finish-test_id before_finish-IsTracked

insert-Keyed :
    (n : ℕ) (a : Assertion) (d : Dict ℕ Assertion)
    → a.number ≡ n
    → Keyed d
    → Keyed (Dict.insert n a d)
unfolding Dict.insert
insert-Keyed n a [] e h = (e, tt)
insert-Keyed n a ((k, b) ∷ d) e h = ground (arith, insert-Keyed n a d e h.1, nat_beq_iff k n)

-- `assert_test` without an id
early_check :
    (debug : Bool) (n : ℕ) (cond : Bool) (cond_str : Text) (a : Assertion) (t : Test)
    → t.test_id ≡ none
    → Dict.lookup n t.assertions ≡ some a
    → let a' : Assertion = record a { cond = cond_str; status = if cond then passed else failed } in
      assert_test debug n cond cond_str t
      ≡ (err attribute_error, record t { assertions = Dict.insert n a' t.assertions })
unfolding assert_test decide
early_check debug n cond cond_str a t unstarted known = ground arith

-- A result that is decided before `start` raises, is kept in the object, and is not reported:
-- neither then, nor by `start` and `finish`.
pub early_result_lost :
    (digest : Text → Text) (debug : Bool) (n : ℕ) (cond : Bool) (cond_str : Text) (a : Assertion)
    (t : Test) (ts announced now : ℕ)
    → IsTracked t
    → t.test_id ≡ none
    → reported n t.sent ≡ none
    → Dict.lookup n t.assertions ≡ some a
    → let (r, u) = assert_test debug n cond cond_str t in
      (r ≡ err attribute_error)
      × (status_of (Dict.lookup n u.assertions) ≡ some (if cond then passed else failed))
      × (reported n (finish now (start digest ts announced u)).1.sent ≡ none)
early_result_lost digest debug n cond cond_str a t ts announced now h unstarted silent known =
    let a' : Assertion = record a { cond = cond_str; status = if cond then passed else failed } in
    let d = Dict.insert n a' t.assertions in
    rw (early_check debug n cond cond_str a t unstarted known) (
      refl,
      rw lookup-insert (rw eq_refl refl),
      finish-after_skip now (start digest ts announced (record t { assertions = d })) _ n
            (start-test_id digest ts announced _)
            (unfold start in
              insert-Keyed n a' t.assertions (ground (arith, h.agree n)) (IsTracked-Keyed t h))
            (unfold start in insert-NodupKeys n a' t.assertions h.nodup)
          ∙ unfold start in
            rw reported_after-append (rw lookup-insert (ground (arith, cond, silent))),
    )
