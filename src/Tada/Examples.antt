-- ===== src/Tada/Examples.antt =====
-- Runs of the class `Test`, and its theorems at concrete data.
use ldms_test.Base.{
  ℕ, ◌≡◌, ◌≢◌, ◌↔◌, refl, Text, true, false, none, some, [], ◌∷◌, Result, ok, err, value_error,
  arith, nat_eq,
}
use ldms_test.Base.Dict
use ldms_test.Base.Int.{pos, negsuc}
use ldms_test.Base.Strings.{text, split}
use ldms_test.Tada.{
  skipped, Assertion, Test, init, add, check, start, assert_test, add_assertion, finish, decide,
  perform,
}
use ldms_test.Tada.Report.{reported, status_of, IsTracked}
use ldms_test.Tada.Finish.{AllReportedPassed}
use ldms_test.Tada.Sessions.{Session, before_finish, session_reports, session_passed_iff}
use ldms_test.Tada.Identity.{start_again_new_id}

no_number : Text → Result ℕ
no_number s = err value_error

abbrev agg_test : Test
agg_test = record {
  suite = text "LDMSD";
  type = text "FVT";
  name = text "agg";
  user = text "root";
  commit_id = text "-";
  desc = text "agg";
  host = text "tada-host";
  port = 9862;
  test_id = none;
  assertions = [];
  sent = [];
}

init_without_port :
    init no_number
      (text "LDMSD")
      (text "FVT")
      (text "agg")
      none
      (some (text "tada-host"))
      (text "root")
      (text "-")
    ≡ ok agg_test
unfolding init split
init_without_port = refl

init_bad_port :
    init no_number
      (text "LDMSD")
      (text "FVT")
      (text "agg")
      none
      (some (text "h:x"))
      (text "root")
      (text "-")
    ≡ err value_error
unfolding init split no_number
init_bad_port = refl

abbrev session : Session
session = record {
  planned = add 1 (text "up") ∷ add 2 (text "down") ∷ add 3 (text "never") ∷ [];
  begun = 10;
  announced = 11;
  actions =
      check 1 true (text "c1") ∷ check 9 true (text "unknown") ∷ check 2 false (text "c2") ∷ [];
}

same : Text → Text
same s = s

session_reports_example :
    let u = before_finish same false session agg_test in
    reported 3 (finish 12 u).1.sent ≡ status_of (Dict.lookup 3 u.assertions)
session_reports_example =
    session_reports same false session (tt, (tt, (tt, tt))) agg_test (refl, refl, refl) 12 3

session_failed : (finish 12 (before_finish same false session agg_test)).0 ≡ ok (negsuc 0)
unfolding finish perform assert_test add_assertion start decide Dict.insert Dict.lookup
session_failed = refl

session_passed_iff_example :
    let f = finish 12 (before_finish same false session agg_test) in
    (f.0 ≡ ok (pos 0)) ↔ AllReportedPassed f.1.sent
session_passed_iff_example =
    session_passed_iff same false session (tt, (tt, (tt, tt))) agg_test (refl, refl, refl) 12

abbrev waiting : Assertion
waiting = record {
  number = 1;
  desc = text "up";
  cond = text "none";
  status = skipped;
  test_id = none;
}

abbrev planned_test : Test
planned_test = record agg_test { assertions = (1, waiting) ∷ [] }

planned_test-IsTracked : IsTracked planned_test
unfolding Dict.lookup
planned_test-IsTracked = record { nodup = (refl, tt); agree = λ n. ground arith }

start_again_new_id_example :
    (x : Text) × (y : Text) × (x ≢ y)
    × ((start same 10 11 agg_test).test_id ≡ some (same x))
    × ((start same 20 21 agg_test).test_id ≡ some (same y))
start_again_new_id_example = start_again_new_id same agg_test 10 20 11 21 (omega arith)
