-- ===== src/CTest/Examples.antt =====
-- Witnesses: a C test of two assertions, one of which fails.
use ldms_test.Base.{
  ℕ, ◌≡◌, ◌↔◌, refl, Text, false, Option, none, some, List, [], ◌∷◌, Result, ok, err, value_error,
  nat_eq, text_beq,
}
use ldms_test.Base.Dict
use ldms_test.Base.Strings.{text, split, decimal}
use ldms_test.Base.Int.{ℤ, pos, negsuc}
use ldms_test.Tada.{Test, add_assertion, assert_test, exit_code, finish, init, start, identity}
use ldms_test.Tada.Report.{reported, status_of}
use ldms_test.Tada.Finish.{AllReportedPassed}
use ldms_test.CTest.{Line, make, add_all, replay, create_suite}
use ldms_test.CTest.Replay.{create_suite-reports, create_suite-passed_iff}

abbrev line : ℕ → Text → Line
line n status = record {
  msg_type = some (text "assert-status");
  test_suite = some (text "LDMSD");
  test_type = some (text "FVT");
  test_name = some (text "json");
  test_desc = some [];
  test_user = some (text "root");
  commit_id = some (text "abc");
  assert_no = some n;
  assert_desc = some (text "parse");
  test_status = some status;
  assert_cond = some (text "rc == 0");
}

abbrev results : List Line
results = line 1 (text "passed") ∷ (line 2 (text "failed") ∷ [])

abbrev no_int : Text → Result ℕ
no_int s = err value_error

abbrev same_text : Text → Text
same_text s = s

abbrev outcome : Result ℤ × Option Test
outcome = create_suite no_int same_text 5 5 6 false none results

-- The test that is left.
abbrev left : Option Test → Test
left none = record {
  suite = [];
  type = [];
  name = [];
  user = [];
  commit_id = [];
  desc = [];
  host = [];
  port = 0;
  test_id = none;
  assertions = [];
  sent = [];
}
left (some t) = t

failing_run : outcome ≡ (ok (negsuc 0), some (left outcome.1))
unfolding create_suite make add_all replay init start identity add_assertion assert_test finish
    exit_code split decimal Dict.insert Dict.lookup text_beq
failing_run = refl

create_suite-reports_example :
    reported 2 (left outcome.1).sent ≡ status_of (Dict.lookup 2 (left outcome.1).assertions)
create_suite-reports_example =
    create_suite-reports no_int same_text 5 5 6 false none results (ok (negsuc 0)) (left outcome.1)
      2 failing_run

create_suite-passed_iff_example : (negsuc 0 ≡ pos 0) ↔ AllReportedPassed (left outcome.1).sent
create_suite-passed_iff_example =
    create_suite-passed_iff no_int same_text 5 5 6 false none results (negsuc 0) (left outcome.1)
      failing_run
