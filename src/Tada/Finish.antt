-- ===== src/Tada/Finish.antt =====
-- `finish` and `exit_code` of the class `Test`, and whole sessions.
use ldms_test.Base.{
  ℕ, ◌≡◌, ◌↔◌, refl, Text, true, Option, none, some, List, [], ◌∷◌, ◌∙◌, ap, ok, arith, nat_eq,
  nat_beq_iff, All,
}
use ldms_test.Base.Dict
use ldms_test.Base.Dict.{Dict, NodupKeys}
use ldms_test.Base.Int.{pos}
use ldms_test.Tada.{
  Status, passed, skipped, Assertion, Message, Test, exit_code, all_passed, send_skipped, finish,
}
use ldms_test.Tada.Report.{reported, reported_after, reported_after-append, status_of, IsTracked}

abbrev pub Keyed : Dict ℕ Assertion → Type 0
Keyed = All (λ (k, a). a.number ≡ k)

Keyed-of_lookup :
    (d : Dict ℕ Assertion)
    → NodupKeys d
    → ((n : ℕ) (a : Assertion) → Dict.lookup n d ≡ some a → a.number ≡ n)
    → Keyed d
unfolding Dict.lookup
Keyed-of_lookup [] u h = tt
Keyed-of_lookup ((k, a) ∷ d) u h = (
  h k a (ground arith),
  Keyed-of_lookup d u.1 (λ n b e. h n b (ground (arith, nat_beq_iff k n, u.0))),
)

-- What the loop of `finish` adds to a report.
abbrev pub after_skip : Option Assertion → Option Status → Option Status
after_skip none old = old
after_skip (some a) old = elim a.status [ skipped ↦ some skipped | _ ↦ old ]

pub send_skipped-reported :
    (id : Text) (n : ℕ) (d : Dict ℕ Assertion) (old : Option Status)
    → Keyed d
    → NodupKeys d
    → reported_after n old (send_skipped id d).1 ≡ after_skip (Dict.lookup n d) old
unfolding send_skipped Dict.lookup
send_skipped-reported id n [] old h u = refl
send_skipped-reported id n ((k, a) ∷ d) old h u = ground (
  arith,
  nat_beq_iff k n,
  send_skipped-reported id n d old h.1 u.1,
  send_skipped-reported id n d (some skipped) h.1 u.1,
)

status_of-send_skipped :
    (id : Text) (n : ℕ) (d : Dict ℕ Assertion)
    → status_of (Dict.lookup n (send_skipped id d).0) ≡ status_of (Dict.lookup n d)
unfolding send_skipped Dict.lookup
status_of-send_skipped id n [] = refl
status_of-send_skipped id n ((k, a) ∷ d) = ground (arith, status_of-send_skipped id n d)

all_passed-send_skipped :
    (id : Text) (d : Dict ℕ Assertion) → all_passed (send_skipped id d).0 ≡ all_passed d
unfolding send_skipped
all_passed-send_skipped id [] = refl
all_passed-send_skipped id ((k, a) ∷ d) = ground (arith, all_passed-send_skipped id d)

pub IsTracked-Keyed : (t : Test) → IsTracked t → Keyed t.assertions
IsTracked-Keyed t h = Keyed-of_lookup t.assertions h.nodup (λ n a e. ground (arith, h.agree n))

pub finish-after_skip :
    (now : ℕ) (t : Test) (id : Text) (n : ℕ)
    → t.test_id ≡ some id
    → Keyed t.assertions
    → NodupKeys t.assertions
    → reported n (finish now t).1.sent ≡ after_skip (Dict.lookup n t.assertions) (reported n t.sent)
unfolding finish
finish-after_skip now t id n started keyed nodup = rw started (
    simp reported_after-append
      (send_skipped-reported id n t.assertions (reported n t.sent) keyed nodup))

pub finish-reported :
    (now : ℕ) (t : Test) (id : Text) (n : ℕ)
    → t.test_id ≡ some id
    → IsTracked t
    → reported n (finish now t).1.sent ≡ status_of (Dict.lookup n t.assertions)
finish-reported now t id n started h =
    ground (arith, finish-after_skip now t id n started (IsTracked-Keyed t h) h.nodup, h.agree n)

pub status_of-finish :
    (now : ℕ) (t : Test) (id : Text) (n : ℕ)
    → t.test_id ≡ some id
    → status_of (Dict.lookup n (finish now t).1.assertions) ≡ status_of (Dict.lookup n t.assertions)
unfolding finish
status_of-finish now t id n started = rw started (status_of-send_skipped id n t.assertions)

-- What `finish` returns is the exit code of the object that it leaves.
pub exit_code-finish :
    (now : ℕ) (t : Test) (id : Text)
    → t.test_id ≡ some id
    → (finish now t).0 ≡ ok (exit_code (finish now t).1)
unfolding finish
exit_code-finish now t id started = rw started refl

finish-exit_code :
    (now : ℕ) (t : Test) (id : Text) → t.test_id ≡ some id → (finish now t).0 ≡ ok (exit_code t)
unfolding finish
finish-exit_code now t id started = ground (arith, all_passed-send_skipped id t.assertions)

passed_of_lookup :
    (d : Dict ℕ Assertion) (n : ℕ) (a : Assertion)
    → all_passed d ≡ true
    → Dict.lookup n d ≡ some a
    → a.status ≡ passed
unfolding Dict.lookup
passed_of_lookup [] n a h e = cc
passed_of_lookup ((k, b) ∷ d) n a h e = ground (arith, passed_of_lookup d n a)

all_passed_of_lookup :
    (d : Dict ℕ Assertion)
    → NodupKeys d
    → ((n : ℕ) (a : Assertion) → Dict.lookup n d ≡ some a → a.status ≡ passed)
    → all_passed d ≡ true
unfolding Dict.lookup
all_passed_of_lookup [] u h = refl
all_passed_of_lookup ((k, a) ∷ d) u h = ground (
  arith,
  h k a,
  all_passed_of_lookup d u.1 (λ n b e. h n b (ground (arith, nat_beq_iff k n, u.0))),
)

-- `tadad` has the status of every assertion, and every status that it has is the object's.
abbrev pub AllReportedPassed : List Message → Type 0
AllReportedPassed sent = (n : ℕ) (s : Status) → reported n sent ≡ some s → s ≡ passed

all_passed_of_exit : (t : Test) → ok (exit_code t) ≡ ok (pos 0) → all_passed t.assertions ≡ true
unfolding exit_code
all_passed_of_exit t h = ground arith

exit_of_all_passed : (t : Test) → all_passed t.assertions ≡ true → exit_code t ≡ pos 0
unfolding exit_code
exit_of_all_passed t h = ground arith

passed_of_status :
    (o : Option Assertion) (s : Status)
    → status_of o ≡ some s
    → ((a : Assertion) → o ≡ some a → a.status ≡ passed)
    → s ≡ passed
passed_of_status none s e h = cc
passed_of_status (some a) s e h = cc (h a refl)

pub finish-passed_iff :
    (now : ℕ) (t : Test) (id : Text)
    → t.test_id ≡ some id
    → IsTracked t
    → ((finish now t).0 ≡ ok (pos 0)) ↔ AllReportedPassed (finish now t).1.sent
finish-passed_iff now t id started h = (
  λ zero n s r.
      passed_of_status (Dict.lookup n t.assertions) s (cc (finish-reported now t id n started h))
        (λ a e.
          passed_of_lookup t.assertions n a
            (all_passed_of_exit t (cc (finish-exit_code now t id started))) e),
  λ all.
      finish-exit_code now t id started
      ∙ ap ok (
          exit_of_all_passed t (
            all_passed_of_lookup t.assertions h.nodup
              (λ n a e. all n a.status (finish-reported now t id n started h ∙ ap status_of e)))),
)
