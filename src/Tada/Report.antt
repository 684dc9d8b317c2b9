-- ===== src/Tada/Report.antt =====
-- What `tadad` learns from the datagrams of a test, against what the object records.
use ldms_test.Base.{
  ℕ, ◌≡◌, ◌⊎◌, refl, Text, Bool, Option, none, some, List, [], ◌∷◌, ◌++◌, arith, nat_eq,
  if◌then◌else◌, ◌==◌, ◌∙◌,
}
use ldms_test.Base.Dict
use ldms_test.Base.Dict.{Dict, NodupKeys, lookup-insert}
use ldms_test.Tada.{
  Status, skipped, Assertion, Message, test_start, assert_status, test_finish, Test, start,
  add_assertion, decide, assert_test, Action, add, check, perform,
}

-- The status that the last message about `n` gives, from `old` before the messages.
abbrev pub reported_after : ℕ → Option Status → List Message → Option Status
reported_after n old [] = old
reported_after n old (assert_status a ∷ ms) =
    reported_after n (if a.number == n then some a.status else old) ms
reported_after n old (test_start _ _ _ _ _ _ _ _ ∷ ms) = reported_after n old ms
reported_after n old (test_finish _ _ ∷ ms) = reported_after n old ms

abbrev pub reported : ℕ → List Message → Option Status
reported n = reported_after n none

-- The status that the object records.
abbrev pub status_of : Option Assertion → Option Status
status_of none = none
status_of (some a) = some a.status

pub reported_after-append :
    (n : ℕ) (xs ys : List Message) (old : Option Status)
    → reported_after n old (xs ++ ys) ≡ reported_after n (reported_after n old xs) ys
reported_after-append n [] ys old = refl
reported_after-append n (assert_status a ∷ xs) ys old = reported_after-append n xs ys _
reported_after-append n (test_start _ _ _ _ _ _ _ _ ∷ xs) ys old = reported_after-append n xs ys old
reported_after-append n (test_finish _ _ ∷ xs) ys old = reported_after-append n xs ys old

-- The object and the reports agree on one number, but for a result that waits as skipped.
abbrev Agree : ℕ → Option Assertion → Option Status → Type 0
Agree n none r = r ≡ none
Agree n (some a) r = (a.number ≡ n) × ((a.status ≡ skipped) ⊎ (r ≡ some a.status))

pub record IsTracked (t : Test) : Type 0 where
  pub nodup : NodupKeys t.assertions
  pub agree : (n : ℕ) → Agree n (Dict.lookup n t.assertions) (reported n t.sent)

Agree-skipped :
    (n : ℕ) (a : Assertion) (r : Option Status)
    → a.number ≡ n
    → a.status ≡ skipped
    → Agree n (some a) r
Agree-skipped n a r e s = ground arith

pub add_assertion-IsTracked :
    (n : ℕ) (desc : Text) (t : Test) → IsTracked t → IsTracked (add_assertion n desc t)
unfolding add_assertion
add_assertion-IsTracked n desc t h = record {
  nodup = Dict.insert-NodupKeys n _ t.assertions h.nodup;
  agree = λ m. rw lookup-insert (ground (arith, h.agree m));
}

pub start-IsTracked :
    (digest : Text → Text) (ts now : ℕ) (t : Test) → IsTracked t → IsTracked (start digest ts now t)
unfolding start
start-IsTracked digest ts now t h = record {
  nodup = h.nodup;
  agree = λ m. rw reported_after-append (h.agree m);
}

decide-IsTracked :
    (debug : Bool) (n : ℕ) (cond : Bool) (cond_str : Text) (a : Assertion) (t : Test) (id : Text)
    → t.test_id ≡ some id
    → a.number ≡ n
    → IsTracked t
    → IsTracked (decide debug n cond cond_str a t).1
unfolding decide
decide-IsTracked debug n cond cond_str a t id started key h = rw started (record {
  nodup = Dict.insert-NodupKeys n _ _ (Dict.insert-NodupKeys n _ t.assertions h.nodup);
  agree = λ m. simp (lookup-insert, reported_after-append) (ground (arith, h.agree m));
})

assert_test-IsTracked :
    (debug : Bool) (n : ℕ) (cond : Bool) (cond_str : Text) (t : Test) (id : Text)
    → t.test_id ≡ some id
    → IsTracked t
    → IsTracked (assert_test debug n cond cond_str t).1
unfolding assert_test
assert_test-IsTracked debug n cond cond_str t id started h = go (Dict.lookup n t.assertions) refl
  where
    go :
        (o : Option Assertion)
        → Dict.lookup n t.assertions ≡ o
        → IsTracked (assert_test debug n cond cond_str t).1
    go none e = rw (e, assert_test) h
    go (some a) e =
        rw (e, assert_test)
          (decide-IsTracked debug n cond cond_str a t id started (ground (arith, h.agree n)) h)

assert_test-id :
    (debug : Bool) (n : ℕ) (cond : Bool) (cond_str : Text) (t : Test)
    → (assert_test debug n cond cond_str t).1.test_id ≡ t.test_id
unfolding assert_test decide
assert_test-id debug n cond cond_str t = ground arith

pub perform-IsTracked :
    (debug : Bool) (actions : List Action) (t : Test) (id : Text)
    → t.test_id ≡ some id
    → IsTracked t
    → IsTracked (perform debug actions t)
unfolding perform
perform-IsTracked debug [] t id started h = h
perform-IsTracked debug (add n desc ∷ actions) t id started h =
    perform-IsTracked debug actions (add_assertion n desc t) id (unfold add_assertion in started)
      (add_assertion-IsTracked n desc t h)
perform-IsTracked debug (check n cond cond_str ∷ actions) t id started h =
    perform-IsTracked debug actions (assert_test debug n cond cond_str t).1 id
      (assert_test-id debug n cond cond_str t ∙ started)
      (assert_test-IsTracked debug n cond cond_str t id started h)

pub perform-id :
    (debug : Bool) (actions : List Action) (t : Test)
    → (perform debug actions t).test_id ≡ t.test_id
unfolding perform add_assertion
perform-id debug [] t = refl
perform-id debug (add n desc ∷ actions) t = perform-id debug actions (add_assertion n desc t)
perform-id debug (check n cond cond_str ∷ actions) t =
    perform-id debug actions (assert_test debug n cond cond_str t).1
    ∙ assert_test-id debug n cond cond_str t
