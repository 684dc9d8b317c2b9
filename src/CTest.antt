-- ===== src/CTest.antt =====
-- `create_suite_from_C_test_results` of LDMS_Test.py: the results that a C test program printed
-- are replayed as a test of TADA.py. The messages are the objects that `json.loads` gives, with
-- `none` for a missing key; the clock readings, `digest` and `int` are those of the class `Test`.
pub mod Replay
mod Examples
use ldms_test.Base.{
  ℕ, Text, Bool, true, false, Option, none, some, List, [], ◌∷◌, Result, ok, err, ◌>>=◌, key_error,
  index_error, text_beq,
}
use ldms_test.Base.Int.{ℤ}
use ldms_test.Base.Strings.{text}
use ldms_test.Tada.{Test, init, start, add_assertion, assert_test, finish, exit_code}

-- The keys that are read of a message.
pub record Line : Type 0 where
  pub msg_type : Option Text
  pub test_suite : Option Text
  pub test_type : Option Text
  pub test_name : Option Text
  pub test_desc : Option Text
  pub test_user : Option Text
  pub commit_id : Option Text
  pub assert_no : Option ℕ
  pub assert_desc : Option Text
  pub test_status : Option Text
  pub assert_cond : Option Text

-- `msg[key]`
item : {A : Type 0} → Option A → Result A
item none = err key_error
item (some a) = ok a

-- `msg["msg-type"] == "assert-status"`
is_status : Line → Result Bool
unfolding item
is_status m = item m.msg_type >>= λ t. ok (text_beq t (text "assert-status"))

-- `TADA.Test(...)` of the first message
unfoldable pub make : (Text → Result ℕ) → Option Text → List Line → Result Test
unfolding item
make int addr [] = err index_error
make int addr (m ∷ ms) = do
  suite ← item m.test_suite
  type ← item m.test_type
  name ← item m.test_name
  desc ← item m.test_desc
  user ← item m.test_user
  commit_id ← item m.commit_id
  init int suite type name (some desc) addr user commit_id

add_line : Bool → Line → Test → Result Test
unfolding item
add_line false m t = ok t
add_line true m t = do n ← item m.assert_no; desc ← item m.assert_desc; ok (add_assertion n desc t)

-- The first loop. It raises before the test is started.
unfoldable pub add_all : List Line → Test → Result Test
unfolding is_status add_line
add_all [] t = ok t
add_all (m ∷ ms) t = is_status m >>= λ b. add_line b m t >>= add_all ms

-- What the second loop does with a message: nothing, or a call of `assert_test`.
check_of : Line → Result (Option (ℕ × Bool × Text))
unfolding is_status item
check_of m = is_status m >>= look
  where
    look : Bool → Result (Option (ℕ × Bool × Text))
    look false = ok none
    look true = do
      status ← item m.test_status
      n ← item m.assert_no
      cond ← item m.assert_cond
      ok (some (n, text_beq status (text "passed"), cond))

-- One round of the second loop.
check_line : Bool → Result (Option (ℕ × Bool × Text)) → Test → Result (Unit {0}) × Test
check_line debug (err e) t = (err e, t)
check_line debug (ok none) t = (ok tt, t)
check_line debug (ok (some (n, result, cond))) t = assert_test debug n result cond t

-- Where a round raised, the rest is left out.
unless_raised : Result (Unit {0}) → Test → Result (Unit {0}) × Test → Result (Unit {0}) × Test
unless_raised (err e) t rest = (err e, t)
unless_raised (ok u) t rest = rest

-- The second loop, which ends where a message raises.
unfoldable pub check_all : Bool → List Line → Test → Result (Unit {0}) × Test
unfolding check_of check_line unless_raised
check_all debug [] t = (ok tt, t)
check_all debug (m ∷ ms) t =
    let (r, t') = check_line debug (check_of m) t in unless_raised r t' (check_all debug ms t')

-- What is raised or returned once `finish` has run: in the `except` block, or behind it.
conclude : Result (Unit {0}) → Result ℤ → Test → Result ℤ
unfolding exit_code
conclude (err e) (err f) t = err f
conclude (err e) (ok z) t = err e
conclude (ok u) (err f) t = err f
conclude (ok u) (ok z) t = ok (exit_code t)

-- From the call of `start` on.
unfoldable pub replay :
    (Text → Text) → (ts announced now : ℕ) → Bool → List Line → Test → Result ℤ × Test
unfolding check_all conclude finish start
replay digest ts announced now debug ms t =
    let (r, u) = check_all debug ms (start digest ts announced t) in
    let (f, v) = finish now u in (conclude r f v, v)

-- The result, and the test as it is left, if one was made and started.
unfoldable pub create_suite :
    (Text → Result ℕ)
    → (Text → Text)
    → (ts announced now : ℕ) → Bool
    → Option Text
    → List Line
    → Result ℤ × Option Test
unfolding make add_all replay
create_suite int digest ts announced now debug addr ms = elim (make int addr ms >>= add_all ms) [
  | err e ↦ (err e, none)
  | ok t ↦ let (r, u) = replay digest ts announced now debug ms t in (r, some u)
]
