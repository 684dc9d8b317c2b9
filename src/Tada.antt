-- ===== src/Tada.antt =====
-- The class `Test` of TADA.py: a test registers assertions, decides them, and reports to `tadad`
-- by datagrams. Every method returns its result beside the object that it leaves, also where it
-- raises, since what was written before a raise stays written.
-- The clock readings are arguments, and `digest` stands for the hexadecimal SHA-256.
-- Log lines and the colours of a terminal are left out.
pub mod Report
pub mod Finish
pub mod Sessions
pub mod Identity
mod Examples
use ldms_test.Base.{
  ℕ, suc, Text, Bool, true, false, not, ◌&&◌, Option, none, some, List, [], ◌∷◌, ◌++◌, Result, ok,
  err, key_error, attribute_error, assertion_exception, ◌>>=◌, nat_eq, if◌then◌else◌,
}
use ldms_test.Base.Dict
use ldms_test.Base.Dict.{Dict}
use ldms_test.Base.Strings.{text, split, decimal}
use ldms_test.Base.Int.{ℤ, pos, negsuc}

pub data Status : Type 0 where
  passed failed skipped : Status

-- An entry of `assertions`: the message that will be sent for it.
pub record Assertion : Type 0 where
  pub number : ℕ
  pub desc : Text
  pub cond : Text
  pub status : Status
  -- the key "test-id", which `_send` adds
  pub test_id : Option Text

pub data Message : Type 0 where
  -- suite, type, name, user, commit id, description, test id, timestamp
  test_start : Text → Text → Text → Text → Text → Text → Text → ℕ → Message
  assert_status : Assertion → Message
  -- test id, timestamp
  test_finish : Text → ℕ → Message

pub record Test : Type 0 where
  pub suite : Text
  pub type : Text
  pub name : Text
  pub user : Text
  pub commit_id : Text
  pub desc : Text
  pub host : Text
  pub port : ℕ
  -- the attribute is set by `start`
  pub test_id : Option Text
  pub assertions : Dict ℕ Assertion
  -- the datagrams that went to (host, port), as the objects that they encode, oldest first
  pub sent : List Message

abbrev pub Method : Type 0 → Type 0
Method A = Test → Result A × Test

abbrev pub default_port : ℕ
default_port = 9862

host_port : (Text → Result ℕ) → List Text → Result (Text × ℕ)
host_port int [] = ok ([], default_port)
host_port int (host ∷ []) = ok (host, default_port)
host_port int (host ∷ (port ∷ _)) = do p ← int port; ok (host, p)

-- host and port of `tada_addr.split(':')`, or of `None`
address : (Text → Result ℕ) → Option Text → Result (Text × ℕ)
unfolding host_port
address int none = ok (text "localhost", default_port)
address int (some addr) = host_port int (split b':' addr)

-- `test_desc if test_desc else test_name`
described : Text → Option Text → Text
described name none = name
described name (some []) = name
described name (some (c ∷ d)) = c ∷ d

-- `__init__`; `int` is Python's conversion of a text
unfoldable pub init :
    (Text → Result ℕ)
    → (suite type name : Text) → Option Text
    → Option Text
    → (user commit_id : Text) → Result Test
unfolding address described
init int suite type name test_desc tada_addr user commit_id = do
  (host, port) ← address int tada_addr
  ok (record {
    suite = suite;
    type = type;
    name = name;
    user = user;
    commit_id = commit_id;
    desc = described name test_desc;
    host = host;
    port = port;
    test_id = none;
    assertions = [];
    sent = [];
  })

-- `_send` of an entry of `assertions`: the id is written into the entry, too.
send_assertion : ℕ → Assertion → Method (Unit {0})
send_assertion key a t = elim t.test_id [
  | none ↦ (err attribute_error, t)
  | some id ↦
      let a' : Assertion = record a { test_id = some id } in
      (
        ok tt,
        record t {
          assertions = Dict.insert key a' t.assertions;
          sent = t.sent ++ (assert_status a' ∷ []);
        },
      )
]

-- The text whose digest is the test id.
unfoldable pub identity : Test → ℕ → Text
identity t ts =
    t.suite
    ++ (b':'
        ∷ (t.type
            ++ (b':'
                ∷ (t.name ++ (b':' ∷ (t.user ++ (b':' ∷ (t.commit_id ++ (b':' ∷ decimal ts)))))))))

-- `start`; the clock is read for the id, and once more for the message
unfoldable pub start : (Text → Text) → ℕ → ℕ → Test → Test
start digest ts now t =
    let id = digest (identity t ts) in
    record t {
      test_id = some id;
      sent = t.sent ++ (test_start t.suite t.type t.name t.user t.commit_id t.desc id now ∷ []);
    }

unfoldable pub add_assertion : ℕ → Text → Test → Test
add_assertion number desc t =
    let a : Assertion = record {
      number = number;
      desc = desc;
      cond = text "none";
      status = skipped;
      test_id = none;
    } in
    record t { assertions = Dict.insert number a t.assertions }

decided : Bool → Status
decided cond = if cond then passed else failed

-- The part of `assert_test` behind the lookup; `debug` is the global `DEBUG`.
decide : Bool → ℕ → Bool → Text → Assertion → Method (Unit {0})
unfolding send_assertion decided
decide debug assert_no cond cond_str a t =
    let a' : Assertion = record a { cond = cond_str; status = decided cond } in
    let (r, t') =
      send_assertion assert_no a'
        (record t { assertions = Dict.insert assert_no a' t.assertions }) in
    (r >>= λ _. (if not cond && debug then err assertion_exception else ok tt), t')

unfoldable pub assert_test : Bool → ℕ → Bool → Text → Method (Unit {0})
unfolding decide
assert_test debug assert_no cond cond_str t = elim (Dict.lookup assert_no t.assertions) [
  | none ↦ (err key_error, t)
  | some a ↦ decide debug assert_no cond cond_str a t
]

abbrev pub all_passed : Dict ℕ Assertion → Bool
all_passed [] = true
all_passed ((k, a) ∷ d) = elim a.status [ passed ↦ all_passed d | _ ↦ false ]

unfoldable pub exit_code : Test → ℤ
exit_code t = if all_passed t.assertions then pos 0 else negsuc 0

-- The loop of `finish` over the items that are still skipped, once the id is known.
pub send_skipped : Text → Dict ℕ Assertion → Dict ℕ Assertion × List Message
send_skipped id [] = ([], [])
send_skipped id ((k, a) ∷ d) =
    let (d', sent) = send_skipped id d in
    let a' : Assertion = record a { test_id = some id } in
    elim a.status [ skipped ↦ ((k, a') ∷ d', assert_status a' ∷ sent) | _ ↦ ((k, a) ∷ d', sent) ]

-- `finish`: without an id the first message to send raises, and nothing is changed.
unfoldable pub finish : ℕ → Method ℤ
unfolding send_skipped exit_code
finish now t = elim t.test_id [
  | none ↦ (err attribute_error, t)
  | some id ↦
      let (entries, sent) = send_skipped id t.assertions in
      let t' : Test = record t {
        assertions = entries;
        sent = t.sent ++ (sent ++ (test_finish id now ∷ []));
      } in
      (ok (exit_code t'), t')
]

-- What a test script does between `start` and `finish`.
pub data Action : Type 0 where
  add : ℕ → Text → Action
  check : ℕ → Bool → Text → Action

-- An exception of `assert_test` is caught by the script, or ends it: a prefix of the actions.
unfoldable pub perform : Bool → List Action → Test → Test
perform debug [] t = t
perform debug (add n desc ∷ actions) t = perform debug actions (add_assertion n desc t)
perform debug (check n cond cond_str ∷ actions) t =
    perform debug actions (assert_test debug n cond cond_str t).1
