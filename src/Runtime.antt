-- ===== src/Runtime.antt =====
-- What the methods of a container in LDMS_Test.py ask of its runtime plugin: `exec_run`,
-- `write_file`, `read_file` and `pipe`. A method maps the requests made so far, oldest first, to
-- its outcome and to the requests made when it ends, also where it raises. The container is the
-- function `reply` of the earlier requests and the new one, so that it may keep any state.
pub mod Adds
pub mod Steps
use ldms_test.Base.{
  ℕ, zero, suc, ◌*◌, ◌+◌, ◌/◌, ◌%◌, Text, Bool, List, [], ◌∷◌, ◌++◌, ◌==◌, nat_eq, ltb,
  if◌then◌else◌, Result, Exc, runtime_error, Option, none, some, true, false,
}
use ldms_test.Base.Dict.{Dict}
use ldms_test.Base.Strings.{text}
use ldms_test.Value.{Value}
use ldms_test.Base.Outcome.{Outcome, done, raised, running, of_result}

pub data Request : Type 0 where
  -- command, additional environment, user
  exec : Text → Dict Text Value → Option Text → Request
  -- path, content, user
  write : Text → Text → Option Text → Request
  read : Text → Request
  -- command and what is fed to it
  feed : Text → Text → Request

pub record Runtime : Type 0 where
  -- the exit code, and the output or the content of a file that is read
  pub reply : List Request → Request → ℕ × Text
  -- `int` of a text
  pub int : Text → Result ℕ

pub data Act (A : Type 0) : Type 0 where
  act : (List Request → Outcome A × List Request) → Act A

unfoldable pub run : {A : Type 0} → Act A → List Request → Outcome A × List Request
run (act f) = f

unfoldable pub next :
    {A B : Type 0} → (A → Act B) → Outcome A × List Request → Outcome B × List Request
unfolding run
next f (done a, h) = run (f a) h
next f (raised e, h) = (raised e, h)
next f (running, h) = (running, h)

infixl 5 ◌>>=◌ ◌>>◌
unfoldable pub ◌>>=◌ : {A B : Type 0} → Act A → (A → Act B) → Act B
unfolding next run
m >>= f = act (λ h. next f (run m h))

abbrev pub ◌>>◌ : {B : Type 0} → Act (Unit {0}) → Act B → Act B
first >> second = first >>= λ _. second

unfoldable pub pure : {A : Type 0} → A → Act A
pure a = act (λ h. (done a, h))

unfoldable pub fail : {A : Type 0} → Exc → Act A
fail e = act (λ h. (raised e, h))

unfoldable pub lift : {A : Type 0} → Result A → Act A
lift r = act (λ h. (of_result r, h))

unfoldable pub lift_outcome : {A : Type 0} → Outcome A → Act A
lift_outcome o = act (λ h. (o, h))

unfoldable pub when : {A : Type 0} → Bool → Act A → Act A → Act A
when true m n = m
when false m n = n

-- `str.format` of a number in a base up to 16.
digit : ℕ → ℕ
digit d = if ltb d 10 then 48 + d else 87 + d

numeral_from : ℕ → ℕ → ℕ → Text
unfolding digit
numeral_from zero base n = []
numeral_from (suc fuel) base n =
    let rest = numeral_from fuel base (n / base) ++ (digit (n % base) ∷ []) in
    if ltb n base then digit n ∷ [] else rest

unfoldable pub octal : ℕ → Text
unfolding numeral_from
octal n = numeral_from (suc n) 8 n

unfoldable pub hexadecimal : ℕ → Text
unfolding numeral_from
hexadecimal n = numeral_from (suc n) 16 n

module _ (rt : Runtime) where
  unfoldable pub ask : Request → Act (ℕ × Text)
  ask r = act (λ h. (done (rt.reply h r), h ++ (r ∷ [])))

  abbrev pub exec_run : Text → Act (ℕ × Text)
  exec_run cmd = ask (exec cmd [] none)

  -- The reply to a write is other than 0 where the plugin raises; that of singularity.py never does.
  unfoldable pub write_file : Text → Text → Act (Unit {0})
  unfolding ask ◌>>=◌ pure fail when
  write_file path content = do
    (rc, out) ← ask (write path content none)
    when (rc == 0) (pure tt) (fail runtime_error)

  -- A command whose exit code other than 0 raises.
  unfoldable pub must : Text → Act (Unit {0})
  unfolding ask ◌>>=◌ pure fail when
  must cmd = do (rc, out) ← exec_run cmd; when (rc == 0) (pure tt) (fail runtime_error)

  unfoldable pub chmod : ℕ → Text → Act (Unit {0})
  unfolding must octal
  chmod mode path = must (text "chmod " ++ (octal mode ++ (b' ' ∷ path)))

  unfoldable pub chown : Text → Text → Act (Unit {0})
  unfolding must
  chown owner path = must (text "chown " ++ (owner ++ (b' ' ∷ path)))
