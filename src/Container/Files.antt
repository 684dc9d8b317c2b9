-- ===== src/Container/Files.antt =====
-- `proc_environ` and `files_exist` of the class `LDMSDContainer`; `checks` stands for the number of
-- rounds for which the clock stays below the timeout, and a single file is a list of one.
use ldms_test.Base.{
  ℕ, zero, Text, Bool, List, [], ◌∷◌, ◌++◌, ◌==◌, nat_eq, text_eq, Option, none, some, Result, ok,
  err, value_error, ◌>>=◌,
}
use ldms_test.Base.Dict
use ldms_test.Base.Dict.{Dict}
use ldms_test.Base.Strings.{text, join, split, split_once, decimal}
use ldms_test.Runtime.{Runtime, read, Act, pure, lift, ask, exec_run}
use ldms_test.Runtime.{◌>>=◌ as ◌>>=ₐ◌}
use ldms_test.Ldmsd.{cond_timedwait}

-- `v.split('=', 1) for v in _env if v`
variables : List Text → Result (List (Text × Text))
variables [] = ok []
variables ([] ∷ vs) = variables vs
variables ((c ∷ s) ∷ vs) =
    let (name, value) = split_once b'=' (c ∷ s) in
    variable name value >>= λ p. variables vs >>= λ ps. ok (p ∷ ps)
  where
    variable : Text → Option Text → Result (Text × Text)
    variable name none = err value_error
    variable name (some value) = ok (name, value)

tests : List Text → List Text
tests [] = []
tests (f ∷ fs) = (text "test -e " ++ f) ∷ tests fs

module _ (rt : Runtime) where
  unfoldable pub proc_environ : ℕ → Act (Dict Text Text)
  unfolding ask variables
  proc_environ pid = ask rt (read (text "/proc/" ++ (decimal pid ++ text "/environ"))) >>=ₐ λ reply.
      lift (variables (split zero reply.1) >>= λ ps. ok (Dict.update [] ps))

  unfoldable pub files_exist : ℕ → List Text → Act Bool
  unfolding ask cond_timedwait tests join
  files_exist checks files =
      let command = text "bash -c '" ++ (join (text " && ") (tests files) ++ text "'") in
      cond_timedwait checks (exec_run rt command >>=ₐ λ reply. pure (reply.0 == 0))
