-- ===== src/Munged.antt =====
-- The class `Munged` of LDMS_Test.py: the handler of a `munged` daemon in a container.
pub mod Keys
use ldms_test.Base.{
  ℕ, zero, suc, Text, Bool, true, false, not, List, [], ◌∷◌, ◌++◌, ◌==◌, nat_eq, if◌then◌else◌,
  Option, none, some, runtime_error,
}
use ldms_test.Base.Strings.{text, decimal}
use ldms_test.Runtime.{
  Runtime, Act, ◌>>=◌, ◌>>◌, pure, lift, exec_run, when, ask, write_file, must, chmod, chown,
}

pub record Munged : Type 0 where
  pub dom : Option Text
  pub key : Option Text

-- What Python's truth value leaves of a text or `None`.
abbrev pub given : Option Text → Option Text
given none = none
given (some []) = none
given (some (c ∷ s)) = some (c ∷ s)

-- A file of the handler: the one in the directory of the domain, or the default.
located : Option Text → Text → Text → Text
located none name default = default
located (some dom) name default = text "/munge/" ++ (dom ++ (b'/' ∷ name))

unfoldable pub key_file : Munged → Text
unfolding located
key_file m = located (given m.dom) (text "key") (text "/etc/munge/munge.key")

unfoldable pub pid_file : Munged → Text
unfolding located
pid_file m = located (given m.dom) (text "pid") (text "/run/munge/munged.pid")

unfoldable pub sock_file : Munged → Text
unfolding located
sock_file m = located (given m.dom) (text "sock") (text "/run/munge/munge.socket.2")

repeat : ℕ → ℕ → Text
repeat zero c = []
repeat (suc n) c = c ∷ repeat n c

-- `"0"*4096`
unfoldable pub default_key : Text
unfolding repeat
default_key = repeat 4096 b'0'

directory : Option Text → Text
directory none = text "/run/munge"
directory (some dom) = text "/munge/" ++ dom

-- The command that starts the daemon.
unfoldable pub command : Munged → Bool → Text
unfolding key_file pid_file sock_file
command m has_pidfile =
    let options : Text = elim (given m.dom) [
      | none ↦ []
      | some _ ↦
          text " -S "
          ++ (sock_file m
              ++ (text " --key-file "
                  ++ (key_file m
                      ++ (if has_pidfile then text " --pid-file " ++ pid_file m else []))))
    ] in
    text "su -s /bin/bash munge -c 'munged" ++ (options ++ text "'")

module _ (rt : Runtime) where
  unfoldable pub prep_dom : Munged → Act (Unit {0})
  unfolding must chown directory
  prep_dom m = do
    must rt (text "mkdir -m 0755 -p " ++ directory (given m.dom))
    chown rt (text "munge:munge") (directory (given m.dom))

  unfoldable pub install_key : Munged → Text → Act (Unit {0})
  unfolding write_file chmod chown key_file
  install_key m key = do
    write_file rt (key_file m) key
    chmod rt 384 (key_file m)
    chown rt (text "munge:munge") (key_file m)

  -- A key that is given, the key file that exists, or the default key.
  prep_key : Munged → Option Text → Act (Unit {0})
  unfolding ask install_key chown key_file default_key
  prep_key m (some key) = install_key m key
  prep_key m none = do
    (rc, out) ← exec_run rt (text "ls " ++ key_file m)
    when (rc == 0) (chown rt (text "munge:munge") (key_file m)) (install_key m default_key)

  unfoldable pub prep_key_file : Munged → Act (Unit {0})
  unfolding prep_key
  prep_key_file m = prep_key m (given m.key)

  unfoldable pub get_pid : Munged → Act (Option ℕ)
  unfolding ask pid_file
  get_pid m = do
    (rc, out) ← exec_run rt (text "cat " ++ pid_file m)
    when (rc == 0) (lift (rt.int out) >>= (λ pid. pure (some pid))) (pure none)

  alive : Option ℕ → Act Bool
  unfolding ask
  alive none = pure false
  alive (some zero) = pure false
  alive (some (suc n)) = do
    (rc, out) ← exec_run rt (text "ps -p " ++ decimal (suc n))
    pure (rc == 0)

  unfoldable pub is_running : Munged → Act Bool
  unfolding get_pid alive
  is_running m = get_pid m >>= alive

  -- `start` of a daemon that does not run
  unfoldable pub launch : Munged → Act (Unit {0})
  unfolding ask prep_dom prep_key_file must command
  launch m = do
    (rc, out) ← exec_run rt (text "munged --help | grep pid-file")
    prep_dom m
    prep_key_file m
    must rt (command m (rc == 0))

  unfoldable pub start : Munged → Act (Unit {0})
  unfolding is_running launch
  start m = do alive ← is_running m; when alive (pure tt) (launch m)

  unfoldable pub kill : Munged → Act (Unit {0})
  unfolding get_pid ask
  kill m = do
    pid ← get_pid m
    let shown : Text = elim pid [ none ↦ text "None" | some n ↦ decimal n ]
    out ← exec_run rt (text "kill " ++ shown)
    pure tt
