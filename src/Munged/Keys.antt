-- ===== src/Munged/Keys.antt =====
-- Which files a start of `munged` writes.
use ldms_test.Base.{◌≡◌, ℕ, zero, suc, Text, nat_eq, Option, none, some}
use ldms_test.Runtime.{Request, exec, write, read, feed, Runtime, chmod, chown}
use ldms_test.Runtime.Adds.{Adds, adds}
use ldms_test.Munged.{
  Munged, given, key_file, default_key, prep_dom, install_key, prep_key, prep_key_file, get_pid,
  is_running, alive, launch, start,
}

-- The key that a start may install.
abbrev pub installed : Option Text → Text
installed none = default_key
installed (some key) = key

-- A request writes nothing, or the key to the key file.
abbrev pub KeyOnly : Munged → Request → Type 0
KeyOnly m (exec cmd env user) = Unit
KeyOnly m (write path content user) =
    (path ≡ key_file m) × (content ≡ installed (given m.key)) × (user ≡ none)
KeyOnly m (read path) = Unit
KeyOnly m (feed cmd content) = ⊥

module _ (rt : Runtime) (m : Munged) where
  install-Adds :
      (key : Text) → key ≡ installed (given m.key) → Adds (KeyOnly m) _ (install_key rt m key)
  unfolding install_key chmod chown
  install-Adds key e = search adds

  prep_key-Adds :
      (k : Option Text)
      → installed k ≡ installed (given m.key)
      → Adds (KeyOnly m) _ (prep_key rt m k)
  unfolding prep_key chown
  prep_key-Adds none e = search (adds, install-Adds, tt)
  prep_key-Adds (some key) e = install-Adds key e

  alive-Adds : (pid : Option ℕ) → Adds (KeyOnly m) _ (alive rt pid)
  unfolding alive
  alive-Adds none = search adds
  alive-Adds (some zero) = search adds
  alive-Adds (some (suc n)) = search (adds, tt)

  is_running-Adds : Adds (KeyOnly m) _ (is_running rt m)
  unfolding is_running get_pid
  is_running-Adds = search (adds, alive-Adds, tt)

  -- Whatever the container replies, and also where it raises, a start of `munged` writes no file
  -- but the key file, and into that the key that was given, or the default key if none was.
  pub start-KeyOnly : Adds (KeyOnly m) _ (start rt m)
  unfolding start launch prep_dom chown prep_key_file
  start-KeyOnly = search (adds, is_running-Adds, prep_key-Adds, tt) depth 12
