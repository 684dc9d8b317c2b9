-- ===== src/Container/Keys.antt =====
-- Which entry of the spec the handler of `munged` is made of.
use ldms_test.Base.{
  ◌≡◌, ◌≢◌, refl, ℕ, ◌++◌, Text, true, false, Option, none, some, List, [], ◌∷◌, text_beq_iff,
  arith,
}
use ldms_test.Container.{Daemon, find_munged, handler, or_else, same}

-- The entries of one name, one after the other.
abbrev pub Unnamed : Text → List Daemon → Type 0
Unnamed name [] = Unit
Unnamed name (d ∷ ds) = (d.name ≢ some name) × Unnamed name ds

same_text : (name : Text) (o : Option Text) → o ≢ some name → same (some name) o ≡ false
unfolding same
same_text name none h = refl
same_text name (some s) h = ground (arith, text_beq_iff name s)

same_of : (name : Text) (o : Option Text) → o ≡ some name → same (some name) o ≡ true
unfolding same
same_of name none h = cc
same_of name (some s) h = ground (arith, text_beq_iff name s)

-- For a name that is not empty the handler has the domain and the key of the first daemon of that
-- name, whatever stands around it, except where the caller gives its own.
pub handler_named :
    (c : ℕ) (name : Text) (dom key : Option Text) (before after : List Daemon) (d : Daemon)
    → Unnamed (c ∷ name) before
    → d.name ≡ some (c ∷ name)
    → handler (some (c ∷ name)) dom key (before ++ (d ∷ after))
      ≡ record { dom = or_else dom d.dom; key = or_else key d.key }
unfolding handler find_munged
handler_named c name dom key [] after d u e = rw (same_of (c ∷ name) d.name e, handler) refl
handler_named c name dom key (b ∷ before) after d u e =
    rw (same_text (c ∷ name) b.name u.0, handler)
      (handler_named c name dom key before after d u.1 e)

-- A start for a domain and with no name takes the first daemon if that has no name, also where its
-- domain is another one and a later daemon has the domain that is asked for: the key is then that
-- of the first.
pub handler-other_domain :
    (c : ℕ) (dom : Text) (d : Daemon) (ds : List Daemon)
    → d.name ≡ none
    → handler none (some (c ∷ dom)) none (d ∷ ds) ≡ record { dom = some (c ∷ dom); key = d.key }
unfolding handler find_munged same or_else
handler-other_domain c dom d ds e = rw e refl
