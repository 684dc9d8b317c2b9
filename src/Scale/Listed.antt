-- ===== src/Scale/Listed.antt =====
-- What the constructors of daemons make of the names of a level.
use ldms_test.Base.{
  ◌≡◌, refl, ap, ◌∙◌, subst, ℕ, zero, suc, Text, List, [], ◌∷◌, some, some-injective, ok, text_eq,
  get_elem?, arith, All, All-append,
}
use ldms_test.Base.Strings.{decimal}
use ldms_test.Objects.Commit.{IsDistinct}
use ldms_test.Scale.{
  Config, Level, samp, l1, l2, l3, daemon_name, names, on_host, dl, idx_of, new, rsplit,
}
use ldms_test.Scale.Names.{rsplit-daemon_name, lookup-number_from}

-- The names of a level are names of daemons.
abbrev IsName : Text → Type 0
IsName k = (h : Text) × (p : ℕ) × (k ≡ daemon_name h p)

on_host-IsName : (h : Text) (base n : ℕ) → All IsName (on_host h base n)
unfolding on_host
on_host-IsName h base zero = tt
on_host-IsName h base (suc n) = ((h, base, refl), on_host-IsName h (suc base) n)

names-IsName : (hs : List Text) (base n : ℕ) → All IsName (names hs base n)
unfolding names
names-IsName [] base n = tt
names-IsName (h ∷ hs) base n =
    All-append IsName (on_host h base n) (names hs base n) (on_host-IsName h base n)
      (names-IsName hs base n)

listed :
    (P : Text → Type 0) (ks : List Text) (j : ℕ) (k : Text)
    → All P ks
    → get_elem? ks j ≡ some k
    → P k
listed P [] j k a h = cc
listed P (x ∷ ks) zero k a h = subst P (some-injective x k h) a.0
listed P (x ∷ ks) (suc j) k a h = listed P ks j k a.1 h

dl-IsName : (c : Config) (l : Level) → All IsName (dl c l)
unfolding dl
dl-IsName c samp = names-IsName c.samp_hosts c.samp_base_port c.samp_per_host
dl-IsName c l1 = names-IsName c.l1_hosts c.l1_base_port c.l1_per_host
dl-IsName c l2 = names-IsName c.l2_hosts c.l2_base_port c.l2_per_host
dl-IsName c l3 = ((c.l3_host, c.l3_base_port, refl), tt)

idx_of-listed :
    (c : Config) (l : Level) (j : ℕ) (k : Text)
    → IsDistinct (dl c l)
    → get_elem? (dl c l) j ≡ some k
    → idx_of c l k ≡ ok j
unfolding idx_of
idx_of-listed c samp j k u h =
    rw (lookup-number_from 0 j k (dl c samp) [] u h, idx_of) (ap ok (omega arith))
idx_of-listed c l1 j k u h =
    rw (lookup-number_from 0 j k (dl c l1) [] u h, idx_of) (ap ok (omega arith))
idx_of-listed c l2 j k u h =
    rw (lookup-number_from 0 j k (dl c l2) [] u h, idx_of) (ap ok (omega arith))
idx_of-listed c l3 zero k u h = refl
idx_of-listed c l3 (suc j) k u h = unfold dl in cc

-- The j-th name of a level makes a daemon of that level and number.
pub new-listed :
    (c : Config) (l : Level) (j : ℕ) (k : Text)
    → IsDistinct (dl c l)
    → get_elem? (dl c l) j ≡ some k
    → (h : Text) × (p : Text) × (new c l k
        ≡ ok (record { name = k; host = h; port = p; level = l; idx = j }))
unfolding new
new-listed c l j k u h =
    let (host, p, e) = listed IsName (dl c l) j k (dl-IsName c l) h in
    (
      host,
      decimal p,
      rw (ap rsplit e ∙ rsplit-daemon_name host p, new) (rw (idx_of-listed c l j k u h) refl),
    )
