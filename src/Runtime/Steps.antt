-- ===== src/Runtime/Steps.antt =====
-- What a method did that ended without an exception.
use ldms_test.Base.{
  ◌≡◌, refl, sym, ap, ◌∙◌, runtime_error, ◌==◌, nat_eq, ℕ, Text, Bool, true, false, List, [], ◌∷◌,
  ◌++◌, Result, ok, err, Exc, none,
}
use ldms_test.Base.Outcome.{Outcome, done, raised, running}
use ldms_test.Runtime.{
  Request, write, Runtime, Act, run, next, ◌>>=◌, fail, lift, lift_outcome, when, ask, write_file,
  pure,
}

next-done :
    {A B : Type 0} (f : A → Act B) (o : Outcome A × List Request) (b : B) (i : List Request)
    → next f o ≡ (done b, i)
    → (a : A) × (j : List Request) × (o ≡ (done a, j)) × (run (f a) j ≡ (done b, i))
unfolding next
next-done f (done a, j) b i h = (a, j, refl, h)
next-done f (raised e, j) b i h = cc (ap (λ p. p.0) h)
next-done f (running, j) b i h = cc (ap (λ p. p.0) h)

pub >>=-eq-done :
    {A B : Type 0} (m : Act A) (f : A → Act B) (h : List Request) {b : B} {i : List Request}
    → run (m >>= f) h ≡ (done b, i)
    → (a : A) × (j : List Request) × (run m h ≡ (done a, j)) × (run (f a) j ≡ (done b, i))
unfolding ◌>>=◌ run
>>=-eq-done m f h e = next-done f (run m h) _ _ e

pub lift-eq-done :
    {A : Type 0} (r : Result A) (h : List Request) {a : A} {j : List Request}
    → run (lift r) h ≡ (done a, j)
    → (r ≡ ok a) × (j ≡ h)
unfolding lift run
lift-eq-done (ok x) h e = (cc (ap (λ p. p.0) e), sym (ap (λ p. p.1) e))
lift-eq-done (err x) h e = cc (ap (λ p. p.0) e)

pub lift_outcome-eq-done :
    {A : Type 0} (o : Outcome A) (h : List Request) {a : A} {j : List Request}
    → run (lift_outcome o) h ≡ (done a, j)
    → (o ≡ done a) × (j ≡ h)
unfolding lift_outcome run
lift_outcome-eq-done o h e = (ap (λ p. p.0) e, sym (ap (λ p. p.1) e))

pub ask-eq-done :
    (rt : Runtime) (r : Request) (h : List Request) {a : ℕ × Text} {j : List Request}
    → run (ask rt r) h ≡ (done a, j)
    → (rt.reply h r ≡ a) × (j ≡ h ++ (r ∷ []))
unfolding ask run
ask-eq-done rt r h e = (cc (ap (λ p. p.0) e), sym (ap (λ p. p.1) e))

pub when-fail-eq-done :
    {A : Type 0} (b : Bool) (m : Act A) (x : Exc) (h : List Request) {a : A} {j : List Request}
    → run (when b m (fail x)) h ≡ (done a, j)
    → (b ≡ true) × (run m h ≡ (done a, j))
unfolding when fail run
when-fail-eq-done true m x h e = (refl, e)
when-fail-eq-done false m x h e = cc (ap (λ p. p.0) e)

pub write_file-eq-done :
    (rt : Runtime) (path content : Text) (h : List Request) {a : Unit {0}} {j : List Request}
    → run (write_file rt path content) h ≡ (done a, j)
    → j ≡ h ++ (write path content none ∷ [])
unfolding write_file run pure
write_file-eq-done rt path content h e =
    let (reply, i, p, q) =
      >>=-eq-done (ask rt (write path content none))
        (λ o. when (o.0 == 0) (pure tt) (fail runtime_error)) h e in
    let (zero, s) = when-fail-eq-done (reply.0 == 0) (pure tt) runtime_error i q in
    sym (ap (λ p. p.1) s) ∙ (ask-eq-done rt (write path content none) h p).1
