-- ===== src/Runtime/Adds.antt =====
-- Every request that a method adds has a property, whatever the container replies.
use ldms_test.Base.{
  ◌≡◌, refl, sym, ◌∙◌, Text, Bool, true, false, List, [], ◌∷◌, ◌++◌, append-nil, append_assoc, All,
  All-append, Exc, runtime_error, Result, ok, err, none, ◌==◌, nat_eq,
}
use ldms_test.Base.Outcome.{Outcome, done, raised, running}
use ldms_test.Runtime.{
  Request, exec, write, Runtime, Act, run, next, when, ◌>>=◌, pure, fail, lift, lift_outcome, ask,
  write_file, must,
}

-- The requests of `h'` that come after those of `h` have the property.
abbrev pub Since : (Request → Type 0) → List Request → List Request → Type 0
Since P h h' = (new : List Request) × (h' ≡ h ++ new) × All P new

pub Since-none : (P : Request → Type 0) (h : List Request) → Since P h h
Since-none P h = ([], sym (append-nil h), tt)

pub Since-one :
    (P : Request → Type 0) (h : List Request) (r : Request) → P r → Since P h (h ++ (r ∷ []))
Since-one P h r p = (r ∷ [], refl, (p, tt))

pub Since-trans :
    (P : Request → Type 0) (h i j : List Request) → Since P h i → Since P i j → Since P h j
Since-trans P h i j (xs, p, a) (ys, q, b) =
    (xs ++ ys, q ∙ rw p (append_assoc h xs ys), All-append P xs ys a b)

pub record Adds (P : Request → Type 0) (A : Type 0) (m : Act A) : Type 0 where
  pub since : (h : List Request) → Since P h (run m h).1

module _ (P : Request → Type 0) where
  pub Adds-pure : {A : Type 0} (a : A) → Adds P _ (pure a)
  unfolding pure run
  Adds-pure a = record { since = λ h. Since-none P h }

  pub Adds-fail : {A : Type 0} (e : Exc) → Adds P _ (fail {A = A} e)
  unfolding fail run
  Adds-fail e = record { since = λ h. Since-none P h }

  pub Adds-lift : {A : Type 0} (r : Result A) → Adds P _ (lift r)
  unfolding lift run
  Adds-lift r = record { since = λ h. Since-none P h }

  pub Adds-lift_outcome : {A : Type 0} (o : Outcome A) → Adds P _ (lift_outcome o)
  unfolding lift_outcome run
  Adds-lift_outcome o = record { since = λ h. Since-none P h }

  pub Adds-lift-bind :
      {A B : Type 0} (r : Result A) {f : A → Act B}
      → ((a : A) → r ≡ ok a → Adds P _ (f a))
      → Adds P _ (lift r >>= f)
  unfolding lift run ◌>>=◌ next
  Adds-lift-bind (ok a) g = record { since = λ h. (g a refl).since h }
  Adds-lift-bind (err e) g = record { since = λ h. Since-none P h }

  next-Since :
      {A B : Type 0} (f : A → Act B)
      → ((a : A) → Adds P _ (f a))
      → (h : List Request) (o : Outcome A × List Request) → Since P h o.1
      → Since P h (next f o).1
  unfolding next run
  next-Since f g h (done a, i) s = Since-trans P h i _ s ((g a).since i)
  next-Since f g h (raised e, i) s = s
  next-Since f g h (running, i) s = s

  pub Adds-bind :
      {A B : Type 0} {m : Act A} {f : A → Act B}
      → Adds P _ m
      → ((a : A) → Adds P _ (f a))
      → Adds P _ (m >>= f)
  unfolding ◌>>=◌ run
  Adds-bind {m} {f} a g = record { since = λ h. next-Since f g h (run m h) (a.since h) }

  pub Adds-when :
      {A : Type 0} (b : Bool) {m n : Act A} → Adds P _ m → Adds P _ n → Adds P _ (when b m n)
  unfolding when
  Adds-when true a c = a
  Adds-when false a c = c

module _ (P : Request → Type 0) (rt : Runtime) where
  pub Adds-ask : (r : Request) → P r → Adds P _ (ask rt r)
  unfolding ask run
  Adds-ask r p = record { since = λ h. Since-one P h r p }

  pub Adds-write_file :
      (path content : Text) → P (write path content none) → Adds P _ (write_file rt path content)
  unfolding write_file
  Adds-write_file path content p =
      Adds-bind P (Adds-ask (write path content none) p)
        (λ o. Adds-when P (o.0 == 0) (Adds-pure P tt) (Adds-fail P runtime_error))

  pub Adds-must : (cmd : Text) → P (exec cmd [] none) → Adds P _ (must rt cmd)
  unfolding must
  Adds-must cmd p =
      Adds-bind P (Adds-ask (exec cmd [] none) p)
        (λ o. Adds-when P (o.0 == 0) (Adds-pure P tt) (Adds-fail P runtime_error))

All-mono :
    (P Q : Request → Type 0)
    → ((r : Request) → P r → Q r)
    → (xs : List Request) → All P xs
    → All Q xs
All-mono P Q i [] a = tt
All-mono P Q i (r ∷ xs) a = (i r a.0, All-mono P Q i xs a.1)

pub Adds-mono :
    {A : Type 0} (P Q : Request → Type 0) (m : Act A)
    → ((r : Request) → P r → Q r)
    → Adds P A m
    → Adds Q A m
Adds-mono P Q m i a = record {
  since = λ h. let (new, p, q) = a.since h in (new, p, All-mono P Q i new q);
}

-- With `tt` or the lemma that the requests need, these follow the code of a method.
pub ruleset adds =
    (Adds-bind, Adds-when, Adds-must, Adds-ask, Adds-write_file, Adds-pure, Adds-fail, Adds-lift)
