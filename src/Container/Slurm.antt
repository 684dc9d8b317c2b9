-- ===== src/Container/Slurm.antt =====
-- The attempts to start a daemon of Slurm.
use ldms_test.Base.{
  ℕ, zero, suc, ◌<◌, ◌≡◌, ◌≢◌, ◌⊎◌, inl, inr, refl, ap, ◌∙◌, sym, Text, true, false, List, [], ◌∷◌,
  ◌++◌, append_assoc, append-nil, nat_eq, arith, none, runtime_error,
}
use ldms_test.Base.Outcome.{done, raised}
use ldms_test.Runtime.{Request, exec, Runtime, run, next, ◌>>=◌, pure, fail, when, ask}
use ldms_test.Container.{attempts, run_daemon}

abbrev pub call : Text → Request
call prog = exec prog [] none

abbrev pub times : ℕ → Request → List Request
times zero r = []
times (suc n) r = r ∷ times n r

module _ (rt : Runtime) (prog : Text) where
  -- After `h` the next `n` calls are answered with other exit codes than 0.
  abbrev pub Refused : ℕ → List Request → Type 0
  Refused zero h = Unit
  Refused (suc n) h = ((rt.reply h (call prog)).0 ≢ 0) × Refused n (h ++ (call prog ∷ []))

  -- The call number `k` is the first that is answered with 0.
  abbrev pub Succeeds : ℕ → List Request → Type 0
  Succeeds zero h = (rt.reply h (call prog)).0 ≡ 0
  Succeeds (suc k) h = ((rt.reply h (call prog)).0 ≢ 0) × Succeeds k (h ++ (call prog ∷ []))

  abbrev Attempted : ℕ → List Request → Type 0
  Attempted n h =
      ((k : ℕ) × (k < n)
        × Succeeds k h
        × (run (attempts rt prog n) h ≡ (done true, h ++ times (suc k) (call prog))))
      ⊎ (Refused n h × (run (attempts rt prog n) h ≡ (done false, h ++ times n (call prog))))

  attempts-yes :
      (n : ℕ) (h : List Request)
      → (rt.reply h (call prog)).0 ≡ 0
      → run (attempts rt prog (suc n)) h ≡ (done true, h ++ (call prog ∷ []))
  unfolding attempts run ◌>>=◌ next ask when pure
  attempts-yes n h e = rw e refl

  attempts-no :
      (n : ℕ) (h : List Request)
      → (rt.reply h (call prog)).0 ≢ 0
      → run (attempts rt prog (suc n)) h ≡ run (attempts rt prog n) (h ++ (call prog ∷ []))
  unfolding attempts run ◌>>=◌ next ask when pure
  attempts-no n h e = ground arith

  retried :
      (n : ℕ) (h : List Request)
      → (rt.reply h (call prog)).0 ≢ 0
      → Attempted n (h ++ (call prog ∷ []))
      → Attempted (suc n) h
  retried n h e (inl (k, l, s, p)) = inl (
    suc k,
    omega arith,
    (e, s),
    attempts-no n h e ∙ p ∙ ap (λ i. (done true, i)) (append_assoc h _ _),
  )
  retried n h e (inr (r, p)) =
      inr ((e, r), attempts-no n h e ∙ p ∙ ap (λ i. (done false, i)) (append_assoc h _ _))

  attempts-Attempted : (n : ℕ) (h : List Request) → Attempted n h
  unfolding attempts run pure
  attempts-Attempted zero h = inr (tt, ap (λ i. (done false, i)) (sym (append-nil h)))
  attempts-Attempted (suc n) h =
      elim ((rt.reply h (call prog)).0)
          as (λ c. (rt.reply h (call prog)).0 ≡ c → Attempted (suc n) h) [
            | zero ↦ λ e. inl (zero, omega arith, e, attempts-yes n h e)
            | suc c ↦
                λ e. retried n h (λ z. omega arith) (attempts-Attempted n (h ++ (call prog ∷ [])))
          ]
        refl

  -- A daemon of Slurm is called until it answers with 0, at most three times: either one of the
  -- three calls is the first to do so, it is the last one made, and the start succeeds, or three
  -- calls are made, all are refused, and the start raises a RuntimeError.
  pub run_daemon-three :
      (h : List Request)
      → ((k : ℕ) × (k < 3)
          × Succeeds k h
          × (run (run_daemon rt prog) h ≡ (done tt, h ++ times (suc k) (call prog))))
        ⊎ (Refused 3 h
            × (run (run_daemon rt prog) h ≡ (raised runtime_error, h ++ times 3 (call prog))))
  unfolding run_daemon run ◌>>=◌ next when pure fail
  run_daemon-three h = elim (attempts-Attempted 3 h) [
    | inl (k, l, s, p) ↦ inl (k, l, s, rw p refl)
    | inr (r, p) ↦ inr (r, rw p refl)
  ]
