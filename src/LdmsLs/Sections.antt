-- ===== src/LdmsLs/Sections.antt =====
-- Which sequences of lines `parse_ldms_ls` accepts.
use ldms_test.Base.{
  ◌≡◌, ◌↔◌, refl, Text, Bool, true, false, List, [], ◌∷◌, text_eq, Result, ok, err, Exc, ◌>>=◌,
  >>=-eq-ok, All, map, ap, name_error, type_error,
}
use ldms_test.Base.Dict.{Dict}
use ldms_test.Base.Int.{ℤ}
use ldms_test.LdmsLs.{
  Line, blank, bad, meta_begin, meta_dashes, meta_summary, meta_end, pre_meta, meta_data,
  set_header, metric, Section, in_pre_meta, in_meta, in_data, Target, unbound, closed, open_set,
  State, initial, Metric, type_fn, metric_text, step, run, Set, parse_ldms_ls,
}

-- The lines of the host come first, then one meta section that begins and ends, then sets; or
-- the sets at once. A metric stands in the block of a set, which its header opens and an empty
-- line closes. The flag says whether a block is open.
abbrev pub InOrder : Section → Bool → List Line → Type 0
InOrder sec open_ [] = Unit {0}
InOrder sec open_ (blank ∷ ls) = InOrder sec false ls
InOrder sec open_ (bad ∷ ls) = ⊥
InOrder in_pre_meta open_ (pre_meta ∷ ls) = InOrder in_pre_meta open_ ls
InOrder in_pre_meta open_ (meta_begin ∷ ls) = InOrder in_meta open_ ls
InOrder in_meta open_ (meta_data m ∷ ls) = InOrder in_meta open_ ls
InOrder in_meta open_ (meta_summary ∷ ls) = InOrder in_meta open_ ls
InOrder in_meta open_ (meta_dashes ∷ ls) = InOrder in_meta open_ ls
InOrder in_meta open_ (meta_end ∷ ls) = InOrder in_data open_ ls
InOrder in_pre_meta open_ (set_header n ts ∷ ls) = InOrder in_data true ls
InOrder in_data open_ (set_header n ts ∷ ls) = InOrder in_data true ls
InOrder in_data true (metric ty n v ∷ ls) = InOrder in_data true ls
InOrder _ _ _ = ⊥

abbrev pub is_open : Target → Bool
is_open (open_set n) = true
is_open _ = false

abbrev state : Dict Text Set → Section → Target → State
state ret sec tgt = record { ret = ret; section = sec; target = tgt }

never_stored :
    {A B C : Type 0} (m : Result A) (e : Exc) (f : B → Result C) {c : C}
    → ((m >>= λ _. err e) >>= f) ≡ ok c
    → ⊥
never_stored (ok a) e f h = cc
never_stored (err x) e f h = cc

ok-subst :
    {s t : State} (f : State → Result State) {u : State} → ok s ≡ ok t → f t ≡ ok u → f s ≡ ok u
ok-subst f p h = cc (ap f (state-injective p))
  where
    state-injective : {a b : State} → ok a ≡ ok b → a ≡ b
    state-injective q = cc

module _ (int0 : Text → Result ℤ) (to_float : Text → Result Text) where
  -- The value of a metric can be read at its type.
  abbrev pub Readable : Line → Type 0
  Readable (metric ty n v) = (x : Metric) × (type_fn int0 to_float ty (metric_text ty v) ≡ ok x)
  Readable _ = Unit {0}

  order_of_run :
      (sec : Section) (tgt : Target) (ls : List Line) (ret : Dict Text Set) {st' : State}
      → run int0 to_float (state ret sec tgt) ls ≡ ok st'
      → InOrder sec (is_open tgt) ls
  unfolding run step
  order_of_run sec tgt [] ret h = tt
  order_of_run sec tgt (blank ∷ ls) ret h = order_of_run sec closed ls ret h
  order_of_run sec tgt (bad ∷ ls) ret h = cc
  order_of_run in_pre_meta tgt (pre_meta ∷ ls) ret h = order_of_run in_pre_meta tgt ls ret h
  order_of_run in_meta tgt (pre_meta ∷ ls) ret h = cc
  order_of_run in_data tgt (pre_meta ∷ ls) ret h = cc
  order_of_run in_pre_meta tgt (meta_begin ∷ ls) ret h = order_of_run in_meta tgt ls ret h
  order_of_run in_meta tgt (meta_begin ∷ ls) ret h = cc
  order_of_run in_data tgt (meta_begin ∷ ls) ret h = cc
  order_of_run in_pre_meta tgt (meta_summary ∷ ls) ret h = cc
  order_of_run in_meta tgt (meta_summary ∷ ls) ret h = order_of_run in_meta tgt ls ret h
  order_of_run in_data tgt (meta_summary ∷ ls) ret h = cc
  order_of_run in_pre_meta tgt (meta_dashes ∷ ls) ret h = cc
  order_of_run in_meta tgt (meta_dashes ∷ ls) ret h = order_of_run in_meta tgt ls ret h
  order_of_run in_data tgt (meta_dashes ∷ ls) ret h = cc
  order_of_run in_pre_meta tgt (meta_end ∷ ls) ret h = cc
  order_of_run in_meta tgt (meta_end ∷ ls) ret h = order_of_run in_data tgt ls ret h
  order_of_run in_data tgt (meta_end ∷ ls) ret h = cc
  order_of_run in_pre_meta tgt (meta_data m ∷ ls) ret h = cc
  order_of_run in_pre_meta tgt (set_header n ts ∷ ls) ret h =
      order_of_run in_data (open_set n) ls _ h
  order_of_run in_pre_meta tgt (metric ty n v ∷ ls) ret h = cc
  order_of_run in_meta tgt (meta_data m ∷ ls) ret h = order_of_run in_meta tgt ls _ h
  order_of_run in_meta tgt (set_header n ts ∷ ls) ret h = cc
  order_of_run in_meta tgt (metric ty n v ∷ ls) ret h = cc
  order_of_run in_data tgt (meta_data m ∷ ls) ret h = cc
  order_of_run in_data tgt (set_header n ts ∷ ls) ret h = order_of_run in_data (open_set n) ls _ h
  order_of_run in_data unbound (metric ty n v ∷ ls) ret h =
      never_stored (type_fn int0 to_float ty (metric_text ty v)) name_error _ h
  order_of_run in_data closed (metric ty n v ∷ ls) ret h =
      never_stored (type_fn int0 to_float ty (metric_text ty v)) type_error _ h
  order_of_run in_data (open_set m) (metric ty n v ∷ ls) ret h =
      let (st, stepped, rest) =
        >>=-eq-ok (step int0 to_float (state ret in_data (open_set m)) (metric ty n v)) _ h in
      let (x, typed, stored) = >>=-eq-ok (type_fn int0 to_float ty (metric_text ty v)) _ stepped in
      order_of_run in_data (open_set m) ls _ (ok-subst (λ u. run int0 to_float u ls) stored rest)

  run_of_order :
      (sec : Section) (tgt : Target) (ls : List Line) (ret : Dict Text Set)
      → All Readable ls
      → InOrder sec (is_open tgt) ls
      → (st' : State) × (run int0 to_float (state ret sec tgt) ls ≡ ok st')
  unfolding run step
  run_of_order sec tgt [] ret r h = (state ret sec tgt, refl)
  run_of_order sec tgt (blank ∷ ls) ret r h = run_of_order sec closed ls ret r.1 h
  run_of_order sec tgt (bad ∷ ls) ret r h = absurd h
  run_of_order in_pre_meta tgt (pre_meta ∷ ls) ret r h = run_of_order in_pre_meta tgt ls ret r.1 h
  run_of_order in_meta tgt (pre_meta ∷ ls) ret r h = absurd h
  run_of_order in_data tgt (pre_meta ∷ ls) ret r h = absurd h
  run_of_order in_pre_meta tgt (meta_begin ∷ ls) ret r h = run_of_order in_meta tgt ls ret r.1 h
  run_of_order in_meta tgt (meta_begin ∷ ls) ret r h = absurd h
  run_of_order in_data tgt (meta_begin ∷ ls) ret r h = absurd h
  run_of_order in_pre_meta tgt (meta_summary ∷ ls) ret r h = absurd h
  run_of_order in_meta tgt (meta_summary ∷ ls) ret r h = run_of_order in_meta tgt ls ret r.1 h
  run_of_order in_data tgt (meta_summary ∷ ls) ret r h = absurd h
  run_of_order in_pre_meta tgt (meta_dashes ∷ ls) ret r h = absurd h
  run_of_order in_meta tgt (meta_dashes ∷ ls) ret r h = run_of_order in_meta tgt ls ret r.1 h
  run_of_order in_data tgt (meta_dashes ∷ ls) ret r h = absurd h
  run_of_order in_pre_meta tgt (meta_end ∷ ls) ret r h = absurd h
  run_of_order in_meta tgt (meta_end ∷ ls) ret r h = run_of_order in_data tgt ls ret r.1 h
  run_of_order in_data tgt (meta_end ∷ ls) ret r h = absurd h
  run_of_order in_pre_meta tgt (meta_data m ∷ ls) ret r h = absurd h
  run_of_order in_pre_meta tgt (set_header n ts ∷ ls) ret r h =
      run_of_order in_data (open_set n) ls _ r.1 h
  run_of_order in_pre_meta tgt (metric ty n v ∷ ls) ret r h = absurd h
  run_of_order in_meta tgt (meta_data m ∷ ls) ret r h = run_of_order in_meta tgt ls _ r.1 h
  run_of_order in_meta tgt (set_header n ts ∷ ls) ret r h = absurd h
  run_of_order in_meta tgt (metric ty n v ∷ ls) ret r h = absurd h
  run_of_order in_data tgt (meta_data m ∷ ls) ret r h = absurd h
  run_of_order in_data tgt (set_header n ts ∷ ls) ret r h =
      run_of_order in_data (open_set n) ls _ r.1 h
  run_of_order in_data unbound (metric ty n v ∷ ls) ret r h = absurd h
  run_of_order in_data closed (metric ty n v ∷ ls) ret r h = absurd h
  run_of_order in_data (open_set m) (metric ty n v ∷ ls) ret r h =
      rw ((r.0).1) (run_of_order in_data (open_set m) ls _ r.1 h)

  -- Where every metric can be read at its type, the parser returns sets exactly if the lines come
  -- in order; otherwise it raises.
  pub parse_ldms_ls-InOrder :
      (classify : Text → Line) (lines : List Text)
      → All Readable (map classify lines)
      → ((ret : Dict Text Set) × (parse_ldms_ls int0 to_float classify lines ≡ ok ret))
        ↔ InOrder in_pre_meta false (map classify lines)
  unfolding parse_ldms_ls
  parse_ldms_ls-InOrder classify lines r = (
    λ (ret, h).
        let (st, ran, _) = >>=-eq-ok (run int0 to_float initial (map classify lines)) _ h in
        order_of_run in_pre_meta unbound (map classify lines) [] ran,
    λ h.
        let (st, ran) = run_of_order in_pre_meta unbound (map classify lines) [] r h in
        (st.ret, rw ran refl),
  )
