-- ===== src/Scale/Process/Signals.antt =====
-- Which processes are signalled.
use ldms_test.Base.{
  ◌≡◌, refl, sym, ap, ◌∙◌, Text, true, List, [], ◌∷◌, Option, none, some, Result, ok, text_eq,
  text_beq_iff, >>=-eq-ok, ◌==◌, Bool-cases, Option-cases, Result-cases, inl, inr, arith, subst,
}
use ldms_test.Base.Int.{ℤ}
use ldms_test.Base.Strings.{text}
use ldms_test.Scale.Process.{
  Machine, Proc, Action, kill, truthy, host_check, proc_file, validated, from_file, getpid,
  kill_pid, stop,
}

module _ (my_host : Text) (machine : Machine) (int : Text → Result ℤ) (strip : Text → Text) where
  -- What the machine shows of a running process: its number in the file, and the name and line of
  -- the command under that number, which pass the tests of the class.
  abbrev pub IsRunning : Proc → ℤ → Type 0
  IsRunning p pid =
      (s : Text) × (comm : Text) × (line : Text) × (machine.read p.pid_file ≡ some s)
      × (int s ≡ ok pid)
      × (machine.read (proc_file my_host machine int strip pid (text "comm")) ≡ some comm)
      × (machine.read (proc_file my_host machine int strip pid (text "cmdline")) ≡ some line)
      × (p.comm_validate (strip comm) ≡ true)
      × (p.cmdline_validate (strip line) ≡ true)

  validated_lem :
      (p : Proc) (pid q : ℤ)
      → validated my_host machine int strip p pid ≡ some q
      → (pid ≡ q)
        × (comm : Text) × (line : Text) × (machine.read
              (proc_file my_host machine int strip pid (text "comm"))
            ≡ some comm)
        × (machine.read (proc_file my_host machine int strip pid (text "cmdline")) ≡ some line)
        × (p.comm_validate (strip comm) ≡ true)
        × (p.cmdline_validate (strip line) ≡ true)
  unfolding validated
  validated_lem p pid q h =
      elim (Option-cases (machine.read (proc_file my_host machine int strip pid (text "comm")))) [
        | inl e ↦ ground (arith, e, h)
        | inr (comm, e) ↦
            elim (Option-cases
              (machine.read (proc_file my_host machine int strip pid (text "cmdline")))) [
                | inl f ↦ ground (arith, e, f, h)
                | inr (line, f) ↦ (
                  ground (arith, e, f, h),
                  comm,
                  line,
                  e,
                  f,
                  ground (arith, e, f, h),
                  ground (arith, e, f, h),
                )
              ]
      ]

  from_file_lem :
      (p : Proc) (o : Option Text) (pid : ℤ)
      → machine.read p.pid_file ≡ o
      → from_file my_host machine int strip p o ≡ some pid
      → IsRunning p pid
  unfolding from_file
  from_file_lem p none pid e h = cc
  from_file_lem p (some s) pid e h = elim (Result-cases (int s)) [
    | inr (x, f) ↦ absurd (ground (arith, f, h))
    | inl (n, f) ↦
        let (i, comm, line, j, k, l, m) = validated_lem p n pid (sym (step n f) ∙ h) in
        subst (IsRunning p) i (s, comm, line, e, f, j, k, l, m)
  ]
    where
      step :
          (n : ℤ)
          → int s ≡ ok n
          → from_file my_host machine int strip p (some s) ≡ validated my_host machine int strip p n
      step n f = rw (f, from_file) refl

  getpid_lem :
      (p : Proc) (pid : ℤ)
      → getpid my_host machine int strip p ≡ ok (some pid)
      → (my_host ≡ p.host) × IsRunning p pid
  unfolding getpid host_check
  getpid_lem p pid h = elim (Bool-cases (my_host == p.host)) [
    | inr e ↦ absurd (ground (arith, e, h))
    | inl e ↦ elim (Bool-cases (machine.exists p.pid_file)) [
      | inr f ↦ absurd (ground (arith, e, f, h))
      | inl f ↦ (
        (text_beq_iff my_host p.host).0 e,
        from_file_lem p (machine.read p.pid_file) pid refl (ground (arith, e, f, h)),
      )
    ]
  ]

  -- `stop` does nothing but send one signal or none. It sends one only on the host of the daemon, and
  -- only to the process whose number is in the daemon's file and whose command passes the tests of
  -- the class: a file that is stale makes it send none.
  pub stop_lem :
      (p : Proc) (actions : List Action) (a : Action) (rest : List Action)
      → stop my_host machine int strip p ≡ ok actions
      → actions ≡ a ∷ rest
      → (rest ≡ []) × (pid : ℤ) × (a ≡ kill pid) × (my_host ≡ p.host) × IsRunning p pid
  unfolding stop kill_pid
  stop_lem p actions a rest h e =
      let (u, f, h1) = >>=-eq-ok (host_check my_host machine int strip p) _ h in
      let (o, g, h2) = >>=-eq-ok (getpid my_host machine int strip p) _ h1 in
      by o g (same (kill_pid my_host machine int strip o) (a ∷ rest) (h2 ∙ ap ok e))
    where
      same : (x y : List Action) → ok x ≡ ok y → x ≡ y
      same x y h = cc

      by :
          (o : Option ℤ)
          → getpid my_host machine int strip p ≡ ok o
          → kill_pid my_host machine int strip o ≡ a ∷ rest
          → (rest ≡ []) × (pid : ℤ) × (a ≡ kill pid) × (my_host ≡ p.host) × IsRunning p pid
      by none g i = cc
      by (some pid) g i =
          let (host, running) = getpid_lem p pid g in
          elim (Bool-cases (truthy (some pid))) [
            | inr j ↦ absurd (ground (arith, i, j))
            | inl j ↦ (ground (arith, i, j), pid, ground (arith, i, j), host, running)
          ]
