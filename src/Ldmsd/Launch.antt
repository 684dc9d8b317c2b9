-- ===== src/Ldmsd/Launch.antt =====
-- A start of `ldmsd` that ends without an exception.
use ldms_test.Base.{
  ◌≡◌, sym, ap, ◌∙◌, ℕ, zero, suc, Text, true, List, [], ◌∷◌, ◌++◌, some, none, Option, Result, ok,
  ◌==◌, nat_eq, nat_beq_iff, append_assoc, append-nil, text_eq, ◌>>=◌,
}
use ldms_test.Base.Dict.{Dict}
use ldms_test.Base.Int.{ℤ}
use ldms_test.Base.Outcome.{done}
use ldms_test.Base.Strings.{text}
use ldms_test.Value.{Value, of_items}
use ldms_test.LdmsdConfig.{Version, get_ldmsd_config, shown, item}
use ldms_test.Runtime.{Request, exec, write, Runtime, run, lift, ask, pure}
use ldms_test.Runtime.Adds.{Adds, Adds-bind, Adds-ask, Adds-when, Adds-pure, adds}
use ldms_test.Runtime.Steps.{
  >>=-eq-done, lift-eq-done, lift_outcome-eq-done, ask-eq-done, write_file-eq-done,
  when-fail-eq-done,
}
use ldms_test.Ldmsd.{
  env_dict, ldmsd_version, get_ldmsd_cmd, cond_timedwait, check_listen, await_port, launch_ldmsd,
}

abbrev pub version_asked : Request
version_asked = exec (text "ldmsd -V") [] none

-- The version is asked for where it is not kept.
abbrev pub asked : Option Version → List Request
asked none = version_asked ∷ []
asked (some ver) = []

-- The requests up to the start of the daemon.
abbrev pub prepared : Option Version → List Request → Text → Text → List Request
prepared kept h path cfg = (h ++ asked kept) ++ (write path cfg none ∷ [])

abbrev Any : Request → Type 0
Any r = Unit

module _ (rt : Runtime) (repr : Value → Text) (version : Text → Result Version)
    (number : Value → Result ℤ) (fuel checks : ℕ) (d : Dict Text Value) where
  wait-Adds :
      (n : ℕ) (port : ℤ)
      → Adds Any _ (cond_timedwait n (check_listen rt repr version number fuel checks port))
  unfolding cond_timedwait check_listen
  wait-Adds zero port = search adds
  wait-Adds (suc n) port =
      Adds-bind Any (Adds-bind Any (Adds-ask Any rt _ tt) (λ o. Adds-pure Any _))
        (λ b. Adds-when Any b (Adds-pure Any true) (wait-Adds n port))

  await-Adds : Adds Any _ (await_port rt repr version number fuel checks d)
  unfolding await_port
  await-Adds = search (adds, wait-Adds)

  -- The version that is kept, or what the answer of the container says.
  abbrev pub IsVersion : Option Version → List Request → Version → Type 0
  IsVersion none h ver = version (rt.reply h version_asked).1 ≡ ok ver
  IsVersion (some old) h ver = old ≡ ver

  version_lem :
      (kept : Option Version) (h h' : List Request) (ver : Version)
      → run (ldmsd_version rt repr version number fuel checks kept) h ≡ (done ver, h')
      → IsVersion kept h ver × (h' ≡ h ++ asked kept)
  unfolding ldmsd_version pure lift run
  version_lem none h h' ver e =
      let (out, h1, p1, e1) = >>=-eq-done (ask rt version_asked) _ h e in
      let q1 = ask-eq-done rt version_asked h p1 in
      let q2 = lift-eq-done (version out.1) h1 e1 in
      (ap (λ o. version o.1) (q1.0) ∙ q2.0, q2.1 ∙ q1.1)
  version_lem (some old) h h' ver e =
      let q = lift-eq-done (ok old) h e in (cc (q.0), q.1 ∙ sym (append-nil h))

  -- When the part of `start_ldmsd` behind its early returns (a daemon runs, or the spec is empty)
  -- ends without an exception, then these requests were made first, in this order: the version was
  -- asked for, unless it was kept from an earlier start, the configuration that the spec and this version give was written to the spec's
  -- file, and the spec's command was run with the spec's environment, which the container answered
  -- with 0.
  pub launch_ldmsd-configured :
      (kept : Option Version) (h i : List Request)
      → run (launch_ldmsd rt repr version number fuel checks kept d) h ≡ (done tt, i)
      → (ver : Version) × (cfg : Text) × (path : Value) × (cmd : Text) × (env : Dict Text Value)
        × (rest : List Request) × IsVersion kept h ver
        × (get_ldmsd_config repr fuel (of_items d) (some ver) ≡ done cfg)
        × (item (text "config_file") d ≡ ok path)
        × (get_ldmsd_cmd repr d ≡ ok cmd)
        × ((item (text "env") d >>= env_dict) ≡ ok env)
        × ((rt.reply (prepared kept h (shown repr path) cfg) (exec cmd env none)).0 ≡ 0)
        × (i ≡ prepared kept h (shown repr path) cfg ++ (exec cmd env none ∷ rest))
  unfolding launch_ldmsd
  launch_ldmsd-configured kept h i e =
      let (ver, h2, p2, e2) = >>=-eq-done _ _ h e in
      let (cfg, h3, p3, e3) = >>=-eq-done _ _ h2 e2 in
      let (path, h4, p4, e4) = >>=-eq-done _ _ h3 e3 in
      let (u, h5, p5, e5) = >>=-eq-done _ _ h4 e4 in
      let (cmd, h6, p6, e6) = >>=-eq-done _ _ h5 e5 in
      let (env, h7, p7, e7) = >>=-eq-done _ _ h6 e6 in
      let (reply, h8, p8, e8) = >>=-eq-done _ _ h7 e7 in
      let q2 = version_lem kept h h2 ver p2 in
      let q3 = lift_outcome-eq-done _ h2 p3 in
      let q4 = lift-eq-done _ h3 p4 in
      let q5 = write_file-eq-done rt _ _ h4 p5 in
      let q6 = lift-eq-done _ h5 p6 in
      let q7 = lift-eq-done _ h6 p7 in
      let q8 = ask-eq-done rt _ h7 p8 in
      let q9 = when-fail-eq-done (reply.0 == 0) _ _ h8 e8 in
      let (rest, s, a) = await-Adds.since h8 in
      let same : h7 ≡ prepared kept h (shown repr path) cfg =
        q7.1
        ∙ q6.1
        ∙ q5
        ∙ ap (λ l. l ++ (write (shown repr path) cfg none ∷ [])) (q4.1 ∙ q3.1 ∙ q2.1) in
      (
        ver,
        cfg,
        path,
        cmd,
        env,
        rest,
        q2.0,
        q3.0,
        q4.0,
        q6.0,
        q7.0,
        ap (λ l. (rt.reply l (exec cmd env none)).0) (sym same)
            ∙ ap (λ o. o.0) (q8.0)
            ∙ (nat_beq_iff reply.0 0).0 (q9.0),
        sym (ap (λ o. o.1) (q9.1))
            ∙ s
            ∙ ap (λ l. l ++ rest) (q8.1 ∙ ap (λ l. l ++ (exec cmd env none ∷ [])) same)
            ∙ append_assoc _ _ rest,
      )
