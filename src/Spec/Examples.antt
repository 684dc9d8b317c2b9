-- ===== src/Spec/Examples.antt =====
-- Runs of the class `Spec`, among them the example of its documentation, and its theorems at
-- concrete data.
use ldms_test.Base.{
  ℕ, ◌<◌, ◌≡◌, ◌≢◌, ◌⊎◌, refl, Text, none, some, List, [], ◌∷◌, ◌++◌, ◌==◌, text_eq, text_beq,
  text_beq_iff, if◌then◌else◌, arith, key_error, String, Bool-cases, inl, inr, sym,
  subst as transport_along,
}
use ldms_test.Base.Dict
use ldms_test.Base.Dict.{Dict}
use ldms_test.Base.Strings.{text}
use ldms_test.Base.Outcome.{Outcome, done, raised, running}
use ldms_test.Value.{
  Value, Fields, str, list, dict, nil, cons, end, field, items, of_items, is_primitive, str_of,
}
use ldms_test.Spec.{Spec, init}
use ldms_test.Spec.Expand.{
  extends, template, parent, chain, overlay, merge, traverse, traverse_dict, expand,
}
use ldms_test.Spec.Expand.Chain.{chain_ends, merge-nearest, first}
use ldms_test.Spec.Expand.Settled.{expand-expand}
use ldms_test.Spec.Subst.{Vars, Piece, lit, var, sub, subst_str, subst, is_word}
use ldms_test.Spec.Subst.Acyclic.{IsAcyclic, Uses, meaning, subst_str-meaning}

abbrev say : String → Value
say s = str (text s)

abbrev at : String → Value → Fields → Fields
at k v fs = field (text k) v fs

abbrev prog_base : Fields
prog_base =
    at "path" (say "/bin/%prog%") (at "desc" (say "This is %prog%") (at "user" (say "%USER%") end))

abbrev prog_sbin : Fields
prog_sbin = at "!extends" (say "prog-base") (at "path" (say "/sbin/%prog%") end)

abbrev templates : Fields
templates = at "prog-base" (dict prog_base) (at "prog-sbin" (dict prog_sbin) end)

abbrev spec_def : Fields
spec_def = at "USER" (say "root") (
    at "templates" (dict templates) (
      at "programs"
        (list (
          cons (dict (at "prog" (say "ssh") (at "!extends" (say "prog-base") end)))
            (cons (dict (at "prog" (say "sshd") (at "!extends" (say "prog-sbin") end))) nil)))
        (at "jail"
          (dict (
            at "USER" (say "jail") (
              at "programs"
                (list
                  (cons (dict (at "prog" (say "ls") (at "!extends" (say "prog-base") end))) nil))
                end)))
          end)))

abbrev program : String → String → String → String → Value
program path desc user prog =
    dict (
      at "path" (say path) (at "desc" (say desc) (at "user" (say user) (at "prog" (say prog) end))))

abbrev entries_of : Outcome Spec → Outcome (Dict Text Value)
entries_of (done s) = done s.entries
entries_of (raised e) = raised e
entries_of running = running

documented :
    entries_of (init 10 spec_def)
    ≡ done (
        items (
          at "USER" (say "root") (
            at "templates" (dict templates) (
              at "programs"
                (list (
                  cons
                    (program "/bin/ssh" "This is ssh" "root" "ssh")
                    (cons (program "/sbin/sshd" "This is sshd" "root" "sshd") nil)))
                (at "jail"
                  (dict (
                    at "USER" (say "jail") (
                      at "programs"
                        (list (cons (program "/bin/ls" "This is ls" "jail" "ls") nil))
                        end)))
                  end)))))
unfolding init expand subst traverse traverse_dict merge chain template parent overlay subst_str sub
    items of_items Dict.lookup Dict.insert Dict.update Dict.erase text_beq is_primitive str_of
documented = refl

-- a : "%b%", b : "%a%"
abbrev swapped : Vars
swapped = (text "a", say "%b%") ∷ (text "b", say "%a%") ∷ []

unknown_variable : subst_str 3 swapped (text "%c%") ≡ raised key_error
unfolding subst_str sub Dict.lookup text_beq
unknown_variable = refl

abbrev ranked : Vars
ranked = (text "USER", say "root") ∷ (text "home", say "/home/%USER%") ∷ []

home_text : subst_str 3 ranked (text "%home%/x") ≡ done (text "/home/root/x")
unfolding subst_str sub Dict.lookup text_beq str_of
home_text = refl

abbrev lits : Text → List Piece
lits [] = []
lits (c ∷ s) = lit c ∷ lits s

abbrev Known : Text → Type 0
Known n = (n ≡ text "USER") ⊎ (n ≡ text "home")

body : Text → List Piece
body n =
    if n == text "home"
    then lits (text "/home/") ++ (var (text "USER") ∷ [])
    else lits (text "root")

rank : Text → ℕ
rank n = if n == text "home" then 1 else 0

final : Text → Text
final n = if n == text "home" then text "/home/root" else text "root"

ranked-IsAcyclic : IsAcyclic ranked Known body rank
unfolding Dict.lookup text_beq body rank is_word str_of
ranked-IsAcyclic = record {
  value = λ n k. elim k [
    | inl e ↦ rw e (say "root", refl, refl)
    | inr e ↦ rw e (say "/home/%USER%", refl, refl)
  ];
  well_formed = λ n k. elim k [
    | inl e ↦ rw e (refl, (refl, (refl, (refl, tt))))
    | inr e ↦
        rw e
          (refl, (refl, (refl, (refl, (refl, (refl, ((refl, (refl, (refl, (refl, tt)))), tt)))))))
  ];
  lower = λ n k. elim k [
    | inl e ↦
        transport_along (λ m. Uses (λ l. Known l × (rank l < rank m)) (body m)) (sym e)
          (tt, (tt, (tt, (tt, tt))))
    | inr e ↦
        transport_along (λ m. Uses (λ l. Known l × (rank l < rank m)) (body m)) (sym e)
          (tt, (tt, (tt, (tt, (tt, (tt, ((inl refl, omega arith), tt)))))))
  ];
}

final_solves : (n : Text) → Known n → final n ≡ meaning final (body n)
unfolding final body text_beq
final_solves n k = elim k [ inl e ↦ rw e refl | inr e ↦ rw e refl ]

subst_str-meaning_example : subst_str 3 ranked (text "%home%/x") ≡ done (text "/home/root/x")
unfolding final rank text_beq is_word
subst_str-meaning_example =
    subst_str-meaning ranked Known body rank ranked-IsAcyclic final final_solves 3 2
      (var (text "home") ∷ lit b'/' ∷ lit b'x' ∷ []) ((inr refl, omega arith), (tt, (tt, tt)))
      ((refl, (refl, (refl, (refl, tt)))), (refl, (refl, tt))) (omega arith)

-- What `prog-base` extends, and what `prog-sbin` does.
base_extends_none : (m : Text) → Dict.lookup extends (items prog_base) ≢ some (str m)
unfolding Dict.lookup items text_beq
base_extends_none m e = cc

sbin_extends_base :
    (m : Text) → Dict.lookup extends (items prog_sbin) ≡ some (str m) → m ≡ text "prog-base"
unfolding Dict.lookup items text_beq
sbin_extends_base m e = cc

ranks :
    (m n : Text)
    → m ≡ text "prog-base"
    → n ≡ text "prog-sbin"
    → (if m == text "prog-sbin" then 1 else 0) < (if n == text "prog-sbin" then 1 else 0)
unfolding text_beq
ranks m n p q = rw p (rw q (omega arith))

sbin_extends :
    (n m : Text) (fs : Fields)
    → Dict.lookup n (items templates) ≡ some (dict fs)
    → Dict.lookup extends (items fs) ≡ some (str m)
    → (if m == text "prog-sbin" then 1 else 0) < (if n == text "prog-sbin" then 1 else 0)
unfolding Dict.lookup items
sbin_extends n m fs found ext = elim (Bool-cases (text "prog-base" == n)) [
  | inl base ↦
      let same : prog_base ≡ fs = ground (arith, base) in
      absurd (base_extends_none m (subst_fields same ext))
  | inr other ↦ elim (Bool-cases (text "prog-sbin" == n)) [
    | inl sbin ↦
        let same : prog_sbin ≡ fs = ground (arith, other, sbin) in
        let is_base = sbin_extends_base m (subst_fields same ext) in
        ranks m n is_base (sym ((text_beq_iff (text "prog-sbin") n).0 sbin))
    | inr neither ↦ absurd (ground (arith, other, neither))
  ]
]
  where
    subst_fields :
        {gs : Fields}
        → gs ≡ fs
        → Dict.lookup extends (items fs) ≡ some (str m)
        → Dict.lookup extends (items gs) ≡ some (str m)
    subst_fields same e =
        transport_along (λ hs. Dict.lookup extends (items hs) ≡ some (str m)) (sym same) e

chain_ends_example : chain 5 (dict templates) (some (say "prog-sbin")) ≢ running
unfolding Dict.lookup items text_beq
chain_ends_example =
    chain_ends templates (λ n. if n == text "prog-sbin" then 1 else 0)
      (λ n m d (fs, found, same, ext). sbin_extends n m fs found ext) 5 (some (say "prog-sbin"))
      (omega arith)

abbrev ssh_entry : Dict Text Value
ssh_entry = (text "path", say "/x") ∷ (text "!extends", say "prog-base") ∷ []

abbrev ssh_merged : Dict Text Value
ssh_merged =
    (text "path", say "/x") ∷ (text "desc", say "This is %prog%") ∷ (text "user", say "%USER%") ∷ []

abbrev sbin_entry : Dict Text Value
sbin_entry = (text "prog", say "sshd") ∷ (text "!extends", say "prog-sbin") ∷ []

merge-nearest_example :
    (m : Dict Text Value) × (merge 5 (dict templates) sbin_entry ≡ done m)
    × (Dict.lookup (text "desc") m ≡ (
        if extends == text "desc"
        then none
        else first (text "desc") (sbin_entry ∷ items prog_sbin ∷ items prog_base ∷ [])))
unfolding items Dict.lookup text_beq
merge-nearest_example =
    merge-nearest 5 templates sbin_entry (items prog_sbin ∷ items prog_base ∷ []) (text "desc")
      (
        text "prog-sbin",
        some (say "prog-base"),
        refl,
        (λ e. cc),
        (_, refl, refl, refl),
        (text "prog-base", none, refl, (λ e. cc), (_, refl, refl, refl), inl refl),
      )
      (omega arith) ((refl, (refl, tt)), ((refl, (refl, tt)), ((refl, (refl, (refl, tt))), tt)))

abbrev ssh_expanded : Value
ssh_expanded = dict (of_items ssh_merged)

ssh_expands : expand 5 (dict templates) 3 (dict (of_items ssh_entry)) ≡ done ssh_expanded
unfolding expand traverse_dict merge chain template parent overlay items of_items Dict.lookup
    Dict.insert Dict.update Dict.erase text_beq
ssh_expands = refl

expand-expand_example : expand 1 (list nil) 3 ssh_expanded ≡ done ssh_expanded
expand-expand_example =
    expand-expand 5 0 (dict templates) (list nil) 3 (dict (of_items ssh_entry)) ssh_expanded
      ssh_expands
