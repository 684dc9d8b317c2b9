-- ===== src/LdmsdConfig/Attributes.antt =====
-- The commands that `get_ldmsd_config` writes for named entries, read back as `ldmsd` reads them:
-- words between spaces, each an attribute and its value around the first "=".
use ldms_test.Base.{
  ℕ, ◌≡◌, refl, ap, ◌∙◌, Text, Option, none, some, List, [], ◌∷◌, ◌++◌, ◌==◌, nat_eq, text_eq, map,
  All, append_assoc, append-nil, ok, err, arith, Bool-cases, Option-cases, ◌⊎◌, key_error, sym,
  subst, inl, inr,
}
use ldms_test.Base.Dict
use ldms_test.Base.Dict.{Dict}
use ldms_test.Base.Strings.{
  text, split, split-cons, split_one, split_once, split_once-append, Lacks, Lacks-of_lacks,
}
use ldms_test.Value.{Value, Fields, dict, items}
use ldms_test.Value.Laws.{Supported, deep_copy-Supported}
use ldms_test.LdmsdConfig.{item, shown, attributes, named_line, prdcr_listen_line}

split_once-none : (c : ℕ) (a : Text) → Lacks c a → split_once c a ≡ (a, none)
unfolding split_once
split_once-none c [] h = refl
split_once-none c (d ∷ a) h = ground (arith, split_once-none c a h.1)

Lacks-append : (c : ℕ) (a b : Text) → Lacks c a → Lacks c b → Lacks c (a ++ b)
Lacks-append c [] b h k = k
Lacks-append c (d ∷ a) b h k = (h.0, Lacks-append c a b h.1 k)

-- A command line without its newline, as words.
pub read_line : Text → List (Text × Option Text)
read_line s = map (split_once b'=') (split b' ' s)

item_found :
    (k : Text) (d : Dict Text Value) (v : Value) → Dict.lookup k d ≡ some v → item k d ≡ ok v
unfolding item
item_found k d v e = ground (arith, e)

item_absent : (k : Text) (d : Dict Text Value) → Dict.lookup k d ≡ none → item k d ≡ err key_error
unfolding item
item_absent k d e = ground (arith, e)

module _ (repr : Value → Text) where
  -- No space stands in a key or a printed value, and no "=" in a key.
  abbrev pub IsClean : Dict Text Value → Type 0
  IsClean = All (λ (k, v). Lacks b' ' k × Lacks b'=' k × Lacks b' ' (shown repr v))

  abbrev pub given : Dict Text Value → List (Text × Option Text)
  given = map (λ (k, v). (k, some (shown repr v)))

  IsClean-erase : (k : Text) (d : Dict Text Value) → IsClean d → IsClean (Dict.erase k d)
  unfolding Dict.erase
  IsClean-erase k [] h = tt
  IsClean-erase k ((j, v) ∷ d) h = elim (Bool-cases (j == k)) [
    | inl same ↦ rw same (IsClean-erase k d h.1)
    | inr other ↦ rw other (h.0, IsClean-erase k d h.1)
  ]

  read_line-attributes :
      (w : Text) (d : Dict Text Value)
      → Lacks b' ' w
      → IsClean d
      → read_line (w ++ attributes repr d) ≡ split_once b'=' w ∷ given d
  unfolding read_line attributes
  read_line-attributes w [] hw h = rw append-nil (rw (split_one b' ' w hw) refl)
  read_line-attributes w ((k, v) ∷ d) hw h =
      let word = k ++ (b'=' ∷ shown repr v) in
      let spaceless = Lacks-append b' ' k (b'=' ∷ shown repr v) (h.0).0 (refl, (h.0).2) in
      ap (map (split_once b'=')) (split-cons b' ' w _ hw)
      ∙ ap (λ s. split_once b'=' w ∷ read_line s)
          (sym (append_assoc k (b'=' ∷ shown repr v) (attributes repr d)))
      ∙ ap (λ ws. split_once b'=' w ∷ ws)
          (read_line-attributes word d spaceless h.1
            ∙ ap (λ p. p ∷ given d) (split_once-append b'=' k (shown repr v) (h.0).1))

  IsClean-lookup :
      (k : Text) (v : Value) (d : Dict Text Value)
      → IsClean d
      → Dict.lookup k d ≡ some v
      → Lacks b' ' (shown repr v)
  unfolding Dict.lookup
  IsClean-lookup k v [] h e = absurd (cc)
  IsClean-lookup k v ((j, w) ∷ d) h e = elim (Bool-cases (j == k)) [
    | inl same ↦
        let at : w ≡ v = ground (arith, same, e) in
        subst (λ x. Lacks b' ' (shown repr x)) at (h.0).2
    | inr other ↦ IsClean-lookup k v d h.1 (ground (arith, other, e))
  ]

  -- The words of a command with its name and attributes.
  read_line-name :
      (command : Text) (name : Value) (d : Dict Text Value)
      → Lacks b' ' command
      → Lacks b'=' command
      → Lacks b' ' (shown repr name)
      → IsClean d
      → read_line (command ++ (text " name=" ++ (shown repr name ++ attributes repr d)))
        ≡ (command, none) ∷ ((text "name", some (shown repr name)) ∷ given d)
  unfolding attributes
  read_line-name command name d hc he hn h =
      read_line-attributes command ((text "name", name) ∷ d) hc
        ((((refl, (refl, (refl, (refl, tt))))), ((refl, (refl, (refl, (refl, tt))))), hn), h)
      ∙ ap (λ p. p ∷ ((text "name", some (shown repr name)) ∷ given d))
          (split_once-none b'=' command he)

  append-newline :
      (command name rest : Text)
      → command ++ (text " name=" ++ (name ++ (rest ++ text "\n")))
        ≡ (command ++ (text " name=" ++ (name ++ rest))) ++ text "\n"
  append-newline command name rest =
      ap (λ s. command ++ (text " name=" ++ s)) (sym (append_assoc name rest (text "\n")))
      ∙ sym (append_assoc command (text " name=" ++ (name ++ rest)) (text "\n"))

  -- From a supported dict with a name, whose keys and printed values have no space and whose keys
  -- have no "=", the `prdcr_listen_add` command reads back as its name and then all items of the
  -- dict, the name among them once more.
  pub prdcr_listen_line-read :
      (fs : Fields) (name : Value)
      → IsClean (items fs)
      → Dict.lookup (text "name") (items fs) ≡ some name
      → Supported (dict fs)
      → (s : Text) × (prdcr_listen_line repr (dict fs) ≡ ok (s ++ text "\n"))
        × (read_line s
            ≡ (text "prdcr_listen_add", none)
              ∷ ((text "name", some (shown repr name)) ∷ given (items fs)))
  unfolding prdcr_listen_line
  prdcr_listen_line-read fs name h found supported = (
    text "prdcr_listen_add" ++ (text " name=" ++ (shown repr name ++ attributes repr (items fs))),
    rw (deep_copy-Supported (dict fs) supported) (
        rw (item_found (text "name") (items fs) name found) (
          ap ok (
            append-newline (text "prdcr_listen_add") (shown repr name)
              (attributes repr (items fs))))),
    read_line-name (text "prdcr_listen_add") name (items fs)
        (Lacks-of_lacks b' ' (text "prdcr_listen_add") refl)
        (Lacks-of_lacks b'=' (text "prdcr_listen_add") refl)
        (IsClean-lookup (text "name") name (items fs) h found) h,
  )

  -- From a dict with a name, whose keys and printed values have no space and whose keys have no
  -- "=", the command line reads back as the command, the name, and every other item once, in the
  -- order of the dict; from a dict without a name `KeyError` is raised.
  pub named_line-read :
      (command : Text) (d : Dict Text Value)
      → Lacks b' ' command
      → Lacks b'=' command
      → IsClean d
      → ((name : Value) × (s : Text) × (Dict.lookup (text "name") d ≡ some name)
          × (named_line repr command d ≡ ok (s ++ text "\n"))
          × (read_line s
              ≡ (command, none)
                ∷ ((text "name", some (shown repr name)) ∷ given (Dict.erase (text "name") d))))
        ⊎ ((Dict.lookup (text "name") d ≡ none) × (named_line repr command d ≡ err key_error))
  unfolding named_line
  named_line-read command d hc he h = elim (Option-cases (Dict.lookup (text "name") d)) [
    | inl absent ↦ inr (absent, rw (item_absent (text "name") d absent) refl)
    | inr (name, found) ↦
        let others = Dict.erase (text "name") d in
        inl (
          name,
          command ++ (text " name=" ++ (shown repr name ++ attributes repr others)),
          found,
          rw (item_found (text "name") d name found)
              (ap ok (append-newline command (shown repr name) (attributes repr others))),
          read_line-name command name others hc he (IsClean-lookup (text "name") name d h found)
              (IsClean-erase (text "name") d h),
        )
  ]
