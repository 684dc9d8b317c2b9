-- ===== src/Scale/Requests/Lines.antt =====
-- Lines of commands, read.
use ldms_test.Base.{
  ◌≡◌, ◌≢◌, refl, sym, ap, ◌∙◌, ℕ, Text, Bool, true, false, List, [], ◌∷◌, ◌++◌, append-nil,
  append_assoc, none, some, All, text_eq, arith, nat_eq, map,
}
use ldms_test.Base.Strings.{text, join, split_once, split_once-append, Lacks}
use ldms_test.Scale.Requests.{
  Attr, attr, is_kept, end_word, words_from, words, sort_args, with_string, attributes_of,
  arguments, request,
}

-- A word is not empty and has no space.
abbrev pub IsWord : (ℕ → Bool) → Text → Type 0
IsWord is_space w = (w ≢ []) × All (λ c. is_space c ≡ false) w

module _ (is_space : ℕ → Bool) (space : is_space b' ' ≡ true) where
  words_from-word :
      (w v s : Text)
      → All (λ c. is_space c ≡ false) v
      → words_from is_space w (v ++ s) ≡ words_from is_space (w ++ v) s
  unfolding words_from
  words_from-word w [] s h = ap (λ x. words_from is_space x s) (sym (append-nil w))
  words_from-word w (c ∷ v) s h = rw h.0 (
      words_from-word (w ++ (c ∷ [])) v s h.1
      ∙ ap (λ x. words_from is_space x s) (append_assoc w (c ∷ []) v))

  end_word-word : (w : Text) (ws : List Text) → w ≢ [] → end_word w ws ≡ w ∷ ws
  unfolding end_word
  end_word-word [] ws h = absurd (h refl)
  end_word-word (c ∷ w) ws h = refl

  -- Words that are joined by a space are read back.
  words-join :
      (ws : List Text) → All (IsWord is_space) ws → words is_space (join (text " ") ws) ≡ ws
  unfolding words words_from join
  words-join [] h = unfold end_word in refl
  words-join (w ∷ []) h =
      ap (words_from is_space []) (sym (append-nil w))
      ∙ words_from-word [] w [] h.0.1
      ∙ end_word-word w [] h.0.0
  words-join (w ∷ (v ∷ ws)) h =
      words_from-word [] w (b' ' ∷ join (text " ") (v ∷ ws)) h.0.1
      ∙ rw (space, words_from)
          (end_word-word w (words_from is_space [] (join (text " ") (v ∷ ws))) h.0.0
            ∙ ap (λ x. w ∷ x) (words-join (v ∷ ws) h.1))

-- The argument of an attribute with a value.
abbrev pub argument : Text × Text → Text
argument (k, v) = k ++ (b'=' ∷ v)

abbrev pub given : List (Text × Text) → List Attr
given [] = []
given ((k, v) ∷ kvs) = attr k (some v) ∷ given kvs

sort_args-given :
    (known : Text → Bool) (verb : Text) (kvs : List (Text × Text))
    → All (λ (k, v). Lacks b'=' k × (is_kept known verb k ≡ false)) kvs
    → sort_args known verb (map argument kvs) ≡ (given kvs, [])
unfolding sort_args
sort_args-given known verb [] h = refl
sort_args-given known verb ((k, v) ∷ kvs) h =
    rw (split_once-append b'=' k v h.0.0, sort_args)
      (rw (h.0.1, sort_args)
        (rw (sort_args-given known verb kvs h.1)
          (ap (λ x. (attr (x.0) (x.1) ∷ given kvs, [])) (split_once-append b'=' k v h.0.0))))

split_once-whole : (c : ℕ) (a : Text) → Lacks c a → split_once c a ≡ (a, none)
unfolding split_once
split_once-whole c [] h = refl
split_once-whole c (d ∷ a) h = ground (arith, split_once-whole c a h.1)

-- The line of a command with arguments.
abbrev pub line : Text → List (Text × Text) → Text
line verb kvs = join (text " ") (verb ∷ map argument kvs)

module _ (is_space : ℕ → Bool) (space : is_space b' ' ≡ true) (known : Text → Bool) where
  parts_of :
      (verb : Text) (kvs : List (Text × Text))
      → Lacks b' ' verb
      → All (IsWord is_space) (map argument kvs)
      → ((split_once b' ' (line verb kvs)).0 ≡ verb)
        × (arguments is_space ((split_once b' ' (line verb kvs)).1) ≡ map argument kvs)
  unfolding join arguments
  parts_of verb [] l h = rw (split_once-whole b' ' verb l) (refl, refl)
  parts_of verb (kv ∷ kvs) l h =
      rw (split_once-append b' ' verb (join (text " ") (map argument (kv ∷ kvs))) l)
        (refl, words-join is_space space (map argument (kv ∷ kvs)) h)

  -- A line of a verb without a space and arguments NAME=VALUE without spaces, whose names have no "="
  -- and are not kept as text under this verb, is made into a request with the verb and exactly these
  -- names and values, in order.
  pub request-line :
      (verb : Text) (kvs : List (Text × Text))
      → Lacks b' ' verb
      → All (IsWord is_space) (map argument kvs)
      → All (λ (k, v). Lacks b'=' k × (is_kept known verb k ≡ false)) kvs
      → request is_space known (line verb kvs) ≡ record { verb = verb; attrs = given kvs }
  unfolding request attributes_of with_string
  request-line verb kvs l h n =
      let (p, q) = parts_of verb kvs l h in rw p (rw q (rw (sort_args-given known verb kvs n) refl))
