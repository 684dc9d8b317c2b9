-- ===== src/LdmsdConfig.antt =====
-- `get_ldmsd_config` of LDMS_Test.py: the configuration commands of an `ldmsd` from its spec.
-- `repr` stands for what `str` gives for containers and `None`; the fuel bounds the loops of the
-- class `Spec`. An empty text is taken to be the literal `""`, as CPython has one empty `str`.
pub mod Attributes
pub mod Versions
mod Examples
use ldms_test.Base.{
  ℕ, Text, Bool, true, false, not, ◌&&◌, Option, none, some, List, [], ◌∷◌, ◌++◌, ◌==◌, nat_eq,
  text_eq, ltb, leb, if◌then◌else◌, Result, ok, err, key_error, type_error, attribute_error,
}
use ldms_test.Base.{◌>>=◌ as ◌>>=ᵣ◌}
use ldms_test.Base.Dict
use ldms_test.Base.Dict.{Dict}
use ldms_test.Base.Int.{pos}
use ldms_test.Base.Strings.{text, join}
use ldms_test.Base.Outcome.{Outcome, done, raised, running, of_result, ◌>>=◌}
use ldms_test.Value.{
  Value, Items, Fields, null, bool, int, float, str, list, tuple, dict, nil, cons, items, str_of,
  is_primitive, truthy, deep_copy,
}
use ldms_test.Spec
use ldms_test.Spec.{Spec}
use ldms_test.Spec.Subst.{subst_str}

-- `(major, minor, patch)`
pub record Version : Type 0 where
  pub major : ℕ
  pub minor : ℕ
  pub patch : ℕ

-- `ver and ver >= (4,100,0)`
unfoldable pub is_new : Option Version → Bool
is_new none = false
is_new (some v) = if ltb 4 v.major then true else if v.major == 4 then leb 100 v.minor else false

item_values : Items → List Value
item_values nil = []
item_values (cons v xs) = v ∷ item_values xs

-- `iter(v)`
pub elements : Value → Result (List Value)
elements (list xs) = ok (item_values xs)
elements (tuple xs) = ok (item_values xs)
elements (dict fs) = ok (names (items fs))
  where
    names : Dict Text Value → List Value
    names [] = []
    names ((k, v) ∷ d) = str k ∷ names d
elements (str s) = ok (characters s)
  where
    characters : Text → List Value
    characters [] = []
    characters (c ∷ t) = str (c ∷ []) ∷ characters t
elements _ = err type_error

-- `[ f(v) for v in vs ]`, and the texts joined
concat_map : (Value → Outcome Text) → List Value → Outcome Text
concat_map f [] = done []
concat_map f (v ∷ vs) = do t ← f v; ts ← concat_map f vs; done (t ++ ts)

-- `for v in spec.get(key, []): sio.write(f(v))`
section : Text → (Value → Outcome Text) → Dict Text Value → Outcome Text
unfolding elements concat_map item_values
section key f d = elim (Dict.lookup key d) [
  | none ↦ done []
  | some v ↦ do vs ← of_result (elements v); concat_map f vs
]

-- `d[key]`
unfoldable pub item : Text → Dict Text Value → Result Value
item key d = elim (Dict.lookup key d) [ none ↦ err key_error | some v ↦ ok v ]

-- `d.get(key, default)`
unfoldable pub get_or : Value → Text → Dict Text Value → Value
get_or default key d = elim (Dict.lookup key d) [ none ↦ default | some v ↦ v ]

unfoldable pub is_text : Text → Value → Bool
is_text s (str t) = s == t
is_text s _ = false

-- The texts in a list, for `" ".join(...)` and `sio.write`.
texts : List Value → Result (List Text)
texts [] = ok []
texts (str s ∷ vs) = texts vs >>=ᵣ λ ss. ok (s ∷ ss)
texts (v ∷ vs) = err type_error

each_line : List Text → Text
each_line [] = []
each_line (s ∷ ss) = s ++ (text "\n" ++ each_line ss)

module _ (repr : Value → Text) where
  -- `str(v)`
  unfoldable pub shown : Value → Text
  shown v = if is_primitive v then str_of v else repr v

  -- `"".join([" {}={}".format(k, v) for k, v in d.items()])`
  unfoldable pub attributes : Dict Text Value → Text
  unfolding shown
  attributes [] = []
  attributes ((k, v) ∷ d) = b' ' ∷ (k ++ (b'=' ∷ (shown v ++ attributes d)))

  -- `name={d.pop("name")}` behind a command, and the other items
  unfoldable pub named_line : Text → Dict Text Value → Result Text
  unfolding item attributes
  named_line command d = item (text "name") d >>=ᵣ λ name. ok (
      command
      ++ (text " name=" ++ (shown name ++ (attributes (Dict.erase (text "name") d) ++ text "\n"))))

  auth_line : Value → Result Text
  unfolding named_line
  auth_line (dict fs) = named_line (text "auth_add") (items fs)
  auth_line (list xs) = err type_error
  auth_line _ = err attribute_error

  listen_line : Value → Result Text
  unfolding attributes
  listen_line (dict fs) = ok (text "listen " ++ (attributes (items fs) ++ text "\n"))
  listen_line _ = err attribute_error

  -- `advertiser_add`, `prdcr_add`: the entry is copied deeply first
  copied_line : Text → Value → Result Text
  unfolding named_line
  copied_line command v = deep_copy v >>=ᵣ line
    where
      line : Value → Result Text
      line (dict fs) = named_line command (items fs)
      line (list xs) = err type_error
      line _ = err attribute_error

  -- `prdcr_listen_add`: the name is read and not popped
  unfoldable pub prdcr_listen_line : Value → Result Text
  unfolding item attributes
  prdcr_listen_line v = deep_copy v >>=ᵣ line
    where
      line : Value → Result Text
      line (dict fs) = item (text "name") (items fs) >>=ᵣ λ name.
          ok (text "prdcr_listen_add name=" ++ (shown name ++ (attributes (items fs) ++ text "\n")))
      line _ = err type_error

  -- `"{key}={v}"`, unless the value is the empty text
  option : Text → Value → Text
  unfolding shown is_text
  option key v = if is_text [] v then [] else key ++ (b'=' ∷ shown v)

  -- The template of a sampler, filled in.
  sampler_text : Bool → (plugin config interval offset xthread : Text) → Bool → Text
  sampler_text new plugin config interval offset xthread start =
      text "load name="
      ++ (plugin
          ++ (text "\nconfig name="
              ++ (plugin
                  ++ (b' '
                      ∷ (config
                          ++ (if new
                              then text "\n"
                                ++ (if start
                                    then text "smplr_add name="
                                      ++ (plugin
                                          ++ (text "_smplr instance="
                                              ++ (plugin
                                                  ++ (text "           "
                                                      ++ (interval
                                                          ++ (b' '
                                                            ∷ (offset
                                                            ++ (text "\nsmplr_start name="
                                                            ++ (plugin ++ text "_smplr\n")))))))))
                                    else [])
                              else b' '
                                ∷ (xthread
                                    ++ (text "\n"
                                        ++ (if start
                                            then text "start name="
                                              ++ (plugin
                                                  ++ (b' '
                                                      ∷ (interval
                                                          ++ (b' ' ∷ (offset ++ text "\n")))))
                                            else [])))))))))

  -- The same, once the items are read; the two that have no default may be missing.
  sampler_of :
      Bool → Result Value → Result Value → (interval offset xthread start : Value) → Result Text
  unfolding option texts elements item_values sampler_text shown
  sampler_of new plugin config interval offset xthread start = plugin >>=ᵣ λ p. config >>=ᵣ λ c.
      elements c >>=ᵣ λ vs. texts vs >>=ᵣ λ words. ok (
        sampler_text new (shown p) (join (text " ") words) (option (text "interval") interval)
          (option (text "offset") offset) (option (text "exclusive_thread") xthread) (truthy start))

  -- `new` is the test of the version.
  unfoldable pub sampler : Bool → Value → Result Text
  unfolding item get_or sampler_of
  sampler new (dict fs) =
      let d = items fs in
      sampler_of new (item (text "plugin") d) (item (text "config") d)
        (get_or (int (pos 2000000)) (text "interval") d) (get_or (str []) (text "offset") d)
        (get_or (str []) (text "exclusive_thread") d) (get_or null (text "start") d)
  sampler new _ = err type_error

  sampler_block : ℕ → Bool → Spec → Value → Outcome Text
  unfolding sampler
  sampler_block fuel new spec v = do t ← of_result (sampler new v); subst_str fuel spec.vars t

  -- `quota`, the first command
  quota_line : Dict Text Value → Text
  unfolding get_or shown
  quota_line d =
      let q = get_or null (text "quota") d in
      if truthy q then text "default_quota quota=" ++ (shown q ++ text "\n") else []

  -- `config`, the last commands
  config_lines : Dict Text Value → Result Text
  unfolding get_or texts elements item_values each_line
  config_lines d =
      let cfg = get_or null (text "config") d in
      if truthy cfg then elements cfg >>=ᵣ (λ vs. texts vs >>=ᵣ λ ss. ok (each_line ss)) else ok []

  -- The function behind `spec = Spec(_spec)`.
  unfoldable pub commands : ℕ → Bool → Spec → Outcome Text
  unfolding section quota_line auth_line listen_line sampler_block copied_line prdcr_listen_line
      config_lines
  commands fuel new spec = do
    let d = spec.entries
    auths ← section (text "auth") (λ v. of_result (auth_line v)) d
    listens ← section (text "listen") (λ v. of_result (listen_line v)) d
    samplers ← section (text "samplers") (sampler_block fuel new spec) d
    ads ← section (text "advertisers") (λ v. of_result (copied_line (text "advertiser_add") v)) d
    pls ← section (text "prdcr_listen") (λ v. of_result (prdcr_listen_line v)) d
    prdcrs ← section (text "prdcrs") (λ v. of_result (copied_line (text "prdcr_add") v)) d
    config ← of_result (config_lines d)
    done
        (quota_line d ++ (auths ++ (listens ++ (samplers ++ (ads ++ (pls ++ (prdcrs ++ config)))))))

  unfoldable pub get_ldmsd_config : ℕ → Fields → Option Version → Outcome Text
  get_ldmsd_config fuel fs ver = do spec ← Spec.init fuel fs; commands fuel (is_new ver) spec
