-- ===== src/LdmsLs.antt =====
-- `parse_ldms_ls` of LDMS_Test.py: the output of `ldms_ls -l [-v]` as a dict of sets.
-- Matching a line against `_LS_RE` is an argument: what the code uses of it is which of the
-- pattern's alternatives matched, and that alternative's groups. So are the built-in conversions
-- of numbers. Debug copies in `D` are left out.
pub mod Printed
pub mod Listing
pub mod Sections
mod Examples
use ldms_test.Base.{
  ℕ, Text, Bool, true, false, Option, none, some, List, [], ◌∷◌, ◌++◌, ◌==◌, ◌||◌, text_eq,
  if◌then◌else◌, contains, map, Result, ok, err, ◌>>=◌, key_error, type_error, name_error,
  runtime_error,
}
use ldms_test.Base.Dict
use ldms_test.Base.Dict.{Dict}
use ldms_test.Base.Strings.{text, split, split_once, strip}
use ldms_test.Base.Int.{ℤ}

-- The groups of `_META_DATA`.
pub record Meta : Type 0 where
  pub schema_digest : Option Text
  pub schema : Text
  pub instance_ : Text
  pub flags : Text
  pub meta_sz : Text
  pub data_sz : Text
  pub heap_sz : Text
  pub uid : Text
  pub gid : Text
  pub perm : Text
  pub update_ : Text
  pub duration : Text
  pub info : Option Text

-- A line, stripped: empty, matched by an alternative of `_LS_RE`, or by none.
pub data Line : Type 0 where
  blank bad meta_begin meta_dashes meta_summary meta_end : Line
  pre_meta : Line
  meta_data : Meta → Line
  -- set name, time stamp
  set_header : Text → Text → Line
  -- type, metric name, metric value
  metric : Text → Text → Text → Line

-- The values of the table `_TYPE_FN`; a float is kept as its text.
pub data Metric : Type 0 where
  chars : Text → Metric
  int : ℤ → Metric
  float : Text → Metric
  ints : List ℤ → Metric
  floats : List Text → Metric

pub record Set : Type 0 where
  pub name : Text
  pub ts : Option Text
  pub meta : Option Meta
  pub metrics : Option (Dict Text Metric)
  pub types : Option (Dict Text Text)

pub data Section : Type 0 where
  in_pre_meta in_meta in_data : Section

-- The local variable `data`: not assigned yet, `None`, or the dict of the set named last.
pub data Target : Type 0 where
  unbound closed : Target
  open_set : Text → Target

pub record State : Type 0 where
  pub ret : Dict Text Set
  pub section : Section
  pub target : Target

abbrev pub initial : State
initial = record { ret = []; section = in_pre_meta; target = unbound }

abbrev pub new_set : Text → Set
new_set name = record { name = name; ts = none; meta = none; metrics = none; types = none }

-- `ret.setdefault(name, dict())` with the key "name"
unfoldable pub set_default : Text → Dict Text Set → Set
set_default name ret = elim (Dict.lookup name ret) [
  | none ↦ new_set name
  | some s ↦ record s { name = name }
]

int_types : List Text
int_types =
    text "u8"
    ∷ text "s8"
    ∷ text "u16"
    ∷ text "s16"
    ∷ text "u32"
    ∷ text "s32"
    ∷ text "u64"
    ∷ text "s64"
    ∷ []

int_array_types : List Text
int_array_types =
    text "u8[]"
    ∷ text "s8[]"
    ∷ text "u16[]"
    ∷ text "s16[]"
    ∷ text "u32[]"
    ∷ text "s32[]"
    ∷ text "u64[]"
    ∷ text "s64[]"
    ∷ []

convert_all : {A : Type 0} → (Text → Result A) → List Text → Result (List A)
convert_all f [] = ok []
convert_all f (s ∷ ss) = do a ← f s; as_ ← convert_all f ss; ok (a ∷ as_)

-- the apostrophe
abbrev quote : ℕ
quote = 39

-- `data[mname] = v; data_type[mname] = mtype`, in the dicts of the set
write : {A : Type 0} → Text → A → Option (Dict Text A) → Option (Dict Text A)
write k a none = none
write k a (some d) = some (Dict.insert k a d)

unfoldable pub write_metric : Text → Text → Metric → Set → Set
unfolding write
write_metric mname mtype v s = record s {
  metrics = write mname v s.metrics;
  types = write mname mtype s.types;
}

-- the value of a metric without its unit
unfoldable pub metric_text : Text → Text → Text
metric_text mtype val = if mtype == text "char[]" then val else (split_once b' ' val).0

store_metric : Text → Text → Metric → State → Result State
unfolding write_metric
store_metric mname mtype v st = elim st.target [
  | unbound ↦ err name_error
  | closed ↦ err type_error
  | open_set name ↦ ok (record st {
    ret = Dict.insert name (write_metric mname mtype v (set_default name st.ret)) st.ret;
  })
]

-- The lines that are legal in the meta section only.
in_meta_only : State → State → Result State
in_meta_only st next = elim st.section [ in_meta ↦ ok next | _ ↦ err runtime_error ]

module _ (int0 : Text → Result ℤ) (to_float : Text → Result Text) where
  -- `_TYPE_FN[mtype](_val)`
  unfoldable pub type_fn : Text → Text → Result Metric
  unfolding int_types int_array_types convert_all
  type_fn mtype val =
      if mtype == text "char"
      then ok (chars (strip quote val))
      else if mtype == text "char[]"
      then ok (chars (strip b'"' val))
      else if contains mtype int_types
      then (do z ← int0 val; ok (int z))
      else if mtype == text "f32" || mtype == text "d64"
      then (do x ← to_float val; ok (float x))
      else if contains mtype int_array_types
      then (do zs ← convert_all int0 (split b',' val); ok (ints zs))
      else if mtype == text "f32[]" || mtype == text "d64[]"
      then (do xs ← convert_all to_float (split b',' val); ok (floats xs))
      else err key_error

  -- The body of the loop.
  unfoldable pub step : State → Line → Result State
  unfolding store_metric in_meta_only
  step st blank = ok (record st { target = closed })
  step st bad = err runtime_error
  step st meta_begin = elim st.section [
    | in_pre_meta ↦ ok (record st { section = in_meta })
    | _ ↦ err runtime_error
  ]
  step st (meta_data m) =
      let s = set_default m.instance_ st.ret in
      in_meta_only st
        (record st { ret = Dict.insert m.instance_ (record s { meta = some m }) st.ret })
  step st meta_summary = in_meta_only st st
  step st meta_dashes = in_meta_only st st
  step st meta_end = in_meta_only st (record st { section = in_data })
  step st (set_header name ts) =
      let s = set_default name st.ret in
      let next : State = record {
        ret =
            Dict.insert name (record s { ts = some ts; metrics = some []; types = some [] }) st.ret;
        section = in_data;
        target = open_set name;
      } in
      elim st.section [ in_meta ↦ err runtime_error | _ ↦ ok next ]
  step st (metric mtype mname val) = elim st.section [
    | in_data ↦ do v ← type_fn mtype (metric_text mtype val); store_metric mname mtype v st
    | _ ↦ err runtime_error
  ]
  step st pre_meta = elim st.section [ in_pre_meta ↦ ok st | _ ↦ err runtime_error ]

  unfoldable pub run : State → List Line → Result State
  run st [] = ok st
  run st (l ∷ ls) = do st' ← step st l; run st' ls

  -- `parse_ldms_ls`, from the lines of the text on
  unfoldable pub parse_ldms_ls : (Text → Line) → List Text → Result (Dict Text Set)
  parse_ldms_ls classify lines = do st ← run initial (map classify lines); ok st.ret
